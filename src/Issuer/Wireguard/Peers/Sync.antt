-- ===== src/Issuer/Wireguard/Peers/Sync.antt =====
-- After `sync` the kernel has the peers that the accounts ask for, and no others.
use mathlib.Core.Option.{some-injective, none-ne-some}
use mathlib.Core.Path.{subst₂}
use evgenium_network_linux.Prelude.{
  string_eq, List, Option, String, ap, ok, some, ◌≡◌, ◌≢◌, >>=-eq-ok, All, Dict, [], arith, lift,
  sym, values, ◌∙◌, ◌∷◌, All-mono, Bool-cases, eq_iff, get, inl, inr, ◌==◌, false, has,
  if◌then◌else◌, none, Option-cases, contains, err, refl, words, subst, ℕ,
}
use evgenium_network_linux.Issuer.Model.{Device, Accounts}
use evgenium_network_linux.Issuer.Host.{Host, World, exited}
use evgenium_network_linux.Issuer.Wireguard.Peers.{
  address_of, apply_peer, key_of, apply_all, command, config, set_peer, remove_unless_wanted,
  unset_peer, Wanted, remove_unknown, show_peers, gather, owned_devices, sync,
}
use evgenium_network_linux.Issuer.Wireguard.Key.{public_key}
use evgenium_network_linux.Issuer.Wireguard.Key.RoundTrip.{public_key-eq-ok}
use evgenium_network_linux.Issuer.Wireguard.Peers.Gather.{
  IsConsistent, gather-IsSound, gather-get, peer_of,
}
use evgenium_network_linux.Issuer.Wireguard.Peers.Laws.{Wg}
use evgenium_network_linux.Issuer.Wireguard.Peers.Runs.{
  lift_keeps, apply_peer-eq-ok, ok-injective, run_or-eq-ok,
}

-- what the accounts ask the kernel to have, for the record of a key
abbrev pub asked : Option Device → Option String
asked none = none
asked (some d) = elim (address_of d) [ ok a ↦ some a | err e ↦ none ]

consistent_address :
    (wanted : Dict String Device) (k : String) (d : Device)
    → IsConsistent wanted
    → get k wanted ≡ some d
    → (a : String) × (address_of d ≡ ok a)
consistent_address [] k d c e = absurd (cc)
consistent_address ((i, q) ∷ rest) k d c e = elim (Bool-cases (k == i)) [
  | inl same ↦
      (c.1.0, subst (λ r. address_of r ≡ ok c.1.0) (some-injective q d (rw same at e)) c.1.1)
  | inr other ↦ consistent_address rest k d c.2 (rw other at e)
]

other_addresses :
    (wanted : Dict String Device) (k : String)
    → get k wanted ≡ none
    → All (λ (e : String × Device). k ≢ e.0) wanted
other_addresses [] k e = tt
other_addresses ((i, q) ∷ rest) k e = elim (Bool-cases (k == i)) [
  | inl same ↦ absurd (ground arith)
  | inr other ↦ (λ p. cc (other, (eq_iff k i).1 p), other_addresses rest k (rw other at e))
]

addresses_lem :
    {P : String × Device → Type 0} (wanted : Dict String Device)
    → ((e : String × Device) → P e)
    → All P wanted
addresses_lem [] f = tt
addresses_lem (e ∷ rest) f = (f e, addresses_lem rest f)

module _ {E : Type 0} (host : Host E) where
  module _ (wg : Wg host) where
    abbrev view : World E → String → Option String
    view w = wg.peers w.env

    -- one call of `apply_peer` for the entry of the key `k`
    apply_peer_lem :
        (d : Device) (k a : String) (w w' : World E)
        → key_of d ≡ ok k
        → address_of d ≡ ok a
        → apply_peer host d w ≡ (ok tt, w')
        → (view w' k ≡ some a) × ((j : String) → j ≢ k → view w j ≢ some a → view w' j ≡ view w j)
    apply_peer_lem d k a w w' ek ea h =
        let (i, k', a', out, ek', ea', ran) = apply_peer-eq-ok host d w w' h in
        let same_key : k' ≡ k = cc in
        let same_address : a' ≡ a = cc in
        let ran' : host.exec (set_peer i k a) "" w.env ≡ (exited 0 out, w'.env) =
          subst₂ (λ x y. host.exec (set_peer i x y) "" w.env ≡ (exited 0 out, w'.env)) same_key
            same_address ran in
        (
          wg.set_self i k a out w.env w'.env ran',
          λ j ne held. wg.set_other i k a out j w.env w'.env ran' ne held,
        )

    -- A peer that no entry names, and whose address no entry has, is left as it is.
    apply_all_keeps :
        (entries : Dict String Device) (w w' : World E) (j : String)
        → IsConsistent entries
        → All (λ (e : String × Device). j ≢ e.0) entries
        → All
            (λ (e : String × Device). (a : String) → address_of e.1 ≡ ok a → view w j ≢ some a)
            entries
        → apply_all host (values entries) w ≡ (ok tt, w')
        → view w' j ≡ view w j
    unfolding apply_all
    apply_all_keeps [] w w' j c ne free h = ap (λ (t : World E). view t j) (sym (ap (λ p. p.1) h))
    apply_all_keeps ((k, d) ∷ rest) w w' j c ne free h =
        let (u, w1, e1, r1) =
          >>=-eq-ok (apply_peer host d) (λ _. apply_all host (values rest)) w w' tt h in
        let step = apply_peer_lem d k c.1.0 w w1 c.0 c.1.1 e1 in
        let same : view w1 j ≡ view w j = step.1 j ne.0 (free.0 c.1.0 c.1.1) in
        apply_all_keeps rest w1 w' j c.2 ne.1
          (All-mono _ _ rest (λ e f a ea held. f a ea (sym same ∙ held)) free.1) r1
        ∙ same

    -- The peer of an entry ends with the entry's address.
    apply_all_sets :
        (entries : Dict String Device) (w w' : World E) (k a : String) (d : Device)
        → IsConsistent entries
        → get k entries ≡ some d
        → address_of d ≡ ok a
        → apply_all host (values entries) w ≡ (ok tt, w')
        → view w' k ≡ some a
    unfolding apply_all
    apply_all_sets [] w w' k a d c g ea h = absurd (cc)
    apply_all_sets ((i, q) ∷ rest) w w' k a d c g ea h =
        let (u, w1, e1, r1) =
          >>=-eq-ok (apply_peer host q) (λ _. apply_all host (values rest)) w w' tt h in
        elim (Bool-cases (k == i)) [
          | inr other ↦ apply_all_sets rest w1 w' k a d c.2 (rw other at g) ea r1
          | inl same ↦
              let same_key : k ≡ i = (eq_iff k i).0 same in
              let same_record : q ≡ d = some-injective q d (rw same at g) in
              let same_address : c.1.0 ≡ a =
                ok-injective _ _ (sym c.1.1 ∙ ap address_of same_record ∙ ea) in
              let step = apply_peer_lem q i c.1.0 w w1 c.0 c.1.1 e1 in
              let held : view w1 k ≡ some a =
                ap (wg.peers w1.env) same_key ∙ step.0 ∙ ap some same_address in
              apply_all_keeps rest w1 w' k c.2
                (All-mono _ _ rest (λ e f p. f.0 (sym same_key ∙ p)) c.1.2)
                (All-mono _ _ rest
                  (λ e f b eb p. f.1 (
                    eb
                    ∙ ap ok (some-injective b c.1.0 (sym p ∙ held ∙ ap some (sym same_address)))))
                  c.1.2)
                r1
              ∙ held
        ]

    remove_unless_wanted_lem :
        (i key j : String) (wanted : Dict String Device) (w w' : World E)
        → remove_unless_wanted host i wanted key w ≡ (ok tt, w')
        → has j wanted ≡ false
        → view w' j ≡ (if j == key then none else view w j)
    unfolding remove_unless_wanted
    remove_unless_wanted_lem i key j wanted w w' h unknown = elim (Bool-cases (has key wanted)) [
      | inl known ↦
          let same : w ≡ w' = ap (λ p. p.1) (rw known at h) in
          let other : (j == key) ≡ false = ground (arith, eq_iff j key) in
          rw other (ap (λ (t : World E). view t j) (sym same))
      | inr gone ↦
          let h' = rw gone at h in
          let (k, t, e1, r1) = >>=-eq-ok (lift (public_key (some key))) _ w w' tt h' in
          let (out, t', e2, r2) = >>=-eq-ok (command host (unset_peer i k)) _ t w' tt r1 in
          let p = lift_keeps host (public_key (some key)) w t k e1 in
          let same_key : key ≡ k = some-injective key k (public_key-eq-ok (some key) k p.0) in
          let ran = run_or-eq-ok host "wireguard_unavailable" (unset_peer i k) t t' out e2 in
          let removed = wg.unset i k out j t.env t'.env ran in
          let start : view t j ≡ view w j = ap (λ (u : World E). view u j) p.1 in
          let end : view w' j ≡ view t' j =
            ap (λ (u : World E). view u j) (sym (ap (λ p. p.1) r2)) in
          rw same_key (end ∙ removed ∙ ap (λ x. if j == k then none else x) start)
    ]

    -- Afterwards no peer is left that is not wanted.
    remove_unknown_lem :
        (i j : String) (wanted : Dict String Device) (keys_ : List String) (w w' : World E)
        → remove_unknown host i wanted keys_ w ≡ (ok tt, w')
        → has j wanted ≡ false
        → (contains keys_ j ≡ false → view w j ≡ none)
        → view w' j ≡ none
    unfolding remove_unknown
    remove_unknown_lem i j wanted [] w w' h unknown listed =
        ap (λ (u : World E). view u j) (sym (ap (λ p. p.1) h)) ∙ listed refl
    remove_unknown_lem i j wanted (key ∷ others) w w' h unknown listed =
        let (u, w1, e1, r1) =
          >>=-eq-ok (remove_unless_wanted host i wanted key)
            (λ _. remove_unknown host i wanted others) w w' tt h in
        let step = remove_unless_wanted_lem i key j wanted w w1 e1 unknown in
        remove_unknown_lem i j wanted others w1 w' r1 unknown (λ rest.
          step ∙ (elim (Bool-cases (j == key)) [
            | inl same ↦ rw same
            | inr other ↦ rw other (listed (rw (other, rest)))
          ]))

    sync_final :
        (i k out : String) (st : Wanted) (w t u w' : World E)
        → IsConsistent st.0
        → host.exec (show_peers i) "" w.env ≡ (exited 0 out, t.env)
        → remove_unknown host i st.0 (words out) t ≡ (ok tt, u)
        → apply_all host (values st.0) u ≡ (ok tt, w')
        → view w' k ≡ asked (get k st.0)
    sync_final i k out st w t u w' c shown removed applied = elim (Option-cases (get k st.0)) [
      | inr (d, e) ↦
          let (a, ea) = consistent_address st.0 k d c e in
          rw e (rw (ea, asked) (apply_all_sets st.0 u w' k a d c e ea applied))
      | inl e ↦
          let gone : view u k ≡ none =
            remove_unknown_lem i k st.0 (words out) t u removed (rw (e, has)) (λ rest.
              wg.show_same i out k w.env t.env shown
              ∙ wg.show_all i out k w.env t.env shown rest) in
          rw e (
            apply_all_keeps st.0 u w' k c (other_addresses st.0 k e)
              (addresses_lem st.0 (λ q a ea held. none-ne-some a (sym gone ∙ held))) applied
            ∙ gone)
    ]

    -- When `sync` returns, under documented behaviour of the `wg` command, the kernel has exactly
    -- the peers that the accounts ask for: for each key the enabled WireGuard record of a live
    -- account that has it, with that record's address, and no peer under any other key.
    pub sync-peers :
        (data_ : Accounts) (w w' : World E) (n : ℕ) (k : String)
        → sync host data_ w ≡ (ok n, w')
        → wg.peers w'.env k ≡ asked (peer_of k (owned_devices data_))
    unfolding sync
    sync-peers data_ w w' n k h =
        let (cfg, t1, e1, r1) = >>=-eq-ok (config host) _ w w' n h in
        let (st, t2, e2, r2) =
          >>=-eq-ok (lift (gather (owned_devices data_) ([], []))) _ t1 w' n r1 in
        let (out, t3, e3, r3) = >>=-eq-ok (command host (show_peers cfg.interface)) _ t2 w' n r2 in
        let (x, t4, e4, r4) =
          >>=-eq-ok (remove_unknown host cfg.interface st.0 (words out)) _ t3 w' n r3 in
        let (y, t5, e5, r5) = >>=-eq-ok (apply_all host (values st.0)) _ t4 w' n r4 in
        let gathered = (lift_keeps host (gather (owned_devices data_) ([], [])) t1 t2 st e2).0 in
        let sound = gather-IsSound (owned_devices data_) ([], []) st gathered (tt, tt) in
        let shown =
          run_or-eq-ok host "wireguard_unavailable" (show_peers cfg.interface) t2 t3 out e3 in
        let end : t5 ≡ w' = ap (λ p. p.1) r5 in
        ap (λ (v : World E). view v k) (sym end)
        ∙ sync_final cfg.interface k out st t2 t3 t4 t5 sound.1 shown e4 e5
        ∙ ap asked (gather-get (owned_devices data_) ([], []) st k gathered)
