-- ===== src/Issuer/Wireguard/Connections/Listed.antt =====
-- What `connections` of server/wireguard_backend.py answers.
use evgenium_network_linux.Prelude.{
  nat_eq, string_eq, Dict, List, Result, String, [], err, false, ok, some, words, ℕ, ◌∷◌, true, All,
  Bool-cases, refl, ◌≡◌, ◌≤◌, ◌+◌, >>=-eq-ok, pure_inj, sym, ◌∙◌, subst, inl, inr, ap, arith,
  continue-eq-ok, err-ne-ok, get_or, leb, ltb, ◌&&◌, ◌-◌, ◌==◌,
}
use mathlib.Core.Path.{Σ_path}
use evgenium_network_linux.Issuer.Host.{Host, World, now}
use evgenium_network_linux.Issuer.Wireguard.Key.{public_key}
use evgenium_network_linux.Issuer.Wireguard.Peers.{config, command}
use evgenium_network_linux.Issuer.Wireguard.Connections.{
  Texts, Connection, Listing, connection, connections, sample, is_expected, items_of, traffic_of,
  read_handshake, show, answer_sample, listing_at,
}

-- an item counts as established only if its handshake is at most 180 seconds old and not to come
abbrev pub IsTimely : ℕ → Connection → Type 0
IsTimely time c =
    c.state ≡ "ESTABLISHED"
    → (t : ℕ) × (c.handshake_at ≡ some t) × (1 ≤ t) × (t ≤ time) × (time ≤ t + 180)

abbrev pub IsAnswer : Result Listing → Type 0
IsAnswer (ok l) = (l.available ≡ false → l.items ≡ []) × All (IsTimely l.sampled_at) l.items
IsAnswer (err e) = is_expected e ≡ false

connection-IsTimely :
    (key : String) (time timestamp : ℕ) (counted : ℕ × ℕ)
    → IsTimely time (connection key time timestamp counted)
unfolding connection
connection-IsTimely key time timestamp counted h =
    elim (Bool-cases (ltb 0 timestamp && leb timestamp time && leb (time - timestamp) 180)) [
      | inr old ↦
          let idle : "IDLE" ≡ "ESTABLISHED" = rw (connection, old) at h in
          let same : true ≡ false = ap (λ (s : String). s == "IDLE") idle in absurd cc
      | inl new ↦
          let one : 1 ≤ timestamp = ground arith in
          let nonzero : (timestamp == 0) ≡ false = ground arith in
          (timestamp, rw (nonzero) refl, one, ground arith, ground arith)
    ]

module _ (texts : Texts) {S : Type 0} where
  read_handshake-IsTimely :
      (time : ℕ) (traffic : Dict String (ℕ × ℕ)) (row : List String) (s s' : S) (item : Connection)
      → read_handshake texts time traffic row s ≡ (ok item, s')
      → IsTimely time item
  unfolding read_handshake
  read_handshake-IsTimely time traffic (key ∷ timestamp ∷ []) s s' item h =
      let (checked, e1, h1) = continue-eq-ok (public_key (some key)) s s' _ item h in
      let (at, e2, h2) = continue-eq-ok (texts.int_of timestamp) s s' _ item h1 in
      let counted = get_or checked (0, 0) traffic in
      subst (IsTimely time) (pure_inj {a = connection checked time at counted} h2)
        (connection-IsTimely checked time at counted)
  read_handshake-IsTimely time traffic _ s s' item h = absurd (err-ne-ok (ap (λ p. p.0) h))

  items_of-IsTimely :
      (time : ℕ) (traffic : Dict String (ℕ × ℕ)) (rows : List String) (s s' : S)
      (items : List Connection)
      → items_of texts time traffic rows s ≡ (ok items, s')
      → All (IsTimely time) items
  unfolding items_of
  items_of-IsTimely time traffic [] s s' items h =
      subst (All (IsTimely time)) (pure_inj {a = []} h) tt
  items_of-IsTimely time traffic (row ∷ rows) s s' items h =
      let (item, t, e1, h1) =
        >>=-eq-ok (read_handshake texts time traffic (words row)) _ s s' items h in
      let (rest, u, e2, h2) = >>=-eq-ok (items_of texts time traffic rows) _ t s' items h1 in
      subst (All (IsTimely time)) (pure_inj {a = item ∷ rest} h2) (
        read_handshake-IsTimely time traffic (words row) s t item e1,
        items_of-IsTimely time traffic rows t u rest e2,
      )

module _ (texts : Texts) {E : Type 0} (host : Host E) where
  listing_at-IsTimely :
      (traffic : Dict String (ℕ × ℕ)) (rows : List String) (time : ℕ) (w w' : World E) (l : Listing)
      → listing_at texts host traffic rows time w ≡ (ok l, w')
      → (l.available ≡ true) × All (IsTimely l.sampled_at) l.items
  unfolding listing_at
  listing_at-IsTimely traffic rows time w w' l h =
      let (items, v, e, rest) = >>=-eq-ok (items_of texts time traffic rows) _ w w' l h in
      subst (λ (x : Listing). (x.available ≡ true) × All (IsTimely x.sampled_at) x.items)
        (pure_inj {a = record { available = true; items = items; sampled_at = time }} rest)
        (refl, items_of-IsTimely texts time traffic rows w v items e)

  sample-IsTimely :
      (w w' : World E) (l : Listing)
      → sample texts host w ≡ (ok l, w')
      → (l.available ≡ true) × All (IsTimely l.sampled_at) l.items
  unfolding sample
  sample-IsTimely w w' l h =
      let (cfg, w1, e1, h1) = >>=-eq-ok (config host) _ w w' l h in
      let (handshake, w2, e2, h2) =
        >>=-eq-ok (command host (show cfg.interface "latest-handshakes")) _ w1 w' l h1 in
      let (transfer, w3, e3, h3) =
        >>=-eq-ok (command host (show cfg.interface "transfer")) _ w2 w' l h2 in
      let (traffic, w4, e4, h4) =
        >>=-eq-ok (traffic_of texts (texts.lines transfer) []) _ w3 w' l h3 in
      let (time, w5, e5, h5) =
        >>=-eq-ok (now host) (listing_at texts host traffic (texts.lines handshake)) w4 w' l h4 in
      listing_at-IsTimely traffic (texts.lines handshake) time w5 w' l h5

  answer_sample-IsAnswer :
      (r : Result Listing) (w : World E)
      → ((l : Listing) → r ≡ ok l → (l.available ≡ true) × All (IsTimely l.sampled_at) l.items)
      → IsAnswer (answer_sample texts host (r, w)).0
  unfolding now
  answer_sample-IsAnswer (ok l) w h =
      let (up, timely) = h l refl in
      ((λ down. let same : true ≡ false = sym up ∙ down in absurd cc), timely)
  answer_sample-IsAnswer (err e) w h = elim (Bool-cases (is_expected e)) [
    | inl expected ↦ rw (expected) ((λ down. refl), tt)
    | inr other ↦ rw (other) other
  ]

  -- Whatever the commands, the configuration and the clock answer, `connections` answers a listing
  -- or raises. It raises none of the exceptions that it expects; a listing that is not available
  -- has no items; and an item counts as established only if it carries a handshake that is at most
  -- 180 seconds old and not after the time of the listing.
  pub connections-IsAnswer : (w : World E) → IsAnswer (connections texts host w).0
  unfolding connections
  connections-IsAnswer w =
      let r = sample texts host w in
      answer_sample-IsAnswer r.0 r.1 (λ l e. sample-IsTimely w r.1 l (Σ_path e refl))
