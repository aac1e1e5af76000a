-- ===== src/Issuer/TwoPhase.antt =====
-- Save, act, save again: the pattern of `delete_account` and `revoke_device`, whatever the machine
-- answers.
use mathlib.Core.List.{append-nil}
use evgenium_network_linux.Prelude.{
  nat_eq, string_eq, All, Error, Exec, List, Result, continue, err, first, inl, inr, ok, os_error,
  refl, some, ◌++◌, ◌>>=◌, ◌>>◌, ◌≡◌, ◌⊎◌, All-mono, [], ap, sym, ◌∙◌,
}
use evgenium_network_linux.Issuer.Model.{Accounts}
use evgenium_network_linux.Issuer.Host.{
  Host, Event, World, write_json, WriteOutcome, not_replaced, not_synced, store, written,
}
use evgenium_network_linux.Issuer.Quiet.{Quiet}

-- From `w` to `w'` commands ran only while the file on the disk held `data_`.
abbrev pub RanUnder : {E : Type 0} → Accounts → World E → World E → Type 0
RanUnder data_ w w' =
    (ran : List Event) × (w'.journal ≡ w.journal ++ ran)
    × All (λ (e : Event). e.on_disk ≡ some data_) ran

-- Nothing was written; or the first write stands and the call has raised; or the last write
-- stands, and the action between has returned.
abbrev pub Phases :
    {E X : Type 0}
    → Accounts
    → (X → Accounts)
    → Exec (World E) X
    → World E
    → Result (Unit {0}) × World E
    → Type 0
Phases {E} {X} first final m w r =
    ((r.0 ≡ err os_error) × (r.1.stored ≡ w.stored) × (r.1.journal ≡ w.journal))
    ⊎ ((e : Error) × (r.0 ≡ err e) × (r.1.stored ≡ some first) × RanUnder first w r.1)
    ⊎ ((x : X) × (u : World E) × (v : World E) × (m u ≡ (ok x, v))
        × (r.1.stored ≡ some (final x))
        × RanUnder first w r.1)

module _ {E X : Type 0} (host : Host E) (first : Accounts) (final : X → Accounts)
    (m : Exec (World E) X) where
  unfoldable pub two_phase : Exec (World E) (Unit {0})
  two_phase = do write_json host first; x ← m; write_json host (final x)

  last_store :
      (outcome : WriteOutcome) (e : E) (x : X) (u v w w' : World E)
      → m u ≡ (ok x, v)
      → w'.stored ≡ some first
      → RanUnder first w w'
      → Phases first final m w (store outcome (final x) e w')
  unfolding store
  last_store written e x u v w w' h s ran = inr (inr (x, u, v, h, refl, ran))
  last_store not_replaced e x u v w w' h s ran = inr (inl (os_error, refl, s, ran))
  last_store not_synced e x u v w w' h s ran = inr (inr (x, u, v, h, refl, ran))

  middle :
      (r : Result X) (u v w : World E)
      → m u ≡ (r, v)
      → v.stored ≡ some first
      → RanUnder first w v
      → Phases first final m w (continue r v (λ x. write_json host (final x)))
  unfolding write_json
  middle (ok x) u v w h s ran =
      let (outcome, e) = host.write_file v.env in last_store outcome e x u v w v h s ran
  middle (err x) u v w h s ran = inr (inl (x, refl, s, ran))

  after_first :
      (q : Quiet m) (w u : World E)
      → u.stored ≡ some first
      → u.journal ≡ w.journal
      → Phases first final m w ((m >>= λ x. write_json host (final x)) u)
  after_first q w u s j =
      let (r, v) = m u in
      let sees = q.at u in
      middle r u v w refl (sees.same ∙ s) (
        sees.ran,
        sees.journal ∙ ap (λ l. l ++ sees.ran) j,
        All-mono _ _ sees.ran (λ e h. h ∙ s) sees.saw,
      )

  Phases-store :
      (q : Quiet m) (outcome : WriteOutcome) (e : E) (w : World E)
      → Phases first final m w (
          continue
            (store outcome first e w).0
            (store outcome first e w).1
            (λ _. m >>= λ x. write_json host (final x)))
  unfolding store
  Phases-store q written e w = after_first q w _ refl refl
  Phases-store q not_replaced e w = inl (refl, refl, refl)
  Phases-store q not_synced e w =
      inr (inl (os_error, refl, refl, ([], sym (append-nil w.journal), tt)))

  -- Whatever the machine answers, the call ends in one of the three phases.
  pub two_phase-Phases : (q : Quiet m) (w : World E) → Phases first final m w (two_phase w)
  unfolding two_phase write_json
  two_phase-Phases q w = let (outcome, e) = host.write_file w.env in Phases-store q outcome e w
