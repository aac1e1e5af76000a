-- ===== src/Issuer/Revoke/OneDevice.antt =====
-- What `revoke_device` of server/token_issuer.py leaves on the disk, and what the disk held while
-- its commands ran.
use evgenium_network_linux.Prelude.{
  nat_eq, string_eq, >>=-eq-ok, Error, Result, String, err, ok, some, true, ◌≡◌, ◌⊎◌, [], ap, false,
  get, inl, inr, is_hex, matches_class, not, os_error, pure_inj, put, sym, ℕ, ◌&&◌, ◌||◌, ◌∙◌, ◌∷◌,
}
use evgenium_network_linux.Issuer.Model.{Device, Account, truthy}
use evgenium_network_linux.Issuer.Host.{Host, World, accounts, now}
use evgenium_network_linux.Issuer.TwoPhase.{two_phase, two_phase-Phases, Phases, RanUnder}
use evgenium_network_linux.Issuer.Revoke.{
  revoke_device, account_id_ok, disable, retire, retire_device, revoke_known, with_device,
  revoke_records,
}
use evgenium_network_linux.Issuer.Revoke.Quietly.{Quiet-retire_device}

module _ {E : Type 0} (host : Host E) where
  retire_device_lem :
      (d gone : Device) (u v : World E)
      → retire_device host d u ≡ (ok gone, v)
      → (t : ℕ) × (gone ≡ retire t d)
  unfolding retire_device
  retire_device_lem d gone u v h =
      let (x, u1, e1, r1) = >>=-eq-ok (revoke_records host (d ∷ [])) _ u v gone h in
      let (t, u2, e2, r2) = >>=-eq-ok (now host) _ u1 v gone r1 in (t, sym (pure_inj r2))

  abbrev pub Revocation :
      String → Account → String → Device → World E → Result (Unit {0}) × World E → Type 0
  Revocation id account device d w r =
      let marked = put id (with_device device (disable d) account) (accounts w) in
      ((r.0 ≡ err os_error) × (r.1.stored ≡ w.stored) × (r.1.journal ≡ w.journal))
      ⊎ ((e : Error) × (r.0 ≡ err e) × (r.1.stored ≡ some marked) × RanUnder marked w r.1)
      ⊎ ((t : ℕ) × (r.1.stored
            ≡ some (put id (with_device device (retire t (disable d)) account) (accounts w)))
          × RanUnder marked w r.1)

  Phases-Revocation :
      (id : String) (account : Account) (device : String) (d : Device) (w : World E)
      (r : Result (Unit {0}) × World E)
      → Phases
          (put id (with_device device (disable d) account) (accounts w))
          (λ gone. put id (with_device device gone account) (accounts w))
          (retire_device host (disable d))
          w
          r
      → Revocation id account device d w r
  Phases-Revocation id account device d w r (inl nothing) = inl nothing
  Phases-Revocation id account device d w r (inr (inl raised)) = inr (inl raised)
  Phases-Revocation id account device d w r (inr (inr (gone, u, v, returned, on_disk, ran))) =
      let (t, same) = retire_device_lem (disable d) gone u v returned in
      inr (
        inr (
          t,
          on_disk ∙ ap (λ g. some (put id (with_device device g account) (accounts w))) same,
          ran,
        ))

  revoke_known-Revocation :
      (id : String) (account : Account) (device : String) (d : Device) (w : World E)
      → Revocation id account device d w (revoke_known host id account (accounts w) device d w)
  unfolding revoke_known two_phase
  revoke_known-Revocation id account device d w =
      Phases-Revocation id account device d w (revoke_known host id account (accounts w) device d w)
        (two_phase-Phases host (put id (with_device device (disable d) account) (accounts w))
          (λ gone. put id (with_device device gone account) (accounts w))
          (retire_device host (disable d)) (Quiet-retire_device host (disable d)) w)

  -- `revoke_device` at a device of a live account whose revocation is not complete, whatever the
  -- commands, the clock and the disk answer. Each command it runs sees the device on the disk as
  -- disabled and marked. It ends in one of three ways: the marked write failed and nothing has
  -- changed; or it raised and the disk holds the marked device, so that it can be called again; or
  -- the disk holds the device with the time of its revocation. Nothing else on the disk changes.
  pub revoke_device-Revocation :
      (id : String) (account : Account) (device : String) (d : Device) (w : World E)
      → account_id_ok id ≡ true
      → matches_class is_hex 32 device ≡ true
      → get id (accounts w) ≡ some account
      → (truthy account.deleted || account.delete_pending) ≡ false
      → get device account.devices ≡ some d
      → (truthy d.revoked && not d.revoke_pending) ≡ false
      → Revocation id account device d w (revoke_device host (some id) (some device) w)
  unfolding revoke_device
  revoke_device-Revocation id account device d w valid shaped known alive held live =
      rw (valid, shaped)
        (rw known (rw (alive, held) (rw live (revoke_known-Revocation id account device d w))))
