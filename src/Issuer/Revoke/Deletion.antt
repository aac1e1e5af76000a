-- ===== src/Issuer/Revoke/Deletion.antt =====
-- What `delete_account` leaves on the disk, and what the disk held while its commands ran.
use evgenium_network_linux.Prelude.{
  nat_eq, string_eq, >>=-eq-ok, All, Dict, Error, List, Result, String, [], err, false, get, ok,
  os_error, pure_inj, refl, some, subst, true, value_or, values, ℕ, ◌++◌, ◌∷◌, ◌≡◌, ◌⊎◌, All-mono,
  all, ap, get-put_self, inl, inr, put, ◌∙◌,
}
use evgenium_network_linux.Issuer.Model.{Device, Account, truthy}
use evgenium_network_linux.Issuer.Host.{Host, Event, World, accounts, now}
use evgenium_network_linux.Issuer.TwoPhase.{two_phase, two_phase-Phases, Phases, RanUnder}
use evgenium_network_linux.Issuer.Revoke.{
  delete_account, account_id_ok, disable, doomed, map_values, retire_account, retire_all,
  revoke_records, delete_known,
}
use evgenium_network_linux.Issuer.Revoke.Quietly.{Quiet-retire_account}

-- a device whose revocation is complete
abbrev pub IsRevoked : String × Device → Type 0
IsRevoked (k, d) =
    (d.disabled ≡ true) × (d.revoke_pending ≡ false) × ((t : ℕ) × (d.revoked ≡ some t))

-- an account that is deleted for good, with all its devices
pub record IsDeleted (a : Account) : Type 0 where
  pub disabled : a.enabled ≡ false
  pub complete : a.delete_pending ≡ false
  pub stamped : (t : ℕ) × (a.deleted ≡ some t)
  pub devices : All IsRevoked a.devices

disable_lem :
    (d : Dict String Device)
    → All (λ (e : String × Device). e.1.disabled ≡ true) (map_values disable d)
disable_lem [] = tt
disable_lem ((k, r) ∷ d) = (refl, disable_lem d)

module _ {E : Type 0} (host : Host E) where
  retire_all-IsRevoked :
      (d ds : Dict String Device) (u v : World E)
      → All (λ (e : String × Device). e.1.disabled ≡ true) d
      → retire_all host d u ≡ (ok ds, v)
      → All IsRevoked ds
  unfolding retire_all
  retire_all-IsRevoked [] ds u v h e = subst (All IsRevoked) (pure_inj e) tt
  retire_all-IsRevoked ((k, r) ∷ d) ds u v h e =
      let (t, u1, e1, r1) = >>=-eq-ok (now host) _ u v ds e in
      let (rest, u2, e2, r2) = >>=-eq-ok (retire_all host d) _ u1 v ds r1 in
      subst (All IsRevoked) (pure_inj r2)
        ((h.0, refl, (t, refl)), retire_all-IsRevoked d rest u1 u2 h.1 e2)

  retire_account-IsDeleted :
      (a gone : Account) (u v : World E)
      → a.enabled ≡ false
      → All (λ (e : String × Device). e.1.disabled ≡ true) a.devices
      → retire_account host a u ≡ (ok gone, v)
      → IsDeleted gone
  unfolding retire_account
  retire_account-IsDeleted a gone u v off h e =
      let (x, u1, e1, r1) = >>=-eq-ok (revoke_records host (values a.devices)) _ u v gone e in
      let (ds, u2, e2, r2) = >>=-eq-ok (retire_all host a.devices) _ u1 v gone r1 in
      let (t, u3, e3, r3) = >>=-eq-ok (now host) _ u2 v gone r2 in
      subst IsDeleted (pure_inj r3) (record {
        disabled = off;
        complete = refl;
        stamped = (t, refl);
        devices = retire_all-IsRevoked a.devices ds u1 u2 h e2;
      })

  -- the account as every command sees it on the disk
  abbrev pub RanDoomed : String → Account → World E → World E → Type 0
  RanDoomed id account w w' =
      (ran : List Event) × (w'.journal ≡ w.journal ++ ran)
      × All (λ (e : Event). get id (value_or [] e.on_disk) ≡ some (doomed account)) ran

  abbrev pub Deletion : String → Account → World E → Result (Unit {0}) × World E → Type 0
  Deletion id account w r =
      ((r.0 ≡ err os_error) × (r.1.stored ≡ w.stored) × (r.1.journal ≡ w.journal))
      ⊎ ((e : Error) × (r.0 ≡ err e)
          × (get id (accounts r.1) ≡ some (doomed account))
          × RanDoomed id account w r.1)
      ⊎ ((gone : Account) × (get id (accounts r.1) ≡ some gone)
          × IsDeleted gone
          × RanDoomed id account w r.1)

  RanUnder-RanDoomed :
      (id : String) (account : Account) (w w' : World E)
      → RanUnder (put id (doomed account) (accounts w)) w w'
      → RanDoomed id account w w'
  RanUnder-RanDoomed id account w w' (ran, j, all) = (
    ran,
    j,
    All-mono _ _ ran
        (λ e h. ap (λ o. get id (value_or [] o)) h ∙ get-put_self id (doomed account) (accounts w))
        all,
  )

  Phases-Deletion :
      (id : String) (account : Account) (w : World E) (r : Result (Unit {0}) × World E)
      → Phases
          (put id (doomed account) (accounts w))
          (λ gone. put id gone (accounts w))
          (retire_account host (doomed account))
          w
          r
      → Deletion id account w r
  Phases-Deletion id account w r (inl nothing) = inl nothing
  Phases-Deletion id account w r (inr (inl (e, raised, on_disk, ran))) = inr (
      inl (
        e,
        raised,
        ap (λ o. get id (value_or [] o)) on_disk ∙ get-put_self id (doomed account) (accounts w),
        RanUnder-RanDoomed id account w r.1 ran,
      ))
  Phases-Deletion id account w r (inr (inr (gone, u, v, returned, on_disk, ran))) = inr (
      inr (
        gone,
        ap (λ o. get id (value_or [] o)) on_disk ∙ get-put_self id gone (accounts w),
        retire_account-IsDeleted (doomed account) gone u v refl (disable_lem account.devices)
            returned,
        RanUnder-RanDoomed id account w r.1 ran,
      ))

  delete_known-Deletion :
      (id : String) (account : Account) (w : World E)
      → Deletion id account w (delete_known host id account (accounts w) w)
  unfolding delete_known two_phase
  delete_known-Deletion id account w =
      Phases-Deletion id account w (delete_known host id account (accounts w) w) (
        two_phase-Phases host (put id (doomed account) (accounts w))
          (λ gone. put id gone (accounts w)) (retire_account host (doomed account))
          (Quiet-retire_account host (doomed account)) w)

  -- `delete_account` at an account that is not deleted, whatever the commands, the clock and the
  -- disk answer. Each command it runs sees the account on the disk disabled, with every device
  -- disabled and marked. It ends in one of three ways: the first write failed and nothing has
  -- changed; or it raised and the disk holds the disabled account, from which it can be called
  -- again; or the disk holds the account as deleted, with every device revoked.
  pub delete_account-Deletion :
      (id : String) (account : Account) (w : World E)
      → account_id_ok id ≡ true
      → get id (accounts w) ≡ some account
      → truthy account.deleted ≡ false
      → Deletion id account w (delete_account host (some id) w)
  unfolding delete_account
  delete_account-Deletion id account w valid known alive =
      rw (valid, known) (rw alive (delete_known-Deletion id account w))
