-- ===== src/Issuer/Accounts/Laws.antt =====
-- Which account a token opens, before and after `issue` and `device_info`
-- (server/token_issuer.py).
use evgenium_network_linux.Prelude.{
  nat_eq, string_eq, All, Option, Result, String, err, ok, none, some, ◌≡◌, All-mono, Bool-cases,
  Option-cases, arith, false, first, first-eq-none, first-eq-some, inl, inr, permission_error, refl,
  true, ◌++◌, ◌∷◌, ◌⊎◌, ap, os_error, sym, ℕ, ◌<>◌, ◌==◌, continue, first-put, pure, pure_inj, put,
  ◌>>◌, subst, get, get-put_self, keys-put, ◌+◌, ◌≤◌, continue-eq-ok, has, ◌∙◌, [], value_or,
  raise_if-eq-ok,
}
use evgenium_network_linux.Prelude.Json.{Json}
use evgenium_network_linux.Issuer.Model.{Account, Accounts, truthy, new_account, DeviceName}
use evgenium_network_linux.Issuer.Names.{reserve_device_name, active_device_count, device_limit}
use evgenium_network_linux.Issuer.Names.Limit.{reserve_device_name-active_device_count}
use evgenium_network_linux.Issuer.Host.{
  Host, World, WriteOutcome, accounts, not_replaced, not_synced, store, write_json, written, now,
  token_hex,
}
use evgenium_network_linux.Issuer.Accounts.{
  authenticate, opens, is_token, issue, token_urlsafe, issue_named, device_id, device_info, rename,
  requested_name, text_field, is_disabled,
}

-- the account of this hash is enabled and neither deleted nor about to be
pub record IsOpenTo (digest : String) (a : Account) : Type 0 where
  pub same_hash : a.token_hash ≡ digest
  pub enabled : a.enabled ≡ true
  pub not_deleted : truthy a.deleted ≡ false
  pub not_pending : a.delete_pending ≡ false

opens-IsOpenTo :
    (digest id : String) (a : Account) → opens digest (id, a) ≡ true → IsOpenTo digest a
opens-IsOpenTo digest id a h = record {
  same_hash = ground (arith, string_eq.beq_iff a.token_hash digest);
  enabled = ground arith;
  not_deleted = ground arith;
  not_pending = ground arith;
}

IsOpenTo-opens :
    (digest id : String) (a : Account) → IsOpenTo digest a → opens digest (id, a) ≡ true
IsOpenTo-opens digest id a h = ground (
  arith,
  h.same_hash,
  h.enabled,
  h.not_deleted,
  h.not_pending,
  string_eq.beq_iff a.token_hash digest,
)

module _ {E : Type 0} (host : Host E) where
  -- the first account that the token opens
  abbrev pub Opens : Accounts → String → String → Account → Type 0
  Opens data_ token id a =
      (before after : Accounts) × (data_ ≡ before ++ (id, a) ∷ after)
      × All (λ (e : String × Account). ¬ IsOpenTo (host.sha256 token) e.1) before
      × IsOpenTo (host.sha256 token) a

  abbrev pub Authentication : Accounts → Option String → Result (String × Account) → Type 0
  Authentication data_ none r = r ≡ err (permission_error "invalid_token")
  Authentication data_ (some token) r =
      ((id : String) × (a : Account) × (r ≡ ok (id, a))
        × (is_token token ≡ true)
        × Opens data_ token id a)
      ⊎ ((r ≡ err (permission_error "invalid_token"))
          × ((is_token token ≡ false)
              ⊎ All (λ (e : String × Account). ¬ IsOpenTo (host.sha256 token) e.1) data_))

  closed : (digest : String) (e : String × Account) → opens digest e ≡ false → ¬ IsOpenTo digest e.1
  closed digest (id, a) h o = let t = IsOpenTo-opens digest id a o in cc

  -- `authenticate` on every token: it returns the first account of the token's hash that is
  -- enabled, not deleted and not about to be deleted, and only for a token of the right form; and
  -- it raises 'invalid_token' only when the token is no text, has another form, or there is no
  -- such account.
  pub authenticate-Authentication :
      (data_ : Accounts) (token : Option String)
      → Authentication data_ token (authenticate host data_ token)
  unfolding authenticate
  authenticate-Authentication data_ none = refl
  authenticate-Authentication data_ (some token) = elim (Bool-cases (is_token token)) [
    | inr bad ↦ inr (rw bad refl, inl bad)
    | inl good ↦ elim (Option-cases (first (opens (host.sha256 token)) data_)) [
      | inl missing ↦ inr (
        rw (good, missing) refl,
        inr (
            All-mono _ _ data_ (closed (host.sha256 token))
              (first-eq-none (opens (host.sha256 token)) data_ missing)),
      )
      | inr ((id, a), found) ↦
          let (before, after, e, none_before, passes) =
            first-eq-some (opens (host.sha256 token)) data_ (id, a) found in
          inl (
            id,
            a,
            rw (good, found) refl,
            good,
            (
              before,
              after,
              e,
              All-mono _ _ before (closed (host.sha256 token)) none_before,
              opens-IsOpenTo (host.sha256 token) id a passes,
            ),
          )
    ]
  ]

  -- what a write that is followed by a return leaves on the disk
  store-pure :
      {A : Type 0} (outcome : WriteOutcome) (env : E) (data_ : Accounts) (w w' : World E) (a b : A)
      → continue (store outcome data_ env w).0 (store outcome data_ env w).1 (λ _. pure a)
        ≡ (ok b, w')
      → (a ≡ b) × (w'.stored ≡ some data_)
  unfolding store
  store-pure written env data_ w w' a b h = (pure_inj h, sym (ap (λ r. r.1.stored) h))
  store-pure {A} not_replaced env data_ w w' a b h =
      let e : ◌≡◌ {A = Result A} (err os_error) (ok b) = ap (λ r. r.0) h in cc
  store-pure {A} not_synced env data_ w w' a b h =
      let e : ◌≡◌ {A = Result A} (err os_error) (ok b) = ap (λ r. r.0) h in cc

  write_json-pure :
      {A : Type 0} (data_ : Accounts) (w w' : World E) (a b : A)
      → (write_json host data_ >> pure a) w ≡ (ok b, w')
      → (a ≡ b) × (w'.stored ≡ some data_)
  unfolding write_json
  write_json-pure data_ w w' a b h =
      let (outcome, env) = host.write_file w.env in store-pure outcome env data_ w w' a b h

  pub authenticate-put :
      (data_ : Accounts) (id token : String) (a : Account)
      → is_token token ≡ true
      → All (λ (e : String × Account). (e.1.token_hash == host.sha256 token) ≡ false) data_
      → opens (host.sha256 token) (id, a) ≡ true
      → authenticate host (put id a data_) (some token) ≡ ok (id, a)
  unfolding authenticate
  authenticate-put data_ id token a good fresh opened =
      rw
        (
          good,
          first-put (opens (host.sha256 token)) id a data_
              (All-mono _ _ data_ (λ e h. rw h refl) fresh) opened,
        )
        refl

  -- Where the random secrets have the documented form and no account on the disk has the hash of
  -- the new token, the token that `issue` returns opens, on the disk that it leaves, the account
  -- with that name and no devices.
  pub issue-authenticate :
      (name token : String) (w w' : World E)
      → ((e : E) → is_token ("EVN1-" <> (host.token_urlsafe 32 e).0) ≡ true)
      → All (λ (e : String × Account). (e.1.token_hash == host.sha256 token) ≡ false) (accounts w)
      → issue host name w ≡ (ok token, w')
      → (id : String) × (t : ℕ) × (authenticate host (accounts w') (some token)
          ≡ ok (id, new_account name (host.sha256 token) t))
  unfolding issue issue_named token_urlsafe token_hex now
  issue-authenticate name token w w' form fresh h =
      let (_, h') = raise_if-eq-ok _ _ (issue_named host name) w w' token h in
      let (secret, env1) = host.token_urlsafe 32 w.env in
      let (id, env2) = host.token_hex 12 env1 in
      let (t, env3) = host.time env2 in
      let account = new_account name (host.sha256 ("EVN1-" <> secret)) t in
      let (same, on_disk) =
        write_json-pure (put id account (accounts w)) (record w { env = env3 }) w'
          ("EVN1-" <> secret) token h' in
      (
        id,
        t,
        rw on_disk (
            subst
              (λ x.
                authenticate host (put id (new_account name (host.sha256 x) t) (accounts w))
                  (some token)
                ≡ ok (id, new_account name (host.sha256 token) t))
              (sym same)
              (authenticate-put (accounts w) id token (new_account name (host.sha256 token) t)
                (subst (λ x. is_token x ≡ true) same (form w.env)) fresh
                (IsOpenTo-opens (host.sha256 token) id (new_account name (host.sha256 token) t)
                  (record {
                    same_hash = refl;
                    enabled = refl;
                    not_deleted = refl;
                    not_pending = refl;
                  })))),
      )

  -- `reserve_device_name` and the renaming after it: the name that comes back is in the account,
  -- and the devices are counted as after the reservation alone
  pub rename_lem :
      (device : String) (name : Option String) (a : Account) (d : DeviceName)
      → get device a.device_names ≡ some d
      → (get device (rename host device name (a, d)).0.device_names
          ≡ some (rename host device name (a, d)).1)
        × (active_device_count (rename host device name (a, d)).0 ≡ active_device_count a)
  unfolding rename active_device_count
  rename_lem device none a d h = (h, refl)
  rename_lem device (some name) a d h = (
    get-put_self device _ a.device_names,
    rw (keys-put device (record d { name = name }) a.device_names (rw (has, h) refl)) refl,
  )

  -- What `device_info` returns is the name that the disk now holds for the device, in the account
  -- that the body's token opened on the disk before; the account counts as many devices as before,
  -- or one more and at most twelve.
  pub device_info-stored :
      (body : Json) (w w' : World E) (d : DeviceName)
      → device_info host body w ≡ (ok d, w')
      → (device : String) × (id : String) × (a a' : Account) × (device_id body ≡ ok device)
        × (authenticate host (accounts w) (text_field "token" body) ≡ ok (id, a))
        × (get id (accounts w') ≡ some a')
        × (get device a'.device_names ≡ some d)
        × ((active_device_count a' ≡ active_device_count a)
            ⊎ ((active_device_count a' ≡ active_device_count a + 1)
                × (active_device_count a' ≤ device_limit)))
  unfolding device_info
  device_info-stored body w w' d h =
      let (device, e1, r1) = continue-eq-ok (device_id body) w w' _ d h in
      let (name, e2, r2) = continue-eq-ok (requested_name host body) w w' _ d r1 in
      let (found, e3, r3) =
        continue-eq-ok (authenticate host (accounts w) (text_field "token" body)) w w' _ d r2 in
      let (_, r4) =
        raise_if-eq-ok (is_disabled (get device found.1.devices))
          (permission_error "device_disabled") _ w w' d r3 in
      let (reserved, e5, r5) = continue-eq-ok (reserve_device_name device found.1) w w' _ d r4 in
      let (counted, named) =
        reserve_device_name-active_device_count device found.1 reserved.0 reserved.1 e5 in
      let (recorded, recount) = rename_lem device name reserved.0 reserved.1 named in
      let (same, on_disk) =
        write_json-pure (put found.0 (rename host device name reserved).0 (accounts w)) w w'
          (rename host device name reserved).1 d r5 in
      (
        device,
        found.0,
        found.1,
        (rename host device name reserved).0,
        e1,
        e3,
        ap (λ o. get found.0 (value_or [] o)) on_disk
            ∙ get-put_self found.0 (rename host device name reserved).0 (accounts w),
        recorded ∙ ap some same,
        elim counted [
          | inl kept ↦ inl (recount ∙ kept)
          | inr (room, grown) ↦ inr (recount ∙ grown, omega (arith, recount, grown, room))
        ],
      )
