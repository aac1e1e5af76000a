-- ===== src/Panel/Accounts/Reveal.antt =====
-- That the token of a person who was just added can be shown, and opens the new account: `issue`
-- and `token` of server/panel/broker.py.
use evgenium_network_linux.Prelude.{
  string_eq, ap, continue, err-ne-ok, ok, pure, pure_inj, some, sym, ◌>>◌, ◌≡◌, >>=-eq-ok, String,
  false, get-put_self, put, refl, subst, true, ℕ, ◌<>◌, ◌∙◌, All, Option, beq_refl, continue-eq-ok,
  raise_if-eq-ok, value_error, ◌==◌,
}
use evgenium_network_linux.Issuer.Model.{Accounts, Account, new_account, truthy}
use evgenium_network_linux.Issuer.Host.{
  Host, WriteOutcome, not_replaced, not_synced, store, write_json, written, accounts, now,
  token_hex,
}
use evgenium_network_linux.Issuer.Accounts.{token_urlsafe, authenticate, is_token}
use evgenium_network_linux.Issuer.Revoke.{account_id_ok}
use evgenium_network_linux.Issuer.Accounts.Laws.{authenticate-put}
use evgenium_network_linux.Panel.Names.{name_key, name_taken}
use evgenium_network_linux.Panel.Vault.{
  VaultHost, store_tokens, Panel, Tokens, on_world, with_env, write_tokens, encrypt, tokens,
}
use evgenium_network_linux.Panel.Accounts.{issue, checked_id, issue_new, live_account, reveal}

module _ {E : Type 0} (host : Host E) (vault : VaultHost E) where
  store_tokens-eq-ok :
      (outcome : WriteOutcome) (t : Tokens) (env : E) (p q : Panel E) (u : Unit {0})
      → store_tokens outcome t env p ≡ (ok u, q)
      → q ≡ record (with_env env p) { stored_tokens = some t }
  unfolding store_tokens
  store_tokens-eq-ok written t env p q u h = sym (ap (λ r. r.1) h)
  store_tokens-eq-ok not_replaced t env p q u h = absurd (err-ne-ok (ap (λ r. r.0) h))
  store_tokens-eq-ok not_synced t env p q u h = absurd (err-ne-ok (ap (λ r. r.0) h))

  -- what `write_tokens` leaves when it returns
  pub write_tokens-eq-ok :
      (t : Tokens) (p q : Panel E) (u : Unit {0})
      → write_tokens vault t p ≡ (ok u, q)
      → (q.world.stored ≡ p.world.stored) × (q.stored_tokens ≡ some t)
  unfolding write_tokens
  write_tokens-eq-ok t p q u h =
      let (outcome, env) = vault.write_tokens p.world.env in
      let e = store_tokens-eq-ok outcome t env p q u h in
      (ap (λ r. r.world.stored) e, ap (λ r. r.stored_tokens) e)

  store-eq-ok :
      {A : Type 0} (outcome : WriteOutcome) (d : Accounts) (env : E) (p q : Panel E) (a b : A)
      → continue
          (store outcome d env p.world).0
          (record p { world = (store outcome d env p.world).1 })
          (λ _. pure a)
        ≡ (ok b, q)
      → (a ≡ b) × (q.world.stored ≡ some d) × (q.stored_tokens ≡ p.stored_tokens)
  unfolding store
  store-eq-ok written d env p q a b h =
      (pure_inj h, sym (ap (λ r. r.1.world.stored) h), sym (ap (λ r. r.1.stored_tokens) h))
  store-eq-ok not_replaced d env p q a b h = absurd (err-ne-ok (ap (λ r. r.0) h))
  store-eq-ok not_synced d env p q a b h = absurd (err-ne-ok (ap (λ r. r.0) h))

  -- what a write of accounts.json and a return leave when they return
  pub write_json-eq-ok :
      {A : Type 0} (d : Accounts) (p q : Panel E) (a b : A)
      → (on_world (write_json host d) >> pure a) p ≡ (ok b, q)
      → (a ≡ b) × (q.world.stored ≡ some d) × (q.stored_tokens ≡ p.stored_tokens)
  unfolding write_json
  write_json-eq-ok d p q a b h =
      let (outcome, env) = host.write_file p.world.env in store-eq-ok outcome d env p q a b h

  -- what `issue` leaves when it returns
  issue_new-eq-ok :
      (name id : String) (p q : Panel E)
      → issue_new host vault name p ≡ (ok id, q)
      → let token = "EVN1-" <> (host.token_urlsafe 32 p.world.env).0 in
        (t : ℕ) × (e1 e2 : E) × (id ≡ (host.token_hex 12 e1).0)
        × (q.world.stored
            ≡ some (put id (new_account name (host.sha256 token) t) (accounts p.world)))
        × (q.stored_tokens ≡ some (put id (vault.encrypt token e2).0 (tokens p)))
  unfolding issue_new token_urlsafe token_hex encrypt now
  issue_new-eq-ok name id p q h =
      let d = accounts p.world in
      let (secret, e1) = host.token_urlsafe 32 p.world.env in
      let (i, e2) = host.token_hex 12 e1 in
      let (cipher, e3) = vault.encrypt ("EVN1-" <> secret) e2 in
      let (u, s, wrote, rest) =
        >>=-eq-ok (write_tokens vault (put i cipher (tokens p))) _ (with_env e3 p) q id h in
      let (t, e4) = host.time s.world.env in
      let account = new_account name (host.sha256 ("EVN1-" <> secret)) t in
      let (same, stored, kept) = write_json-eq-ok (put i account d) (with_env e4 s) q i id rest in
      let (_, saved) = write_tokens-eq-ok (put i cipher (tokens p)) (with_env e3 p) s u wrote in
      (
        t,
        e1,
        e2,
        sym same,
        subst (λ x. q.world.stored ≡ some (put x account d)) same stored,
        subst (λ x. q.stored_tokens ≡ some (put x cipher (tokens p))) same (kept ∙ saved),
      )

  -- Where ids have the documented form and what was encrypted is what is decrypted, `token` of an
  -- account that was just added.
  reveal-put :
      (id token cipher : String) (a : Account) (d : Accounts) (t : Tokens) (q : Panel E)
      → account_id_ok id ≡ true
      → q.world.stored ≡ some (put id a d)
      → q.stored_tokens ≡ some (put id cipher t)
      → vault.decrypt cipher ≡ some token
      → a.token_hash ≡ host.sha256 token
      → truthy a.deleted ≡ false
      → a.delete_pending ≡ false
      → reveal host vault (some id) q ≡ (ok token, q)
  unfolding reveal checked_id live_account
  reveal-put id token cipher a d t q form stored saved opened hash live pending =
      let found = get-put_self id a d in
      let kept = get-put_self id cipher t in
      let same = (string_eq.beq_iff a.token_hash (host.sha256 token)).1 hash in
      rw (form, stored, found, live, pending, saved, kept, opened, same) refl

  -- Where the random ids and secrets have the documented form, decryption undoes encryption, and
  -- no account has the hash of the new secret: after an `issue` that returned, `token` of the new
  -- id returns a token and changes nothing, and `authenticate` opens with it the new account.
  pub issue-reveal :
      (value : Option String) (id : String) (p q : Panel E)
      → ((s : String) (e : E) → vault.decrypt (vault.encrypt s e).0 ≡ some s)
      → ((e : E) → is_token ("EVN1-" <> (host.token_urlsafe 32 e).0) ≡ true)
      → ((e : E) → account_id_ok (host.token_hex 12 e).0 ≡ true)
      → All
          (λ (e : String × Account).
            (e.1.token_hash == host.sha256 ("EVN1-" <> (host.token_urlsafe 32 p.world.env).0))
            ≡ false)
          (accounts p.world)
      → issue host vault value p ≡ (ok id, q)
      → (token name key : String) × (t : ℕ) × (name_key host vault value ≡ ok (name, key))
        × (reveal host vault (some id) q ≡ (ok token, q))
        × (authenticate host (accounts q.world) (some token)
            ≡ ok (id, new_account name (host.sha256 token) t))
  unfolding issue
  issue-reveal value id p q decrypts secrets ids fresh h =
      let (named, e1, r1) = continue-eq-ok (name_key host vault value) p q _ id h in
      let (taken, e2, r2) =
        continue-eq-ok (name_taken host vault (λ i. false) named.1 (accounts p.world)) p q _ id
          r1 in
      let (free, r3) =
        raise_if-eq-ok taken (value_error "person_exists") (issue_new host vault named.0) p q id
          r2 in
      let token = "EVN1-" <> (host.token_urlsafe 32 p.world.env).0 in
      let (t, env1, env2, is_id, stored, saved) = issue_new-eq-ok named.0 id p q r3 in
      let a = new_account named.0 (host.sha256 token) t in
      let cipher = (vault.encrypt token env2).0 in
      (
        token,
        named.0,
        named.1,
        t,
        e1,
        reveal-put id token cipher a (accounts p.world) (tokens p) q
            (ap account_id_ok is_id ∙ ids env1) stored saved (decrypts token env2) refl refl refl,
        rw stored (
            authenticate-put host (accounts p.world) id token a (secrets p.world.env) fresh
              (rw (beq_refl (host.sha256 token)) refl)),
      )
