-- ===== src/Panel/Accounts/Deletion.antt =====
-- What a deletion that returned has done: `delete` of server/panel/broker.py.
use evgenium_network_linux.Prelude.{
  string_eq, >>=-eq-ok, Error, Exec, Option, Result, String, ap, continue-eq-ok, err, err-ne-ok,
  get, none, not, ok, or_raise, pop, raise_if-eq-ok, refl, some, true, value_error, ◌>>=◌, ◌≡◌, [],
  arith, get-pop_self, not-false, value_or, ◌∙◌,
}
use evgenium_network_linux.Prelude.Json.{Json}
use evgenium_network_linux.Issuer.Model.{Account, truthy}
use evgenium_network_linux.Issuer.Host.{Host, accounts}
use evgenium_network_linux.Issuer.Revoke.{account_id_ok}
use evgenium_network_linux.Panel.Vault.{VaultHost, tokens, Panel}
use evgenium_network_linux.Panel.Accounts.{delete, ask, reveal, checked_id, live_account}
use evgenium_network_linux.Panel.Accounts.Reveal.{write_tokens-eq-ok}

module _ {E : Type 0} (host : Host E) (vault : VaultHost E) where
  or_raise-eq-ok :
      {A B : Type 0} (o : Option A) (x : Error) (p q : Panel E) (f : A → Exec (Panel E) B) (b : B)
      → (or_raise o x >>= f) p ≡ (ok b, q)
      → (a : A) × (o ≡ some a) × (f a p ≡ (ok b, q))
  or_raise-eq-ok none x p q f b h = absurd (err-ne-ok (ap (λ r. r.0) h))
  or_raise-eq-ok (some a) x p q f b h = (a, refl, h)

  checked_id-eq-ok :
      (o : Option String) (id : String)
      → checked_id o ≡ ok id
      → (o ≡ some id) × (account_id_ok id ≡ true)
  unfolding checked_id
  checked_id-eq-ok none id h = cc
  checked_id-eq-ok (some x) id h = ground arith

  reveal-deleted :
      (id : String) (a : Account) (q : Panel E)
      → account_id_ok id ≡ true
      → get id (accounts q.world) ≡ some a
      → truthy a.deleted ≡ true
      → reveal host vault (some id) q ≡ (err (value_error "account_missing"), q)
  unfolding reveal checked_id live_account
  reveal-deleted id a q form found gone = rw (form, found, gone) refl

  -- A `delete` that returned leaves the account deleted on the disk and no token of it in the
  -- vault, and `token` then raises 'account_missing' and changes nothing.
  pub delete-reveal :
      (loads : String → Result Json) (account_id : Option String) (p q : Panel E) (u : Unit {0})
      → delete host vault loads account_id p ≡ (ok u, q)
      → (id : String) × (a : Account) × (account_id ≡ some id)
        × (get id (accounts q.world) ≡ some a)
        × (truthy a.deleted ≡ true)
        × (get id (tokens q) ≡ none)
        × (reveal host vault account_id q ≡ (err (value_error "account_missing"), q))
  unfolding delete
  delete-reveal loads account_id p q u h =
      let (id, e1, r1) = continue-eq-ok (checked_id account_id) p q _ u h in
      let (done, s, e2, r2) = >>=-eq-ok (ask host vault loads _) _ p q u r1 in
      let (_, r3) = raise_if-eq-ok (not done) (value_error "delete_incomplete") _ s q u r2 in
      let (a, e4, r4) =
        or_raise-eq-ok (get id (accounts s.world)) (value_error "delete_incomplete") s q _ u r3 in
      let (gone, r5) =
        raise_if-eq-ok (not (truthy a.deleted)) (value_error "delete_incomplete") _ s q u r4 in
      let (stored, saved) = write_tokens-eq-ok host vault (pop id (tokens s)) s q u r5 in
      let on_disk = ap (value_or []) stored in
      let (is_id, form) = checked_id-eq-ok account_id id e1 in
      let found = ap (get id) on_disk ∙ e4 in
      let live = not-false (truthy a.deleted) gone in
      (
        id,
        a,
        is_id,
        found,
        live,
        ap (λ t. get id (value_or [] t)) saved ∙ get-pop_self id (tokens s),
        rw is_id (reveal-deleted id a q form found live),
      )
