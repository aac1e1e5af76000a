-- ===== src/Panel/Accounts/Distinct.antt =====
-- That no two accounts of accounts.json that are not deleted have names with the same key: `issue`
-- and `rename` of server/panel/broker.py.
use mathlib.Core.Option.{some-injective, none-ne-some}
use evgenium_network_linux.Prelude.{
  string_eq, Bool, Bool-cases, String, [], beq_refl, false, get, inl, inr, ok, some, ◌==◌, ◌∷◌, ◌≡◌,
  arith, put, ◌≢◌, Result, get-put-eq-some, subst, sym, true, ◌∙◌, Option, none, strip, ap, refl,
  value_error, ◌<>◌, beq-ne,
}
use evgenium_network_linux.Issuer.Model.{Accounts, Account, truthy, new_account}
use evgenium_network_linux.Issuer.Host.{Host, accounts, token_hex, now}
use evgenium_network_linux.Panel.Vault.{VaultHost, Panel, encrypt, tokens, with_env, write_tokens}
use evgenium_network_linux.Issuer.Accounts.{token_urlsafe}
use evgenium_network_linux.Panel.Steady.{
  bind-steady, continue-lifted, raise_if-lifted, write_tokens-Steady, write_json-accounts,
}
use evgenium_network_linux.Panel.Accounts.{
  issue, issue_new, checked_id, live_account, rename_person, with_name,
}
use evgenium_network_linux.Panel.Names.{name_key, name_taken, join_space, split_space}

module _ {E : Type 0} (host : Host E) (vault : VaultHost E) where
  -- the account is not deleted and its name has this key
  pub record Keyed (key : String) (a : Account) : Type 0 where
    pub live : truthy a.deleted ≡ false
    pub name : String
    pub keyed : name_key host vault (some a.name) ≡ ok (name, key)

  -- Accounts of the same key are one.
  pub record Distinct (d : Accounts) : Type 0 where
    pub apply :
        (i j key : String) (a b : Account)
        → get i d ≡ some a
        → get j d ≡ some b
        → Keyed key a
        → Keyed key b
        → i ≡ j

  name_taken-rest :
      (skip : String → Bool) (key i : String) (a : Account) (rest : Accounts)
      → name_taken host vault skip key ((i, a) ∷ rest) ≡ ok false
      → name_taken host vault skip key rest ≡ ok false
  unfolding name_taken
  name_taken-rest skip key i a rest h = ground arith

  -- A key that is not taken is not that of any account looked at.
  name_taken-false :
      (skip : String → Bool) (key : String) (d : Accounts) (j : String) (b : Account)
      → name_taken host vault skip key d ≡ ok false
      → get j d ≡ some b
      → skip j ≡ false
      → ¬ Keyed key b
  unfolding name_taken
  name_taken-false skip key [] j b h e s k = absurd (none-ne-some b e)
  name_taken-false skip key ((i, a) ∷ rest) j b h e s k = elim (Bool-cases (j == i)) [
    | inl same ↦
        let at_j : j ≡ i = (string_eq.beq_iff j i).0 same in
        let is_b : a ≡ b = some-injective a b (rw (get, same) at e) in
        let passed : skip i ≡ false = rw (← at_j) s in
        let keyed : name_key host vault (some a.name) ≡ ok (k.name, key) = rw is_b k.keyed in
        let undeleted : truthy a.deleted ≡ false = rw is_b k.live in
        let self = beq_refl key in
        let both : ◌≡◌ {A = Result Bool} (ok true) (ok false) =
          rw (name_taken, passed, undeleted, keyed, self) at h in
        cc
    | inr other ↦
        name_taken-false skip key rest j b (name_taken-rest skip key i a rest h)
          (rw (get, other) at e) s k
  ]

  -- A write of an account whose key is nobody else's.
  Distinct-put :
      (i : String) (c : Account) (key : String) (d : Accounts)
      → Distinct d
      → ((k : String) → Keyed k c → k ≡ key)
      → ((j : String) (b : Account) → i ≢ j → get j d ≡ some b → ¬ Keyed key b)
      → Distinct (put i c d)
  Distinct-put i c key d old only fresh = record {
    apply = λ x y k a b ea eb ka kb. elim (get-put-eq-some x i c a d ea) [
      | inl (x_i, is_a) ↦ elim (get-put-eq-some y i c b d eb) [
        | inl (y_i, is_b) ↦ x_i ∙ sym y_i
        | inr (other, eb') ↦
            absurd (fresh y b other eb' (subst (λ z. Keyed z b) (only k (rw is_a ka)) kb))
      ]
      | inr (other, ea') ↦ elim (get-put-eq-some y i c b d eb) [
        | inl (y_i, is_b) ↦
            absurd (fresh x a other ea' (subst (λ z. Keyed z a) (only k (rw is_b kb)) ka))
        | inr (_, eb') ↦ old.apply x y k a b ea' eb' ka kb
      ]
    ];
  }

  name_key-eq-ok :
      (v name key : String)
      → name_key host vault (some v) ≡ ok (name, key)
      → (name ≡ strip host.is_space (vault.nfkc v))
        × (key ≡ join_space (split_space host.is_space "" (vault.casefold name)))
  unfolding name_key
  name_key-eq-ok v name key h = ground arith

  -- Normalising a stored name again changes nothing: NFKC and `strip` are stable.
  abbrev pub StableNames : Type 0
  StableNames =
      (v : String)
      → strip host.is_space (vault.nfkc (strip host.is_space (vault.nfkc v)))
        ≡ strip host.is_space (vault.nfkc v)

  -- the name that is stored has the key it was given
  name_key-again :
      StableNames
      → (value : Option String) (name key n k : String) → name_key host vault value ≡ ok (name, key)
      → name_key host vault (some name) ≡ ok (n, k)
      → k ≡ key
  unfolding name_key
  name_key-again stable none name key n k h again = cc
  name_key-again stable (some v) name key n k h again =
      let (named, keyed) = name_key-eq-ok v name key h in
      let (again_named, again_keyed) = name_key-eq-ok name n k again in
      let same : n ≡ name = again_named ∙ rw (named) (stable v) in again_keyed ∙ rw same (sym keyed)

  issue_new-Distinct :
      StableNames
      → (value : Option String) (name key : String) (p : Panel E)
      → name_key host vault value ≡ ok (name, key)
      → name_taken host vault (λ i. false) key (accounts p.world) ≡ ok false
      → Distinct (accounts p.world)
      → Distinct (accounts (issue_new host vault name p).1.world)
  unfolding issue_new token_urlsafe token_hex encrypt now
  issue_new-Distinct stable value name key p named free h =
      let d = accounts p.world in
      let (secret, env1) = host.token_urlsafe 32 p.world.env in
      let (id, env2) = host.token_hex 12 env1 in
      let (cipher, env3) = vault.encrypt ("EVN1-" <> secret) env2 in
      bind-steady Distinct d (write_tokens vault (put id cipher (tokens p))) _ (with_env env3 p)
        (write_tokens-Steady host vault (put id cipher (tokens p))) refl h
        (λ u q e.
          let (t, env4) = host.time q.world.env in
          let account = new_account name (host.sha256 ("EVN1-" <> secret)) t in
          write_json-accounts host vault Distinct (put id account d) (with_env env4 q) id
            (subst Distinct (sym e) h)
            (Distinct-put id account key d h
              (λ k keyed. name_key-again stable value name key keyed.name k named keyed.keyed)
              (λ j b other found. name_taken-false (λ i. false) key d j b free found refl)))

  issue-Distinct :
      StableNames
      → (value : Option String) (p : Panel E) → Distinct (accounts p.world)
      → Distinct (accounts (issue host vault value p).1.world)
  unfolding issue
  issue-Distinct stable value p h =
      continue-lifted Distinct (name_key host vault value) p _ h (λ named e.
        continue-lifted Distinct (name_taken host vault (λ i. false) named.1 (accounts p.world)) p _
          h
          (λ taken f.
            raise_if-lifted Distinct taken (value_error "person_exists") p
              (issue_new host vault named.0) h
              (λ free. issue_new-Distinct stable value named.0 named.1 p e (f ∙ ap ok free) h)))

  rename_person-Distinct :
      StableNames
      → (account_id value : Option String) (p : Panel E) → Distinct (accounts p.world)
      → Distinct (accounts (rename_person host vault account_id value p).1.world)
  unfolding rename_person
  rename_person-Distinct stable account_id value p h =
      let d = accounts p.world in
      continue-lifted Distinct (checked_id account_id) p _ h (λ id e1.
        continue-lifted Distinct (live_account id d) p _ h (λ account e2.
          continue-lifted Distinct (name_key host vault value) p _ h (λ named e3.
            continue-lifted Distinct (name_taken host vault (λ i. i == id) named.1 d) p _ h
              (λ taken e4.
                raise_if-lifted Distinct taken (value_error "person_exists") p _ h (λ free.
                  write_json-accounts host vault Distinct (put id (with_name named.0 account) d) p
                    named.0 h
                    (Distinct-put id (with_name named.0 account) named.1 d h
                      (λ k keyed.
                        name_key-again stable value named.0 named.1 keyed.name k e3 keyed.keyed)
                      (λ j b other found.
                        name_taken-false (λ i. i == id) named.1 d j b (e4 ∙ ap ok free) found
                          (beq-ne j id (λ q. other (sym q))))))))))

  -- Where normalising a name twice is normalising it once: `issue` and the renaming of a person
  -- keep it that no two accounts that are not deleted have names of the same key, whether they
  -- return or raise, at whichever step.
  pub issue-rename_person-Distinct :
      StableNames
      → (account_id value : Option String) (p : Panel E) → Distinct (accounts p.world)
      → Distinct (accounts (issue host vault value p).1.world)
        × Distinct (accounts (rename_person host vault account_id value p).1.world)
  issue-rename_person-Distinct stable account_id value p h =
      (issue-Distinct stable value p h, rename_person-Distinct stable account_id value p h)
