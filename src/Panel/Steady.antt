-- ===== src/Panel/Steady.antt =====
-- What the panel's actions do to accounts.json (server/panel/broker.py): those that leave it alone,
-- and the write of it that ends a method.
use evgenium_network_linux.Prelude.{
  Exec, Result, continue, err, ok, pure, refl, subst, sym, ◌>>=◌, ◌>>◌, ◌∙◌, ◌≡◌, Bool, Error,
  false, raise_if, true,
}
use evgenium_network_linux.Issuer.Model.{Accounts}
use evgenium_network_linux.Issuer.Host.{
  Host, World, WriteOutcome, accounts, not_replaced, not_synced, store, write_json, written,
}
use evgenium_network_linux.Panel.Vault.{
  VaultHost, Panel, Tokens, on_world, store_tokens, write_tokens,
}

module _ {E : Type 0} where
  -- An action of the panel that leaves accounts.json alone.
  abbrev pub Steady : {A : Type 0} → Exec (Panel E) A → Type 0
  Steady m = (p : Panel E) → accounts (m p).1.world ≡ accounts p.world

  -- Where a first action leaves the accounts alone, only the rest matters.
  pub continue-steady :
      {A B : Type 0} (P : Accounts → Type 0) (d : Accounts) (r : Result A) (q : Panel E)
      (f : A → Exec (Panel E) B)
      → accounts q.world ≡ d
      → P d
      → ((a : A) (q' : Panel E) → accounts q'.world ≡ d → P (accounts (f a q').1.world))
      → P (accounts (continue r q f).1.world)
  continue-steady P d (ok a) q f e h rest = rest a q e
  continue-steady P d (err x) q f e h rest = subst P (sym e) h

  pub bind-steady :
      {A B : Type 0} (P : Accounts → Type 0) (d : Accounts) (m : Exec (Panel E) A)
      (f : A → Exec (Panel E) B) (p : Panel E)
      → Steady m
      → accounts p.world ≡ d
      → P d
      → ((a : A) (q : Panel E) → accounts q.world ≡ d → P (accounts (f a q).1.world))
      → P (accounts ((m >>= f) p).1.world)
  bind-steady P d m f p keeps e h rest = continue-steady P d (m p).0 (m p).1 f (keeps p ∙ e) h rest

  pub continue-lifted :
      {A B : Type 0} (P : Accounts → Type 0) (r : Result A) (p : Panel E) (f : A → Exec (Panel E) B)
      → P (accounts p.world)
      → ((a : A) → r ≡ ok a → P (accounts (f a p).1.world))
      → P (accounts (continue r p f).1.world)
  continue-lifted P (ok a) p f h rest = rest a refl
  continue-lifted P (err x) p f h rest = h

  pub raise_if-lifted :
      {A : Type 0} (P : Accounts → Type 0) (b : Bool) (x : Error) (p : Panel E)
      (m : Exec (Panel E) A)
      → P (accounts p.world)
      → (b ≡ false → P (accounts (m p).1.world))
      → P (accounts ((raise_if b x >> m) p).1.world)
  raise_if-lifted P false x p m h rest = rest refl
  raise_if-lifted P true x p m h rest = h

  store-accounts :
      {A : Type 0} (P : Accounts → Type 0) (d : Accounts) (outcome : WriteOutcome) (env : E)
      (w : World E) (p : Panel E) (a : A)
      → P (accounts w)
      → P d
      → P (
          accounts
            (continue
              (store outcome d env w).0
              (record p { world = (store outcome d env w).1 })
              (λ _. pure a)).1.world)
  unfolding store
  store-accounts P d written env w p a old new = new
  store-accounts P d not_replaced env w p a old new = old
  store-accounts P d not_synced env w p a old new = new

  module _ (host : Host E) (vault : VaultHost E) where
    -- what a write of accounts.json that is followed by a return leaves there
    pub write_json-accounts :
        {A : Type 0} (P : Accounts → Type 0) (d : Accounts) (p : Panel E) (a : A)
        → P (accounts p.world)
        → P d
        → P (accounts ((on_world (write_json host d) >> pure a) p).1.world)
    unfolding write_json
    write_json-accounts P d p a old new =
        let (outcome, env) = host.write_file p.world.env in
        store-accounts P d outcome env p.world p a old new

    store_tokens-Steady :
        (outcome : WriteOutcome) (t : Tokens) (env : E) (p : Panel E)
        → accounts (store_tokens outcome t env p).1.world ≡ accounts p.world
    unfolding store_tokens
    store_tokens-Steady written t env p = refl
    store_tokens-Steady not_replaced t env p = refl
    store_tokens-Steady not_synced t env p = refl

    pub write_tokens-Steady : (t : Tokens) → Steady (write_tokens vault t)
    unfolding write_tokens
    write_tokens-Steady t p =
        let (outcome, env) = vault.write_tokens p.world.env in store_tokens-Steady outcome t env p
