-- ===== src/Panel/Vault.antt =====
-- What the panel's broker keeps beside the issuer's accounts: the encrypted tokens, in tokens.json
-- of its vault (server/panel/broker.py).
use evgenium_network_linux.Prelude.{
  Dict, Exec, Option, Result, String, err, ok, some, [], os_error, value_or,
}
use evgenium_network_linux.Issuer.Host.{World, WriteOutcome, written, not_replaced, not_synced}

-- how a call over the issuer's socket ends: not connected, served with the answer lost, or served
pub data Delivery : Type 0 where
  unreachable reply_lost delivered : Delivery

-- `encrypt` and `decrypt` are Fernet's, `none` for an InvalidToken; `nfkc` and `casefold` are
-- Python's; `write_tokens` is a whole-file write, `call` the way of a request to the issuer.
pub record VaultHost (E : Type 0) : Type 0 where
  pub encrypt : String → E → String × E
  pub decrypt : String → Option String
  pub write_tokens : E → WriteOutcome × E
  pub call : E → Delivery × E
  pub nfkc : String → String
  pub casefold : String → String

abbrev pub Tokens : Type 0
Tokens = Dict String String

pub record Panel (E : Type 0) : Type 0 where
  pub world : World E
  pub stored_tokens : Option Tokens

-- `tokens()`
abbrev pub tokens : {E : Type 0} → Panel E → Tokens
tokens p = value_or [] p.stored_tokens

abbrev pub with_env : {E : Type 0} → E → Panel E → Panel E
with_env env p = record p { world = record p.world { env = env } }

-- an action of the issuer's module
abbrev pub on_world : {E A : Type 0} → Exec (World E) A → Exec (Panel E) A
on_world m p = let (r, w) = m p.world in (r, record p { world = w })

unfoldable pub store_tokens :
    {E : Type 0} → WriteOutcome → Tokens → E → Panel E → Result (Unit {0}) × Panel E
store_tokens written t env p = (ok tt, record (with_env env p) { stored_tokens = some t })
store_tokens not_replaced t env p = (err os_error, with_env env p)
store_tokens not_synced t env p = (err os_error, record (with_env env p) { stored_tokens = some t })

module _ {E : Type 0} (vault : VaultHost E) where
  -- `atomic_json(self.vault/'tokens.json', vault)`
  unfoldable pub write_tokens : Tokens → Exec (Panel E) (Unit {0})
  unfolding store_tokens
  write_tokens t p =
      let (outcome, env) = vault.write_tokens p.world.env in store_tokens outcome t env p

  unfoldable pub encrypt : String → Exec (Panel E) String
  encrypt s p = let (c, env) = vault.encrypt s p.world.env in (ok c, with_env env p)
