-- ===== src/Panel/Accounts.antt =====
-- `Accounts` of server/panel/broker.py. Each method holds the issuer's lock while it reads and
-- writes, so it is one action; a request over the issuer's socket is served in between.
pub mod Distinct
pub mod Reveal
pub mod Deletion
use evgenium_network_linux.Prelude.{
  nat_eq, string_eq, option_eq, Bool, Exec, Option, Result, String, err, ok, none, some, ◌==◌, Dict,
  List, [], false, get, gets, has, if◌then◌else◌, is_hex, key_error, lift, matches_class, not,
  or_raise, pop, pure, put, raise_if, runtime_error, suc, true, value_error, value_or, zero, ℕ,
  ◌&&◌, ◌<>◌, ◌>>=◌, ◌>>◌, ◌||◌, ◌∷◌,
}
use evgenium_network_linux.Prelude.Json.{Json, Fields}
use evgenium_network_linux.Issuer.Model.{Device, DeviceName, Account, Accounts, truthy, new_account}
use evgenium_network_linux.Issuer.Names.{ensure_device_names}
use evgenium_network_linux.Issuer.Host.{Host, accounts, now, token_hex, write_json}
use evgenium_network_linux.Issuer.Accounts.{is_token, normalize_device_name, token_urlsafe}
use evgenium_network_linux.Issuer.Revoke.{account_id_ok}
use evgenium_network_linux.Issuer.Server.{Answer, dispatch, answer_of, deleted, revoked}
use evgenium_network_linux.Panel.Vault.{
  VaultHost, Panel, tokens, Tokens, delivered, encrypt, on_world, reply_lost, unreachable, with_env,
  write_tokens,
}
use evgenium_network_linux.Panel.Names.{name_key, name_taken}

-- one device of the listing
pub record DeviceRow : Type 0 where
  pub id : String
  pub identity : String
  pub name : DeviceName
  pub enrolled : Option ℕ
  pub disabled : Bool
  pub device_type : String
  pub address : Option String
  pub revoke_pending : Bool
  pub enroll_pending : Bool

pub record Row : Type 0 where
  pub id : String
  pub name : String
  pub enabled : Bool
  pub created : ℕ
  pub token_hint : String
  pub token_available : Bool
  pub delete_pending : Bool
  pub devices : List DeviceRow

-- the start of each method
unfoldable pub checked_id : Option String → Result String
checked_id none = err (value_error "invalid_account")
checked_id (some id) = if account_id_ok id then ok id else err (value_error "invalid_account")

-- `not account or account.get('deleted') or account.get('delete_pending')`
unfoldable pub live_account : String → Accounts → Result Account
live_account id data_ = elim (get id data_) [
  | none ↦ err (value_error "account_missing")
  | some a ↦
      if truthy a.deleted || a.delete_pending then err (value_error "account_missing") else ok a
]

abbrev pub with_name : String → Account → Account
with_name name a = record a { name = name }

-- `self.issuer.ensure_device_names(account)[key]['name'] = name`
unfoldable pub with_device_name : String → String → Account → Result Account
with_device_name key name a =
    let named = ensure_device_names a in
    elim (get key named.device_names) [
      | none ↦ err key_error
      | some d ↦
          ok (record named { device_names = put key (record d { name = name }) named.device_names })
    ]

-- the id must match `[a-f0-9]{32}` and be a device of the account
unfoldable pub held_device : Option String → Account → Result String
held_device none a = err (value_error "device_missing")
held_device (some key) a =
    if matches_class is_hex 32 key && has key a.devices
    then ok key
    else err (value_error "device_missing")

-- the first `n` characters
abbrev take_text : ℕ → String → String
take_text zero s = String.[]
take_text (suc n) String.[] = String.[]
take_text (suc n) (String.◌∷◌ c s) = String.◌∷◌ c (take_text n s)

device_row : Account → String × Device → Result DeviceRow
device_row a (key, d) = elim (get key a.device_names) [
  | none ↦ err key_error
  | some name ↦ ok (record {
    id = key;
    identity = d.identity;
    name = name;
    enrolled = d.enrolled;
    disabled = d.disabled;
    device_type = value_or "ikev2" d.device_type;
    address = d.address;
    revoke_pending = d.revoke_pending;
    enroll_pending = d.enroll_pending;
  })
]

device_rows : Account → Dict String Device → Result (List DeviceRow)
device_rows a [] = ok []
device_rows a (e ∷ rest) =
    let more = device_rows a rest in
    elim (device_row a e) [
      | err x ↦ err x
      | ok r ↦ elim more [ err x ↦ err x | ok rs ↦ ok (r ∷ rs) ]
    ]

-- the list that `listing` returns
unfoldable pub rows : Tokens → Accounts → Result (List Row)
unfolding device_row device_rows
rows vault [] = ok []
rows vault ((id, a) ∷ rest) =
    let more = rows vault rest in
    if truthy a.deleted then more else elim (device_rows a a.devices) [
      | err x ↦ err x
      | ok devices ↦ elim more [
        | err x ↦ err x
        | ok others ↦ ok (
            record {
              id = id;
              name = a.name;
              enabled = a.enabled;
              created = a.created;
              token_hint = take_text 8 a.token_hash;
              token_available = has id vault;
              delete_pending = a.delete_pending;
              devices = devices;
            }
            ∷ others)
      ]
    ]

abbrev pub name_all : Accounts → Accounts
name_all [] = []
name_all ((id, a) ∷ rest) = (id, ensure_device_names a) ∷ name_all rest

-- whether naming the devices of an account changes it: then its counter moves
abbrev pub unnamed : Accounts → Bool
unnamed [] = false
unnamed ((id, a) ∷ rest) =
    not ((ensure_device_names a).next_device_number == a.next_device_number) || unnamed rest

module _ {E : Type 0} (host : Host E) (vault : VaultHost E) where
  -- `issue` for a checked name that nobody has
  unfoldable pub issue_new : String → Exec (Panel E) String
  issue_new name = do
    data_ ← gets (λ p. accounts p.world)
    secret ← on_world (token_urlsafe host 32)
    let token = "EVN1-" <> secret
    id ← on_world (token_hex host 12)
    old ← gets tokens
    cipher ← encrypt vault token
    write_tokens vault (put id cipher old)
    t ← on_world (now host)
    on_world (write_json host (put id (new_account name (host.sha256 token) t) data_))
    pure id

  unfoldable pub issue : Option String → Exec (Panel E) String
  unfolding issue_new
  issue value = do
    named ← lift (name_key host vault value)
    data_ ← gets (λ p. accounts p.world)
    taken ← lift (name_taken host vault (λ i. false) named.1 data_)
    raise_if taken (value_error "person_exists")
    issue_new named.0

  -- `token(account_id, existing)` with an `existing` token: it is saved
  unfoldable pub import_token : Option String → Option String → Exec (Panel E) (Unit {0})
  import_token account_id existing = do
    id ← lift (checked_id account_id)
    data_ ← gets (λ p. accounts p.world)
    account ← lift (live_account id data_)
    token ← or_raise existing (value_error "token_mismatch")
    raise_if (not (is_token token)) (value_error "token_mismatch")
    raise_if (not (account.token_hash == host.sha256 token)) (value_error "token_mismatch")
    old ← gets tokens
    cipher ← encrypt vault token
    write_tokens vault (put id cipher old)

  -- `token(account_id)`: the stored token
  unfoldable pub reveal : Option String → Exec (Panel E) String
  reveal account_id = do
    id ← lift (checked_id account_id)
    data_ ← gets (λ p. accounts p.world)
    account ← lift (live_account id data_)
    old ← gets tokens
    cipher ← or_raise (get id old) (value_error "legacy_token_unavailable")
    token ← or_raise (vault.decrypt cipher) (runtime_error "InvalidToken")
    raise_if (not (account.token_hash == host.sha256 token))
        (value_error "token_changed_outside_panel")
    pure token

  unfoldable pub rename_person : Option String → Option String → Exec (Panel E) String
  rename_person account_id value = do
    id ← lift (checked_id account_id)
    data_ ← gets (λ p. accounts p.world)
    account ← lift (live_account id data_)
    named ← lift (name_key host vault value)
    taken ← lift (name_taken host vault (λ i. i == id) named.1 data_)
    raise_if taken (value_error "person_exists")
    on_world (write_json host (put id (with_name named.0 account) data_))
    pure named.0

  unfoldable pub rename_device :
      Option String → Option String → Option String → Exec (Panel E) String
  rename_device account_id value key = do
    id ← lift (checked_id account_id)
    data_ ← gets (λ p. accounts p.world)
    account ← lift (live_account id data_)
    held ← lift (held_device key account)
    name ← lift (normalize_device_name host value)
    renamed ← lift (with_device_name held name account)
    on_world (write_json host (put id renamed data_))
    pure name

  -- whether the issuer answered `{'ok': true, ...}`
  abbrev is_done : Result Answer → Bool
  is_done (ok deleted) = true
  is_done (ok revoked) = true
  is_done _ = false

  -- a request as root over the issuer's socket, and whether its answer came and was good
  unfoldable pub ask : (String → Result Json) → Json → Exec (Panel E) Bool
  ask loads body p =
      let (way, env) = vault.call p.world.env in
      let q = with_env env p in
      let (r, w) = dispatch host loads (record { wireguard_only = false; uid = 0 }) body q.world in
      elim way [
        | unreachable ↦ (ok false, q)
        | reply_lost ↦ (ok false, record q { world = w })
        | delivered ↦ (ok (is_done (answer_of r)), record q { world = w })
      ]

  unfoldable pub delete : (String → Result Json) → Option String → Exec (Panel E) (Unit {0})
  unfolding ask
  delete loads account_id = do
    id ← lift (checked_id account_id)
    done ← ask loads (
        Json.object (
          Fields.field "operation" (Json.string "admin-delete-account")
            (Fields.field "id" (Json.string id) Fields.no_fields)))
    raise_if (not done) (value_error "delete_incomplete")
    data_ ← gets (λ p. accounts p.world)
    account ← or_raise (get id data_) (value_error "delete_incomplete")
    raise_if (not (truthy account.deleted)) (value_error "delete_incomplete")
    old ← gets tokens
    write_tokens vault (pop id old)

  unfoldable pub revoke :
      (String → Result Json) → Option String → Option String → Exec (Panel E) (Unit {0})
  unfolding ask
  revoke loads account_id key_given = do
    id ← lift (checked_id account_id)
    key ← or_raise key_given (value_error "device_missing")
    raise_if (not (matches_class is_hex 32 key)) (value_error "device_missing")
    done ← ask loads (
        Json.object (
          Fields.field "operation" (Json.string "admin-revoke-device") (
            Fields.field "id" (Json.string id)
              (Fields.field "device" (Json.string key) Fields.no_fields))))
    raise_if (not done) (value_error "revoke_incomplete")
    data_ ← gets (λ p. accounts p.world)
    account ← or_raise (get id data_) (value_error "revoke_incomplete")
    d ← or_raise (get key account.devices) (value_error "revoke_incomplete")
    raise_if (not (truthy d.revoked) || d.revoke_pending) (value_error "revoke_incomplete")

  -- the names that are missing are given and saved first
  unfoldable pub listing : Exec (Panel E) (List Row)
  unfolding rows
  listing = do
    data_ ← gets (λ p. accounts p.world)
    if unnamed data_ then on_world (write_json host (name_all data_)) else pure tt
    vault_tokens ← gets tokens
    lift (rows vault_tokens (name_all data_))
