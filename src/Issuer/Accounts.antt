-- ===== src/Issuer/Accounts.antt =====
-- Access tokens and device names (server/token_issuer.py): `issue`, `authenticate`,
-- `normalize_device_name` and `device_info`.
pub mod Laws
use Prim.Native.String.{count}
use evgenium_network_linux.Prelude.{
  nat_eq, string_eq, Bool, Exec, Option, Result, String, err, false, none, ok, some, ◌<>◌, ◌==◌,
  all_chars, first, get, gets, if◌then◌else◌, is_hex, is_name_char, leb, lift, matches_class, not,
  permission_error, pure, put, raise_if, strip, strip_prefix, value_error, ℕ, ◌&&◌, ◌>>=◌, ◌>>◌,
}
use evgenium_network_linux.Prelude.Json.{Json, find_field, as_text}
use evgenium_network_linux.Issuer.Model.{Device, Account, Accounts, DeviceName, new_account, truthy}
use evgenium_network_linux.Issuer.Names.{reserve_device_name}
use evgenium_network_linux.Issuer.Host.{Host, World, accounts, now, token_hex, write_json}

-- `re.fullmatch(TOKEN_PATTERN, token)`
unfoldable pub is_token : String → Bool
unfolding strip_prefix matches_class is_name_char
is_token token = elim (strip_prefix "EVN1-" token) [
  | none ↦ false
  | some secret ↦ matches_class is_name_char 43 secret
]

-- the condition of the loop in `authenticate`
abbrev pub opens : String → String × Account → Bool
opens digest (identity, account) =
    account.token_hash == digest
    && account.enabled
    && not (truthy account.deleted)
    && not account.delete_pending

abbrev pub name_length_max : ℕ
name_length_max = 64

abbrev pub is_disabled : Option Device → Bool
is_disabled none = false
is_disabled (some d) = d.disabled

-- `body.get('device', '')`, which must match `[a-f0-9]{32}`
unfoldable pub device_id : Json → Result String
device_id (Json.object body) = elim (as_text (find_field "device" body)) [
  | none ↦ err (value_error "invalid_device")
  | some id ↦ if matches_class is_hex 32 id then ok id else err (value_error "invalid_device")
]
device_id _ = err (value_error "invalid_request")

abbrev pub text_field : String → Json → Option String
text_field key (Json.object body) = as_text (find_field key body)
text_field key _ = none

module _ {E : Type 0} (host : Host E) where
  -- `None` is a token that is missing or not a text
  unfoldable pub authenticate : Accounts → Option String → Result (String × Account)
  unfolding is_token
  authenticate data_ none = err (permission_error "invalid_token")
  authenticate data_ (some token) =
      if is_token token
      then elim (first (opens (host.sha256 token)) data_) [
        | none ↦ err (permission_error "invalid_token")
        | some found ↦ ok found
      ]
      else err (permission_error "invalid_token")

  -- `not name or len(name) > 80 or any(ord(c) < 32 for c in name)`
  unfoldable pub is_customer_name : String → Bool
  is_customer_name name = not (name == "") && leb (count name) 80 && all_chars (λ c. leb 32 c) name

  unfoldable pub token_urlsafe : ℕ → Exec (World E) String
  token_urlsafe n w = let (s, env) = host.token_urlsafe n w.env in (ok s, record w { env = env })

  -- `issue` for a valid name
  unfoldable pub issue_named : String → Exec (World E) String
  unfolding token_urlsafe
  issue_named name = do
    secret ← token_urlsafe 32
    account ← token_hex host 12
    data_ ← gets accounts
    t ← now host
    write_json host (put account (new_account name (host.sha256 ("EVN1-" <> secret)) t) data_)
    pure ("EVN1-" <> secret)

  unfoldable pub issue : String → Exec (World E) String
  unfolding is_customer_name
  issue name = do
    raise_if (not (is_customer_name name)) (value_error "Invalid customer name")
    issue_named name

  -- `None` is a value that is not a text
  unfoldable pub normalize_device_name : Option String → Result String
  normalize_device_name none = err (value_error "invalid_device_name")
  normalize_device_name (some value) =
      let name = strip host.is_space (host.nfc value) in
      if leb 1 (count name)
        && leb (count name) name_length_max
        && all_chars (λ c. not (host.is_control c)) name
      then ok name
      else err (value_error "invalid_device_name")

  -- `normalize_device_name(body['name']) if 'name' in body else None`
  unfoldable pub requested_name : Json → Result (Option String)
  requested_name (Json.object body) = elim (find_field "name" body) [
    | none ↦ ok none
    | some value ↦ elim (normalize_device_name (as_text (some value))) [
      | ok name ↦ ok (some name)
      | err e ↦ err e
    ]
  ]
  requested_name _ = ok none

  -- `if name is not None: record['name'] = name`, on the record inside the account
  unfoldable pub rename : String → Option String → Account × DeviceName → Account × DeviceName
  rename device none (account, d) = (account, d)
  rename device (some name) (account, d) =
      let renamed = record d { name = name } in
      (record account { device_names = put device renamed account.device_names }, renamed)

  unfoldable pub device_info : Json → Exec (World E) DeviceName
  unfolding device_id requested_name authenticate rename
  device_info body = do
    device ← lift (device_id body)
    name ← lift (requested_name body)
    data_ ← gets accounts
    found ← lift (authenticate data_ (text_field "token" body))
    raise_if (is_disabled (get device found.1.devices)) (permission_error "device_disabled")
    reserved ← lift (reserve_device_name device found.1)
    let named = rename device name reserved
    write_json host (put found.0 named.0 data_)
    pure named.1
