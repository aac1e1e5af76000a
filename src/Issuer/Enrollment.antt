-- ===== src/Issuer/Enrollment.antt =====
-- `enroll_wireguard` of server/token_issuer.py. The lock is held by the caller of the body.
pub mod Outcome
mod Named
mod Committed
use evgenium_network_linux.Prelude.{
  nat_eq, string_eq, option_eq, Bool, Exec, Option, Result, String, err, false, none, ok, some,
  ◌==◌, List, [], all, any, contains, get, gets, has, if◌then◌else◌, is_hex, leb, lift,
  matches_class, not, permission_error, pure, put, raise_if, strip, true, value_error, value_or,
  ◌&&◌, ◌<>◌, ◌>>=◌, ◌>>◌, ◌||◌, ◌∷◌,
}
use evgenium_network_linux.Prelude.Json.{Json, find_field, as_text, field_names}
use evgenium_network_linux.Issuer.Model.{Device, Account, Accounts, DeviceName}
use evgenium_network_linux.Issuer.Names.{reserve_device_name, active_device_count, device_limit}
use evgenium_network_linux.Issuer.Host.{Host, World, accounts, now, write_json}
use evgenium_network_linux.Issuer.Accounts.{authenticate, normalize_device_name, rename, text_field}
use evgenium_network_linux.Issuer.Revoke.{with_device}
use evgenium_network_linux.Issuer.Wireguard.Key.{public_key}
use evgenium_network_linux.Issuer.Wireguard.Address.{allocate_address, is_wireguard}
use evgenium_network_linux.Issuer.Wireguard.Peers.{config, apply_peer}

-- what a body asks for, once it is checked
pub record Request : Type 0 where
  pub device : String
  pub key : String
  pub name : Option String

-- what changes from call to call in the answer
pub record Profile : Type 0 where
  pub device : String
  pub account : String
  pub device_name : DeviceName
  pub public_key : String
  pub endpoint : String
  pub address : Option String

abbrev accepted_fields : List String
accepted_fields = "operation" ∷ "token" ∷ "device" ∷ "public_key" ∷ "name" ∷ []

-- `device` must be a text that matches `[a-f0-9]{32}`
abbrev checked_device : Option String → Result String
checked_device none = err (value_error "invalid_device")
checked_device (some id) =
    if matches_class is_hex 32 id then ok id else err (value_error "invalid_device")

-- whether the account may enroll this device under this key
unfoldable pub admit : String → String → Account → Result (Unit {0})
admit device key account = elim (get device account.devices) [
  | some d ↦
      if d.disabled
      then err (permission_error "device_disabled")
      else (if not (is_wireguard d) || not (value_or "" d.public_key == key)
          then err (permission_error "device_key_changed")
          else ok tt)
  | none ↦
      if not (has device account.device_names) && leb device_limit (active_device_count account)
      then err (permission_error "device_limit")
      else ok tt
]

-- the device records of an account that use the key, save the one that enrolls
abbrev pub uses_key : String → Device → Bool
uses_key key d = is_wireguard d && d.public_key == some key

abbrev pub key_used : String → String → String → Accounts → Bool
key_used key id device data_ =
    any (λ e. any (λ r. uses_key key r.1 && (not (e.0 == id) || not (r.0 == device))) e.1.devices)
      data_

abbrev pub pending : Device → Device
pending d = record d { enroll_pending = true }

abbrev pub completed_record : Device → Device
completed_record d = record d { enroll_pending = false }

module _ {E : Type 0} (host : Host E) where
  -- `if body['name'].strip(): name = normalize_device_name(body['name'])`
  unfoldable pub optional_name : Option Json → Result (Option String)
  optional_name none = ok none
  optional_name (some (Json.string s)) =
      if strip host.is_space s == ""
      then ok none
      else elim (normalize_device_name host (some s)) [ ok name ↦ ok (some name) | err e ↦ err e ]
  optional_name (some _) = err (value_error "invalid_device_name")

  unfoldable pub checked_request : Json → Result Request
  unfolding optional_name
  checked_request (Json.object body) =
      if not (all (contains accepted_fields) (field_names body))
      then err (value_error "invalid_request")
      else elim (checked_device (as_text (find_field "device" body))) [
        | err e ↦ err e
        | ok device ↦ elim (public_key (as_text (find_field "public_key" body))) [
          | err e ↦ err e
          | ok key ↦ elim (optional_name (find_field "name" body)) [
            | err e ↦ err e
            | ok name ↦ ok (record { device = device; key = key; name = name })
          ]
        ]
      ]
  checked_request _ = err (value_error "invalid_request")

  -- `previous or {...}`
  unfoldable pub record_for : String → Accounts → Option Device → Exec (World E) Device
  record_for key data_ (some previous) = pure previous
  record_for key data_ none = do
    free ← lift (allocate_address data_)
    t ← now host
    pure (record {
      device_type = some "wireguard";
      identity = "wg:" <> key;
      key_hash = none;
      public_key = some key;
      address = some free;
      enrolled = some t;
      disabled = false;
      revoke_pending = false;
      revoked = none;
      enroll_pending = false;
    })

  -- from the first write on: `account` is the account with its names
  unfoldable pub commit : String → Account → Accounts → String → Device → Exec (World E) (Unit {0})
  commit id account data_ device d = do
    write_json host (put id (with_device device (pending d) account) data_)
    apply_peer host (pending d)
    write_json host (put id (with_device device (completed_record d) account) data_)

  -- the body under the lock, once the device is admitted
  unfoldable pub enroll_admitted : Request → String → Account → Accounts → Exec (World E) Profile
  unfolding record_for commit
  enroll_admitted request id account data_ = do
    cfg ← config host
    d ← record_for request.key data_ (get request.device account.devices)
    reserved ← lift (reserve_device_name request.device account)
    let named = rename host request.device request.name reserved
    commit id named.0 data_ request.device d
    pure (record {
      device = request.device;
      account = id;
      device_name = named.1;
      public_key = cfg.key;
      endpoint = cfg.endpoint;
      address = d.address;
    })

  -- the body under the lock
  unfoldable pub enroll_checked : Request → Option String → Exec (World E) Profile
  unfolding admit enroll_admitted
  enroll_checked request token = do
    data_ ← gets accounts
    found ← lift (authenticate host data_ token)
    lift (admit request.device request.key found.1)
    raise_if (key_used request.key found.0 request.device data_)
        (permission_error "device_key_used")
    enroll_admitted request found.0 found.1 data_

  unfoldable pub enroll_wireguard : Json → Exec (World E) Profile
  unfolding checked_request enroll_checked
  enroll_wireguard body = do
    request ← lift (checked_request body)
    enroll_checked request (text_field "token" body)
