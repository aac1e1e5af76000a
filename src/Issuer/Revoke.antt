-- ===== src/Issuer/Revoke.antt =====
-- Revocation in server/token_issuer.py: peers, devices and accounts.
-- The locks are held by the caller of each body, which runs alone.
pub mod Quietly
pub mod Deletion
pub mod OneDevice
use evgenium_network_linux.Prelude.{
  nat_eq, string_eq, option_eq, Bool, Exec, List, Option, String, [], false, if◌then◌else◌, is_hex,
  matches_class, none, not, pure, raise, raise_if, some, true, value_or, ℕ, ◌&&◌, ◌==◌, ◌>>=◌, ◌>>◌,
  ◌||◌, ◌∷◌, Dict, get, gets, or_raise, put, value_error, values,
}
use evgenium_network_linux.Issuer.Model.{Device, Account, Accounts, truthy}
use evgenium_network_linux.Issuer.Host.{Host, World, accounts, now, write_json}
use evgenium_network_linux.Issuer.Wireguard.Peers.{remove_peer}
use evgenium_network_linux.Issuer.Certificates.{revoke_certificates, add_once}
use evgenium_network_linux.Issuer.Wireguard.Address.{is_wireguard}

module _ {E : Type 0} (host : Host E) where
  -- `{d['identity'] for d in records if d.get('type', 'ikev2') == 'ikev2'}`
  pub certificate_holders : List Device → List String → List String
  certificate_holders [] found = found
  certificate_holders (d ∷ rest) found =
      certificate_holders rest
        (if value_or "ikev2" d.device_type == "ikev2" then add_once d.identity found else found)

  pub remove_peers : List Device → Exec (World E) (Unit {0})
  remove_peers [] = pure tt
  remove_peers (d ∷ rest) = do
    if is_wireguard d then remove_peer host d else pure tt
    remove_peers rest

  pub revoke_records : List Device → Exec (World E) (Unit {0})
  revoke_records records = do
    remove_peers records
    revoke_certificates host (certificate_holders records [])

-- `record['disabled'] = True; record['revoke_pending'] = True`
abbrev pub disable : Device → Device
disable d = record d { disabled = true; revoke_pending = true }

-- `record.pop('revoke_pending', None); record['revoked'] = now`
abbrev pub retire : ℕ → Device → Device
retire t d = record d { revoke_pending = false; revoked = some t }

abbrev pub map_values {ℓ κ} : {K : Type ℓ} {V : Type κ} → (V → V) → Dict K V → Dict K V
map_values f [] = []
map_values f ((k, v) ∷ d) = (k, f v) ∷ map_values f d

abbrev pub doomed : Account → Account
doomed account = record account {
  enabled = false;
  delete_pending = true;
  devices = map_values disable account.devices;
}

-- `records[device] = record`, where `records` is the account's own dict
abbrev pub with_device : String → Device → Account → Account
with_device device d account = record account { devices = put device d account.devices }

abbrev pub account_id_ok : String → Bool
account_id_ok id = matches_class is_hex 24 id

module _ {E : Type 0} (host : Host E) where
  -- each record gets its own reading of the clock
  pub retire_all : Dict String Device → Exec (World E) (Dict String Device)
  retire_all [] = pure []
  retire_all ((k, d) ∷ rest) = do
    t ← now host
    rest' ← retire_all rest
    pure ((k, retire t d) ∷ rest')

  -- the part of `delete_account` between the two writes, with the account as it is written last
  pub retire_account : Account → Exec (World E) Account
  retire_account account = do
    revoke_records host (values account.devices)
    devices ← retire_all account.devices
    t ← now host
    pure (record account { devices = devices; deleted = some t; delete_pending = false })

  -- `delete_account` for an account that is there and not deleted yet
  pub delete_known : String → Account → Accounts → Exec (World E) (Unit {0})
  delete_known id account data_ = do
    write_json host (put id (doomed account) data_)
    gone ← retire_account (doomed account)
    write_json host (put id gone data_)

  -- `None` is an id that is not a text; the answer is always `{'deleted': True}`
  unfoldable pub delete_account : Option String → Exec (World E) (Unit {0})
  delete_account none = raise (value_error "invalid_account")
  delete_account (some id) = do
    raise_if (not (account_id_ok id)) (value_error "invalid_account")
    data_ ← gets accounts
    account ← or_raise (get id data_) (value_error "account_missing")
    if truthy account.deleted then pure tt else delete_known id account data_

  -- the part of `revoke_device` between the two writes
  pub retire_device : Device → Exec (World E) Device
  retire_device d = do revoke_records host (d ∷ []); t ← now host; pure (retire t d)

  pub revoke_known : String → Account → Accounts → String → Device → Exec (World E) (Unit {0})
  revoke_known id account data_ device d = do
    write_json host (put id (with_device device (disable d) account) data_)
    gone ← retire_device (disable d)
    write_json host (put id (with_device device gone account) data_)

  pub revoke_device : Option String → Option String → Exec (World E) (Unit {0})
  revoke_device none device = raise (value_error "invalid_account")
  revoke_device (some id) none = do
    raise_if (not (account_id_ok id)) (value_error "invalid_account")
    raise (value_error "invalid_device")
  revoke_device (some id) (some device) = do
    raise_if (not (account_id_ok id)) (value_error "invalid_account")
    raise_if (not (matches_class is_hex 32 device)) (value_error "invalid_device")
    data_ ← gets accounts
    account ← or_raise (get id data_) (value_error "account_missing")
    raise_if (truthy account.deleted || account.delete_pending) (value_error "account_missing")
    d ← or_raise (get device account.devices) (value_error "device_missing")
    if truthy d.revoked && not d.revoke_pending
        then pure tt
        else revoke_known id account data_ device d
