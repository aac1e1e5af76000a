-- ===== src/Issuer/Certify.antt =====
-- `enroll` of server/token_issuer.py: a certificate for the key of a device. The locks are held by
-- the caller of the body.
pub mod Issued
mod Keyed
use Prim.Native.String.{count}
use evgenium_network_linux.Prelude.{
  nat_eq, string_eq, option_eq, Bool, Exec, Option, Result, String, err, ok, none, some, ◌==◌, [],
  false, finally_do, get, gets, has, if◌then◌else◌, includes, key_error, leb, lift, not, os_error,
  permission_error, pure, put, timeout_expired, value_error, value_or, ℕ, ◌&&◌, ◌<>◌, ◌>>=◌, ◌>>◌,
  ◌||◌, ◌∷◌,
}
use evgenium_network_linux.Prelude.Json.{Json}
use evgenium_network_linux.Issuer.Model.{Device, Account, Accounts, DeviceName}
use evgenium_network_linux.Issuer.Names.{reserve_device_name, active_device_count, device_limit}
use evgenium_network_linux.Issuer.Host.{
  Host, World, accounts, Outcome, change, exec_input, exists, exited, make_folder, not_started, now,
  read_text, remove_file, replace, returned_zero, run, set_mode, sync_file, timed_out, token_hex,
  write_json, write_text,
}
use evgenium_network_linux.Issuer.Accounts.{authenticate, device_id, text_field}
use evgenium_network_linux.Issuer.Revoke.{with_device}
use evgenium_network_linux.Issuer.Certificates.{ca_folder}

-- what changes from call to call in the answer
pub record Certificate : Type 0 where
  pub identity : String
  pub account : String
  pub device_name : DeviceName
  pub certificate : String
  pub ca : String

-- `not isinstance(csr, str) or not 100 <= len(csr) <= 12000 or ... not in csr`
unfoldable pub checked_csr : Option String → Result String
checked_csr none = err (value_error "invalid_csr")
checked_csr (some csr) =
    if leb 100 (count csr)
      && leb (count csr) 12000
      && includes "-----BEGIN CERTIFICATE REQUEST-----" csr
    then ok csr
    else err (value_error "invalid_csr")

abbrev pub type_of : Device → String
type_of d = value_or "ikev2" d.device_type

-- whether the account may have a certificate for this device
unfoldable pub admit_certificate : String → Account → Result (Unit {0})
admit_certificate device account = elim (get device account.devices) [
  | some d ↦
      if d.disabled
      then err (permission_error "device_disabled")
      else (if not (type_of d == "ikev2")
          then err (permission_error "device_type_changed")
          else ok tt)
  | none ↦
      if not (has device account.device_names) && leb device_limit (active_device_count account)
      then err (permission_error "device_limit")
      else ok tt
]

-- `re.search(rb'Public-Key: \((3072|4096) bit\)', out)` and `b'Modulus:' in out`
abbrev pub is_rsa : String → Bool
is_rsa out =
    (includes "Public-Key: (3072 bit)" out || includes "Public-Key: (4096 bit)" out)
    && includes "Modulus:" out

-- the status and the output of `openssl pkey`
unfoldable pub checked_rsa : Outcome → Result (Unit {0})
checked_rsa (exited status out) =
    if not (status == 0) || not (is_rsa out) then err (value_error "rsa3072_required") else ok tt
checked_rsa timed_out = err timeout_expired
checked_rsa not_started = err os_error

-- `previous['key_hash']` must be the hash of the key, where there is a previous record
unfoldable pub same_key : Option Device → String → Result (Unit {0})
same_key none key_hash = ok tt
same_key (some d) key_hash = elim d.key_hash [
  | none ↦ err key_error
  | some h ↦ if h == key_hash then ok tt else err (permission_error "device_key_changed")
]

abbrev blank_device : Device
blank_device = record {
  device_type = none;
  identity = "";
  key_hash = none;
  public_key = none;
  address = none;
  enrolled = none;
  disabled = false;
  revoke_pending = false;
  revoked = none;
  enroll_pending = false;
}

-- `{**(previous or {}), 'identity': ..., 'key_hash': ..., 'enrolled': ...}`
abbrev pub certified : Option Device → String → String → ℕ → Device
certified previous identity key_hash now =
    let d = value_or blank_device previous in
    record d {
      identity = identity;
      key_hash = some key_hash;
      enrolled = some (value_or now d.enrolled);
    }

abbrev pub folder_of : String → String
folder_of identity = ca_folder <> "/" <> identity

abbrev client_extension : String → String
client_extension identity =
    "[client]\nbasicConstraints=critical,CA:FALSE\nkeyUsage=critical,digitalSignature\nextendedKeyUsage=clientAuth\nsubjectAltName=DNS:"
    <> identity <> "\n"

module _ {E : Type 0} (host : Host E) where
  -- `previous['identity'] if previous else 'device-' + secrets.token_hex(12)`
  unfoldable pub identity_for : Option Device → Exec (World E) String
  identity_for none = do random ← token_hex host 12; pure ("device-" <> random)
  identity_for (some d) = pure d.identity

  -- the request on the disk, and the hash of its key once openssl has accepted it
  unfoldable pub key_hash_of : String → String → Exec (World E) String
  unfolding checked_rsa
  key_hash_of identity csr = do
    let request = folder_of identity <> "/client.csr"
    change host (make_folder (folder_of identity))
    change host (write_text request csr)
    change host (set_mode request)
    run host ("openssl" ∷ "req" ∷ "-in" ∷ request ∷ "-noout" ∷ "-verify" ∷ [])
    public_key ← run host ("openssl" ∷ "req" ∷ "-in" ∷ request ∷ "-noout" ∷ "-pubkey" ∷ [])
    outcome ← exec_input host ("openssl" ∷ "pkey" ∷ "-pubin" ∷ "-text" ∷ "-noout" ∷ []) public_key
    lift (checked_rsa outcome)
    pure (host.sha256 public_key)

  -- `certificate.exists() and subprocess.run(... -checkend ...).returncode == 0`
  unfoldable pub is_valid : String → Exec (World E) Bool
  is_valid certificate = do
    there ← exists host certificate
    if there
        then (do
          outcome ←
              exec_input host
                ("openssl" ∷ "x509" ∷ "-in" ∷ certificate ∷ "-checkend" ∷ "604800" ∷ "-noout" ∷ [])
                ""
          lift (returned_zero outcome))
        else pure false

  -- the `try` block around the signature
  unfoldable pub sign_pending : String → Exec (World E) (Unit {0})
  sign_pending identity = do
    let folder = folder_of identity
    let pending = folder <> "/cert.pem.pending"
    run host (
        "openssl"
        ∷ "ca"
        ∷ "-batch"
        ∷ "-notext"
        ∷ "-config"
        ∷ (ca_folder <> "/ca.conf")
        ∷ "-subj"
        ∷ ("/CN=" <> identity)
        ∷ "-extensions"
        ∷ "client"
        ∷ "-extfile"
        ∷ (folder <> "/client.ext")
        ∷ "-in"
        ∷ (folder <> "/client.csr")
        ∷ "-out"
        ∷ pending
        ∷ [])
    run host ("openssl" ∷ "verify" ∷ "-CAfile" ∷ (ca_folder <> "/ca.pem") ∷ pending ∷ [])
    change host (set_mode pending)
    change host (sync_file pending)
    replace host pending (folder <> "/cert.pem")

  unfoldable pub sign : String → Exec (World E) (Unit {0})
  unfolding sign_pending
  sign identity = do
    change host (write_text (folder_of identity <> "/client.ext") (client_extension identity))
    finally_do (sign_pending identity)
        (change host (remove_file (folder_of identity <> "/cert.pem.pending")))

  unfoldable pub ensure_certificate : String → Exec (World E) (Unit {0})
  unfolding is_valid sign
  ensure_certificate identity = do
    valid ← is_valid (folder_of identity <> "/cert.pem")
    if valid then pure tt else sign identity

  -- the record, once its certificate is there
  unfoldable pub prepare : Option Device → String → Exec (World E) Device
  unfolding identity_for key_hash_of same_key ensure_certificate
  prepare previous csr = do
    identity ← identity_for previous
    key_hash ← key_hash_of identity csr
    lift (same_key previous key_hash)
    ensure_certificate identity
    t ← now host
    pure (certified previous identity key_hash t)

  -- the body under the lock, once the device is admitted
  unfoldable pub certify :
      String → String → String → Account → Accounts → Exec (World E) Certificate
  unfolding prepare
  certify device csr id account data_ = do
    d ← prepare (get device account.devices) csr
    reserved ← lift (reserve_device_name device (with_device device d account))
    write_json host (put id reserved.0 data_)
    certificate ← read_text host (folder_of d.identity <> "/cert.pem")
    ca ← read_text host (ca_folder <> "/ca.pem")
    pure (record {
      identity = d.identity;
      account = id;
      device_name = reserved.1;
      certificate = certificate;
      ca = ca;
    })

  unfoldable pub enroll : Json → Exec (World E) Certificate
  unfolding checked_csr admit_certificate certify
  enroll body = do
    device ← lift (device_id body)
    csr ← lift (checked_csr (text_field "csr" body))
    data_ ← gets accounts
    found ← lift (authenticate host data_ (text_field "token" body))
    lift (admit_certificate device found.1)
    certify device csr found.0 found.1 data_
