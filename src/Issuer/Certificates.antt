-- ===== src/Issuer/Certificates.antt =====
-- `revoke_certificates` and `session_ids` of server/token_issuer.py: the certificates of devices
-- and their live sessions. The lock of the CA is held around the whole body.
pub mod Quietly
use Prim.Native.Char.{code}
use mathlib.Core.List.{head?}
use evgenium_network_linux.Prelude.{
  nat_eq, string_eq, option_eq, Bool, Error, Exec, List, Option, Result, String, [], all_chars,
  contains, drop, err, false, if◌then◌else◌, includes, is_digit, is_hex, leb, lift, ltb,
  matches_class, none, not, ok, pure, raise, raise_if, remove_prefix, runtime_error, search_value,
  some, split, split_on, strip, strip_prefix, suc, true, value_or, zero, ℕ, ◌&&◌, ◌++◌, ◌<>◌, ◌==◌,
  ◌>>=◌, ◌>>◌, ◌||◌, ◌∷◌, all, length, split_lines, value_error,
}
use evgenium_network_linux.Issuer.Host.{
  Host, World, exec_input, run, exists, read_text, replace, returned_zero,
}

-- `[^\s{}]`
is_value_char : ℕ → Bool
is_value_char c = not (c == 32 || (leb 9 c && leb c 13) || c == b'{' || c == b'}')

-- `(?=[\s}])`
ends_value : String → Bool
ends_value String.[] = false
ends_value (String.◌∷◌ c s) = not (is_value_char (code c)) && not (code c == b'{')

abbrev invalid_response : Error
invalid_response = runtime_error "invalid_session_response"

session_of : List String → String → Result (Option String)
session_of identities event =
    let header = value_or "" (head? (split_on "child-sas" event)) in
    let number = search_value is_digit ends_value "uniqueid=" header in
    elim (search_value is_value_char (λ rest. true) "remote-id=" header) [
      | none ↦ ok none
      | some remote ↦
          if contains identities remote
          then (elim number [ none ↦ err invalid_response | some n ↦ ok (some n) ])
          else ok none
    ]

sessions_of : List String → List String → Result (List String)
sessions_of identities [] = ok []
sessions_of identities (event ∷ events) =
    let rest = sessions_of identities events in
    elim (session_of identities event) [
      | err e ↦ err e
      | ok none ↦ rest
      | ok (some n) ↦ elim rest [ err e ↦ err e | ok ns ↦ ok (n ∷ ns) ]
    ]

-- the ids of the IKE sessions of the given identities, in the order of the listing
unfoldable pub session_ids : String → List String → Result (List String)
unfolding is_value_char ends_value session_of sessions_of
session_ids raw identities = sessions_of identities (drop 1 (split_on "list-sa event " raw))

-- `device-[a-f0-9]{24}`
unfoldable pub is_identity : String → Bool
is_identity s = elim (strip_prefix "device-" s) [
  | none ↦ false
  | some rest ↦ matches_class is_hex 24 rest
]

abbrev pub ca_folder : String
ca_folder = "/root/evgenium-ikev2-pki"

abbrev pub crl : String
crl = "/etc/swanctl/x509crl/devices.pem"

abbrev pending_crl : String
pending_crl = "/etc/swanctl/x509crl/devices.new"

abbrev openssl_ca : List String
openssl_ca = "openssl" ∷ "ca" ∷ "-batch" ∷ "-config" ∷ (ca_folder <> "/ca.conf") ∷ []

-- an identity joins the set once
abbrev pub add_once : String → List String → List String
add_once s set = if contains set s then set else set ++ s ∷ []

module _ {E : Type 0} (host : Host E) where
  -- one row of the CA's index, with the identities seen so far
  pub revoke_row : List String → List String → List String → Exec (World E) (List String)
  revoke_row identities (status ∷ _ ∷ _ ∷ serial ∷ _ ∷ subject ∷ []) seen =
      let identity = remove_prefix "/CN=" subject in
      if not (contains identities identity)
      then pure seen
      else if status == "R"
      then pure (add_once identity seen)
      else if serial == "" || not (all_chars (λ c. is_hex c || (leb b'A' c && leb c b'F')) serial)
      then raise (runtime_error "invalid_serial")
      else do
        run host (openssl_ca ++ "-revoke" ∷ (ca_folder <> "/" <> serial <> ".pem") ∷ [])
        pure (add_once identity seen)
  revoke_row identities _ seen = raise (runtime_error "invalid_ca_index")

  pub revoke_rows : List String → List String → List String → Exec (World E) (List String)
  revoke_rows identities [] seen = pure seen
  revoke_rows identities (row ∷ rows) seen = do
    seen' ← revoke_row identities (split 9 row) seen
    revoke_rows identities rows seen'

  pub issued_at : String → Exec (World E) ℕ
  issued_at path = do
    value ← run host ("openssl" ∷ "crl" ∷ "-in" ∷ path ∷ "-noout" ∷ "-lastupdate" ∷ [])
    lift (host.cert_time (remove_prefix "lastUpdate=" (strip host.is_space value)))

  -- `for _ in range(rounds)` with its `else`: publish until the time stamp advances
  pub publish : ℕ → ℕ → Exec (World E) (Unit {0})
  publish zero previous = raise (runtime_error "crl_clock_not_advanced")
  publish (suc rounds) previous = do
    run host (openssl_ca ++ "-gencrl" ∷ "-out" ∷ pending_crl ∷ [])
    issued ← issued_at pending_crl
    if ltb previous issued then pure tt else publish rounds previous

  pub terminate_all : List String → Exec (World E) (Unit {0})
  terminate_all [] = pure tt
  terminate_all (number ∷ numbers) = do
    outcome ← exec_input host ("swanctl" ∷ "--terminate" ∷ "--ike-id" ∷ number ∷ []) ""
    lift (returned_zero outcome)
    terminate_all numbers

  -- stop the sessions of the identities, until a listing shows none of them
  pub stop_sessions : ℕ → List String → Exec (World E) (Unit {0})
  stop_sessions zero identities = raise (runtime_error "sessions_still_active")
  stop_sessions (suc rounds) identities = do
    raw ← run host ("swanctl" ∷ "--list-sas" ∷ "--raw" ∷ [])
    raise_if (not (includes "list-sas reply" raw)) invalid_response
    sessions ← lift (session_ids raw identities)
    if length sessions == 0
        then pure tt
        else do terminate_all sessions; stop_sessions rounds identities

  pub restart_active : String → Exec (World E) (Unit {0})
  restart_active unit = do
    outcome ← exec_input host ("systemctl" ∷ "is-active" ∷ "--quiet" ∷ unit ∷ []) ""
    active ← lift (returned_zero outcome)
    if active then (do run host ("systemctl" ∷ "restart" ∷ unit ∷ []); pure tt) else pure tt

  pub revoke_and_stop : List String → Exec (World E) (Unit {0})
  revoke_and_stop identities = do
    index ← read_text host (ca_folder <> "/index.txt")
    seen ← revoke_rows identities (split_lines index) []
    raise_if (not (all (contains seen) identities)) (runtime_error "missing_certificate_history")
    published ← exists host crl
    previous ← if published then issued_at crl else pure 0
    publish 3 previous
    replace host pending_crl crl
    run host ("swanctl" ∷ "--load-creds" ∷ "--noprompt" ∷ [])
    stop_sessions 3 identities
    restart_active "evgenium-diagnostic-direct"
    restart_active "evgenium-diagnostic-collector"

  pub revoke_certificates : List String → Exec (World E) (Unit {0})
  revoke_certificates identities = do
    raise_if (not (all is_identity identities)) (value_error "invalid_device")
    if length identities == 0 then pure tt else revoke_and_stop identities
