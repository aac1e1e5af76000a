-- ===== src/Tests/Issuing.antt =====
-- The issuer at small accounts: names, addresses, keys, tokens, deletion and enrollment.
use evgenium_network_linux.Prelude.{
  nat_eq, string_eq, List, String, ℕ, some, true, All, [], arith, get, matches_class, ok, refl, ◌+◌,
  ◌<◌, ◌∷◌, ◌≡◌, ◌≤◌, ◌⊎◌, sorted, split, str, strip, Bool-cases, all, inl, inr, ltb, ltb→lt, false,
}
use evgenium_network_linux.Prelude.Json.{Json, Fields, field_names, find_field}
use evgenium_network_linux.Issuer.Model.{Account, Accounts, DeviceName, new_account}
use evgenium_network_linux.Issuer.Host.{accounts, now, run_or, token_hex, write_json}
use evgenium_network_linux.Issuer.Names.{
  ensure_device_names, active_device_count, default_name, reserve_device_name, reserve_new,
}
use evgenium_network_linux.Issuer.Names.Numbers.{HasDistinctNumbers, IsBelow}
use evgenium_network_linux.Issuer.Names.Ensure.{
  ensure_device_names-HasDistinctNumbers, ensure_device_names_complete,
}
use evgenium_network_linux.Issuer.Names.Limit.{reserve_device_name-active_device_count}
use evgenium_network_linux.Issuer.Wireguard.Key.{public_key, encode}
use evgenium_network_linux.Issuer.Wireguard.Key.RoundTrip.{public_key_iff}
use evgenium_network_linux.Issuer.Wireguard.Key.Bytes.{IsByte}
use evgenium_network_linux.Issuer.Wireguard.Address.{address, allocate_address, parse_number}
use evgenium_network_linux.Issuer.Wireguard.Address.Pool.{
  IsAllocated, allocate_address-IsAllocated, allocate_address-address,
}
use evgenium_network_linux.Issuer.Accounts.{
  authenticate, device_id, device_info, is_token, issue, text_field, issue_named,
  normalize_device_name, rename,
}
use evgenium_network_linux.Issuer.Accounts.Laws.{
  authenticate-Authentication, Authentication, device_info-stored, issue-authenticate,
}
use evgenium_network_linux.Issuer.Wireguard.Peers.{
  config, address_of, apply_peer, check_config, key_of,
}
use evgenium_network_linux.Issuer.Revoke.{delete_account, revoke_device}
use evgenium_network_linux.Issuer.Revoke.OneDevice.{revoke_device-Revocation, Revocation}
use evgenium_network_linux.Issuer.Revoke.Deletion.{delete_account-Deletion, Deletion}
use evgenium_network_linux.Issuer.Enrollment.{enroll_wireguard, Profile, commit}
use evgenium_network_linux.Issuer.Enrollment.Outcome.{enroll_wireguard-Enrolled, Enrolled}
use evgenium_network_linux.Tests.Machine.{
  machine, demo_account, demo_accounts, demo_address, demo_device, demo_device_id, demo_id,
  demo_key, demo_token, empty_account, world,
}

abbrev laptop : DeviceName
laptop = record { number = 3; name = "laptop" }

laptop-HasDistinctNumbers : HasDistinctNumbers demo_account.device_names
laptop-HasDistinctNumbers = record {
  distinct = λ i j a b ei ej same.
      ground
        (arith, ei, ej, string_eq.beq_iff i demo_device_id, string_eq.beq_iff j demo_device_id);
}

ensure_device_names-HasDistinctNumbers_example :
    HasDistinctNumbers (ensure_device_names demo_account).device_names
    × ((n : ℕ) × ((ensure_device_names demo_account).next_device_number ≡ some n)
        × IsBelow (ensure_device_names demo_account).device_names n)
ensure_device_names-HasDistinctNumbers_example =
    ensure_device_names-HasDistinctNumbers demo_account laptop-HasDistinctNumbers

abbrev unnamed_account : Account
unnamed_account = record demo_account { device_names = [] }

ensure_device_names_complete_example :
    (n : DeviceName) × (get demo_device_id (ensure_device_names unnamed_account).device_names
      ≡ some n)
ensure_device_names_complete_example = ensure_device_names_complete unnamed_account demo_device_id

abbrev phone : DeviceName
phone = default_name 4

abbrev with_phone : Account
with_phone = record demo_account {
  device_names = (demo_device_id, laptop) ∷ ("phone", phone) ∷ [];
  next_device_number = some 5;
}

reserve_device_name-active_device_count_example :
    ((active_device_count with_phone ≡ active_device_count demo_account)
      ⊎ ((active_device_count demo_account < 12)
          × (active_device_count with_phone ≡ active_device_count demo_account + 1)))
    × (get "phone" with_phone.device_names ≡ some phone)
unfolding reserve_device_name reserve_new ensure_device_names sorted
reserve_device_name-active_device_count_example =
    reserve_device_name-active_device_count "phone" demo_account with_phone phone refl

abbrev key_bytes : List ℕ
key_bytes =
    1 ∷ 0 ∷ 0 ∷ 0 ∷ 0 ∷ 0 ∷ 0 ∷ 0 ∷ 0 ∷ 0 ∷ 0 ∷ 0 ∷ 0 ∷ 0 ∷ 0 ∷ 0 ∷ 0 ∷ 0 ∷ 0 ∷ 0 ∷ 0 ∷ 0 ∷ 0 ∷ 0
    ∷ 0 ∷ 0 ∷ 0 ∷ 0 ∷ 0 ∷ 0 ∷ 0 ∷ 0 ∷ []

small-IsByte : (bs : List ℕ) → all (λ b. ltb b 256) bs ≡ true → All IsByte bs
small-IsByte [] h = tt
small-IsByte (b ∷ bs) h = elim (Bool-cases (ltb b 256)) [
  | inl small ↦ (ltb→lt b 256 small, small-IsByte bs (rw small at h))
  | inr big ↦ let r : false ≡ true = rw big at h in cc
]

key_bytes-IsByte : All IsByte key_bytes
key_bytes-IsByte = small-IsByte key_bytes refl

public_key_iff_example : public_key (some demo_key) ≡ ok demo_key
unfolding encode
public_key_iff_example = (public_key_iff demo_key).1 (key_bytes, key_bytes-IsByte, refl, refl, refl)

allocate_address-IsAllocated_example : IsAllocated demo_accounts (allocate_address demo_accounts)
allocate_address-IsAllocated_example = allocate_address-IsAllocated demo_accounts

allocate_address-address_example : address (some "10.78.0.3/32") ≡ ok "10.78.0.3/32"
unfolding allocate_address str
allocate_address-address_example = allocate_address-address demo_accounts "10.78.0.3/32" refl

authenticate-Authentication_example :
    Authentication machine demo_accounts
      (some demo_token)
      (authenticate machine demo_accounts (some demo_token))
authenticate-Authentication_example =
    authenticate-Authentication machine demo_accounts (some demo_token)

issue-authenticate_example :
    (id : String) × (t : ℕ) × (authenticate machine
        (accounts (issue machine "Anna" (world [])).1)
        (some demo_token)
      ≡ ok (id, new_account "Anna" demo_token t))
unfolding issue issue_named token_hex now write_json
issue-authenticate_example =
    issue-authenticate machine "Anna" demo_token (world []) (issue machine "Anna" (world [])).1
      (λ e. unfold is_token in refl) tt refl

abbrev renaming : Json
renaming = Json.object (
    Fields.field "device" (Json.string demo_device_id) (
      Fields.field "name" (Json.string " Laptop ")
        (Fields.field "token" (Json.string demo_token) Fields.no_fields)))

device_info-stored_example :
    (device : String) × (id : String) × (a a' : Account) × (device_id renaming ≡ ok device)
    × (authenticate machine demo_accounts (text_field "token" renaming) ≡ ok (id, a))
    × (get id (accounts (device_info machine renaming (world demo_accounts)).1) ≡ some a')
    × (get device a'.device_names ≡ some (record { number = 3; name = "Laptop" }))
    × ((active_device_count a' ≡ active_device_count a)
        ⊎ ((active_device_count a' ≡ active_device_count a + 1) × (active_device_count a' ≤ 12)))
unfolding device_info find_field normalize_device_name strip reserve_device_name ensure_device_names
    sorted write_json
device_info-stored_example =
    device_info-stored machine renaming (world demo_accounts)
      (device_info machine renaming (world demo_accounts)).1
      (record { number = 3; name = "Laptop" }) refl

delete_account-Deletion_example :
    Deletion machine demo_id demo_account
      (world demo_accounts)
      (delete_account machine (some demo_id) (world demo_accounts))
delete_account-Deletion_example =
    delete_account-Deletion machine demo_id demo_account (world demo_accounts)
      (unfold matches_class in refl) refl refl

abbrev enrolling : Json
enrolling = Json.object (
    Fields.field "operation" (Json.string "wireguard-enroll") (
      Fields.field "device" (Json.string demo_device_id) (
        Fields.field "public_key" (Json.string demo_key)
          (Fields.field "token" (Json.string demo_token) Fields.no_fields))))

abbrev fresh_accounts : Accounts
fresh_accounts = (demo_id, empty_account) ∷ []

abbrev profile : Profile
profile = record {
  device = demo_device_id;
  account = demo_id;
  device_name = default_name 1;
  public_key = demo_key;
  endpoint = "198.51.100.7:51820";
  address = some demo_address;
}

enroll_wireguard-Enrolled_example :
    Enrolled machine enrolling
      (world fresh_accounts)
      (enroll_wireguard machine enrolling (world fresh_accounts)).1
      profile
unfolding enroll_wireguard field_names find_field matches_class public_key authenticate
    active_device_count config check_config split parse_number allocate_address now
    reserve_device_name reserve_new ensure_device_names sorted commit write_json apply_peer key_of
    address_of address run_or str rename
enroll_wireguard-Enrolled_example =
    enroll_wireguard-Enrolled machine enrolling (world fresh_accounts)
      (enroll_wireguard machine enrolling (world fresh_accounts)).1 profile refl

revoke_device-Revocation_example :
    Revocation machine demo_id demo_account demo_device_id demo_device
      (world demo_accounts)
      (revoke_device machine (some demo_id) (some demo_device_id) (world demo_accounts))
revoke_device-Revocation_example =
    revoke_device-Revocation machine demo_id demo_account demo_device_id demo_device
      (world demo_accounts) (unfold matches_class in refl) (unfold matches_class in refl) refl refl
      refl refl
