-- ===== src/Issuer/Names.antt =====
-- The display names and numbers of a person's devices, and the limit of twelve devices
-- (server/token_issuer.py).
pub mod Numbers
pub mod Ensure
pub mod Limit
pub mod Recorded
pub mod Frame
use Prim.Native.String.{compare}
use text.Mathlib.Text.{is_lt}
use evgenium_network_linux.Prelude.{
  ℕ, suc, ◌+◌, max, String, ◌<>◌, Bool, false, not, ◌&&◌, ◌||◌, Option, none, some, List, [], ◌∷◌,
  ◌==◌, ltb, leb, if◌then◌else◌, Dict, get, has, put, keys, values, keep, count_if, sorted, str,
  value_or, Result, ok, err, permission_error, nat_eq, string_eq,
}
use evgenium_network_linux.Issuer.Model.{Device, DeviceName, Account, truthy}

abbrev pub device_limit : ℕ
device_limit = 12

enrolled_at : Device → ℕ
enrolled_at record_ = value_or 0 record_.enrolled

-- the key of `sorted`: the time of enrollment, then the id
pub enrolled_before : String × Device → String × Device → Bool
enrolled_before (i, d) (j, e) =
    ltb (enrolled_at d) (enrolled_at e) || (enrolled_at d == enrolled_at e && is_lt (compare i j))

-- one more than `counter`, so that it is a natural number
unfoldable pub next_number : Option ℕ → List DeviceName → ℕ
next_number stored [] = value_or 1 stored
next_number stored (d ∷ names) = max (suc d.number) (next_number stored names)

abbrev pub default_name : ℕ → DeviceName
default_name n = record { number = n; name = "Устройство-" <> str n }

abbrev pub Numbering : Type 0
Numbering = Dict String DeviceName × ℕ

pub name_device : String → Numbering → Numbering
name_device device (names, next) =
    if has device names then (names, next) else (put device (default_name next) names, suc next)

pub name_devices : List (String × Device) → Numbering → Numbering
name_devices [] st = st
name_devices ((device, _) ∷ rest) st = name_devices rest (name_device device st)

-- The account with the names and the counter that `ensure_device_names` leaves in it.
unfoldable pub ensure_device_names : Account → Account
unfolding enrolled_at enrolled_before next_number name_device name_devices
ensure_device_names account =
    let counted = next_number account.next_device_number (values account.device_names) in
    let st =
      name_devices (sorted enrolled_before account.devices) (account.device_names, counted) in
    record account { device_names = st.0; next_device_number = some st.1 }

-- A device that was disabled and whose revocation is complete.
unfoldable pub is_retired : Dict String Device → String → Bool
is_retired records device = elim (get device records) [
  | none ↦ false
  | some r ↦ r.disabled && truthy r.revoked && not r.revoke_pending
]

abbrev pub is_reserved_only : Dict String Device → String → Bool
is_reserved_only records device = not (has device records)

-- `set(records) | set(names)`: a dict holds each key once
unfoldable pub active_device_count : Account → ℕ
unfolding is_retired
active_device_count account =
    count_if active (keys account.devices)
    + count_if active (keep (is_reserved_only account.devices) (keys account.device_names))
  where
    active : String → Bool
    active device = not (is_retired account.devices device)

-- the account with one more name, under the next number
pub add_name : String → Account → Account
add_name device account =
    let number = value_or 1 account.next_device_number in
    record account {
      device_names = put device (default_name number) account.device_names;
      next_device_number = some (suc number);
    }

-- The changed account, and the name that the device has in it.
unfoldable pub reserve_new : String → Account → Result (Account × DeviceName)
unfolding active_device_count add_name
reserve_new device account =
    if leb device_limit (active_device_count account)
    then err (permission_error "device_limit")
    else ok (add_name device account, default_name (value_or 1 account.next_device_number))

unfoldable pub reserve_device_name : String → Account → Result (Account × DeviceName)
reserve_device_name device account =
    let named = ensure_device_names account in
    elim (get device named.device_names) [
      | some name ↦ ok (named, name)
      | none ↦ reserve_new device named
    ]
