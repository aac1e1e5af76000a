-- ===== src/Issuer/Wireguard/Address.antt =====
-- The addresses of WireGuard peers: `address` and `allocate_address` of
-- server/wireguard_backend.py.
pub mod Pool
use Prim.Native.String.{count}
use Prim.Native.Char.{code}
use text.Mathlib.Text.{starts_with}
use evgenium_network_linux.Prelude.{
  nat_eq, string_eq, option_eq, Bool, List, Option, Result, String, [], contains, err,
  if◌then◌else◌, is_digit, ltb, none, ok, permission_error, some, split, str, suc, value_error,
  values, zero, ℕ, ◌&&◌, ◌*◌, ◌++◌, ◌+◌, ◌-◌, ◌<>◌, ◌==◌, ◌||◌, ◌∷◌,
}
use evgenium_network_linux.Issuer.Model.{Accounts, Device}

digits_value : ℕ → String → Option ℕ
digits_value n String.[] = some n
digits_value n (String.◌∷◌ c s) =
    let rest = digits_value (n * 10 + (code c - b'0')) s in if is_digit (code c) then rest else none

-- a non-empty run of digits, and the number that it spells
unfoldable pub parse_number : String → Option ℕ
unfolding digits_value
parse_number s = if s == "" then none else digits_value 0 s

-- `ipaddress` takes at most three digits, no leading zero, and at most 255
parse_octet : String → Option ℕ
parse_octet s =
    if ltb 3 (count s) || (ltb 1 (count s) && starts_with s "0")
    then none
    else elim (parse_number s) [ none ↦ none | some n ↦ if ltb 255 n then none else some n ]

-- a mask that leaves no host bits, as a prefix length or in dotted form
is_host_mask : String → Bool
is_host_mask mask = parse_number mask == some 32 || mask == "255.255.255.255"

-- the last octet of 10.78.0.x
pool_octet : List String → Option ℕ
pool_octet (a ∷ b ∷ c ∷ d ∷ []) =
    if parse_octet a == some 10 && parse_octet b == some 78 && parse_octet c == some 0
    then parse_octet d
    else none
pool_octet _ = none

peer_octet : List String → Option ℕ
peer_octet (host ∷ []) = pool_octet (split b'.' host)
peer_octet (host ∷ mask ∷ []) = if is_host_mask mask then pool_octet (split b'.' host) else none
peer_octet _ = none

-- `f'10.78.0.{number}/32'`
abbrev pub pool_address : ℕ → String
pool_address n = "10.78.0." <> str n <> "/32"

unfoldable pub address : Option String → Result String
unfolding digits_value parse_number parse_octet is_host_mask pool_octet peer_octet
address none = err (value_error "invalid_peer_address")
address (some value) = elim (peer_octet (split b'/' value)) [
  | none ↦ err (value_error "invalid_peer_address")
  | some n ↦
      if n == 0 || n == 1 || n == 255
      then err (value_error "invalid_peer_address")
      else ok (pool_address n)
]

-- every device of every account, in order
abbrev pub all_devices : Accounts → List Device
all_devices [] = []
all_devices ((_, account) ∷ data_) = values account.devices ++ all_devices data_

abbrev pub is_wireguard : Device → Bool
is_wireguard device = device.device_type == some "wireguard"

-- the `used` set of `allocate_address`
abbrev pub used_addresses : List Device → List (Option String)
used_addresses [] = []
used_addresses (d ∷ rest) =
    let more = used_addresses rest in if is_wireguard d then d.address ∷ more else more

-- `for number in range(number, number + rounds)`
unfoldable pub find_free : ℕ → ℕ → List (Option String) → Result String
find_free zero number used = err (permission_error "address_pool_full")
find_free (suc rounds) number used =
    let rest = find_free rounds (number + 1) used in
    if contains used (some (pool_address number)) then rest else ok (pool_address number)

unfoldable pub allocate_address : Accounts → Result String
unfolding find_free
allocate_address data_ = find_free 253 2 (used_addresses (all_devices data_))
