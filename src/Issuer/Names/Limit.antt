-- ===== src/Issuer/Names/Limit.antt =====
-- `reserve_device_name` and the limit of twelve devices.
use evgenium_network_linux.Prelude.{
  ℕ, string_eq, All, All-mono, All-sorted, Dict, List, Option-cases, String, [], arith, eq_iff, get,
  has, inl, inr, keep, keys, put, refl, sorted, true, ◌∙◌, ◌∷◌, ◌≡◌, Bool, ap, count_if, none, not,
  ok, some, values, ◌+◌, ◌<◌, ◌⊎◌, Bool-cases, get-put_self, leb, value_or, sym,
}
use evgenium_network_linux.Issuer.Model.{Account, Device, DeviceName}
use evgenium_network_linux.Issuer.Names.{
  ensure_device_names, active_device_count, default_name, enrolled_before, is_reserved_only,
  name_devices, Numbering, device_limit, is_retired, name_device, next_number, reserve_device_name,
  add_name, reserve_new,
}
use evgenium_network_linux.Issuer.Names.Numbers.{
  name_device_known, name_device_new, has-name_sorted,
}

has-cons :
    (k j : String) (r : Device) (d : Dict String Device)
    → has k d ≡ true
    → has k ((j, r) ∷ d) ≡ true
has-cons k j r d h = ground arith

has_self : (d : Dict String Device) → All (λ (e : String × Device). has e.0 d ≡ true) d
has_self [] = tt
has_self ((j, r) ∷ d) =
    (ground (arith, eq_iff j j), All-mono _ _ d (λ e h. has-cons e.0 j r d h) (has_self d))

-- Naming a recorded device reserves no further one.
keep-put :
    (records : Dict String Device) (d : String) (v : DeviceName) (names : Dict String DeviceName)
    → has d records ≡ true
    → keep (is_reserved_only records) (keys (put d v names))
      ≡ keep (is_reserved_only records) (keys names)
keep-put records d v [] h = ground arith
keep-put records d v ((i, w) ∷ names) h = ground (arith, keep-put records d v names h, eq_iff d i)

keep-name_device :
    (records : Dict String Device) (d : String) (names : Dict String DeviceName) (next : ℕ)
    → has d records ≡ true
    → keep (is_reserved_only records) (keys (name_device d (names, next)).0)
      ≡ keep (is_reserved_only records) (keys names)
keep-name_device records d names next h =
    let reserved = λ (st : Numbering). keep (is_reserved_only records) (keys st.0) in
    elim (Option-cases (get d names)) [
      | inl absent ↦
          ap reserved (name_device_new d names next absent)
          ∙ keep-put records d (default_name next) names h
      | inr (a, known) ↦ ap reserved (name_device_known d names next a known)
    ]

keep-name_devices :
    (records : Dict String Device) (devices : List (String × Device))
    (names : Dict String DeviceName) (next : ℕ)
    → All (λ (e : String × Device). has e.0 records ≡ true) devices
    → keep (is_reserved_only records) (keys (name_devices devices (names, next)).0)
      ≡ keep (is_reserved_only records) (keys names)
unfolding name_devices
keep-name_devices records [] names next h = refl
keep-name_devices records ((d, r) ∷ rest) names next h =
    keep-name_devices records rest (name_device d (names, next)).0 (name_device d (names, next)).1
      h.1
    ∙ keep-name_device records d names next h.0

-- the devices that are named but not recorded, as `ensure_device_names` leaves them
keep-ensure_device_names :
    (account : Account)
    → keep (is_reserved_only account.devices) (keys (ensure_device_names account).device_names)
      ≡ keep (is_reserved_only account.devices) (keys account.device_names)
unfolding ensure_device_names
keep-ensure_device_names account =
    keep-name_devices account.devices (sorted enrolled_before account.devices) account.device_names
      (next_number account.next_device_number (values account.device_names))
      (All-sorted _ enrolled_before account.devices (has_self account.devices))

devices-ensure_device_names :
    (account : Account) → (ensure_device_names account).devices ≡ account.devices
unfolding ensure_device_names
devices-ensure_device_names account = refl

abbrev is_active : Dict String Device → String → Bool
is_active records device = not (is_retired records device)

-- Giving names to recorded devices does not change how many devices are active.
active_device_count-ensure_device_names :
    (account : Account)
    → active_device_count (ensure_device_names account) ≡ active_device_count account
unfolding active_device_count devices-ensure_device_names ensure_device_names
active_device_count-ensure_device_names account =
    ap
      (λ reserved.
        count_if (is_active account.devices) (keys account.devices)
        + count_if (is_active account.devices) reserved)
      (keep-ensure_device_names account)

-- A name for a device that has neither a name nor a record is one more active device.
count_if-keep-put :
    (records : Dict String Device) (d : String) (v : DeviceName) (names : Dict String DeviceName)
    → get d records ≡ none
    → get d names ≡ none
    → count_if (is_active records) (keep (is_reserved_only records) (keys (put d v names)))
      ≡ count_if (is_active records) (keep (is_reserved_only records) (keys names)) + 1
unfolding is_retired
count_if-keep-put records d v [] h e = ground arith
count_if-keep-put records d v ((i, w) ∷ names) h e =
    ground (arith, count_if-keep-put records d v names h)

not_recorded :
    (account : Account) (d : String)
    → get d (ensure_device_names account).device_names ≡ none
    → get d account.devices ≡ none
unfolding ensure_device_names
not_recorded account d h = elim (Option-cases (get d account.devices)) [
  | inl absent ↦ absent
  | inr (r, e) ↦ absurd (
      let named =
        has-name_sorted enrolled_before account.devices account.device_names
          (next_number account.next_device_number (values account.device_names)) d r e in
      ground arith)
]

active_device_count-add_name :
    (device : String) (account : Account)
    → get device account.devices ≡ none
    → get device account.device_names ≡ none
    → active_device_count (add_name device account) ≡ active_device_count account + 1
unfolding active_device_count add_name
active_device_count-add_name device account h e = omega (
  arith,
  count_if-keep-put account.devices device (default_name (value_or 1 account.next_device_number))
      account.device_names h e,
)

name-add_name :
    (device : String) (account : Account)
    → get device (add_name device account).device_names
      ≡ some (default_name (value_or 1 account.next_device_number))
unfolding add_name
name-add_name device account =
    get-put_self device (default_name (value_or 1 account.next_device_number)) account.device_names

reserve_new_count :
    (device : String) (account account' : Account) (name : DeviceName)
    → get device account.devices ≡ none
    → get device account.device_names ≡ none
    → reserve_new device account ≡ ok (account', name)
    → (active_device_count account < device_limit)
      × (active_device_count account' ≡ active_device_count account + 1)
      × (get device account'.device_names ≡ some name)
unfolding reserve_new
reserve_new_count device account account' name h e r =
    elim (Bool-cases (leb device_limit (active_device_count account))) [
      | inl full ↦ absurd (ground arith)
      | inr room ↦
          let same : add_name device account ≡ account' = ground arith in
          let named : default_name (value_or 1 account.next_device_number) ≡ name = ground arith in
          (
            ground arith,
            rw (← same) (active_device_count-add_name device account h e),
            rw (← same) (name-add_name device account ∙ ap some named),
          )
    ]

pub reserve_known :
    (device : String) (account : Account) (old : DeviceName)
    → get device (ensure_device_names account).device_names ≡ some old
    → reserve_device_name device account ≡ ok (ensure_device_names account, old)
unfolding reserve_device_name
reserve_known device account old h = rw (h, reserve_device_name)

pub reserve_absent :
    (device : String) (account : Account)
    → get device (ensure_device_names account).device_names ≡ none
    → reserve_device_name device account ≡ reserve_new device (ensure_device_names account)
unfolding reserve_device_name
reserve_absent device account h = rw (h, reserve_device_name)

-- `reserve_device_name` leaves the number of active devices as it was, or raises it by one from
-- below twelve; the name that it returns is the device's name in the account.
pub reserve_device_name-active_device_count :
    (device : String) (account account' : Account) (name : DeviceName)
    → reserve_device_name device account ≡ ok (account', name)
    → ((active_device_count account' ≡ active_device_count account)
        ⊎ ((active_device_count account < device_limit)
            × (active_device_count account' ≡ active_device_count account + 1)))
      × (get device account'.device_names ≡ some name)
unfolding reserve_device_name
reserve_device_name-active_device_count device account account' name h =
    elim (Option-cases (get device (ensure_device_names account).device_names)) [
      | inl absent ↦
          let count = active_device_count-ensure_device_names account in
          let new =
            reserve_new_count device (ensure_device_names account) account' name
              (ap (get device) (devices-ensure_device_names account)
                ∙ not_recorded account device absent)
              absent (sym (reserve_absent device account absent) ∙ h) in
          (inr (omega (arith, new.0, new.1, count), omega (arith, new.1, count)), new.2)
      | inr (old, known) ↦
          let found = reserve_known device account old known in
          let same : ensure_device_names account ≡ account' = cc in
          let named : old ≡ name = cc in
          (
            inl (rw (← same) (active_device_count-ensure_device_names account)),
            rw (← same) (known ∙ ap some named),
          )
    ]
