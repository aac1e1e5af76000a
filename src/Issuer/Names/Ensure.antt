-- ===== src/Issuer/Names/Ensure.antt =====
-- What `ensure_device_names` promises of an account.
use evgenium_network_linux.Prelude.{
  Option, none, Bool, false, Option-cases, inl, inr, ℕ, string_eq, String, get, refl, some, sorted,
  true, values, ◌≡◌, ◌∙◌,
}
use evgenium_network_linux.Issuer.Model.{Account, Device, DeviceName}
use evgenium_network_linux.Issuer.Names.{
  ensure_device_names, enrolled_before, name_devices, next_number,
}
use evgenium_network_linux.Issuer.Names.Numbers.{
  IsBelow, HasDistinctNumbers, get-name_devices, has-name_sorted, get-name_devices_absent,
  name_devices-IsBelow, name_devices-distinct, name_devices_idle, next_number-IsBelow,
  next_number_below, none_lacks,
}

-- The numbers of a person's devices stay distinct, and the stored counter ends above all of them.
pub ensure_device_names-HasDistinctNumbers :
    (account : Account)
    → HasDistinctNumbers account.device_names
    → HasDistinctNumbers (ensure_device_names account).device_names
      × ((n : ℕ) × ((ensure_device_names account).next_device_number ≡ some n)
          × IsBelow (ensure_device_names account).device_names n)
unfolding ensure_device_names
ensure_device_names-HasDistinctNumbers account u =
    let below = next_number-IsBelow account.next_device_number account.device_names in
    let devices = sorted enrolled_before account.devices in
    let counted = next_number account.next_device_number (values account.device_names) in
    (
      name_devices-distinct devices account.device_names counted below u,
      (
        (name_devices devices (account.device_names, counted)).1,
        refl,
        name_devices-IsBelow devices account.device_names counted below,
      ),
    )

-- what an id is named afterwards: as before, or in some way if it is a device
abbrev pub IsNamed : Option DeviceName → Option Device → Option DeviceName → Type 0
IsNamed (some old) device name = name ≡ some old
IsNamed none (some r) name = (n : DeviceName) × (name ≡ some n)
IsNamed none none name = name ≡ none

-- Afterwards, whatever names there were, each device has a name, a name that was there before is
-- unchanged, and nothing else has got a name.
pub ensure_device_names_complete :
    (account : Account) (d : String)
    → IsNamed
        (get d account.device_names)
        (get d account.devices)
        (get d (ensure_device_names account).device_names)
unfolding ensure_device_names
ensure_device_names_complete account d =
    let counted = next_number account.next_device_number (values account.device_names) in
    let devices = sorted enrolled_before account.devices in
    elim (Option-cases (get d account.device_names)) [
      | inr (old, named) ↦
          rw named (get-name_devices devices account.device_names counted d old named)
      | inl unnamed ↦ elim (Option-cases (get d account.devices)) [
        | inr (r, there) ↦
            rw (unnamed, there)
              (name_of _ (
                has-name_sorted enrolled_before account.devices account.device_names counted d r
                  there))
        | inl absent ↦
            rw (unnamed, absent)
              (get-name_devices_absent enrolled_before account.devices account.device_names counted
                  d absent
                ∙ unnamed)
      ]
    ]
  where
    name_of :
        (o : Option DeviceName)
        → (elim o as (λ x. Bool) [ none ↦ false | some w ↦ true ]) ≡ true
        → (n : DeviceName) × (o ≡ some n)
    name_of none h = absurd (cc)
    name_of (some n) h = (n, refl)

-- A second call of `ensure_device_names` changes nothing.
ensure_device_names_idem :
    (account : Account)
    → ensure_device_names (ensure_device_names account) ≡ ensure_device_names account
unfolding ensure_device_names
ensure_device_names_idem account =
    let devices = sorted enrolled_before account.devices in
    let counted = next_number account.next_device_number (values account.device_names) in
    let (names, next) = name_devices devices (account.device_names, counted) in
    let same : next_number (some next) (values names) ≡ next = next_number_below next names (
      name_devices-IsBelow devices account.device_names counted
        (next_number-IsBelow account.next_device_number account.device_names)) in
    let idle : name_devices devices (names, next) ≡ (names, next) =
      name_devices_idle devices names next (none_lacks devices account.device_names counted) in
    rw (same, idle)
