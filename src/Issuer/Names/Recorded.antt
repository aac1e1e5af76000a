-- ===== src/Issuer/Names/Recorded.antt =====
-- The record of a device that has a name does not raise the count of devices (server/token_issuer.py).
use evgenium_network_linux.Prelude.{
  nat_eq, string_eq, Bool, Bool-cases, Dict, Option, Option-cases, String, eq_iff, false, get,
  get-put, inl, inr, not, put, refl, some, sym, true, ◌==◌, ◌≡◌, List, [], ap, arith, contains,
  count_if, keep, keys, none, ◌&&◌, ◌+◌, ◌∙◌, ◌∷◌, ◌≤◌, contains-keys, has, keys-put,
}
use evgenium_network_linux.Issuer.Model.{Device, Account}
use evgenium_network_linux.Issuer.Names.{is_retired, active_device_count, is_reserved_only}

-- the record that the device has, if any, is not disabled
abbrev pub IsEnabled : Option Device → Type 0
IsEnabled o = (old : Device) → o ≡ some old → old.disabled ≡ false

abbrev is_active : Dict String Device → String → Bool
is_active records device = not (is_retired records device)

module _ (d : String) (r : Device) (records : Dict String Device) (enabled : r.disabled ≡ false)
    (before : IsEnabled (get d records)) where
  is_active_self : is_active records d ≡ true
  unfolding is_retired
  is_active_self = elim (Option-cases (get d records)) [
    | inl absent ↦ rw (absent, is_active, is_retired) refl
    | inr (old, known) ↦ rw (known, before old known, is_active, is_retired) refl
  ]

  is_active-put : (i : String) → is_active (put d r records) i ≡ is_active records i
  unfolding is_retired
  is_active-put i = elim (Bool-cases (i == d)) [
    | inl same ↦
        let e : i ≡ d = (eq_iff i d).0 same in
        let found : get i (put d r records) ≡ some r = rw (get-put i d r records, same) refl in
        (rw (found, enabled, is_active, is_retired) refl)
        ∙ sym (ap (is_active records) e ∙ is_active_self)
    | inr other ↦
        let found : get i (put d r records) ≡ get i records =
          rw (get-put i d r records, other) refl in
        rw (found, is_active, is_retired) refl
  ]

-- does the count stay, where the tests agree?
count_if-ext :
    (p q : String → Bool)
    → ((i : String) → p i ≡ q i)
    → (xs : List String) → count_if p xs ≡ count_if q xs
count_if-ext p q h [] = refl
count_if-ext p q h (x ∷ xs) = rw (h x, count_if-ext p q h xs) refl

keep-ext :
    (p q : String → Bool) → ((i : String) → p i ≡ q i) → (xs : List String) → keep p xs ≡ keep q xs
keep-ext p q h [] = refl
keep-ext p q h (x ∷ xs) = rw (h x, keep-ext p q h xs) refl

-- a key that is new counts as one more
count_if-keys-put :
    (p : String → Bool) (d : String) (r : Device) (records : Dict String Device)
    → p d ≡ true
    → get d records ≡ none
    → count_if p (keys (put d r records)) ≡ count_if p (keys records) + 1
count_if-keys-put p d r [] h e = ground arith
count_if-keys-put p d r ((i, w) ∷ records) h e = ground (arith, count_if-keys-put p d r records h)

-- a name whose device is recorded now counts as one less
count_if-keep-less :
    (p q q' : String → Bool) (d : String)
    → ((i : String) → q' i ≡ (not (i == d) && q i))
    → p d ≡ true
    → q d ≡ true
    → (names : List String)
    → (count_if p (keep q' names) ≤ count_if p (keep q names))
      × (contains names d ≡ true → count_if p (keep q' names) + 1 ≤ count_if p (keep q names))
count_if-keep-less p q q' d h pd qd [] = (omega arith, λ e. absurd (cc))
count_if-keep-less p q q' d h pd qd (i ∷ names) = elim (Bool-cases (i == d)) [
  | inl same ↦
      let e : i ≡ d = (eq_iff i d).0 same in
      let a : q' i ≡ false = h i ∙ ap (λ b. not b && q i) same in
      let b : q i ≡ true = ap q e ∙ qd in
      let c : p i ≡ true = ap p e ∙ pd in
      let less = count_if-keep-less p q q' d h pd qd names in
      rw (a, b, c) (omega (arith, less.0), λ there. omega (arith, less.0))
  | inr other ↦
      let a : q' i ≡ q i = h i ∙ ap (λ b. not b && q i) other in
      let less = count_if-keep-less p q q' d h pd qd names in
      rw a (ground (arith, less.0, less.1, other, eq_iff i d, eq_iff d i))
]

module _ (d : String) (r : Device) (account : Account) (enabled : r.disabled ≡ false)
    (before : IsEnabled (get d account.devices)) where
  stored_reserved :
      (i : String)
      → is_reserved_only (put d r account.devices) i
        ≡ (not (i == d) && is_reserved_only account.devices i)
  stored_reserved i = ground (arith, get-put i d r account.devices)

  -- Recording a device that has a name, where neither its record nor its earlier record is
  -- disabled, does not raise the number of active devices.
  pub active_device_count-put :
      has d account.device_names ≡ true
      → active_device_count (record account { devices = put d r account.devices })
        ≤ active_device_count account
  unfolding active_device_count
  active_device_count-put named =
      let records = put d r account.devices in
      let active = is_active account.devices in
      let names = keys account.device_names in
      let e1 =
        count_if-ext (is_active records) active (is_active-put d r account.devices enabled before)
          (keys records) in
      let e2 =
        count_if-ext (is_active records) active (is_active-put d r account.devices enabled before)
          (keep (is_reserved_only records) names) in
      let self = is_active_self d r account.devices enabled before in
      let there = contains-keys d account.device_names ∙ named in
      elim (Option-cases (get d account.devices)) [
        | inl absent ↦
            let less =
              count_if-keep-less active (is_reserved_only account.devices)
                (is_reserved_only records) d stored_reserved self (ground (arith, absent)) names in
            omega (
              arith,
              e1,
              e2,
              less.1 there,
              count_if-keys-put active d r account.devices self absent,
            )
        | inr (old, known) ↦
            let same = keys-put d r account.devices (rw (known, has) refl) in
            let kept =
              keep-ext (is_reserved_only records) (is_reserved_only account.devices)
                (λ i. reserved_known old known i) names in
            omega (arith, e1, e2, ap (count_if active) same, ap (count_if active) kept)
      ]
    where
      reserved_known :
          (old : Device)
          → get d account.devices ≡ some old
          → (i : String)
          → is_reserved_only (put d r account.devices) i ≡ is_reserved_only account.devices i
      reserved_known old known i = ground (arith, get-put i d r account.devices, known, eq_iff i d)
