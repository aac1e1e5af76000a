-- ===== src/Issuer/Names/Numbers.antt =====
-- `ensure_device_names` gives each device its own number.
use evgenium_network_linux.Prelude.{
  ℕ, ◌<◌, String, ◌≡◌, Option, some, [], ◌∷◌, arith, eq_iff, Dict, get, values, string_eq, get-put,
  Option-cases, inl, inr, List, has, none, put, suc, true, All, All-mono, All-values-get, refl,
  All-values-put, Bool, ap, count_if, count_if-sorted, if◌then◌else◌, not, sorted, All-sorted,
  Bool-cases, false, ◌==◌, ◌∙◌,
}
use evgenium_network_linux.Issuer.Model.{DeviceName, Device}
use evgenium_network_linux.Issuer.Names.{next_number, default_name, name_device, name_devices}

-- No two devices share a number.
pub record HasDistinctNumbers (names : Dict String DeviceName) : Type 0 where
  pub distinct :
      (i j : String) (a b : DeviceName)
      → get i names ≡ some a
      → get j names ≡ some b
      → a.number ≡ b.number
      → i ≡ j

-- Every number in use is below the counter.
abbrev pub IsBelow : Dict String DeviceName → ℕ → Type 0
IsBelow names next = All (λ a. a.number < next) (values names)

pub next_number-IsBelow :
    (stored : Option ℕ) (names : Dict String DeviceName)
    → IsBelow names (next_number stored (values names))
unfolding next_number
next_number-IsBelow stored [] = tt
next_number-IsBelow stored ((j, b) ∷ names) = (
  omega arith,
  All-mono _ _ (values names) (λ a h. omega arith) (next_number-IsBelow stored names),
)

-- Where every number is below the stored counter, that counter is the next number.
pub next_number_below :
    (n : ℕ) (names : Dict String DeviceName)
    → IsBelow names n
    → next_number (some n) (values names) ≡ n
unfolding next_number
next_number_below n [] h = refl
next_number_below n ((j, b) ∷ names) h = omega (arith, next_number_below n names h.1)

module _ (device : String) (names : Dict String DeviceName) (next : ℕ) where
  pub name_device_new :
      get device names ≡ none
      → name_device device (names, next) ≡ (put device (default_name next) names, suc next)
  unfolding name_device
  name_device_new h = rw (h, has)

  pub name_device_known :
      (b : DeviceName)
      → get device names ≡ some b
      → name_device device (names, next) ≡ (names, next)
  unfolding name_device
  name_device_known b h = rw (h, has)

  name_device-IsBelow :
      IsBelow names next
      → IsBelow (name_device device (names, next)).0 (name_device device (names, next)).1
  name_device-IsBelow h = elim (Option-cases (get device names)) [
    | inl absent ↦ rw (name_device_new absent) (
        All-values-put _ device (default_name next) names (omega arith)
          (All-mono _ _ (values names) (λ a b. omega arith) h))
    | inr (b, known) ↦ rw (name_device_known b known) h
  ]

  name_device-distinct :
      IsBelow names next
      → HasDistinctNumbers names
      → HasDistinctNumbers (name_device device (names, next)).0
  name_device-distinct h u =
      let below_of : (i : String) (a : DeviceName) → get i names ≡ some a → a.number < next =
        λ i a e. All-values-get (λ (a : DeviceName). a.number < next) i a names e h in
      elim (Option-cases (get device names)) [
        | inl absent ↦ rw (name_device_new absent) (record {
          distinct = λ i j a b ei ej same. ground (
            arith,
            get-put i device (default_name next) names,
            get-put j device (default_name next) names,
            eq_iff i device,
            eq_iff j device,
            below_of i a,
            below_of j b,
            u.distinct i j a b,
          );
        })
        | inr (b, known) ↦ rw (name_device_known b known) u
      ]

  -- A name that is there already stays as it is.
  pub get-name_device :
      (i : String) (a : DeviceName)
      → get i names ≡ some a
      → get i (name_device device (names, next)).0 ≡ some a
  get-name_device i a e = elim (Option-cases (get device names)) [
    | inl absent ↦
        rw (name_device_new absent)
          (ground (arith, get-put i device (default_name next) names, eq_iff i device))
    | inr (b, known) ↦ rw (name_device_known b known) e
  ]

  -- Another device's name, or its lack of one, stays as it is.
  pub get-name_device_other :
      (i : String)
      → (i == device) ≡ false
      → get i (name_device device (names, next)).0 ≡ get i names
  get-name_device_other i other = elim (Option-cases (get device names)) [
    | inl absent ↦
        rw (name_device_new absent)
          (ground (arith, other, get-put i device (default_name next) names))
    | inr (b, known) ↦ rw (name_device_known b known) refl
  ]

  pub has-name_device : has device (name_device device (names, next)).0 ≡ true
  has-name_device = elim (Option-cases (get device names)) [
    | inl absent ↦
        rw (name_device_new absent)
          (ground (arith, get-put device device (default_name next) names, eq_iff device device))
    | inr (b, known) ↦ rw (name_device_known b known) (rw (known, has))
  ]

module _ where
  pub name_devices-IsBelow :
      (devices : List (String × Device)) (names : Dict String DeviceName) (next : ℕ)
      → IsBelow names next
      → IsBelow (name_devices devices (names, next)).0 (name_devices devices (names, next)).1
  unfolding name_devices
  name_devices-IsBelow [] names next h = h
  name_devices-IsBelow ((d, r) ∷ rest) names next h =
      name_devices-IsBelow rest _ _ (name_device-IsBelow d names next h)

  pub name_devices-distinct :
      (devices : List (String × Device)) (names : Dict String DeviceName) (next : ℕ)
      → IsBelow names next
      → HasDistinctNumbers names
      → HasDistinctNumbers (name_devices devices (names, next)).0
  unfolding name_devices
  name_devices-distinct [] names next h u = u
  name_devices-distinct ((d, r) ∷ rest) names next h u =
      name_devices-distinct rest _ _ (name_device-IsBelow d names next h)
        (name_device-distinct d names next h u)

  pub get-name_devices :
      (devices : List (String × Device)) (names : Dict String DeviceName) (next : ℕ) (i : String)
      (a : DeviceName)
      → get i names ≡ some a
      → get i (name_devices devices (names, next)).0 ≡ some a
  unfolding name_devices
  get-name_devices [] names next i a e = e
  get-name_devices ((d, r) ∷ rest) names next i a e =
      get-name_devices rest _ _ i a (get-name_device d names next i a e)

-- an entry of another device
abbrev IsOther : String → String × Device → Type 0
IsOther i (d, r) = (i == d) ≡ false

all-IsOther :
    (i : String) (devices : List (String × Device)) → get i devices ≡ none → All (IsOther i) devices
all-IsOther i [] h = tt
all-IsOther i ((d, r) ∷ rest) h = elim (Bool-cases (i == d)) [
  | inl same ↦ absurd (ground arith)
  | inr other ↦ (other, all-IsOther i rest (rw other at h))
]

get-name_devices_other :
    (devices : List (String × Device)) (names : Dict String DeviceName) (next : ℕ) (i : String)
    → All (IsOther i) devices
    → get i (name_devices devices (names, next)).0 ≡ get i names
unfolding name_devices
get-name_devices_other [] names next i h = refl
get-name_devices_other ((d, r) ∷ rest) names next i h =
    get-name_devices_other rest _ _ i h.1 ∙ get-name_device_other d names next i h.0

-- Naming the devices in sorted order names nothing else.
pub get-name_devices_absent :
    (lt : String × Device → String × Device → Bool) (devices : List (String × Device))
    (names : Dict String DeviceName) (next : ℕ) (i : String)
    → get i devices ≡ none
    → get i (name_devices (sorted lt devices) (names, next)).0 ≡ get i names
get-name_devices_absent lt devices names next i h =
    get-name_devices_other (sorted lt devices) names next i
      (All-sorted (IsOther i) lt devices (all-IsOther i devices h))

module _ where
  -- does an entry's device have a name?
  abbrev pub lacks : Dict String DeviceName → String × Device → Bool
  lacks names (d, r) = not (has d names)

  has-name_devices :
      (devices : List (String × Device)) (names : Dict String DeviceName) (next : ℕ) (d : String)
      → has d names ≡ true
      → has d (name_devices devices (names, next)).0 ≡ true
  has-name_devices devices names next d h = elim (Option-cases (get d names)) [
    | inl absent ↦ absurd (ground arith)
    | inr (a, known) ↦ rw (get-name_devices devices names next d a known, has)
  ]

  pub none_lacks :
      (devices : List (String × Device)) (names : Dict String DeviceName) (next : ℕ)
      → count_if (lacks (name_devices devices (names, next)).0) devices ≡ 0
  unfolding name_devices
  none_lacks [] names next = refl
  none_lacks ((d, r) ∷ rest) names next =
      let (names', next') = name_device d (names, next) in
      omega (
        arith,
        ap {B = ℕ} (λ (b : Bool). if not b then 1 else 0)
            (has-name_devices rest names' next' d (has-name_device d names next)),
        none_lacks rest names' next',
      )

  has_of_none_lacks :
      (devices : List (String × Device)) (names : Dict String DeviceName) (d : String) (r : Device)
      → count_if (lacks names) devices ≡ 0
      → get d devices ≡ some r
      → has d names ≡ true
  has_of_none_lacks [] names d r h e = absurd (cc)
  has_of_none_lacks ((i, q) ∷ rest) names d r h e =
      ground (arith, has_of_none_lacks rest names d r, eq_iff d i)

  -- Naming the devices in sorted order leaves none of them without a name.
  pub has-name_sorted :
      (lt : String × Device → String × Device → Bool) (devices : List (String × Device))
      (names : Dict String DeviceName) (next : ℕ) (d : String) (r : Device)
      → get d devices ≡ some r
      → has d (name_devices (sorted lt devices) (names, next)).0 ≡ true
  has-name_sorted lt devices names next d r e =
      let named = (name_devices (sorted lt devices) (names, next)).0 in
      has_of_none_lacks devices named d r
        (omega (
          arith,
          count_if-sorted (lacks named) lt devices,
          none_lacks (sorted lt devices) names next,
        ))
        e

  -- Where all devices have names, nothing changes.
  pub name_devices_idle :
      (devices : List (String × Device)) (names : Dict String DeviceName) (next : ℕ)
      → count_if (lacks names) devices ≡ 0
      → name_devices devices (names, next) ≡ (names, next)
  unfolding name_devices
  name_devices_idle [] names next h = refl
  name_devices_idle ((d, r) ∷ rest) names next h = elim (Option-cases (get d names)) [
    | inl absent ↦ absurd (ground arith)
    | inr (a, known) ↦
        rw (name_device_known d names next a known)
          (name_devices_idle rest names next (omega arith))
  ]
