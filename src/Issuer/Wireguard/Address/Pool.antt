-- ===== src/Issuer/Wireguard/Address/Pool.antt =====
-- What the address pool promises.
use native.Mathlib.Decide.{ℕ_discrete}
use evgenium_network_linux.Prelude.{
  nat_eq, string_eq, option_eq, Bool, Bool-cases, List, Option, Result, String, arith, contains,
  err, false, first, inl, inr, ltb, ok, permission_error, refl, some, split, str, subst, suc, true,
  zero, ℕ, ◌&&◌, ◌+◌, ◌<◌, ◌==◌, ◌||◌, ◌≡◌, ◌≤◌, eq_iff, ap, [], sym, values, ◌++◌, ◌∙◌, ◌∷◌, ◌⊎◌,
}
use evgenium_network_linux.Issuer.Model.{Accounts, Account, Device}
use evgenium_network_linux.Issuer.Wireguard.Address.{
  address, all_devices, allocate_address, find_free, pool_address, used_addresses, is_wireguard,
}

-- A free address was found, the first one of the range; or there is none.
abbrev Allocates : ℕ → ℕ → List (Option String) → Result String → Type 0
Allocates first last used (ok a) =
    (contains used (some a) ≡ false)
    × ((n : ℕ) × (first ≤ n)
        × (n < last)
        × (a ≡ pool_address n)
        × ((m : ℕ) → first ≤ m → m < n → contains used (some (pool_address m)) ≡ true))
Allocates first last used (err e) =
    (e ≡ permission_error "address_pool_full")
    × ((m : ℕ) → first ≤ m → m < last → contains used (some (pool_address m)) ≡ true)

extend_below :
    (first : ℕ) (used : List (Option String))
    → contains used (some (pool_address first)) ≡ true
    → (last : ℕ)
    → ((m : ℕ) → first + 1 ≤ m → m < last → contains used (some (pool_address m)) ≡ true)
    → (m : ℕ) → first ≤ m
    → m < last
    → contains used (some (pool_address m)) ≡ true
extend_below first used taken last h m le lt = elim (ℕ_discrete first m) [
  | yes same ↦ subst (λ k. contains used (some (pool_address k)) ≡ true) same taken
  | no other ↦ h m (omega arith) lt
]

Allocates-step :
    (first last : ℕ) (used : List (Option String)) (r : Result String)
    → contains used (some (pool_address first)) ≡ true
    → Allocates (first + 1) last used r
    → Allocates first last used r
Allocates-step first last used (ok a) taken h =
    (h.0, (h.1.0, omega arith, h.1.2, h.1.3, extend_below first used taken h.1.0 h.1.4))
Allocates-step first last used (err e) taken h = (h.0, extend_below first used taken last h.1)

find_free-Allocates :
    (rounds first last : ℕ) (used : List (Option String))
    → first + rounds ≡ last
    → Allocates first last used (find_free rounds first used)
unfolding find_free
find_free-Allocates zero first last used e = (refl, λ m le lt. absurd (omega arith))
find_free-Allocates (suc rounds) first last used e =
    elim (Bool-cases (contains used (some (pool_address first)))) [
      | inl taken ↦ rw taken (
          Allocates-step first last used _ taken
            (find_free-Allocates rounds (first + 1) last used (omega arith)))
      | inr free ↦
          rw free (free, (first, omega arith, omega arith, refl, λ m le lt. absurd (omega arith)))
    ]

-- the allocation, by the list of the addresses in use
allocate_address-find_free :
    (data_ : Accounts)
    → Allocates 2 255 (used_addresses (all_devices data_)) (allocate_address data_)
unfolding allocate_address
allocate_address-find_free data_ =
    find_free-Allocates 253 2 255 (used_addresses (all_devices data_)) (omega arith)

-- `P` holds of some entry
abbrev pub AnyOf : {A : Type 0} → (A → Type 0) → List A → Type 0
AnyOf P [] = ⊥
AnyOf P (x ∷ xs) = P x ⊎ AnyOf P xs

-- a WireGuard record with the address
abbrev pub HasAddress : String → String × Device → Type 0
HasAddress s (_, d) = (d.device_type ≡ some "wireguard") × (d.address ≡ some s)

-- some account has a WireGuard record with the address, whatever else the record says
abbrev pub IsUsed : Accounts → String → Type 0
IsUsed data_ s = AnyOf (λ (e : String × Account). AnyOf (HasAddress s) e.1.devices) data_

taken_devices :
    (s : String) (devices : List (String × Device)) (rest : List Device)
    → contains (used_addresses (values devices ++ rest)) (some s) ≡ true
    → AnyOf (HasAddress s) devices ⊎ (contains (used_addresses rest) (some s) ≡ true)
taken_devices s [] rest h = inr h
taken_devices s ((i, d) ∷ devices) rest h = elim (Bool-cases (is_wireguard d)) [
  | inr other ↦ elim (taken_devices s devices rest (rw other at h)) [
    | inl more ↦ inl (inr more)
    | inr late ↦ inr late
  ]
  | inl own ↦ elim (Bool-cases (some s == d.address)) [
    | inl same ↦ inl (
        inl (
          (option_eq.beq_iff d.device_type (some "wireguard")).0 own,
          sym ((option_eq.beq_iff (some s) d.address).0 same),
        ))
    | inr other ↦ elim (taken_devices s devices rest (rw (own, other) at h)) [
      | inl more ↦ inl (inr more)
      | inr late ↦ inr late
    ]
  ]
]

taken-IsUsed :
    (data_ : Accounts) (s : String)
    → contains (used_addresses (all_devices data_)) (some s) ≡ true
    → IsUsed data_ s
taken-IsUsed [] s h = absurd (cc)
taken-IsUsed ((i, a) ∷ data_) s h = elim (taken_devices s a.devices (all_devices data_) h) [
  | inl here ↦ inl here
  | inr late ↦ inr (taken-IsUsed data_ s late)
]

taken_later :
    (d : Device) (rest : List Device) (s : String)
    → contains (used_addresses rest) (some s) ≡ true
    → contains (used_addresses (d ∷ rest)) (some s) ≡ true
taken_later d rest s h = elim (Bool-cases (is_wireguard d)) [
  | inr other ↦ rw other h
  | inl own ↦ rw (own, h) (ground arith)
]

taken_here :
    (i : String) (d : Device) (rest : List Device) (s : String)
    → HasAddress s (i, d)
    → contains (used_addresses (d ∷ rest)) (some s) ≡ true
taken_here i d rest s h =
    let own : is_wireguard d ≡ true = (option_eq.beq_iff d.device_type (some "wireguard")).1 h.0 in
    let same : (some s == d.address) ≡ true = (option_eq.beq_iff (some s) d.address).1 (sym h.1) in
    rw (own, same) refl

taken_after :
    (s : String) (devices : List (String × Device)) (rest : List Device)
    → contains (used_addresses rest) (some s) ≡ true
    → contains (used_addresses (values devices ++ rest)) (some s) ≡ true
taken_after s [] rest h = h
taken_after s ((i, d) ∷ devices) rest h =
    taken_later d (values devices ++ rest) s (taken_after s devices rest h)

taken_among :
    (s : String) (devices : List (String × Device)) (rest : List Device)
    → AnyOf (HasAddress s) devices
    → contains (used_addresses (values devices ++ rest)) (some s) ≡ true
taken_among s [] rest h = absurd h
taken_among s ((i, d) ∷ devices) rest (inl here) = taken_here i d (values devices ++ rest) s here
taken_among s ((i, d) ∷ devices) rest (inr more) =
    taken_later d (values devices ++ rest) s (taken_among s devices rest more)

IsUsed-taken :
    (data_ : Accounts) (s : String)
    → IsUsed data_ s
    → contains (used_addresses (all_devices data_)) (some s) ≡ true
IsUsed-taken [] s h = absurd h
IsUsed-taken ((i, a) ∷ data_) s (inl here) = taken_among s a.devices (all_devices data_) here
IsUsed-taken ((i, a) ∷ data_) s (inr late) =
    taken_after s a.devices (all_devices data_) (IsUsed-taken data_ s late)

-- what a call returns, by the records of the accounts
abbrev pub IsAllocated : Accounts → Result String → Type 0
IsAllocated data_ (ok a) =
    (¬ IsUsed data_ a)
    × ((n : ℕ) × (2 ≤ n)
        × (n < 255)
        × (a ≡ pool_address n)
        × ((m : ℕ) → 2 ≤ m → m < n → IsUsed data_ (pool_address m)))
IsAllocated data_ (err e) =
    (e ≡ permission_error "address_pool_full")
    × ((m : ℕ) → 2 ≤ m → m < 255 → IsUsed data_ (pool_address m))

true_ne_false : ¬ (true ≡ false)
true_ne_false h = cc

Allocates-IsAllocated :
    (data_ : Accounts) (r : Result String)
    → Allocates 2 255 (used_addresses (all_devices data_)) r
    → IsAllocated data_ r
Allocates-IsAllocated data_ (ok a) (free, (n, lo, hi, same, below)) = (
  (λ used. true_ne_false (sym (IsUsed-taken data_ a used) ∙ free)),
  (n, lo, hi, same, λ m le lt. taken-IsUsed data_ (pool_address m) (below m le lt)),
)
Allocates-IsAllocated data_ (err e) (full, each) =
    (full, λ m le lt. taken-IsUsed data_ (pool_address m) (each m le lt))

-- `allocate_address` returns the first address from 10.78.0.2 to 10.78.0.254 that no WireGuard
-- record of any account has, disabled or pending records included; it fails only if each of them
-- is the address of such a record.
pub allocate_address-IsAllocated : (data_ : Accounts) → IsAllocated data_ (allocate_address data_)
allocate_address-IsAllocated data_ =
    Allocates-IsAllocated data_ (allocate_address data_) (allocate_address-find_free data_)

-- `p` holds for each of the `rounds` numbers from 0 on
abbrev holds_for : (ℕ → Bool) → ℕ → Bool
holds_for p zero = true
holds_for p (suc rounds) = holds_for p rounds && p rounds

holds_for_lem : (p : ℕ → Bool) (rounds n : ℕ) → n < rounds → holds_for p rounds ≡ true → p n ≡ true
holds_for_lem p zero n small h = absurd (omega (arith, small))
holds_for_lem p (suc rounds) n small h = ground (arith, small, h, holds_for_lem p rounds n)

abbrev returns : String → Result String → Bool
returns s (ok a) = a == s
returns s (err e) = false

returns→ok : (s : String) (r : Result String) → returns s r ≡ true → r ≡ ok s
returns→ok s (ok a) h = ap ok ((eq_iff a s).0 h)
returns→ok s (err e) h = cc

accepts : ℕ → Bool
accepts n = ltb n 2 || returns (pool_address n) (address (some (pool_address n)))

accepts_table : holds_for accepts 255 ≡ true
unfolding accepts address str split
accepts_table = refl

accepts_late :
    (n : ℕ)
    → accepts n ≡ true
    → ltb n 2 ≡ false
    → returns (pool_address n) (address (some (pool_address n))) ≡ true
unfolding accepts
accepts_late n h late = rw late at h

address-pool_address :
    (n : ℕ) → 2 ≤ n → n < 255 → address (some (pool_address n)) ≡ ok (pool_address n)
address-pool_address n lo hi =
    let checked : accepts n ≡ true = holds_for_lem accepts 255 n hi accepts_table in
    let late : ltb n 2 ≡ false = ground arith in
    returns→ok (pool_address n) (address (some (pool_address n))) (accepts_late n checked late)

-- What is allocated passes the check that `apply_peer` and `sync` make, unchanged.
pub allocate_address-address :
    (data_ : Accounts) (a : String) → allocate_address data_ ≡ ok a → address (some a) ≡ ok a
allocate_address-address data_ a h =
    let found =
      subst (Allocates 2 255 (used_addresses (all_devices data_))) h
        (allocate_address-find_free data_) in
    rw (found.1.3) (address-pool_address found.1.0 found.1.1 found.1.2)
