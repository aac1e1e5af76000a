-- ===== src/Prelude/Dicts.antt =====
-- Python's `dict` in insertion order, over any key type with `==`.

use mathlib.Core.Path.{◌≡◌, refl, ap}
use mathlib.Core.Bool.{Bool, true, false}
use mathlib.Core.Option.{Option, none, some}
use mathlib.Core.List.{List, [], ◌∷◌}
use native.Mathlib.Omega.{arith}
use mathlib.Core.Path.{subst, sym}
use mathlib.Core.Logic.{inl, inr, ◌⊎◌, ◌≢◌}
use mathlib.Core.Option.{some-injective}
use evgenium_network_linux.Prelude.Tests.{if◌then◌else◌, Bool-cases}
use evgenium_network_linux.Prelude.Lists.{All, first}
use evgenium_network_linux.Prelude.Equality.{Eq, ◌==◌, contains}

abbrev pub Dict {ℓ κ} : Type ℓ → Type κ → Type (ℓ ⊔ κ)
Dict K V = List (K × V)

module _ {ℓ κ} {K : Type ℓ} {V : Type κ} where
  abbrev pub keys : Dict K V → List K
  keys [] = []
  keys ((k, v) ∷ d) = k ∷ keys d

  abbrev pub values : Dict K V → List V
  values [] = []
  values ((k, v) ∷ d) = v ∷ values d

module _ {ℓ κ} {K : Type ℓ} {V : Type κ} ⦃e : Eq K⦄ where
  -- `d.get(k)`
  abbrev pub get : K → Dict K V → Option V
  get k [] = none
  get k ((j, v) ∷ d) = if k == j then some v else get k d

  -- `d.get(k, default)`
  abbrev pub get_or : K → V → Dict K V → V
  get_or k v d = elim (get k d) [ none ↦ v | some w ↦ w ]

  -- `k in d`
  abbrev pub has : K → Dict K V → Bool
  has k d = elim (get k d) [ none ↦ false | some w ↦ true ]

  -- `d[k] = v`
  abbrev pub put : K → V → Dict K V → Dict K V
  put k v [] = (k, v) ∷ []
  put k v ((j, w) ∷ d) = if k == j then (k, v) ∷ d else (j, w) ∷ put k v d

  -- `d.pop(k, None)`
  abbrev pub pop : K → Dict K V → Dict K V
  pop k [] = []
  pop k ((j, w) ∷ d) = let rest = pop k d in if k == j then rest else (j, w) ∷ rest

  pub get-put :
      (j k : K) (v : V) (d : Dict K V) → get j (put k v d) ≡ (if j == k then some v else get j d)
  get-put j k v [] = refl
  get-put j k v ((i, w) ∷ d) =
      ground (arith, get-put j k v d, e.beq_iff j k, e.beq_iff k i, e.beq_iff j i)

  pub get-put_self : (k : K) (v : V) (d : Dict K V) → get k (put k v d) ≡ some v
  get-put_self k v d = ground (arith, get-put k k v d, e.beq_iff k k)

  -- what is found after a write is the value written, or stood there before under another key
  pub get-put-eq-some :
      (j k : K) (v w : V) (d : Dict K V)
      → get j (put k v d) ≡ some w
      → ((j ≡ k) × (v ≡ w)) ⊎ ((k ≢ j) × (get j d ≡ some w))
  get-put-eq-some j k v w d h = elim (Bool-cases (j == k)) [
    | inl same ↦ inl ((e.beq_iff j k).0 same, some-injective v w (rw (get-put j k v d, same) at h))
    | inr other ↦
        inr (λ q. let t = (e.beq_iff j k).1 (sym q) in cc, rw (get-put j k v d, other) at h)
  ]

  pub get-pop : (j k : K) (d : Dict K V) → get j (pop k d) ≡ (if j == k then none else get j d)
  get-pop j k [] = ground arith
  get-pop j k ((i, w) ∷ d) =
      ground (arith, get-pop j k d, e.beq_iff j k, e.beq_iff k i, e.beq_iff j i)

  pub get-pop_self : (k : K) (d : Dict K V) → get k (pop k d) ≡ none
  get-pop_self k d = ground (arith, get-pop k k d, e.beq_iff k k)

  pub contains-keys : (k : K) (d : Dict K V) → contains (keys d) k ≡ has k d
  contains-keys k [] = refl
  contains-keys k ((i, w) ∷ d) = ground (arith, contains-keys k d)

  module _ {μ} (P : V → Type μ) where
    pub All-values-put :
        (k : K) (v : V) (d : Dict K V) → P v → All P (values d) → All P (values (put k v d))
    All-values-put k v [] pv h = (pv, tt)
    All-values-put k v ((j, w) ∷ d) pv h =
        let rest = All-values-put k v d pv h.1 in
        elim (k == j) as (λ b. All P (values (if b then (k, v) ∷ d else (j, w) ∷ put k v d))) [
          | true ↦ (pv, h.1)
          | false ↦ (h.0, rest)
        ]

    pub All-values-get : (k : K) (v : V) (d : Dict K V) → get k d ≡ some v → All P (values d) → P v
    All-values-get k v [] e h = absurd (cc)
    All-values-get k v ((j, w) ∷ d) e h = elim (Bool-cases (k == j)) [
      | inl same ↦ subst P (some-injective w v (rw same at e)) h.0
      | inr other ↦ All-values-get k v d (rw other at e) h.1
    ]

  module _ {μ} (P : K × V → Type μ) where
    pub All-put : (k : K) (v : V) (d : Dict K V) → P (k, v) → All P d → All P (put k v d)
    All-put k v [] pv h = (pv, tt)
    All-put k v ((j, w) ∷ d) pv h =
        let rest = All-put k v d pv h.1 in
        elim (k == j) as (λ b. All P (if b then (k, v) ∷ d else (j, w) ∷ put k v d)) [
          | true ↦ (pv, h.1)
          | false ↦ (h.0, rest)
        ]

module _ {ℓ κ} {K : Type ℓ} {V : Type κ} ⦃e : Eq K⦄ where
  pub first-put :
      (p : K × V → Bool) (k : K) (v : V) (d : Dict K V)
      → All (λ x. p x ≡ false) d
      → p (k, v) ≡ true
      → first p (put k v d) ≡ some (k, v)
  first-put p k v [] h passes = rw passes refl
  first-put p k v ((j, w) ∷ d) h passes =
      let rest = first-put p k v d h.1 passes in
      elim (k == j) as (λ b. first p (if b then (k, v) ∷ d else (j, w) ∷ put k v d) ≡ some (k, v)) [
        | true ↦ rw passes refl
        | false ↦ rw (h.0) rest
      ]

  -- A write under a key that is there keeps the keys.
  pub keys-put : (k : K) (v : V) (d : Dict K V) → has k d ≡ true → keys (put k v d) ≡ keys d
  keys-put k v [] h = cc
  keys-put k v ((j, w) ∷ d) h = elim (Bool-cases (k == j)) [
    | inl same ↦ rw same (ap (λ i. i ∷ keys d) ((e.beq_iff k j).0 same))
    | inr other ↦ rw other (ap (λ l. j ∷ l) (keys-put k v d (rw (other, has) at h)))
  ]
