-- ===== src/Prelude/Counting.antt =====
-- How the writes and the clean-up of a dict change the number of its entries.
use Prim.Native.Nat.{suc, ◌+◌, ◌≤◌}
use mathlib.Core.Path.{◌≡◌, refl, ap}
use mathlib.Core.Logic.{inl, inr}
use mathlib.Core.Bool.{Bool, true, false}
use mathlib.Core.Option.{some, some-injective, none-ne-some}
use mathlib.Core.List.{[], ◌∷◌}
use native.Mathlib.Omega.{arith}
use evgenium_network_linux.Prelude.Tests.{if◌then◌else◌, Bool-cases}
use evgenium_network_linux.Prelude.Lists.{All, length, count_if, keep}
use evgenium_network_linux.Prelude.Dicts.{Dict, get, put, values}
use evgenium_network_linux.Prelude.Equality.{Eq, ◌==◌}

module _ {ℓ κ} {K : Type ℓ} {V : Type κ} ⦃e : Eq K⦄ where
  -- A write adds at most one entry.
  pub length-put : (k : K) (v : V) (d : Dict K V) → length (put k v d) ≤ suc (length d)
  length-put k v [] = omega arith
  length-put k v ((j, w) ∷ d) = ground (arith, length-put k v d)

  pub count_if-put :
      (p : V → Bool) (k : K) (v : V) (d : Dict K V)
      → count_if p (values (put k v d)) ≤ (if p v then 1 else 0) + count_if p (values d)
  count_if-put p k v [] = omega arith
  count_if-put p k v ((j, w) ∷ d) =
      let rest = count_if-put p k v d in
      elim (k == j)
        as (λ b.
          count_if p (values (if b then (k, v) ∷ d else (j, w) ∷ put k v d))
          ≤ (if p v then 1 else 0) + count_if p (values ((j, w) ∷ d))) [
            | true ↦ omega arith
            | false ↦ omega (arith, rest)
          ]

  -- A write at a key that is there replaces its entry.
  pub length-put_known :
      (k : K) (v old : V) (d : Dict K V) → get k d ≡ some old → length (put k v d) ≡ length d
  length-put_known k v old [] h = absurd (none-ne-some old h)
  length-put_known k v old ((j, w) ∷ d) h = elim (Bool-cases (k == j)) [
    | inl same ↦ rw same refl
    | inr other ↦ rw other (ap suc (length-put_known k v old d (rw (get, other) at h)))
  ]

  pub count_if-put_known :
      (p : V → Bool) (k : K) (v old : V) (d : Dict K V)
      → get k d ≡ some old
      → p v ≡ p old
      → count_if p (values (put k v d)) ≡ count_if p (values d)
  count_if-put_known p k v old [] h e = absurd (none-ne-some old h)
  count_if-put_known p k v old ((j, w) ∷ d) h e = elim (Bool-cases (k == j)) [
    | inl same ↦
        let found : w ≡ old = some-injective w old (rw (get, same) at h) in rw (same, found, e) refl
    | inr other ↦ rw other (
        ap (λ n. (if p w then 1 else 0) + n)
          (count_if-put_known p k v old d (rw (get, other) at h) e))
  ]

module _ {ℓ κ} {K : Type ℓ} {V : Type κ} (q : K × V → Bool) where
  pub length-keep : (d : Dict K V) → length (keep q d) ≤ length d
  length-keep [] = omega arith
  length-keep (x ∷ d) = ground (arith, length-keep d)

  pub count_if-keep :
      (p : V → Bool) (d : Dict K V) → count_if p (values (keep q d)) ≤ count_if p (values d)
  count_if-keep p [] = omega arith
  count_if-keep p ((k, v) ∷ d) =
      let rest = count_if-keep p d in
      elim (q (k, v))
        as (λ b.
          count_if p (values (if b then (k, v) ∷ keep q d else keep q d))
          ≤ count_if p (values ((k, v) ∷ d))) [
            | true ↦ omega (arith, rest)
            | false ↦ omega (arith, rest)
          ]

  pub All-values-keep {μ} :
      (P : V → Type μ) (d : Dict K V) → All P (values d) → All P (values (keep q d))
  All-values-keep P [] h = tt
  All-values-keep P ((k, v) ∷ d) h =
      let rest = All-values-keep P d h.1 in
      elim (q (k, v)) as (λ b. All P (values (if b then (k, v) ∷ keep q d else keep q d))) [
        | true ↦ (h.0, rest)
        | false ↦ rest
      ]
