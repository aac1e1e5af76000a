-- ===== src/Prelude/Lists.antt =====
-- Lists measured by native numbers, Boolean tests over lists, and Python's `sorted`.
use Prim.Native.Nat.{ℕ, zero, suc, ◌+◌, ◌≤◌}
use mathlib.Core.Path.{◌≡◌, refl, ap, sym, ◌∙◌}
use mathlib.Core.Logic.{inl, inr}
use mathlib.Core.Bool.{Bool, true, false, ◌&&◌, ◌||◌}
use mathlib.Core.List.{List, [], ◌∷◌, ◌++◌}
use mathlib.Core.Option.{Option, none, some, some-injective, none-ne-some}
use native.Mathlib.Omega.{arith}
use evgenium_network_linux.Prelude.Tests.{if◌then◌else◌, Bool-cases}

abbrev pub All {ℓ κ} : {A : Type ℓ} → (A → Type κ) → List A → Type κ
All P [] = Unit
All P (x ∷ xs) = P x × All P xs

module _ {ℓ} {A : Type ℓ} where
  abbrev pub length : List A → ℕ
  length [] = 0
  length (x ∷ xs) = suc (length xs)

  pub length-append : (xs ys : List A) → length (xs ++ ys) ≡ length xs + length ys
  length-append [] ys = omega arith
  length-append (x ∷ xs) ys = omega (arith, length-append xs ys)

  abbrev pub any : (A → Bool) → List A → Bool
  any p [] = false
  any p (x ∷ xs) = p x || any p xs

  abbrev pub all : (A → Bool) → List A → Bool
  all p [] = true
  all p (x ∷ xs) = p x && all p xs

  -- `[x for x in xs if p(x)]`
  abbrev pub keep : (A → Bool) → List A → List A
  keep p [] = []
  keep p (x ∷ xs) = let rest = keep p xs in if p x then x ∷ rest else rest

  -- `sum(p(x) for x in xs)` for a Boolean `p`
  abbrev pub count_if : (A → Bool) → List A → ℕ
  count_if p [] = 0
  count_if p (x ∷ xs) = (if p x then 1 else 0) + count_if p xs

  -- `next((x for x in xs if p(x)), None)`
  abbrev pub first : (A → Bool) → List A → Option A
  first p [] = none
  first p (x ∷ xs) = if p x then some x else first p xs

  -- the position of the first element that passes, `length xs` if none does
  abbrev pub position : (A → Bool) → List A → ℕ
  position p [] = 0
  position p (x ∷ xs) = if p x then 0 else suc (position p xs)

  abbrev pub take : ℕ → List A → List A
  take zero xs = []
  take (suc n) [] = []
  take (suc n) (x ∷ xs) = x ∷ take n xs

  abbrev pub drop : ℕ → List A → List A
  drop zero xs = xs
  drop (suc n) [] = []
  drop (suc n) (x ∷ xs) = drop n xs

  -- insertion into a sorted list, after the elements that are not greater
  abbrev pub insort : (A → A → Bool) → A → List A → List A
  insort lt a [] = a ∷ []
  insort lt a (x ∷ xs) = if lt a x then a ∷ x ∷ xs else x ∷ insort lt a xs

  sort_into : (A → A → Bool) → List A → List A → List A
  sort_into lt done [] = done
  sort_into lt done (x ∷ xs) = sort_into lt (insort lt x done) xs

  -- `sorted` by a strict order; stable
  unfoldable pub sorted : (A → A → Bool) → List A → List A
  unfolding sort_into
  sorted lt xs = sort_into lt [] xs

  pub count_if-append :
      (p : A → Bool) (xs ys : List A) → count_if p (xs ++ ys) ≡ count_if p xs + count_if p ys
  count_if-append p [] ys = omega arith
  count_if-append p (x ∷ xs) ys = omega (arith, count_if-append p xs ys)

  pub count_if-le : (p : A → Bool) (xs : List A) → count_if p xs ≤ length xs
  count_if-le p [] = omega arith
  count_if-le p (x ∷ xs) = ground (arith, count_if-le p xs)

module _ {ℓ κ} {A : Type ℓ} (P : A → Type κ) where
  pub All-append : (xs ys : List A) → All P xs → All P ys → All P (xs ++ ys)
  All-append [] ys hx hy = hy
  All-append (x ∷ xs) ys hx hy = (hx.0, All-append xs ys hx.1 hy)

  pub All-insort :
      (lt : A → A → Bool) (a : A) (xs : List A) → P a → All P xs → All P (insort lt a xs)
  All-insort lt a [] pa h = (pa, tt)
  All-insort lt a (x ∷ xs) pa h =
      let rest = All-insort lt a xs pa h.1 in
      elim (lt a x) as (λ b. All P (if b then a ∷ x ∷ xs else x ∷ insort lt a xs)) [
        | true ↦ (pa, h)
        | false ↦ (h.0, rest)
      ]

  All-sort_into :
      (lt : A → A → Bool) (done xs : List A) → All P done → All P xs → All P (sort_into lt done xs)
  unfolding sort_into
  All-sort_into lt done [] hd h = hd
  All-sort_into lt done (x ∷ xs) hd h =
      All-sort_into lt (insort lt x done) xs (All-insort lt x done h.0 hd) h.1

  pub All-sorted : (lt : A → A → Bool) (xs : List A) → All P xs → All P (sorted lt xs)
  unfolding sorted
  All-sorted lt xs h = All-sort_into lt [] xs tt h

module _ {ℓ} {A : Type ℓ} where
  count_if-insort :
      (p : A → Bool) (lt : A → A → Bool) (a : A) (xs : List A)
      → count_if p (insort lt a xs) ≡ count_if p (a ∷ xs)
  count_if-insort p lt a [] = refl
  count_if-insort p lt a (x ∷ xs) =
      let ih = count_if-insort p lt a xs in
      elim (lt a x)
        as (λ b.
          count_if p (if b then a ∷ x ∷ xs else x ∷ insort lt a xs) ≡ count_if p (a ∷ x ∷ xs)) [
            | true ↦ refl
            | false ↦ omega (arith, ih)
          ]

  count_if-sort_into :
      (p : A → Bool) (lt : A → A → Bool) (done xs : List A)
      → count_if p (sort_into lt done xs) ≡ count_if p done + count_if p xs
  unfolding sort_into
  count_if-sort_into p lt done [] = omega arith
  count_if-sort_into p lt done (x ∷ xs) =
      omega (arith, count_if-sort_into p lt (insort lt x done) xs, count_if-insort p lt x done)

  -- A sorted list holds the same elements: each test passes as often.
  pub count_if-sorted :
      (p : A → Bool) (lt : A → A → Bool) (xs : List A) → count_if p (sorted lt xs) ≡ count_if p xs
  unfolding sorted
  count_if-sorted p lt xs = omega (arith, count_if-sort_into p lt [] xs)

pub All-mono {ℓ κ μ} :
    {A : Type ℓ} (P : A → Type κ) (Q : A → Type μ) (xs : List A)
    → ((x : A) → P x → Q x)
    → All P xs
    → All Q xs
All-mono P Q [] f h = tt
All-mono P Q (x ∷ xs) f h = (f x h.0, All-mono P Q xs f h.1)

module _ {ℓ} {A : Type ℓ} (p : A → Bool) where
  -- What `first` finds passes, and nothing before it does.
  pub first-eq-some :
      (xs : List A) (x : A)
      → first p xs ≡ some x
      → (before after : List A) × (xs ≡ before ++ x ∷ after)
        × All (λ y. p y ≡ false) before
        × (p x ≡ true)
  first-eq-some [] x h = cc
  first-eq-some (y ∷ ys) x h = elim (Bool-cases (p y)) [
    | inl found ↦
        let same : y ≡ x = some-injective y x (rw found at h) in
        ([], ys, ap (λ z. z ∷ ys) same, tt, ap p (sym same) ∙ found)
    | inr not_yet ↦
        let (before, after, e, none_before, passes) = first-eq-some ys x (rw not_yet at h) in
        (y ∷ before, after, ap (λ zs. y ∷ zs) e, (not_yet, none_before), passes)
  ]

  pub first-eq-none : (xs : List A) → first p xs ≡ none → All (λ y. p y ≡ false) xs
  first-eq-none [] h = tt
  first-eq-none (y ∷ ys) h = elim (Bool-cases (p y)) [
    | inl found ↦ absurd (none-ne-some y (sym (rw found at h)))
    | inr other ↦ (other, first-eq-none ys (rw other at h))
  ]
