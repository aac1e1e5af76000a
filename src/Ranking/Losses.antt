-- ===== src/Ranking/Losses.antt =====
-- Which candidates src/path_ranking.py has left after losses.
use evgenium_network_linux.Prelude.{
  nat_eq, All-mono, ltb, ◌≤◌, ◌<◌, string_eq, List, Option, Result, String, ℕ, All, Bool-cases,
  Error, Option-cases, Result-cases, [], ap, ap₂, err, false, get, inl, inr, min, none, ok, put,
  some, sym, true, ◌++◌, ◌+◌, ◌==◌, ◌∙◌, ◌∷◌, ◌≡◌, arith, get-put, get-put_self, refl, ◌≢◌,
}
use mathlib.Core.Option.{some-injective, none-ne-some}
use evgenium_network_linux.Ranking.{Ranking, lose, usable, next_usable, next_after, after, verdict}

ok_inj : {A : Type 0} {a b : A} → ◌≡◌ {A = Result A} (ok a) (ok b) → a ≡ b
ok_inj h = cc

err_ne_ok : {A B : Type 0} {e : Error} {a : A} → ◌≡◌ {A = Result A} (err e) (ok a) → B
err_ne_ok h = absurd (cc)

after_lem :
    (identity : String) (xs rest : List String)
    → after identity xs ≡ ok rest
    → (before : List String) × (xs ≡ before ++ identity ∷ rest)
      × All (λ y. (identity == y) ≡ false) before
unfolding after
after_lem identity [] rest h = err_ne_ok h
after_lem identity (x ∷ xs) rest h = elim (Bool-cases (identity == x)) [
  | inl found ↦
      let same : xs ≡ rest = ok_inj (rw (after, found) at h) in
      ([], ap₂ (λ y ys. y ∷ ys) (sym ((string_eq.beq_iff identity x).0 found)) same, tt)
  | inr other ↦
      let (before, e, others) = after_lem identity xs rest (rw (after, other) at h) in
      (x ∷ before, ap (λ ys. x ∷ ys) e, (other, others))
]

next_usable_lem :
    (r : Ranking) (xs : List String) (x : String)
    → next_usable r xs ≡ ok (some x)
    → (skipped rest : List String) × (xs ≡ skipped ++ x ∷ rest)
      × All (λ y. usable r y ≡ ok false) skipped
      × (usable r x ≡ ok true)
unfolding next_usable
next_usable_lem r [] x h = absurd (none-ne-some x (ok_inj h))
next_usable_lem r (y ∷ ys) x h = elim (Result-cases (usable r y)) [
  | inr (e, raised) ↦ err_ne_ok (rw (next_usable, raised) at h)
  | inl (true, good) ↦
      let same : y ≡ x = some-injective y x (ok_inj (rw (next_usable, good) at h)) in
      ([], ys, ap (λ z. z ∷ ys) same, tt, ap (usable r) (sym same) ∙ good)
  | inl (false, lost) ↦
      let (skipped, rest, e, all_lost, good) =
        next_usable_lem r ys x (rw (next_usable, lost) at h) in
      (y ∷ skipped, rest, ap (λ zs. y ∷ zs) e, (lost, all_lost), good)
]

next_usable-none :
    (r : Ranking) (xs : List String)
    → next_usable r xs ≡ ok none
    → All (λ y. usable r y ≡ ok false) xs
unfolding next_usable
next_usable-none r [] h = tt
next_usable-none r (y ∷ ys) h = elim (Result-cases (usable r y)) [
  | inr (e, raised) ↦ err_ne_ok (rw (next_usable, raised) at h)
  | inl (true, good) ↦ absurd (none-ne-some y (sym (ok_inj (rw (next_usable, good) at h))))
  | inl (false, lost) ↦ (lost, next_usable-none r ys (rw (next_usable, lost) at h))
]

-- a path that has lost three times or more, and one that has lost less
abbrev pub HasLost : Ranking → String → Type 0
HasLost r x = (n : ℕ) × (get x r.losses ≡ some n) × (3 ≤ n)

abbrev pub HasLosses : Ranking → String → Type 0
HasLosses r x = (n : ℕ) × (get x r.losses ≡ some n) × (n < 3)

usable-HasLost : (r : Ranking) (x : String) → usable r x ≡ ok false → HasLost r x
usable-HasLost r x h = elim (Option-cases (get x r.losses)) [
  | inl missing ↦ err_ne_ok (rw missing at h)
  | inr (n, known) ↦ let e : ltb n 3 ≡ false = ok_inj (rw known at h) in (n, known, ground arith)
]

usable-HasLosses : (r : Ranking) (x : String) → usable r x ≡ ok true → HasLosses r x
usable-HasLosses r x h = elim (Option-cases (get x r.losses)) [
  | inl missing ↦ err_ne_ok (rw missing at h)
  | inr (n, known) ↦ let e : ltb n 3 ≡ true = ok_inj (rw known at h) in (n, known, ground arith)
]

-- what is next in the rest of the order
abbrev pub IsNext : Ranking → List String → Option String → Type 0
IsNext r rest none = All (HasLost r) rest
IsNext r rest (some x) =
    (skipped later : List String) × (rest ≡ skipped ++ x ∷ later)
    × All (HasLost r) skipped
    × HasLosses r x

next_usable-IsNext :
    (r : Ranking) (rest : List String) (next : Option String)
    → next_usable r rest ≡ ok next
    → IsNext r rest next
next_usable-IsNext r rest none h = All-mono _ _ rest (usable-HasLost r) (next_usable-none r rest h)
next_usable-IsNext r rest (some x) h =
    let (skipped, later, e, lost, good) = next_usable_lem r rest x h in
    (skipped, later, e, All-mono _ _ skipped (usable-HasLost r) lost, usable-HasLosses r x good)

abbrev pub NextAfter : String → Ranking → Option String → Type 0
NextAfter identity r next =
    (before rest : List String) × (r.order ≡ before ++ identity ∷ rest)
    × All (λ y. (identity == y) ≡ false) before
    × IsNext r rest next

-- What `next_after` returns stands after the path in the order, and has fewer than three losses;
-- every path between them has three or more. It returns nothing only if every path after it has
-- three or more.
pub next_after-NextAfter :
    (identity : String) (r : Ranking) (next : Option String)
    → next_after identity r ≡ ok next
    → NextAfter identity r next
unfolding next_after
next_after-NextAfter identity r next h = elim (Result-cases (after identity r.order)) [
  | inr (e, raised) ↦ err_ne_ok (rw (next_after, raised) at h)
  | inl (rest, found) ↦
      let (before, e, others) = after_lem identity r.order rest found in
      let h' : next_usable r rest ≡ ok next = rw (next_after, found) at h in
      (before, rest, e, others, next_usable-IsNext r rest next h')
]

lose_lem :
    (identity : String) (r r' : Ranking)
    → lose identity r ≡ ok r'
    → (n : ℕ) × (get identity r.losses ≡ some n)
      × (r' ≡ record r { losses = put identity (min 3 (n + 1)) r.losses })
unfolding lose
lose_lem identity r r' h = elim (Option-cases (get identity r.losses)) [
  | inl missing ↦ err_ne_ok (rw (lose, missing) at h)
  | inr (n, known) ↦ (n, known, sym (ok_inj (rw (lose, known) at h)))
]

usable-lose :
    (identity : String) (r r' : Ranking)
    → lose identity r ≡ ok r'
    → (x : String) → x ≢ identity
    → usable r' x ≡ usable r x
usable-lose identity r r' h x other =
    let (n, known, same) = lose_lem identity r r' h in
    let apart : (x == identity) ≡ false = ground (arith, other, string_eq.beq_iff x identity) in
    let kept : get x (put identity (min 3 (n + 1)) r.losses) ≡ get x r.losses =
      rw (get-put x identity (min 3 (n + 1)) r.losses, apart) refl in
    ap (λ (q : Ranking). usable q x) same ∙ ap verdict kept

losses-lose :
    (identity : String) (r r' : Ranking) (n : ℕ)
    → lose identity r ≡ ok r'
    → get identity r.losses ≡ some n
    → get identity r'.losses ≡ some (min 3 (n + 1))
losses-lose identity r r' n h known =
    let (m, known', same) = lose_lem identity r r' h in
    let count : m ≡ n = some-injective m n (sym known' ∙ known) in
    ap (λ (q : Ranking). get identity q.losses) same
    ∙ get-put_self identity (min 3 (m + 1)) r.losses
    ∙ ap (λ k. some (min 3 (k + 1))) count

-- Three losses take a path out of the candidates, whatever it had lost before, and leave every
-- other path as usable as it was.
lose_thrice :
    (identity : String) (r r1 r2 r3 : Ranking)
    → lose identity r ≡ ok r1
    → lose identity r1 ≡ ok r2
    → lose identity r2 ≡ ok r3
    → (usable r3 identity ≡ ok false) × ((x : String) → x ≢ identity → usable r3 x ≡ usable r x)
lose_thrice identity r r1 r2 r3 h1 h2 h3 =
    let (n, known, same) = lose_lem identity r r1 h1 in
    let once = losses-lose identity r r1 n h1 known in
    let twice = losses-lose identity r1 r2 (min 3 (n + 1)) h2 once in
    let thrice = losses-lose identity r2 r3 (min 3 (min 3 (n + 1) + 1)) h3 twice in
    let out : min 3 (min 3 (min 3 (n + 1) + 1) + 1) ≡ 3 = omega arith in
    (
      ap verdict (thrice ∙ ap some out),
      λ x other.
          usable-lose identity r2 r3 h3 x other
          ∙ usable-lose identity r1 r2 h2 x other
          ∙ usable-lose identity r r1 h1 x other,
    )
