-- ===== src/Client/Worker/Exhaustion.antt =====
-- How many paths the loop of `worker` of src/starfive_tunnel.py can lose before it gives up.
use evgenium_network_linux.Prelude.{
  nat_eq, string_eq, Dict, String, ℕ, [], ◌∷◌, ◌≡◌, ◌+◌, some, get, put, min, All, Bool-cases, List,
  Option, Result, ap, arith, err-ne-ok, inl, inr, ltb, none, ok, refl, subst, true, ◌==◌, ◌∙◌,
  All-mono, Option-cases, err, get-put, length, ltb→lt, suc, zero, ◌*◌,
}
use mathlib.Core.Option.{some-injective, none-ne-some}
use Prim.Native.Nat.{◌≤◌, ◌<◌, ◌-◌}
use evgenium_network_linux.Ranking.{
  Ranking, after, keep_usable, next_usable, usable, verdict, candidates, next_after, lose,
}
use evgenium_network_linux.Client.Worker.{head_of, choose_next, following_of}

ok_inj : {A : Type 0} {a b : A} → ◌≡◌ {A = Result A} (ok a) (ok b) → a ≡ b
ok_inj h = cc

-- the losses that are left until every path has three
unfoldable pub budget_of : Dict String ℕ → ℕ
budget_of [] = 0
budget_of ((x, n) ∷ rest) = (3 - n) + budget_of rest

-- A loss of a path that is usable takes one from the budget.
budget_of-put :
    (x : String) (d : Dict String ℕ) (n : ℕ)
    → get x d ≡ some n
    → n < 3
    → budget_of (put x (min 3 (n + 1)) d) + 1 ≡ budget_of d
unfolding budget_of
budget_of-put x [] n h small = absurd (none-ne-some n h)
budget_of-put x ((y, m) ∷ d) n h small = elim (Bool-cases (x == y)) [
  | inl same ↦
      let e : m ≡ n = some-injective m n (rw (get, same) at h) in rw (budget_of, same) (omega arith)
  | inr other ↦
      let rest = budget_of-put x d n (rw (get, other) at h) small in
      rw (budget_of, other) (omega arith)
]

-- A path that is usable has a loss left.
budget_of-usable :
    (x : String) (d : Dict String ℕ) (n : ℕ) → get x d ≡ some n → n < 3 → 1 ≤ budget_of d
budget_of-usable x d n h small = let e = budget_of-put x d n h small in omega arith

abbrev IsKnown : Ranking → String → Type 0
IsKnown r x = (n : ℕ) × (get x r.losses ≡ some n)

abbrev IsListed : List String → String → Type 0
IsListed xs x = (rest : List String) × (after x xs ≡ ok rest)

-- the losses of every path of the order are known
abbrev pub IsComplete : Ranking → Type 0
IsComplete r = All (IsKnown r) r.order

after-All :
    (P : String → Type 0) (x : String) (xs rest : List String)
    → after x xs ≡ ok rest
    → All P xs
    → All P rest
unfolding after
after-All P x [] rest e h = absurd (err-ne-ok e)
after-All P x (y ∷ ys) rest e h = elim (Bool-cases (x == y)) [
  | inl same ↦ subst (All P) (ok_inj (rw (after, same) at e)) h.1
  | inr other ↦ after-All P x ys rest (rw (after, other) at e) h.1
]

-- the answer of a search is one of the paths, and usable
abbrev Answers : (String → Type 0) → Ranking → Option String → Type 0
Answers P r none = Unit
Answers P r (some x) = P x × (usable r x ≡ ok true)

next_usable-Answers :
    {P : String → Type 0} (r : Ranking) (xs : List String)
    → All P xs
    → All (IsKnown r) xs
    → (o : Option String) × (next_usable r xs ≡ ok o) × Answers P r o
unfolding next_usable
next_usable-Answers r [] h known = (none, refl, tt)
next_usable-Answers r (x ∷ xs) h known =
    let (n, e) = known.0 in
    let read : usable r x ≡ ok (ltb n 3) = ap verdict e in
    elim (Bool-cases (ltb n 3)) [
      | inl small ↦ (some x, rw (next_usable, read, small) refl, (h.0, read ∙ ap (λ b. ok b) small))
      | inr big ↦
          let (o, e', answers) = next_usable-Answers r xs h.1 known.1 in
          (o, rw (next_usable, read, big) e', answers)
    ]

keep_usable-Answers :
    {P : String → Type 0} (r : Ranking) (xs : List String)
    → All P xs
    → All (IsKnown r) xs
    → (ys : List String) × (keep_usable r xs ≡ ok ys) × Answers P r (head_of ys)
unfolding keep_usable
keep_usable-Answers r [] h known = ([], refl, tt)
keep_usable-Answers r (x ∷ xs) h known =
    let (n, e) = known.0 in
    let read : usable r x ≡ ok (ltb n 3) = ap verdict e in
    let (ys, e', answers) = keep_usable-Answers r xs h.1 known.1 in
    elim (Bool-cases (ltb n 3)) [
      | inl small ↦
          (x ∷ ys, rw (keep_usable, read, e', small) refl, (h.0, read ∙ ap (λ b. ok b) small))
      | inr big ↦ (ys, rw (keep_usable, read, e', big) refl, answers)
    ]

IsListed-cons : (x y : String) (ys : List String) → IsListed ys x → IsListed (y ∷ ys) x
unfolding after
IsListed-cons x y ys (rest, e) = elim (Bool-cases (x == y)) [
  | inl same ↦ (ys, rw (after, same) refl)
  | inr other ↦ (rest, rw (after, other) e)
]

all-IsListed : (xs : List String) → All (IsListed xs) xs
unfolding after
all-IsListed [] = tt
all-IsListed (x ∷ xs) = (
  (xs, rw (after, (string_eq.beq_iff x x).1 refl) refl),
  All-mono (IsListed xs) (IsListed (x ∷ xs)) xs (λ y. IsListed-cons y x xs) (all-IsListed xs),
)

abbrev pub first_path : Ranking → Result (Option String)
first_path r = following_of none (candidates r)

first_path-Answers :
    (r : Ranking)
    → IsComplete r
    → (o : Option String) × (first_path r ≡ ok o) × Answers (IsListed r.order) r o
first_path-Answers r complete =
    let (ys, e, answers) = keep_usable-Answers r r.order (all-IsListed r.order) complete in
    (head_of ys, ap (following_of none) e, answers)

choose_next-Answers :
    (x : String) (r : Ranking)
    → IsComplete r
    → IsListed r.order x
    → (o : Option String) × (choose_next x r ≡ ok o) × Answers (IsListed r.order) r o
unfolding choose_next next_after
choose_next-Answers x r complete (rest, e) =
    let listed = after-All (IsListed r.order) x r.order rest e (all-IsListed r.order) in
    let known = after-All (IsKnown r) x r.order rest e complete in
    let (o, e', answers) = next_usable-Answers r rest listed known in
    let (head, e'', good) = first_path-Answers r complete in
    elim (Option-cases o) [
      | inr (y, there) ↦ (o, rw (choose_next, next_after, e, e', there) refl, answers)
      | inl gone ↦ (head, rw (choose_next, next_after, e, e', gone) e'', good)
    ]

-- The path in use after so many losses, while the physical network is there.
unfoldable pub lose_paths : ℕ → Ranking → Option String → Result (Option String)
unfolding lose choose_next
lose_paths n r none = ok none
lose_paths zero r (some x) = ok (some x)
lose_paths (suc n) r (some x) = elim (lose x r) [
  | err e ↦ err e
  | ok r' ↦ elim (choose_next x r') [ err e ↦ err e | ok o ↦ lose_paths n r' o ]
]

-- the ranking after a loss of a path that has lost `n` times
abbrev lost : String → ℕ → Ranking → Ranking
lost x n r = record r { losses = put x (min 3 (n + 1)) r.losses }

IsKnown-lost : (x y : String) (n : ℕ) (r : Ranking) → IsKnown r y → IsKnown (lost x n r) y
IsKnown-lost x y n r (m, e) = elim (Bool-cases (y == x)) [
  | inl same ↦ (min 3 (n + 1), get-put y x (min 3 (n + 1)) r.losses ∙ rw same refl)
  | inr other ↦ (m, get-put y x (min 3 (n + 1)) r.losses ∙ rw other e)
]

lose-lost :
    (x : String) (n : ℕ) (r : Ranking) → get x r.losses ≡ some n → lose x r ≡ ok (lost x n r)
unfolding lose
lose-lost x n r e = rw (lose, e) refl

losses_of :
    (x : String) (r : Ranking)
    → usable r x ≡ ok true
    → (n : ℕ) × (get x r.losses ≡ some n) × (n < 3)
losses_of x r h = elim (Option-cases (get x r.losses)) [
  | inl gone ↦ absurd (err-ne-ok (rw gone at h))
  | inr (n, e) ↦ (n, e, ltb→lt n 3 (ok_inj (rw e at h)))
]

lose_paths-ends :
    (n : ℕ) (r : Ranking) (o : Option String)
    → IsComplete r
    → Answers (IsListed r.order) r o
    → budget_of r.losses ≤ n
    → lose_paths n r o ≡ ok none
unfolding lose_paths
lose_paths-ends n r none complete answers enough = refl
lose_paths-ends zero r (some x) complete (listed, good) enough =
    let (m, e, small) = losses_of x r good in
    let some_left = budget_of-usable x r.losses m e small in absurd (omega arith)
lose_paths-ends (suc n) r (some x) complete (listed, good) enough =
    let (m, e, small) = losses_of x r good in
    let less = budget_of-put x r.losses m e small in
    let complete' =
      All-mono (IsKnown r) (IsKnown (lost x m r)) r.order (λ y. IsKnown-lost x y m r) complete in
    let (o, e', answers) = choose_next-Answers x (lost x m r) complete' listed in
    rw (lose_paths, lose-lost x m r e, e')
      (lose_paths-ends n (lost x m r) o complete' answers (omega arith))

budget_of-length : (d : Dict String ℕ) → budget_of d ≤ 3 * length d
unfolding budget_of
budget_of-length [] = omega arith
budget_of-length ((x, n) ∷ d) = let rest = budget_of-length d in omega arith

-- Where the losses of every path of the order are known: the first path is there or there is none
-- left, and, however the paths are lost while the physical network is there, choosing the next one
-- never fails, and after three losses for each known path at most none is left, where the loop of
-- `worker` stops with `ranking_exhausted`.
pub lose_paths-none :
    (r : Ranking)
    → IsComplete r
    → (o : Option String) × (first_path r ≡ ok o) × (lose_paths (3 * length r.losses) r o ≡ ok none)
lose_paths-none r complete =
    let (o, e, answers) = first_path-Answers r complete in
    (o, e, lose_paths-ends (3 * length r.losses) r o complete answers (budget_of-length r.losses))
