-- ===== src/Ranking.antt =====
-- The candidate order of src/path_ranking.py: `candidates`, `bootstrap`, `lose` and `next_after`
-- over the order and the losses of each path. Scores and reasons decide nothing here and are left
-- out, and so is the file that each change is saved to.
pub mod Losses
use evgenium_network_linux.Prelude.{
  nat_eq, string_eq, Bool, Dict, List, Option, Result, String, ℕ, [], err, get, if◌then◌else◌,
  key_error, ltb, map, min, none, not, ok, put, some, sorted, value_error, ◌&&◌, ◌+◌, ◌==◌, ◌∷◌,
}

pub record Ranking : Type 0 where
  pub order : List String
  pub losses : Dict String ℕ

abbrev pub verdict : Option ℕ → Result Bool
verdict none = err key_error
verdict (some n) = ok (ltb n 3)

-- `self.data['entries'][x]['losses'] < 3`, or a KeyError
abbrev pub usable : Ranking → String → Result Bool
usable r x = verdict (get x r.losses)

-- the list comprehension of `candidates`
unfoldable pub keep_usable : Ranking → List String → Result (List String)
keep_usable r [] = ok []
keep_usable r (x ∷ xs) =
    let rest = keep_usable r xs in
    elim (usable r x) [
      | err e ↦ err e
      | ok b ↦ elim rest [ err e ↦ err e | ok kept ↦ ok (if b then x ∷ kept else kept) ]
    ]

abbrev pub candidates : Ranking → Result (List String)
candidates r = keep_usable r r.order

unfoldable pub lose : String → Ranking → Result Ranking
lose identity r = elim (get identity r.losses) [
  | none ↦ err key_error
  | some n ↦ ok (record r { losses = put identity (min 3 (n + 1)) r.losses })
]

-- `next((x for x in rest if ...), None)`
unfoldable pub next_usable : Ranking → List String → Result (Option String)
next_usable r [] = ok none
next_usable r (x ∷ xs) =
    let rest = next_usable r xs in
    elim (usable r x) [ err e ↦ err e | ok b ↦ if b then ok (some x) else rest ]

-- `order[order.index(identity)+1:]`, or a ValueError
unfoldable pub after : String → List String → Result (List String)
after identity [] = err (value_error "not in list")
after identity (x ∷ xs) = let rest = after identity xs in if identity == x then ok xs else rest

unfoldable pub next_after : String → Ranking → Result (Option String)
next_after identity r = elim (after identity r.order) [
  | err e ↦ err e
  | ok rest ↦ next_usable r rest
]

-- `sorted` is stable and False comes before True: 'ru-udp' first, the others in their order
unfoldable pub bootstrap : List String → Ranking
bootstrap ids = record {
  order = sorted (λ x y. x == "ru-udp" && not (y == "ru-udp")) ids;
  losses = map (λ x. (x, 0)) ids;
}
