-- ===== src/Link/Repair/Budget.antt =====
-- How often scripts/server-link/health.py acts on the link, over its runs.
use evgenium_network_linux.Prelude.{
  Bool, List, String, ℕ, [], ltb, ◌&&◌, ◌∷◌, ◌++◌, keep, length, true, false, Bool-cases, arith,
  ◌≡◌, ◌≤◌, refl, ap, ◌∙◌, sym, inl, inr, leb, if◌then◌else◌, not, subst, ◌+◌,
}
use evgenium_network_linux.Link.Repair.{
  Memory, Findings, Action, initial, is_recent, run_once, action_of, no_action, restart_own_link,
  restore_selected_endpoint, recovery_budget_exhausted, switch_own_transport, needs_action,
  needs_endpoint_repair, switch_target,
}

-- the times of the actions, after a run
abbrev pub note : ℕ → Action → List ℕ → List ℕ
note now no_action history = history
note now recovery_budget_exhausted history = history
note now restart_own_link history = history ++ now ∷ []
note now restore_selected_endpoint history = history ++ now ∷ []
note now (switch_own_transport mode) history = history ++ now ∷ []

length-keep : (p : ℕ → Bool) (xs : List ℕ) → length (keep p xs) ≤ length xs
length-keep p [] = omega arith
length-keep p (x ∷ xs) = ground (arith, length-keep p xs)

keep-++ : (p : ℕ → Bool) (xs ys : List ℕ) → keep p (xs ++ ys) ≡ keep p xs ++ keep p ys
keep-++ p [] ys = refl
keep-++ p (x ∷ xs) ys = elim (Bool-cases (p x)) [
  | inl kept ↦ rw (kept) (ap (λ zs. x ∷ zs) (keep-++ p xs ys))
  | inr gone ↦ rw (gone) (keep-++ p xs ys)
]

note-choice :
    (up repair : Bool) (target : String) (now : ℕ) (history : List ℕ)
    → note now
        (if not up
          then restart_own_link
          else if repair
          then restore_selected_endpoint
          else switch_own_transport target)
        history
      ≡ history ++ now ∷ []
note-choice false repair target now history = refl
note-choice true true target now history = refl
note-choice true false target now history = refl

note-action_of :
    (node : String) (r : Findings) (s : Memory) (now : ℕ) (history : List ℕ)
    → note now (action_of node r s) history ≡ history ++ now ∷ []
unfolding action_of
note-action_of node r s now history =
    note-choice r.local_ok (needs_endpoint_repair node r s) (switch_target r) now history

length-snoc : (xs : List ℕ) (x : ℕ) → length (xs ++ x ∷ []) ≡ length xs + 1
length-snoc [] x = refl
length-snoc (y ∷ xs) x = omega (arith, length-snoc xs x)

-- the states after any runs, with the times of their actions and the time of the last run
pub data Reached (second : ℕ) (node : String) : List ℕ → ℕ → Memory → Type 0 where
  start : Reached second node [] 0 initial
  ran :
      (r : Findings) (history : List ℕ) (clock : ℕ) (s : Memory)
      → Reached second node history clock s
      → clock ≤ r.now
      → Reached second node
          (note r.now (run_once second node r s).0 history)
          r.now
          (run_once second node r s).1

module _ (second : ℕ) (node : String) (positive : 1 ≤ second) where
  -- what was no longer recent is not recent later
  keep-recent :
      (before now : ℕ) (xs : List ℕ)
      → before ≤ now
      → keep (is_recent second now) (keep (is_recent second before) xs)
        ≡ keep (is_recent second now) xs
  keep-recent before now [] h = refl
  keep-recent before now (x ∷ xs) h = elim (Bool-cases (is_recent second before x)) [
    | inl once ↦ elim (Bool-cases (is_recent second now x)) [
      | inl still ↦ rw (once, still, keep-recent before now xs h) refl
      | inr gone ↦ rw (once, gone, keep-recent before now xs h) refl
    ]
    | inr old ↦
        let gone : is_recent second now x ≡ false = ground arith in
        rw (old, gone, keep-recent before now xs h) refl
  ]

  run_once-attempts :
      (r : Findings) (history : List ℕ) (s : Memory)
      → keep (is_recent second r.now) s.attempts ≡ keep (is_recent second r.now) history
      → length s.attempts ≤ 5
      → ((run_once second node r s).1.attempts
          ≡ keep (is_recent second r.now) (note r.now (run_once second node r s).0 history))
        × (length (run_once second node r s).1.attempts ≤ 5)
  unfolding run_once
  run_once-attempts r history s same few =
      let recent = keep (is_recent second r.now) s.attempts in
      let fewer : length recent ≤ 5 =
        omega (arith, length-keep (is_recent second r.now) s.attempts, few) in
      elim (Bool-cases (needs_action node r s && leb s.retry_after r.now)) [
        | inr quiet ↦ rw (run_once, quiet) (same, fewer)
        | inl due ↦ elim (Bool-cases (ltb (length recent) 5)) [
          | inr spent ↦ rw (run_once, due, spent) (same, fewer)
          | inl room ↦
              let new : is_recent second r.now r.now ≡ true = ground arith in
              rw (run_once, due, room)
                (
                  ap (λ l. l ++ r.now ∷ []) same
                      ∙ sym (
                          ap (keep (is_recent second r.now)) (note-action_of node r s r.now history)
                          ∙ keep-++ (is_recent second r.now) history (r.now ∷ [])
                          ∙ rw (new) refl),
                  ground (arith, length-snoc recent r.now),
                )
        ]
      ]

  Reached-attempts :
      (history : List ℕ) (clock : ℕ) (s : Memory)
      → Reached second node history clock s
      → (s.attempts ≡ keep (is_recent second clock) history) × (length s.attempts ≤ 5)
  Reached-attempts _ _ _ start = (refl, omega arith)
  Reached-attempts _ _ _ (ran r history clock s before later) =
      let (same, few) = Reached-attempts history clock s before in
      run_once-attempts r history s
        (ap (keep (is_recent second r.now)) same ∙ keep-recent clock r.now history later) few

-- Over any runs of the program whose clock does not go back, from an empty memory on, it acts at
-- most five times in the hour that ends with its last run.
pub Reached-five :
    (second : ℕ) (node : String) (history : List ℕ) (clock : ℕ) (s : Memory)
    → 1 ≤ second
    → Reached second node history clock s
    → length (keep (is_recent second clock) history) ≤ 5
Reached-five second node history clock s positive reached =
    let (same, few) = Reached-attempts second node positive history clock s reached in
    subst (λ l. length l ≤ 5) same few
