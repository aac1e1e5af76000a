-- ===== src/Link/Health/Pace.antt =====
-- How often resilient-health.py switches, and what it never restarts.
use evgenium_network_linux.Prelude.{
  nat_eq, string_eq, List, String, ℕ, [], contains, some, true, ◌*◌, ◌+◌, ◌∷◌, ◌≡◌, ◌≢◌, ◌≤◌, ◌⊎◌,
  Bool, Bool-cases, arith, false, first, first-eq-some, if◌then◌else◌, inl, inr, leb, ltb, none,
  not, sym, ◌&&◌, ◌<◌, ◌==◌, ◌||◌, ◌∙◌, Option, refl, subst, ◌-◌,
}
use mathlib.Core.Option.{some-injective, none-ne-some}
use evgenium_network_linux.Link.Health.{
  Counters, choose, order, Reading, State, round, stalled_transport, switch_times, count_probes,
  repair, repair_of, switch, target_of, working,
}

abbrev pub IsSpaced : ℕ → ℕ → List ℕ → Type 0
IsSpaced gap last [] = Unit
IsSpaced gap last (t ∷ rest) = (last + gap ≤ t) × IsSpaced gap t rest

contains-first :
    (p : String → Bool) (xs : List String) (x : String) → first p xs ≡ some x → contains xs x ≡ true
contains-first p [] x h = absurd (none-ne-some x h)
contains-first p (y ∷ ys) x h = elim (Bool-cases (p y)) [
  | inl found ↦
      let same : y ≡ x = some-injective y x (rw found at h) in
      ground (arith, string_eq.beq_iff x y, same)
  | inr other ↦ let rest = contains-first p ys x (rw other at h) in ground (arith, rest)
]

idle :
    (failing rested same works : Bool)
    → (failing && rested && (not same || not works)) ≡ true
    → works ≡ true
    → same ≡ false
idle failing rested same works h w = ground (arith, h, w)

false-ne-true : ¬ (false ≡ true)
false-ne-true h = cc

module _ (second : ℕ) where
  -- what the fallback search finds
  fallback_lem :
      (mode target : String) (streaks : Counters)
      → first (λ p. not (p == mode) && leb 2 (streaks p)) order ≡ some target
      → (target ≢ mode) × (2 ≤ streaks target) × (contains order target ≡ true)
  fallback_lem mode target streaks h =
      let (before, after, e, none_before, passes) =
        first-eq-some (λ p. not (p == mode) && leb 2 (streaks p)) order target h in
      (
        λ same. cc (passes, (string_eq.beq_iff target mode).1 same),
        ground (arith, passes),
        contains-first (λ p. not (p == mode) && leb 2 (streaks p)) order target h,
      )

  -- the waiting time and the failures that a switch needs
  abbrev pub pause_of : String → ℕ
  pause_of mode = if mode == "evgt" then 15 * second else 6 * second

  abbrev pub patience_of : String → ℕ
  patience_of mode = if mode == "evgt" then 3 else 2

  abbrev pub Chosen : String → String → Counters → ℕ → ℕ → String → Type 0
  Chosen mode preferred streaks failures since target =
      (pause_of mode ≤ since)
      × (target ≢ mode)
      × (((patience_of mode ≤ failures) × (2 ≤ streaks target) × (contains order target ≡ true))
          ⊎ ((target ≡ preferred) × (180 * second ≤ since) × (90 ≤ streaks target)))

  prefer_lem :
      (mode preferred target : String) (streaks : Counters) (failures since : ℕ)
      → pause_of mode ≤ since
      → (if not (mode == preferred) && leb (180 * second) since && leb 90 (streaks preferred)
          then some preferred
          else none)
        ≡ some target
      → Chosen mode preferred streaks failures since target
  prefer_lem mode preferred target streaks failures since late h =
      elim (Bool-cases
        (not (mode == preferred) && leb (180 * second) since && leb 90 (streaks preferred))) [
          | inr other ↦ absurd (none-ne-some target (rw other at h))
          | inl stable ↦
              let same : preferred ≡ target = some-injective preferred target (rw stable at h) in
              (
                late,
                λ e. cc (stable, (string_eq.beq_iff mode preferred).1 (sym e ∙ sym same)),
                inr (sym same, ground (arith, stable), rw (← same) (ground (arith, stable))),
              )
        ]

  -- `choose` picks another path than the current one: a path of the list with two good probes in a
  -- row, after two failures of the tunnel in a row, or three on the short-HTTPS path; or the
  -- preferred path, after ninety good probes and three minutes without a switch. It never acts
  -- within six seconds of the last switch, or fifteen on the short-HTTPS path.
  pub choose_lem :
      (mode preferred target : String) (streaks : Counters) (failures since : ℕ)
      → choose second mode streaks failures since preferred ≡ some target
      → Chosen mode preferred streaks failures since target
  unfolding choose
  choose_lem mode preferred target streaks failures since h =
      elim (Bool-cases (ltb since (if mode == "evgt" then 15 * second else 6 * second))) [
        | inl soon ↦ absurd (none-ne-some target (rw (choose, soon) at h))
        | inr late ↦
            let waited : pause_of mode ≤ since = ground (arith, late) in
            elim (Bool-cases (leb (if mode == "evgt" then 3 else 2) failures)) [
              | inl broken ↦
                  let (other, good, listed) =
                    fallback_lem mode target streaks (rw (choose, late, broken) at h) in
                  (waited, other, inl (ground (arith, broken), good, listed))
              | inr fine ↦
                  prefer_lem mode preferred target streaks failures since waited
                    (rw (choose, late, fine) at h)
            ]
      ]

  pause_lem : (mode : String) → 6 * second ≤ pause_of mode
  pause_lem mode =
      elim (mode == "evgt") as (λ b. 6 * second ≤ (if b then 15 * second else 6 * second)) [
        | true ↦ omega arith
        | false ↦ omega arith
      ]

  repair_keeps :
      (path : Option String) (r : Reading) (s : State)
      → (repair second path r s).last_switch ≡ s.last_switch
  repair_keeps none r s = refl
  repair_keeps (some path) r s = refl

  -- one round, with its target
  IsSpaced-switch :
      (target : Option String) (gap : ℕ) (times : List ℕ) (r : Reading) (s : State)
      → ((path : String) → target ≡ some path → s.last_switch + gap ≤ r.start)
      → IsSpaced gap (switch second target r s).last_switch times
      → IsSpaced gap s.last_switch (elim target [ none ↦ times | some path ↦ r.start ∷ times ])
  IsSpaced-switch none gap times r s late h = h
  IsSpaced-switch (some path) gap times r s late h = (late path refl, h)

  switch_times-round :
      (r : Reading) (rest : List Reading) (s : State)
      → 0 < second
      → IsSpaced
          (6 * second)
          (round second r s).0.last_switch
          (switch_times second rest (round second r s).0)
      → IsSpaced (6 * second) s.last_switch (switch_times second (r ∷ rest) s)
  unfolding switch_times round
  switch_times-round r rest s positive h =
      let counted : State = count_probes second r s in
      let target : Option String = target_of second r counted in
      let switched : State = switch second target r counted in
      let late : (path : String) → target ≡ some path → s.last_switch + 6 * second ≤ r.start =
        λ path e.
          let waited =
            (choose_lem r.mode r.preferred path counted.streaks counted.failures
              (r.start - s.last_switch) e).0 in
          omega (arith, pause_lem r.mode, waited, positive) in
      IsSpaced-switch target (6 * second) (switch_times second rest (round second r s).0) r counted
        late
        (subst (λ t. IsSpaced (6 * second) t (switch_times second rest (round second r s).0))
          (repair_keeps (repair_of second (working second target r) r switched) r switched) h)

  -- Whatever the probes, the files and the commands answer, the switches of a run are at least six
  -- seconds apart, and the first comes at least six seconds after the last one before the run,
  -- where a second has at least one tick.
  pub switch_times-IsSpaced :
      (rounds : List Reading) (s : State)
      → 0 < second
      → IsSpaced (6 * second) s.last_switch (switch_times second rounds s)
  switch_times-IsSpaced [] s positive = unfold switch_times in tt
  switch_times-IsSpaced (r ∷ rest) s positive =
      switch_times-round r rest s positive
        (switch_times-IsSpaced rest (round second r s).0 positive)

  -- The path that a round restarts failed six probes in a row or more, was not restarted for two
  -- minutes, and does not carry the traffic while the tunnel works: it is another path than the one
  -- in use after the round's switch, or the tunnel gave no answer.
  stalled_transport_lem :
      (mode path : String) (inner : Bool) (bad since_restart : Counters)
      → stalled_transport second mode inner bad since_restart ≡ some path
      → (6 ≤ bad path)
        × (120 * second ≤ since_restart path)
        × ((path ≢ mode) ⊎ (inner ≡ false))
        × (contains order path ≡ true)
  unfolding stalled_transport
  stalled_transport_lem mode path inner bad since_restart h =
      let test : String → Bool = λ p.
        leb 6 (bad p) && leb (120 * second) (since_restart p) && (not (p == mode) || not inner) in
      let (before, after, e, none_before, passes) = first-eq-some test order path h in
      (
        ground (arith, passes),
        ground (arith, passes),
        elim (Bool-cases inner) [
          | inl works ↦
              let differs : (path == mode) ≡ false =
                idle (leb 6 (bad path)) (leb (120 * second) (since_restart path)) (path == mode)
                  inner passes works in
              inl (λ same. false-ne-true (sym differs ∙ (string_eq.beq_iff path mode).1 same))
          | inr silent ↦ inr silent
        ],
        contains-first test order path h,
      )
