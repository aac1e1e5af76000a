-- ===== src/Link/Health.antt =====
-- The decisions of scripts/server-link/resilience/resilient-health.py: `choose`,
-- `stalled_transport` and one round of the loop of `main`. What a round reads is its input; times
-- are whole ticks of the monotonic clock, `second` of them in a second.
pub mod Pace
use evgenium_network_linux.Prelude.{
  nat_eq, string_eq, Bool, List, Option, String, ℕ, [], first, if◌then◌else◌, leb, ltb, none, not,
  some, ◌&&◌, ◌*◌, ◌+◌, ◌-◌, ◌==◌, ◌||◌, ◌∷◌, contains,
}

abbrev pub order : List String
order = "gre" ∷ "tcp" ∷ "hy" ∷ "home" ∷ "reality" ∷ "xhttp" ∷ "evgt" ∷ "xhttpcf" ∷ []

-- a dict of counters; a path that is not in it counts 0
abbrev pub Counters : Type 0
Counters = String → ℕ

-- `counters[path] = n`
abbrev pub set_counter : String → ℕ → Counters → Counters
set_counter path n counters p = if p == path then n else counters p

-- the local variables of `main` that live from round to round
pub record State : Type 0 where
  pub streaks : Counters
  pub bad : Counters
  pub failures : ℕ
  pub restarted : Counters
  pub last_switch : ℕ

-- what one round reads: the clock, the files, the probes, and how its own commands end
pub record Reading : Type 0 where
  pub start : ℕ
  pub mode : String
  pub preferred : String
  pub path_ok : String → Bool
  pub inner : Bool
  pub endpoint_matches : Bool
  pub switch_ok : Bool
  pub repaired_at : ℕ

module _ (second : ℕ) where
  unfoldable pub choose : String → Counters → ℕ → ℕ → String → Option String
  choose mode streaks failures since_switch preferred =
      let evgt = mode == "evgt" in
      if ltb since_switch (if evgt then 15 * second else 6 * second)
      then none
      else (if leb (if evgt then 3 else 2) failures
          then first (λ p. not (p == mode) && leb 2 (streaks p)) order
          else (if not (mode == preferred)
                && leb (180 * second) since_switch
                && leb 90 (streaks preferred)
              then some preferred
              else none))

  unfoldable pub stalled_transport : String → Bool → Counters → Counters → Option String
  stalled_transport mode inner bad since_restart =
      first
        (λ p.
          leb 6 (bad p) && leb (120 * second) (since_restart p) && (not (p == mode) || not inner))
        order

  -- the counters after the probes of a round
  abbrev pub count_probes : Reading → State → State
  count_probes r s = record s {
    streaks =
        λ p. if contains order p then (if r.path_ok p then s.streaks p + 1 else 0) else s.streaks p;
    bad = λ p. if contains order p then (if r.path_ok p then 0 else s.bad p + 1) else s.bad p;
    failures = if r.inner && r.endpoint_matches then 0 else s.failures + 1;
  }

  abbrev pub target_of : Reading → State → Option String
  target_of r s = choose r.mode s.streaks s.failures (r.start - s.last_switch) r.preferred

  -- the switch of the transport, if one is due
  abbrev pub switch : Option String → Reading → State → State
  switch none r s = s
  switch (some target) r s = record s {
    last_switch = r.start;
    failures = if r.switch_ok then 0 else s.failures;
  }

  -- the mode that counts as working after the switch
  abbrev pub working : Option String → Reading → String
  working none r = r.mode
  working (some target) r = if r.switch_ok then target else r.mode

  abbrev pub repair_of : String → Reading → State → Option String
  repair_of mode r s = stalled_transport mode r.inner s.bad (λ p. r.start - s.restarted p)

  abbrev pub repair : Option String → Reading → State → State
  repair none r s = s
  repair (some path) r s = record s {
    restarted = set_counter path r.repaired_at s.restarted;
    bad = set_counter path 0 s.bad;
    streaks = set_counter path 0 s.streaks;
  }

  -- one round: the state after it, the target of a switch and the path that is restarted
  unfoldable pub round : Reading → State → State × Option String × Option String
  round r s =
      let counted = count_probes r s in
      let target = target_of r counted in
      let switched = switch target r counted in
      let repaired = repair_of (working target r) r switched in
      (repair repaired r switched, target, repaired)

  -- the times of the rounds that switch, in order
  unfoldable pub switch_times : List Reading → State → List ℕ
  unfolding round
  switch_times [] s = []
  switch_times (r ∷ rest) s =
      let times = switch_times rest (round r s).0 in
      elim (round r s).1 [ none ↦ times | some target ↦ r.start ∷ times ]
