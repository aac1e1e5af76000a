-- ===== src/Link/Repair.antt =====
-- The decision of one run of scripts/server-link/health.py, which restarts the own link, restores
-- its endpoint or switches its transport, once the files `maintenance` and `resource-hold` are not
-- there. What the run finds is its input; times are whole ticks of the clock, `second` of them in
-- a second. The outcome of a command decides nothing here.
pub mod Budget
pub mod Response
use evgenium_network_linux.Prelude.{
  nat_eq, string_eq, option_eq, Bool, List, Option, String, ℕ, [], if◌then◌else◌, leb, ltb, none,
  not, some, ◌&&◌, ◌*◌, ◌+◌, ◌-◌, ◌^◌, ◌==◌, ◌||◌, ◌∷◌, ◌++◌, min, max, keep, length, false, true,
}

-- what is kept in health-state.json; a key that is missing reads as 0 or the empty list
pub record Memory : Type 0 where
  pub failures : ℕ
  pub attempts : List ℕ
  pub retry_after : ℕ

abbrev pub initial : Memory
initial = record { failures = 0; attempts = []; retry_after = 0 }

-- `physical` is none where it cannot be read; `preferred` is none without its file; `jitter` is
-- the random delay
pub record Findings : Type 0 where
  pub now : ℕ
  pub local_ok : Bool
  pub inner : Bool
  pub mode : String
  pub actual_endpoint : Option String
  pub physical : Option Bool
  pub route_ok : Bool
  pub preferred : Option String
  pub jitter : ℕ

pub data Action : Type 0 where
  no_action restart_own_link restore_selected_endpoint recovery_budget_exhausted : Action
  switch_own_transport : String → Action

unfoldable pub expected_endpoint : String → Option String
expected_endpoint mode =
    if mode == "direct"
    then some "38.180.164.67:24447"
    else if mode == "hy"
    then some "127.0.0.1:24445"
    else if mode == "tcp"
    then some "127.0.0.1:24449"
    else none

-- `d.get('endpoint_matches_mode', True)`; the key is there on 'star' only
unfoldable pub endpoint_matches : String → Findings → Bool
unfolding expected_endpoint
endpoint_matches node r = not (node == "star") || r.actual_endpoint == expected_endpoint r.mode

-- `is False`
abbrev pub is_false : Option Bool → Bool
is_false (some false) = true
is_false (some true) = false
is_false none = false

-- `d.get('physical_link_up') is not False and d.get('underlay_route_ok') is not False`; both are
-- looked at only when the peer does not answer
unfoldable pub is_reachable : Findings → Bool
is_reachable r = r.inner || not (is_false r.physical) && r.route_ok

unfoldable pub count_failure : String → Findings → Memory → ℕ
unfolding endpoint_matches
count_failure node r s = if r.inner && endpoint_matches node r then 0 else s.failures + 1

unfoldable pub needs_switch : String → Findings → Memory → Bool
unfolding is_reachable count_failure
needs_switch node r s =
    node == "star" && r.local_ok && leb 3 (count_failure node r s) && is_reachable r

unfoldable pub needs_endpoint_repair : String → Findings → Memory → Bool
unfolding endpoint_matches count_failure
needs_endpoint_repair node r s =
    node == "star"
    && r.local_ok
    && r.inner
    && not (endpoint_matches node r)
    && leb 3 (count_failure node r s)

unfoldable pub needs_action : String → Findings → Memory → Bool
unfolding needs_switch needs_endpoint_repair
needs_action node r s = not r.local_ok || needs_switch node r s || needs_endpoint_repair node r s

-- from 'tcp' to the preferred transport, and to 'tcp' from any other
abbrev pub switch_target : Findings → String
switch_target r =
    if r.mode == "tcp" then elim r.preferred [ none ↦ "hy" | some mode ↦ mode ] else "tcp"

unfoldable pub action_of : String → Findings → Memory → Action
unfolding needs_endpoint_repair
action_of node r s =
    if not r.local_ok
    then restart_own_link
    else if needs_endpoint_repair node r s
    then restore_selected_endpoint
    else switch_own_transport (switch_target r)

module _ (second : ℕ) where
  abbrev pub is_recent : ℕ → ℕ → Bool
  is_recent now t = ltb now (t + 3600 * second)

  -- the delay after the attempt that makes `n` of them
  unfoldable pub delay : Findings → ℕ → ℕ
  delay r n = min 1800 (60 * 2 ^ min (n - 1) 5) * second + r.jitter

  unfoldable pub retry_time : String → Findings → Memory → ℕ → ℕ
  unfolding needs_switch delay
  retry_time node r s n =
      let time = r.now + delay r n in
      if needs_switch node r s then max time (r.now + 300 * second) else time

  -- the memory after an attempt
  unfoldable pub attempt : String → Findings → Memory → List ℕ → Memory
  unfolding retry_time
  attempt node r s recent = record {
    failures = 0;
    attempts = recent ++ r.now ∷ [];
    retry_after = retry_time node r s (length recent + 1);
  }

  unfoldable pub run_once : String → Findings → Memory → Action × Memory
  unfolding needs_action action_of attempt count_failure
  run_once node r s =
      let recent = keep (is_recent r.now) s.attempts in
      let seen : Memory = record s { failures = count_failure node r s; attempts = recent } in
      if needs_action node r s && leb s.retry_after r.now
      then if ltb (length recent) 5
        then (action_of node r s, attempt node r s recent)
        else (recovery_budget_exhausted, seen)
      else (no_action, seen)
