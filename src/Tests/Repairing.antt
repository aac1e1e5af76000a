-- ===== src/Tests/Repairing.antt =====
-- Runs of the first health program: a link that is down, and a silent peer.
use evgenium_network_linux.Prelude.{
  nat_eq, string_eq, ℕ, true, false, [], arith, some, none, refl, ◌∷◌, ◌≡◌, ◌≤◌, ◌⊎◌, keep, length,
}
use evgenium_network_linux.Link.Repair.{
  Findings, initial, is_recent, run_once, switch_own_transport, is_reachable,
}
use evgenium_network_linux.Link.Repair.Budget.{start, ran, Reached-five}
use evgenium_network_linux.Link.Repair.Response.{IsDue, run_once-switches}

abbrev down : Findings
down = record {
  now = 5000;
  local_ok = false;
  inner = false;
  mode = "hy";
  actual_endpoint = none;
  physical = none;
  route_ok = true;
  preferred = none;
  jitter = 7;
}

Reached-five_example : length (keep (is_recent 10 5000) (5000 ∷ [])) ≤ 5
unfolding run_once
Reached-five_example =
    Reached-five 10 "estonia" (5000 ∷ []) 5000 (run_once 10 "estonia" down initial).1 (omega arith)
      (ran down [] 0 initial start (omega arith))

abbrev silent : ℕ → Findings
silent now = record {
  now = now;
  local_ok = true;
  inner = false;
  mode = "tcp";
  actual_endpoint = some "127.0.0.1:24449";
  physical = some true;
  route_ok = true;
  preferred = none;
  jitter = 0;
}

silent-IsDue : (now : ℕ) → IsDue 10 initial (silent now)
unfolding is_reachable
silent-IsDue now = record {
  up = refl;
  silent = refl;
  reachable = refl;
  due = omega arith;
  room = omega arith;
}

run_once-switches_example :
    let s1 = (run_once 10 "star" (silent 100) initial).1 in
    let s2 = (run_once 10 "star" (silent 400) s1).1 in
    ((run_once 10 "star" (silent 100) initial).0 ≡ switch_own_transport "hy")
    ⊎ (((run_once 10 "star" (silent 400) s1).0 ≡ switch_own_transport "hy")
        ⊎ ((run_once 10 "star" (silent 700) s2).0 ≡ switch_own_transport "hy"))
run_once-switches_example =
    run_once-switches 10 initial (silent 100) (silent 400) (silent 700) (silent-IsDue 100)
      (silent-IsDue 400) (silent-IsDue 700)

-- the third run is the one that switches
third_run :
    let s1 = (run_once 10 "star" (silent 100) initial).1 in
    let s2 = (run_once 10 "star" (silent 400) s1).1 in
    (run_once 10 "star" (silent 700) s2).0 ≡ switch_own_transport "hy"
unfolding run_once
third_run = refl
