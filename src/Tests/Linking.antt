-- ===== src/Tests/Linking.antt =====
-- Decisions of the link's health program in a failing round.
use evgenium_network_linux.Prelude.{
  nat_eq, string_eq, String, ℕ, true, false, [], arith, if◌then◌else◌, refl, ◌==◌, ◌∷◌,
}
use evgenium_network_linux.Link.Health.{choose, State, Reading, switch_times}
use evgenium_network_linux.Link.Health.Pace.{choose_lem, IsSpaced, switch_times-IsSpaced, Chosen}

-- two good probes of 'hy' only
abbrev hy_streaks : String → ℕ
hy_streaks path = if path == "hy" then 2 else 0

choose_lem_example : Chosen 10 "tcp" "tcp" hy_streaks 2 100 "hy"
unfolding choose
choose_lem_example = choose_lem 10 "tcp" "tcp" "hy" hy_streaks 2 100 refl

-- 'gre' failed seven probes in a row
abbrev gre_bad : String → ℕ
gre_bad path = if path == "gre" then 7 else 0

abbrev silent : ℕ → Reading
silent start = record {
  start = start;
  mode = "tcp";
  preferred = "tcp";
  path_ok = λ path. path == "hy";
  inner = false;
  endpoint_matches = true;
  switch_ok = false;
  repaired_at = start;
}

abbrev before : State
before = record {
  streaks = hy_streaks;
  bad = λ path. 0;
  failures = 1;
  restarted = λ path. 0;
  last_switch = 1000;
}

switch_times-IsSpaced_example :
    IsSpaced 60 1000 (switch_times 10 (silent 1100 ∷ silent 1120 ∷ silent 1160 ∷ []) before)
switch_times-IsSpaced_example =
    switch_times-IsSpaced 10 (silent 1100 ∷ silent 1120 ∷ silent 1160 ∷ []) before (omega arith)
