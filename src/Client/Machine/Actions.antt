-- ===== src/Client/Machine/Actions.antt =====
-- What src/starfive_tunnel.py does to the machine: `command`, `inside`, `write`, `stop_process`,
-- `stage` and the files that it reads again.
use evgenium_network_linux.Prelude.{
  nat_eq, string_eq, Bool, Exec, List, Option, Result, String, [], err, false, if◌then◌else◌, none,
  ok, os_error, pure, runtime_error, raise_if, not, strip, some, timeout_expired, ℕ, ◌++◌, ◌==◌,
  ◌>>=◌, ◌∷◌, gets, or_raise,
}
use evgenium_network_linux.Client.Nft.{Script, Table}
use evgenium_network_linux.Ranking.{Ranking}
use evgenium_network_linux.Client.Policy.{Policy}
use evgenium_network_linux.Client.Machine.{
  FileStep, FullState, NetworkState, Output, Stage, System, Tunnel, Waydroid, checked, is_done,
  ended, netns_exec, write_file,
}

module _ {E : Type 0} (system : System E) where
  -- `command(..., check=False)`
  unfoldable pub try_command : List String → Script → Exec (Tunnel E) Output
  try_command args input t =
      let (e, env) = system.run args input t.env in
      (
        ended e,
        record t {
          env = env;
          journal = t.journal ++ record { args = args; input = input; done = is_done e } ∷ [];
        },
      )

  unfoldable pub command : List String → Script → Exec (Tunnel E) Output
  unfolding try_command
  command args input = try_command args input >>= λ o t. (checked o, t)

  abbrev pub try_run : List String → Exec (Tunnel E) (Unit {0})
  try_run args = try_command args [] >>= λ o. pure tt

  abbrev pub run : List String → Exec (Tunnel E) (Unit {0})
  run args = command args [] >>= λ o. pure tt

  abbrev pub inside : List String → Exec (Tunnel E) (Unit {0})
  inside args = run (netns_exec args)

  abbrev pub try_inside : List String → Exec (Tunnel E) Output
  try_inside args = try_command (netns_exec args) []

  -- `command(['nft', '-f', '-'], data=script)` and its dry run
  abbrev pub nft_load : Script → Exec (Tunnel E) (Unit {0})
  nft_load script = command ("nft" ∷ "-f" ∷ "-" ∷ []) script >>= λ o. pure tt

  abbrev pub nft_check : Script → Exec (Tunnel E) (Unit {0})
  nft_check script = command ("nft" ∷ "-c" ∷ "-f" ∷ "-" ∷ []) script >>= λ o. pure tt

  unfoldable pub change_file : FileStep → Exec (Tunnel E) (Unit {0})
  change_file step t =
      let (done, env) = system.change step t.env in
      (if done then ok tt else err os_error, record t { env = env })

  abbrev pub write : String → String → Exec (Tunnel E) (Unit {0})
  write path text = change_file (write_file path text)

  -- `path.exists()`, `path.read_text()`
  unfoldable pub exists : String → Exec (Tunnel E) Bool
  exists path t = (ok (system.exists path t.env), t)

  unfoldable pub read_text : String → Exec (Tunnel E) String
  read_text path t = (elim (system.read_text path t.env) [ none ↦ err os_error | some s ↦ ok s ], t)

  unfoldable pub write_full : FullState → Exec (Tunnel E) (Unit {0})
  write_full s t =
      let (done, env) = system.save "full-network.json" t.env in
      if done
      then (ok tt, record t { env = env; full = some s })
      else (err os_error, record t { env = env })

  unfoldable pub write_network : NetworkState → Exec (Tunnel E) (Unit {0})
  write_network s t =
      let (done, env) = system.save "network.json" t.env in
      if done
      then (ok tt, record t { env = env; network = some s })
      else (err os_error, record t { env = env })

  -- `tunnel.write(ROOT/'full-guard.nft', rules)`
  unfoldable pub save_guard : Table → Exec (Tunnel E) (Unit {0})
  save_guard rules t =
      let (done, env) = system.save "full-guard.nft" t.env in
      if done
      then (ok tt, record t { env = env; saved_guard = some rules })
      else (err os_error, record t { env = env })

  unfoldable pub save_policy : Policy → Exec (Tunnel E) (Unit {0})
  save_policy p t =
      let (done, env) = system.save "policy.json" t.env in
      if done
      then (ok tt, record t { env = env; policy = some p })
      else (err os_error, record t { env = env })

  unfoldable pub save_waydroid : Waydroid → Exec (Tunnel E) (Unit {0})
  save_waydroid s t =
      let (done, env) = system.save "waydroid-network.json" t.env in
      if done
      then (ok tt, record t { env = env; waydroid = some s })
      else (err os_error, record t { env = env })

  abbrev pub read_full : Exec (Tunnel E) FullState
  read_full = gets (λ t. t.full) >>= λ f. or_raise f os_error

  unfoldable pub pause : Exec (Tunnel E) (Unit {0})
  pause t = (ok tt, record t { env = system.pause t.env })

  unfoldable pub is_stopping : Exec (Tunnel E) Bool
  is_stopping t = (ok (system.stop_requested t.env), t)

  unfoldable pub now : Exec (Tunnel E) ℕ
  now t = let (n, env) = system.time t.env in (ok n, record t { env = env })

  -- the ranking as it is after a change, and its file
  unfoldable pub save_ranking : Ranking → Exec (Tunnel E) (Unit {0})
  save_ranking r t =
      let (done, env) = system.save "ranking.json" t.env in
      (if done then ok tt else err os_error, record t { env = env; ranking = r })

  -- `subprocess.Popen`
  unfoldable pub start : List String → Exec (Tunnel E) ℕ
  start args t =
      let (p, env) = system.start args t.env in
      (elim p [ none ↦ err os_error | some n ↦ ok n ], record t { env = env })

  unfoldable pub is_running : Option ℕ → Exec (Tunnel E) Bool
  is_running none t = (ok false, t)
  is_running (some p) t = (ok (system.is_running p t.env), t)

  unfoldable pub stop_process : Option ℕ → Exec (Tunnel E) (Unit {0})
  stop_process none t = (ok tt, t)
  stop_process (some p) t =
      if system.is_running p t.env
      then (let (done, env) = system.stop p t.env in
          (if done then ok tt else err timeout_expired, record t { env = env }))
      else (ok tt, t)

  -- a command whose output is asked to be blank
  unfoldable pub prints_something : List String → Exec (Tunnel E) Bool
  unfolding try_command
  prints_something args =
      try_command args [] >>= λ o. pure (not (strip system.is_space o.stdout == ""))

  abbrev pub refuse_if : Exec (Tunnel E) Bool → String → Exec (Tunnel E) (Unit {0})
  refuse_if m code = m >>= λ b. raise_if b (runtime_error code)

  -- `json.loads` of what `ip -j` prints
  abbrev pub query : {A : Type 0} → (String → Result A) → List String → Exec (Tunnel E) A
  query reader args = command args [] >>= λ o t. (reader o.stdout, t)

  abbrev pub empty_stage : Stage
  empty_stage = record {
    phase = "";
    message = "";
    progress = 0;
    active = false;
    path = none;
    error_code = "";
    updated = 0;
  }

  -- `stage(phase, message, progress, **fields)`
  unfoldable pub stage : String → String → ℕ → (Stage → Stage) → Exec (Tunnel E) (Unit {0})
  unfolding now
  stage phase message progress fields t =
      let (n, env) = system.time t.env in
      let before : Stage = elim t.stage [ none ↦ empty_stage | some s ↦ s ] in
      let after =
        fields
          (record before { phase = phase; message = message; progress = progress; updated = n }) in
      let (done, env') = system.save "starfive-tunnel.json" env in
      if done
      then (ok tt, record t { env = env'; stage = some after })
      else (err os_error, record t { env = env' })
