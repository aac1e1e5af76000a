-- ===== src/Client/Closed/Working.antt =====
-- The loop of `worker` of src/starfive_tunnel.py leaves the guard closed.
use evgenium_network_linux.Prelude.{ℕ, zero, suc, Error, List, Option, String, refl}
use evgenium_network_linux.Client.Policy.{Addresses}
use evgenium_network_linux.Client.Machine.{Candidate, System, Tunnel}
use evgenium_network_linux.Client.Machine.Actions.{now}
use evgenium_network_linux.Client.Worker.{
  Watch, after_failure, check_speed, connect_paths, is_healthy, is_offline, look, lose_path,
  next_check, repair_dns, take_sample, try_path, use_path, wait, watch, watch_once,
}
use evgenium_network_linux.Client.Closed.{Closed, Holds-same, Holds}
use evgenium_network_linux.Client.Closed.Primitives.{closed_rules}
use evgenium_network_linux.Client.Closed.Parts.{
  Closed-physical_route, Closed-recover_rounds, Closed-start_namespace_dns,
}
use evgenium_network_linux.Client.Closed.Applying.{Closed-ensure_route}
use evgenium_network_linux.Client.Closed.Device.{Closed-activate_full}
use evgenium_network_linux.Client.Closed.Trying.{
  Closed-start_candidate, Closed-stop_candidate, Closed-path_healthy, Closed-speed_sample,
  Closed-traffic_total,
}

module _ {E : Type 0} (system : System E) where
  Closed-now : Closed (now system)
  unfolding now
  Closed-now = record { at = λ t. Holds-same t _ refl refl refl }

  Closed-wait : (n : ℕ) → Closed (wait system n)
  unfolding wait
  Closed-wait zero = search closed_rules
  Closed-wait (suc n) = let rest = Closed-wait n in search closed_rules depth 10

  Closed-next_check : (delay : ℕ) → Closed (next_check system delay)
  unfolding next_check
  Closed-next_check delay = search (closed_rules, Closed-now)

  Closed-repair_dns : Closed (repair_dns system)
  unfolding repair_dns
  Closed-repair_dns = search (closed_rules, Closed-start_namespace_dns) depth 14

  Closed-look : (daemon : ℕ) → Closed (look system daemon)
  unfolding look
  Closed-look daemon =
      search
        (
          closed_rules, Closed-ensure_route, Closed-repair_dns, Closed-path_healthy,
          Closed-recover_rounds,
        )
        depth 20

  Closed-is_healthy : (daemon : ℕ) → Closed (is_healthy system daemon)
  unfolding is_healthy
  Closed-is_healthy daemon = search (closed_rules, Closed-look) depth 10

  Closed-take_sample :
      (current : String) (traffic : ℕ) (v : Watch) → Closed (take_sample system current traffic v)
  unfolding take_sample
  Closed-take_sample current traffic v =
      search (closed_rules, Closed-speed_sample, Closed-next_check) depth 16

  Closed-check_speed : (c : Candidate) (v : Watch) → Closed (check_speed system c v)
  unfolding check_speed
  Closed-check_speed c v =
      search (closed_rules, Closed-now, Closed-next_check, Closed-take_sample) depth 20

  Closed-watch_once :
      (c : Candidate) (daemon : ℕ) (v : Watch) → Closed (watch_once system c daemon v)
  unfolding watch_once
  Closed-watch_once c daemon v =
      search (closed_rules, Closed-is_healthy, Closed-check_speed) depth 16

  Closed-watch :
      (rounds : ℕ) (c : Candidate) (daemon : ℕ) (v : Watch)
      → Closed (watch system rounds c daemon v)
  unfolding watch
  Closed-watch zero c daemon v = search closed_rules
  Closed-watch (suc rounds) c daemon v =
      let rest = λ (w : Watch). Closed-watch rounds c daemon w in
      search (closed_rules, Closed-wait, Closed-watch_once, rest) depth 16

  Closed-is_offline : Closed (is_offline system)
  unfolding is_offline
  Closed-is_offline = search (closed_rules, Closed-physical_route) depth 16

  Closed-lose_path : (current : String) → Closed (lose_path system current)
  unfolding lose_path
  Closed-lose_path current = search closed_rules depth 12

  Closed-after_failure : (current : String) (e : Error) → Closed (after_failure system current e)
  unfolding after_failure
  Closed-after_failure current e =
      search (closed_rules, Closed-is_offline, Closed-lose_path, Closed-wait) depth 20

module _ {E N : Type 0} (system : System E) (ip : Addresses N) where
  Closed-use_path :
      (rounds : ℕ) (c : Candidate) (identity : String)
      → Closed (use_path system ip rounds c identity)
  unfolding use_path
  Closed-use_path rounds c identity =
      search
        (
          closed_rules, Closed-start_candidate, Closed-activate_full, Closed-traffic_total,
          Closed-next_check, Closed-watch,
        )
        depth 24

  Closed-try_path :
      (rounds : ℕ) (c : Candidate) (identity : String)
      → Closed (try_path system ip rounds c identity)
  unfolding try_path
  Closed-try_path rounds c identity =
      search (closed_rules, Closed-use_path, Closed-after_failure, Closed-stop_candidate) depth 16

  Closed-connect_paths :
      (paths rounds : ℕ) (known : List (String × Candidate)) (identity : String)
      (current : Option String)
      → Closed (connect_paths system ip paths rounds known identity current)
  unfolding connect_paths
  Closed-connect_paths zero rounds known identity current = search closed_rules
  Closed-connect_paths (suc paths) rounds known identity current =
      let rest = λ (next : Option String). Closed-connect_paths paths rounds known identity next in
      search (closed_rules, Closed-try_path, rest) depth 20

  -- Whatever the machine answers: from the loop of `worker` over the paths, for any number of paths
  -- and any number of looks at each, every command that has been run leaves a standing guard in its
  -- place, where a script of `nft` runs as one transaction: a table whose output and forward chains
  -- drop what they do not accept, and accept only the loopback, the tunnel, the engine of the
  -- exceptions, their mark, DHCP, the carriers to the relays, and replies. The saved guard, which is
  -- loaded before the network, is still a guard if it was one; and the policy of exceptions is
  -- unchanged.
  pub connect_paths-Holds :
      (paths rounds : ℕ) (known : List (String × Candidate)) (identity : String)
      (current : Option String) (t : Tunnel E)
      → Holds t (connect_paths system ip paths rounds known identity current t).1
  connect_paths-Holds paths rounds known identity current t =
      (Closed-connect_paths paths rounds known identity current).at t
