-- ===== src/Client/Closed/Trying.antt =====
-- The functions of src/starfive_tunnel.py that try one path leave the guard closed.
use evgenium_network_linux.Prelude.{refl, ℕ, zero, suc, Bool, String}
use evgenium_network_linux.Client.Machine.{Candidate, System}
use evgenium_network_linux.Client.Path.Binary.{download_binary, ensure_evgt_binary, fetch}
use evgenium_network_linux.Client.Path.{
  daemon_configs, expand_file, installed, start_daemon, wait_daemon,
}
use evgenium_network_linux.Client.Path.Start.{
  initiate, prepare_data_plane, start_candidate, start_carrier, stop_candidate, wait_carrier,
}
use evgenium_network_linux.Client.Path.Speed.{path_healthy, sample_one, speed_sample, traffic_total}
use evgenium_network_linux.Client.Closed.{Holds-same, Closed}
use evgenium_network_linux.Client.Closed.Primitives.{closed_rules}
use evgenium_network_linux.Client.Closed.Parts.{
  Closed-egress_health, Closed-setup_network, Closed-start_namespace_dns,
}
use evgenium_network_linux.Client.Closed.Device.{
  Closed-cleanup, Closed-full_namespace, Closed-own_full,
}

module _ {E : Type 0} (system : System E) where
  Closed-expand_file : (path : String) → Closed (expand_file system path)
  unfolding expand_file
  Closed-expand_file path = search closed_rules depth 10

  Closed-daemon_configs :
      (identity address : String) → Closed (daemon_configs system identity address)
  unfolding daemon_configs
  Closed-daemon_configs identity address = search (closed_rules, Closed-expand_file) depth 40

  Closed-installed : Closed (installed system)
  unfolding installed
  Closed-installed = search closed_rules depth 12

  Closed-wait_daemon : (rounds process : ℕ) → Closed (wait_daemon system rounds process)
  unfolding wait_daemon
  Closed-wait_daemon zero process = search closed_rules
  Closed-wait_daemon (suc rounds) process =
      let rest = Closed-wait_daemon rounds process in search closed_rules depth 24

  Closed-start_daemon : Closed (start_daemon system)
  unfolding start_daemon
  Closed-start_daemon = search (closed_rules, Closed-wait_daemon) depth 30

  pub Closed-stop_candidate : Closed (stop_candidate system)
  unfolding stop_candidate
  Closed-stop_candidate = search (closed_rules, Closed-cleanup) depth 20

  Closed-prepare_data_plane : (address : String) → Closed (prepare_data_plane system address)
  unfolding prepare_data_plane
  Closed-prepare_data_plane address =
      search (closed_rules, Closed-own_full, Closed-full_namespace, Closed-start_namespace_dns)
        depth 12

  Closed-wait_carrier : (rounds process : ℕ) → Closed (wait_carrier system rounds process)
  unfolding wait_carrier
  Closed-wait_carrier zero process = search closed_rules
  Closed-wait_carrier (suc rounds) process =
      let rest = Closed-wait_carrier rounds process in search closed_rules depth 24

  Closed-fetch : (url : String) → Closed (fetch system url)
  unfolding fetch
  Closed-fetch url = record { at = λ t. Holds-same t _ refl refl refl }

  Closed-download_binary : (arch digest : String) → Closed (download_binary system arch digest)
  unfolding download_binary
  Closed-download_binary arch digest = search (closed_rules, Closed-fetch) depth 20

  Closed-ensure_evgt_binary : Closed (ensure_evgt_binary system)
  unfolding ensure_evgt_binary
  Closed-ensure_evgt_binary = search (closed_rules, Closed-download_binary) depth 20

  Closed-start_carrier : (c : Candidate) → Closed (start_carrier system c)
  unfolding start_carrier
  Closed-start_carrier c =
      search (closed_rules, Closed-ensure_evgt_binary, Closed-wait_carrier) depth 20

  Closed-initiate : (c : Candidate) → Closed (initiate system c)
  unfolding initiate
  Closed-initiate c =
      search (closed_rules, Closed-installed, Closed-prepare_data_plane, Closed-egress_health) depth
        24

  pub Closed-start_candidate :
      (c : Candidate) (identity : String) → Closed (start_candidate system c identity)
  unfolding start_candidate
  Closed-start_candidate c identity =
      search
        (
          closed_rules, Closed-setup_network, Closed-daemon_configs, Closed-start_carrier,
          Closed-start_daemon, Closed-initiate,
        )
        depth 30

  pub Closed-path_healthy : (daemon : ℕ) → Closed (path_healthy system daemon)
  unfolding path_healthy
  Closed-path_healthy daemon =
      search (closed_rules, Closed-installed, Closed-egress_health) depth 20

  Closed-sample_one : (down : Bool) → Closed (sample_one system down)
  unfolding sample_one
  Closed-sample_one down = search closed_rules depth 14

  pub Closed-speed_sample : Closed (speed_sample system)
  unfolding speed_sample
  Closed-speed_sample = search (closed_rules, Closed-sample_one) depth 24

  pub Closed-traffic_total : Closed (traffic_total system)
  unfolding traffic_total
  Closed-traffic_total = search closed_rules
