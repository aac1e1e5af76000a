-- ===== src/Client/Path/Start.antt =====
-- The start and the end of a candidate in src/starfive_tunnel.py: `stop_candidate`,
-- `prepare_data_plane` and `start_candidate`.
use evgenium_network_linux.Prelude.{
  nat_eq, string_eq, Exec, String, [], if◌then◌else◌, none, not, pure, raise, raise_if,
  runtime_error, some, suc, zero, ℕ, ◌<>◌, ◌||◌, ◌>>=◌, ◌>>◌, ◌∷◌, gets, modify, includes,
}
use evgenium_network_linux.Issuer.Wireguard.Address.{address}
use evgenium_network_linux.Client.Nft.{add_table}
use evgenium_network_linux.Client.Rules.{carrier_table}
use evgenium_network_linux.Client.Machine.{Candidate, System, Tunnel, netns_exec}
use evgenium_network_linux.Client.Machine.Actions.{
  is_running, is_stopping, pause, start, stop_process, try_inside, write,
}
use evgenium_network_linux.Client.Network.{setup_network}
use evgenium_network_linux.Client.Egress.{egress_health}
use evgenium_network_linux.Client.Resolver.{start_namespace_dns}
use evgenium_network_linux.Client.Full.{full_namespace, nft_inside, own_full}
use evgenium_network_linux.Client.Full.Leaving.{cleanup}
use evgenium_network_linux.Client.Path.Binary.{ensure_evgt_binary}
use evgenium_network_linux.Client.Path.{
  carrier, daemon_configs, installed, root, start_daemon, stopping_on_error, swan,
}

module _ {E : Type 0} (system : System E) where
  unfoldable pub stop_candidate : Exec (Tunnel E) (Unit {0})
  unfolding stop_process cleanup
  stop_candidate = do
    daemon ← gets (λ t. t.daemon)
    stop_process system daemon
    tls ← gets (λ t. t.tls_process)
    stop_process system tls
    modify (λ t. record t { tls_process = none })
    cleanup system

  unfoldable pub prepare_data_plane : String → Exec (Tunnel E) (Unit {0})
  unfolding own_full full_namespace start_namespace_dns
  prepare_data_plane address = do
    own_full system
    full_namespace system address
    start_namespace_dns system

  -- `for _ in range(50)`
  unfoldable pub wait_carrier : ℕ → ℕ → Exec (Tunnel E) (Unit {0})
  unfolding is_stopping is_running pause
  wait_carrier zero process = raise (runtime_error "tls_carrier_not_ready")
  wait_carrier (suc rounds) process = do
    stopping ← is_stopping system
    raise_if stopping (runtime_error "cancelled")
    running ← is_running system (some process)
    raise_if (not running) (runtime_error "tls_carrier_stopped")
    listening ← try_inside system ("ss" ∷ "-anu" ∷ [])
    if includes "127.0.0.1:24573" listening.stdout
        then pure tt
        else (do pause system; wait_carrier rounds process)

  unfoldable pub start_carrier : Candidate → Exec (Tunnel E) (Unit {0})
  unfolding ensure_evgt_binary carrier wait_carrier
  start_carrier candidate = do
    binary ← if candidate.evgt then ensure_evgt_binary system else pure ""
    process ← start system (netns_exec (carrier binary candidate))
    modify (λ t. record t { tls_process = some process })
    wait_carrier 50 process
    nft_inside system ("-f" ∷ "-" ∷ []) (add_table carrier_table ∷ [])

  -- the exchange of keys, and the exit behind it
  unfoldable pub initiate : Candidate → Exec (Tunnel E) (Unit {0})
  unfolding is_stopping installed prepare_data_plane egress_health
  initiate candidate = do
    swan system ("--initiate" ∷ "--child" ∷ "starfive-net" ∷ [])
    stopping ← is_stopping system
    raise_if stopping (runtime_error "cancelled")
    up ← installed system
    raise_if (not up) (runtime_error "handshake_failed")
    prepare_data_plane candidate.address
    healthy ← egress_health system
    raise_if (not healthy) (runtime_error "estonia_egress_failed")

  unfoldable pub start_candidate : Candidate → String → Exec (Tunnel E) ℕ
  unfolding setup_network daemon_configs start_carrier start_daemon initiate
  start_candidate candidate identity = do
    modify (λ t. record t { active = candidate })
    write system (root <> "/active-path.json") candidate.id
    setup_network system
    daemon_configs system identity candidate.address
    if candidate.tls || candidate.evgt then start_carrier candidate else pure tt
    process ← start_daemon system
    stopping_on_error system process (initiate candidate)
    pure process
