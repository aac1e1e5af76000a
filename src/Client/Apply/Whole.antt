-- ===== src/Client/Apply/Whole.antt =====
-- The functions of src/network_policy.py that read networks: `apply` and `sync_waydroid_network`.
use evgenium_network_linux.Prelude.{
  nat_eq, string_eq, Bool, Exec, List, String, [], if◌then◌else◌, not, pure, raise_if,
  runtime_error, true, ℕ, ◌&&◌, ◌==◌, ◌>>=◌, ◌>>◌, ◌∷◌, gets, option_eq,
}
use evgenium_network_linux.Client.Nft.{Table}
use evgenium_network_linux.Client.Policy.{Addresses, Policy}
use evgenium_network_linux.Client.Policy.Firewall.{firewall}
use evgenium_network_linux.Client.Policy.Routing.{rules_of}
use evgenium_network_linux.Client.Machine.{System, Tunnel, move_to, set_mode, set_owner}
use evgenium_network_linux.Client.Machine.Actions.{
  change_file, nft_check, nft_load, save_guard, try_command, write,
}
use evgenium_network_linux.Client.Network.{physical_route}
use evgenium_network_linux.Client.Guard.{
  full_guard_active, local_networks, replacement, waydroid_network,
}
use evgenium_network_linux.Client.Apply.{
  build_tables, ensure_runtime, load, load_settings, own_tables, same_state, start_engine,
  write_sync,
}

module _ {E N : Type 0} (system : System E) (ip : Addresses N) where
  unfoldable pub sync_waydroid_network : Bool → Exec (Tunnel E) (Unit {0})
  unfolding waydroid_network same_state write_sync
  sync_waydroid_network force = do
    state ← waydroid_network system ip
    previous ← gets (λ t. t.waydroid)
    if not force && same_state state previous then pure tt else write_sync system state

  -- the engine's file, tried before it is used
  unfoldable pub write_config : Policy → ℕ → Exec (Tunnel E) (Unit {0})
  unfolding rules_of try_command
  write_config p gid = do
    write system "/run/vpn-manager/policy.new.json" (system.dumps (rules_of ip p))
    change_file system (set_mode "/run/vpn-manager/policy.new.json" 416)
    change_file system (set_owner "/run/vpn-manager/policy.new.json" gid)
    check ←
        try_command system
          ("/opt/vpn-manager/bin/xray" ∷ "run" ∷ "-test" ∷ "-config"
            ∷ "/run/vpn-manager/policy.new.json" ∷ [])
          []
    raise_if (not (check.returncode == 0))
        (runtime_error "Обработчик исключений не принял настройки.")

  -- `firewall` asks for the container's networks
  unfoldable pub firewall_now : Policy → List String → ℕ → Exec (Tunnel E) Table
  unfolding waydroid_network firewall
  firewall_now p lan uid = do
    way ← waydroid_network system ip
    pure (firewall ip p lan uid way.networks)

  -- the new guard takes the place of the old one, on the disk first
  unfoldable pub switch_guard : Bool → Table → Exec (Tunnel E) (Unit {0})
  switch_guard active rules = do
    change_file system (move_to "/run/vpn-manager/policy.new.json" "/run/vpn-manager/policy.json")
    save_guard system rules
    nft_load system (replacement active rules)

  unfoldable pub apply : Exec (Tunnel E) (Unit {0})
  unfolding physical_route local_networks ensure_runtime write_config firewall_now full_guard_active
      own_tables build_tables switch_guard sync_waydroid_network start_engine
  apply = do
    p ← load system
    ids ← load_settings system
    uplink ← physical_route system
    lan ← local_networks system ip uplink.1
    ensure_runtime system ids.1
    write_config p ids.1
    rules ← firewall_now p lan ids.0
    active ← full_guard_active system
    nft_check system (replacement active rules)
    own_tables system
    build_tables system uplink lan
    switch_guard active rules
    sync_waydroid_network true
    start_engine system
