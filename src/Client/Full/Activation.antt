-- ===== src/Client/Full/Activation.antt =====
-- The guard of src/starfive_tunnel.py and the entry of the whole device: `full_firewall`,
-- `refresh_retained_guard` and `activate_full`.
use evgenium_network_linux.Prelude.{
  nat_eq, string_eq, Exec, String, [], if◌then◌else◌, not, pure, raise_if, runtime_error, true,
  ◌>>=◌, ◌>>◌, ◌∷◌,
}
use evgenium_network_linux.Client.Nft.{Table}
use evgenium_network_linux.Client.Rules.{minimal_guard}
use evgenium_network_linux.Client.Policy.{Addresses}
use evgenium_network_linux.Client.Machine.{System, Tunnel}
use evgenium_network_linux.Client.Machine.Actions.{nft_check, nft_load, query, run, save_guard}
use evgenium_network_linux.Client.Network.{physical_route}
use evgenium_network_linux.Client.Guard.{
  clear_dns_mappings, full_guard_active, local_networks, replacement,
}
use evgenium_network_linux.Client.Apply.{load, load_settings}
use evgenium_network_linux.Client.Apply.Whole.{apply, firewall_now}
use evgenium_network_linux.Client.Egress.{egress_health}
use evgenium_network_linux.Client.Resolver.{recover_system_dns, recover_rounds, start_namespace_dns}
use evgenium_network_linux.Client.Full.{
  full_namespace, own_full, persist_guard, point_dns, route_device, verify_host,
}

module _ {E N : Type 0} (system : System E) (ip : Addresses N) where
  unfoldable pub policy_firewall : Exec (Tunnel E) Table
  unfolding physical_route local_networks firewall_now
  policy_firewall = do
    ids ← load_settings system
    p ← load system
    uplink ← physical_route system
    lan ← local_networks system ip uplink.1
    firewall_now system ip p lan ids.0

  abbrev pub full_firewall : Exec (Tunnel E) Table
  full_firewall = if system.with_policy then policy_firewall else pure minimal_guard

  unfoldable pub replace_retained : Table → Exec (Tunnel E) (Unit {0})
  replace_retained rules = do
    nft_check system (replacement true rules)
    save_guard system rules
    nft_load system (replacement true rules)

  unfoldable pub refresh_retained_guard : Exec (Tunnel E) (Unit {0})
  unfolding full_guard_active policy_firewall replace_retained
  refresh_retained_guard = do
    active ← full_guard_active system
    if not active then pure tt else full_firewall >>= replace_retained

  -- the guard first: it is checked, loaded and kept before any traffic is routed
  unfoldable pub load_guard : Exec (Tunnel E) (Unit {0})
  unfolding policy_firewall full_guard_active persist_guard
  load_guard = do
    rules ← full_firewall
    active ← full_guard_active system
    nft_check system (replacement active rules)
    nft_load system (replacement active rules)
    persist_guard system rules

  unfoldable pub enter_device : Exec (Tunnel E) (Unit {0})
  unfolding route_device point_dns clear_dns_mappings apply recover_rounds
  enter_device = do
    run system ("/usr/local/sbin/vpnctl" ∷ "internal-starfive-pause-main" ∷ [])
    route_device system
    point_dns system
    clear_dns_mappings system true
    if system.with_policy then apply system ip else pure tt
    healthy ← recover_system_dns system
    raise_if (not healthy) (runtime_error "system_dns_failed")

  unfoldable pub activate_full : String → Exec (Tunnel E) (Unit {0})
  unfolding own_full full_namespace start_namespace_dns egress_health load_guard enter_device
      verify_host
  activate_full address = do
    query system system.links ("ip" ∷ "-j" ∷ "-4" ∷ "addr" ∷ "show" ∷ "scope" ∷ "global" ∷ [])
    own_full system
    full_namespace system address
    start_namespace_dns system
    healthy ← egress_health system
    raise_if (not healthy) (runtime_error "estonia_egress_failed")
    load_guard
    enter_device
    verify_host system
