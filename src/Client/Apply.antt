-- ===== src/Client/Apply.antt =====
-- What src/network_policy.py does to the machine: the steps of `apply` and of
-- `sync_waydroid_network`, `install`, `stop` and `ensure_route`.
pub mod Whole
use evgenium_network_linux.Prelude.{
  nat_eq, string_eq, Bool, Exec, List, Option, String, [], false, if◌then◌else◌, none, not, pure,
  raise, raise_if, runtime_error, some, suc, true, zero, ℕ, ◌++◌, ◌&&◌, ◌==◌, ◌>>=◌, ◌>>◌, ◌∷◌,
  gets, modify, value_or, any, contains, option_eq, ◌||◌,
}
use evgenium_network_linux.Client.Nft.{
  join, Script, Table, add_element, flush_set, full_guard, nft_set,
}
use evgenium_network_linux.Client.Policy.{Addresses, Policy, defaults}
use evgenium_network_linux.Client.Policy.Firewall.{firewall}
use evgenium_network_linux.Client.Policy.Routing.{rules_of}
use evgenium_network_linux.Client.Machine.{
  Route, System, Tunnel, Waydroid, move_to, set_mode, set_owner, make_parents, unlink,
}
use evgenium_network_linux.Client.Machine.Actions.{
  change_file, exists, nft_check, nft_load, pause, prints_something, query, refuse_if, run,
  save_guard, save_waydroid, try_command, try_run, write,
}
use evgenium_network_linux.Client.Network.{physical_route, Uplink}
use evgenium_network_linux.Client.Guard.{
  clear_dns_mappings, full_guard_active, local_networks, replacement, waydroid_network,
}

abbrev pub tun_path : String
tun_path = "/sys/class/net/evn-policy"

-- `state == previous`
list_same : List String → List String → Bool
list_same [] [] = true
list_same (x ∷ xs) (y ∷ ys) = x == y && list_same xs ys
list_same _ _ = false

unfoldable pub same_state : Waydroid → Option Waydroid → Bool
unfolding list_same
same_state s none = false
same_state s (some t) = s.index == t.index && list_same s.networks t.networks

abbrev pub set_script : List String → Script
set_script networks =
    flush_set "inet" full_guard "waydroid_networks" ∷ (elim networks as (λ x. Script) [
      | [] ↦ []
      | n ∷ ns ↦ add_element "inet" full_guard "waydroid_networks" (nft_set (n ∷ ns)) ∷ []
    ])

abbrev pub unit : String
unit = join "\n" (
    "[Unit]" ∷ "Description=Evgenium local application and domain routing" ∷ "After=network.target"
    ∷ "Wants=evgenium-waydroid-network.service" ∷ "[Service]" ∷ "User=vpn-xray" ∷ "Group=vpn-xray"
    ∷ "ExecStart=/opt/vpn-manager/bin/xray run -config /run/vpn-manager/policy.json"
    ∷ "Restart=on-failure" ∷ "RestartSec=2"
    ∷ "AmbientCapabilities=CAP_NET_ADMIN CAP_NET_RAW CAP_SYS_PTRACE CAP_DAC_READ_SEARCH"
    ∷ "CapabilityBoundingSet=CAP_NET_ADMIN CAP_NET_RAW CAP_SYS_PTRACE CAP_DAC_READ_SEARCH"
    ∷ "NoNewPrivileges=true" ∷ "ProtectSystem=strict" ∷ "ProtectHome=true" ∷ "PrivateTmp=true"
    ∷ "DeviceAllow=/dev/net/tun rw" ∷ "UMask=0077" ∷ "" ∷ [])

abbrev pub waydroid_unit : String
waydroid_unit = join "\n" (
    "[Unit]" ∷ "Description=Evgenium Waydroid network lifecycle" ∷ "After=evgenium-policy.service"
    ∷ "PartOf=evgenium-policy.service" ∷ "[Service]"
    ∷ "ExecStart=/usr/local/sbin/vpnctl internal-waydroid-watch" ∷ "Restart=on-failure"
    ∷ "RestartSec=2" ∷ "UMask=0077" ∷ "" ∷ [])

module _ {E : Type 0} (system : System E) where
  unfoldable pub link_routes : List String → Exec (Tunnel E) (Unit {0})
  link_routes [] = pure tt
  link_routes (network ∷ networks) = do
    run system (
        "ip" ∷ "route" ∷ "replace" ∷ network ∷ "dev" ∷ "waydroid0" ∷ "scope" ∷ "link" ∷ "table"
        ∷ "51830" ∷ [])
    link_routes networks

  -- the routes to the container's networks that are there no more
  unfoldable pub drop_stale : List String → List Route → Exec (Tunnel E) (Unit {0})
  drop_stale networks [] = pure tt
  drop_stale networks (r ∷ routes) = do
    if r.dev == some "waydroid0" && not (contains networks r.dst)
        then try_run system
            ("ip" ∷ "route" ∷ "del" ∷ r.dst ∷ "dev" ∷ "waydroid0" ∷ "table" ∷ "51830" ∷ [])
        else pure tt
    drop_stale networks routes

  unfoldable pub write_sync : Waydroid → Exec (Tunnel E) (Unit {0})
  unfolding link_routes drop_stale
  write_sync state = do
    routes ←
        query system system.routes ("ip" ∷ "-j" ∷ "-4" ∷ "route" ∷ "show" ∷ "table" ∷ "51830" ∷ [])
    link_routes state.networks
    nft_load system (set_script state.networks)
    drop_stale state.networks routes
    save_waydroid system state
    change_file system (set_mode "/run/vpn-manager/waydroid-network.json" 384)

  -- `load` of a policy whose schema is known
  abbrev pub load : Exec (Tunnel E) Policy
  load = gets (λ t. value_or defaults t.policy)

  abbrev pub load_settings : Exec (Tunnel E) (ℕ × ℕ)
  load_settings t = (system.settings t.env, t)

  unfoldable pub ensure_runtime : ℕ → Exec (Tunnel E) (Unit {0})
  ensure_runtime gid = do
    change_file system (make_parents "/run/vpn-manager")
    change_file system (set_owner "/run/vpn-manager" gid)
    change_file system (set_mode "/run/vpn-manager" 488)

  unfoldable pub unreachable_default : String → Exec (Tunnel E) (Unit {0})
  unreachable_default table = run system (
      "ip" ∷ "route" ∷ "replace" ∷ "unreachable" ∷ "default" ∷ "metric" ∷ "32760" ∷ "table" ∷ table
      ∷ [])

  -- tables and priorities that another program uses are refused, and the taking is written down
  unfoldable pub take_tables : Exec (Tunnel E) (Unit {0})
  unfolding prints_something
  take_tables = do
    refuse_if system (prints_something system ("ip" ∷ "route" ∷ "show" ∷ "table" ∷ "51830" ∷ []))
        "Таблица маршрутизации исключений занята другой программой."
    refuse_if system (prints_something system ("ip" ∷ "route" ∷ "show" ∷ "table" ∷ "51831" ∷ []))
        "Таблица маршрутизации исключений занята другой программой."
    priorities ← query system system.priorities ("ip" ∷ "-j" ∷ "-4" ∷ "rule" ∷ [])
    raise_if (any (λ n. n == 76 || n == 77 || n == 78) priorities)
        (runtime_error "Приоритеты маршрутизации исключений заняты другой программой.")
    write system "/etc/vpn-manager/policy-network.json" "{\"tables\": [\"51830\", \"51831\"]}"
    modify (λ t. record t { owns_tables = true })

  unfoldable pub own_tables : Exec (Tunnel E) (Unit {0})
  unfolding take_tables
  own_tables = do owned ← gets (λ t. t.owns_tables); if owned then pure tt else take_tables

  unfoldable pub lan_routes : String → List String → Exec (Tunnel E) (Unit {0})
  lan_routes dev [] = pure tt
  lan_routes dev (network ∷ networks) = do
    run system (
        "ip" ∷ "route" ∷ "replace" ∷ network ∷ "dev" ∷ dev ∷ "scope" ∷ "link" ∷ "table" ∷ "51830"
        ∷ [])
    lan_routes dev networks

  abbrev pub mark_rule : String → String → String → String → List String
  mark_rule verb priority mark table =
      "ip" ∷ "rule" ∷ verb ∷ "priority" ∷ priority ∷ "fwmark" ∷ mark ∷ "lookup" ∷ table ∷ []

  abbrev pub tun_rule : String → List String
  tun_rule verb =
      "ip" ∷ "rule" ∷ verb ∷ "priority" ∷ "78" ∷ "iif" ∷ "evn-policy" ∷ "lookup" ∷ "main" ∷ []

  -- the two tables, before anything is marked for them
  unfoldable pub build_tables : Uplink → List String → Exec (Tunnel E) (Unit {0})
  unfolding unreachable_default lan_routes
  build_tables (gateway, dev) lan = do
    unreachable_default "51830"
    unreachable_default "51831"
    lan_routes dev (lan ++ "169.254.0.0/16" ∷ "224.0.0.0/4" ∷ [])
    run system (
        "ip" ∷ "route" ∷ "replace" ∷ "default" ∷ "via" ∷ gateway ∷ "dev" ∷ dev ∷ "metric" ∷ "10"
        ∷ "table" ∷ "51830" ∷ [])
    run system (
        "ip" ∷ "route" ∷ "replace" ∷ "default" ∷ "via" ∷ "172.29.247.2" ∷ "dev" ∷ "evn-full-host"
        ∷ "metric" ∷ "10" ∷ "table" ∷ "51831" ∷ [])
    try_run system (mark_rule "del" "76" "1163284017" "51830")
    run system (mark_rule "add" "76" "1163284017" "51830")
    try_run system (mark_rule "del" "77" "1163284018" "51831")
    run system (mark_rule "add" "77" "1163284018" "51831")
    try_run system (tun_rule "del")
    run system (tun_rule "add")

  unfoldable pub install : Exec (Tunnel E) (Unit {0})
  install = do
    write system "/etc/systemd/system/evgenium-policy.service" unit
    write system "/etc/systemd/system/evgenium-waydroid-network.service" waydroid_unit
    run system ("systemctl" ∷ "daemon-reload" ∷ [])

  -- `for _ in range(80)`
  unfoldable pub wait_device : ℕ → Exec (Tunnel E) (Unit {0})
  unfolding exists pause
  wait_device zero = raise (runtime_error "Не удалось запустить обработчик исключений.")
  wait_device (suc rounds) = do
    there ← exists system tun_path
    if there then pure tt else (do pause system; wait_device rounds)

  unfoldable pub tun_default : Exec (Tunnel E) (Unit {0})
  tun_default = run system (
      "ip" ∷ "route" ∷ "replace" ∷ "default" ∷ "dev" ∷ "evn-policy" ∷ "metric" ∷ "10" ∷ "table"
      ∷ "51828" ∷ [])

  unfoldable pub start_engine : Exec (Tunnel E) (Unit {0})
  unfolding install wait_device tun_default clear_dns_mappings
  start_engine = do
    install
    run system ("systemctl" ∷ "restart" ∷ "evgenium-policy.service" ∷ [])
    wait_device 80
    tun_default
    clear_dns_mappings system false
    try_run system (
        "conntrack" ∷ "-D" ∷ "-f" ∷ "ipv4" ∷ "-p" ∷ "udp" ∷ "--dport" ∷ "53" ∷ "--reply-port-src"
        ∷ "18553" ∷ [])
    try_run system (
        "conntrack" ∷ "-D" ∷ "-f" ∷ "ipv4" ∷ "-p" ∷ "tcp" ∷ "--dport" ∷ "53" ∷ "--reply-port-src"
        ∷ "18553" ∷ [])

  unfoldable pub release_tables : Exec (Tunnel E) (Unit {0})
  release_tables = do
    try_run system (tun_rule "del")
    try_run system (mark_rule "del" "76" "1163284017" "51830")
    try_run system ("ip" ∷ "route" ∷ "flush" ∷ "table" ∷ "51830" ∷ [])
    try_run system (mark_rule "del" "77" "1163284018" "51831")
    try_run system ("ip" ∷ "route" ∷ "flush" ∷ "table" ∷ "51831" ∷ [])
    change_file system (unlink "/etc/vpn-manager/policy-network.json")
    modify (λ t. record t { owns_tables = false })

  unfoldable pub stop : Bool → Exec (Tunnel E) (Unit {0})
  unfolding release_tables
  stop release = do
    try_run system ("systemctl" ∷ "stop" ∷ "evgenium-policy.service" ∷ [])
    owned ← gets (λ t. t.owns_tables)
    if release && owned then release_tables else pure tt

  unfoldable pub ensure_route : Exec (Tunnel E) (Unit {0})
  unfolding exists tun_default
  ensure_route = do
    there ← exists system tun_path
    if there then tun_default else raise (runtime_error "policy_engine_unavailable")
