-- ===== src/Client/Full.antt =====
-- The whole device behind the tunnel: `full_namespace`, `persist_guard` and the steps of
-- `activate_full` of src/starfive_tunnel.py. Addresses of the host before the switch are read and
-- not used, as in the source.
pub mod Leaving
pub mod Activation
use evgenium_network_linux.Prelude.{
  nat_eq, string_eq, Bool, Exec, List, String, [], false, if◌then◌else◌, none, not, ok, pure, raise,
  raise_if, runtime_error, some, true, ◌||◌, ◌==◌, ◌>>=◌, ◌>>◌, ◌∷◌, lift, gets, ◌++◌, any, strip,
  ◌<>◌, or_raise, type_error,
}
use evgenium_network_linux.Client.Nft.{Table, Script, add_table, delete_table, join}
use evgenium_network_linux.Client.Rules.{forward_table, wire_table}
use evgenium_network_linux.Client.Policy.{Addresses}
use evgenium_network_linux.Client.Machine.{Address, FullState, System, Tunnel, netns_exec}
use evgenium_network_linux.Client.Machine.Actions.{
  command, exists, inside, prints_something, query, read_full, refuse_if, run, save_guard,
  try_command, try_inside, try_run, write, write_full,
}
use evgenium_network_linux.Client.Network.{physical_route}
use evgenium_network_linux.Client.Network.Removal.{cleanup_network}
use evgenium_network_linux.Client.Guard.{addresses_of}
use evgenium_network_linux.Client.Apply.{load, load_settings, stop}
use evgenium_network_linux.Client.Apply.Whole.{apply, firewall_now}
use evgenium_network_linux.Client.Egress.{exit_address}
use evgenium_network_linux.Client.Resolver.{has_full, use_resolver_file}

-- the unit of the guard, by the path of `nft`
abbrev pub guard_unit : String → String
guard_unit nft = join "\n" (
    "[Unit]"
    ∷ "Description=Evgenium full-device kill switch"
    ∷ "DefaultDependencies=no"
    ∷ "After=local-fs.target"
    ∷ "Before=network-pre.target"
    ∷ "[Service]"
    ∷ "Type=oneshot"
    ∷ "RemainAfterExit=yes"
    ∷ ("ExecStart=" <> (nft <> " -f /etc/vpn-manager/starfive-tunnel/full-guard.nft"))
    ∷ "[Install]"
    ∷ "WantedBy=multi-user.target"
    ∷ ""
    ∷ [])

abbrev pub delete_if : Bool → String → String → Script
delete_if there family name = if there then delete_table family name ∷ [] else []

module _ {E : Type 0} (system : System E) where
  -- the addresses inside the namespace that lie in the VPN's network
  unfoldable pub virtual_addresses : List Address → Exec (Tunnel E) (List String)
  virtual_addresses [] = pure []
  virtual_addresses (a ∷ rest) = do
    inner ← lift (system.in_network a.host "10.77.0.0/24")
    others ← virtual_addresses rest
    pure (if inner then a.host ∷ others else others)

  unfoldable pub the_address : List String → Exec (Tunnel E) String
  the_address (ip ∷ []) = pure ip
  the_address _ = raise (runtime_error "virtual_ip_missing")

  unfoldable pub virtual_ip : Exec (Tunnel E) String
  unfolding virtual_addresses the_address command
  virtual_ip = do
    links ← query system system.links (netns_exec ("ip" ∷ "-j" ∷ "-4" ∷ "addr" ∷ []))
    ips ← virtual_addresses (addresses_of (λ link. true) links)
    the_address ips

  unfoldable pub make_veth : Exec (Tunnel E) (Unit {0})
  unfolding exists
  make_veth = do
    there ← exists system "/sys/class/net/evn-full-host"
    if there then pure tt else (do
      run system (
          "ip" ∷ "link" ∷ "add" ∷ "evn-full-host" ∷ "type" ∷ "veth" ∷ "peer" ∷ "name"
          ∷ "evn-full-peer" ∷ [])
      run system ("ip" ∷ "link" ∷ "set" ∷ "evn-full-peer" ∷ "netns" ∷ "evn-starfive" ∷ []))

  unfoldable pub is_inside : String → String → Exec (Tunnel E) Bool
  is_inside family name = do
    o ← try_inside system ("nft" ∷ "list" ∷ "table" ∷ family ∷ name ∷ [])
    pure (o.returncode == 0)

  abbrev pub nft_inside : List String → Script → Exec (Tunnel E) (Unit {0})
  nft_inside args script = command system (netns_exec ("nft" ∷ args)) script >>= λ o. pure tt

  -- the tables of the namespace, in one transaction
  unfoldable pub load_inside : String → String → Exec (Tunnel E) (Unit {0})
  unfolding is_inside forward_table wire_table
  load_inside vip address = do
    forward ← is_inside "inet" "evn_full_forward"
    wire ← is_inside "netdev" "evn_full_wire"
    active ← gets (λ t. t.active)
    let rules =
        delete_if forward "inet" "evn_full_forward"
        ++ (delete_if wire "netdev" "evn_full_wire"
            ++ (add_table (forward_table vip) ∷ add_table (wire_table address active.port) ∷ []))
    nft_inside ("-c" ∷ "-f" ∷ "-" ∷ []) rules
    nft_inside ("-f" ∷ "-" ∷ []) rules
    nft_inside ("flush" ∷ "chain" ∷ "inet" ∷ "evn_starfive_guard" ∷ "forward" ∷ []) []
    nft_inside
        ("add" ∷ "rule" ∷ "inet" ∷ "evn_starfive_guard" ∷ "forward" ∷ "iifname" ∷ "evn-full-peer"
          ∷ "meta" ∷ "nfproto" ∷ "ipv4" ∷ "accept" ∷ [])
        []
    nft_inside
        ("add" ∷ "rule" ∷ "inet" ∷ "evn_starfive_guard" ∷ "forward" ∷ "oifname" ∷ "evn-full-peer"
          ∷ "ipsec" ∷ "in" ∷ "reqid" ∷ "177" ∷ "ct" ∷ "state" ∷ "established,related" ∷ "accept"
          ∷ [])
        []

  unfoldable pub full_namespace : String → Exec (Tunnel E) (Unit {0})
  unfolding virtual_ip make_veth load_inside
  full_namespace address = do
    vip ← virtual_ip
    make_veth
    run system ("ip" ∷ "addr" ∷ "replace" ∷ "172.29.247.1/30" ∷ "dev" ∷ "evn-full-host" ∷ [])
    run system ("ip" ∷ "link" ∷ "set" ∷ "evn-full-host" ∷ "mtu" ∷ "1280" ∷ "up" ∷ [])
    inside system ("ip" ∷ "addr" ∷ "replace" ∷ "172.29.247.2/30" ∷ "dev" ∷ "evn-full-peer" ∷ [])
    inside system ("ip" ∷ "link" ∷ "set" ∷ "evn-full-peer" ∷ "mtu" ∷ "1280" ∷ "up" ∷ [])
    inside system
        ("sysctl" ∷ "-qw" ∷ "net.ipv4.conf.all.forwarding=1" ∷ "net.ipv4.conf.all.rp_filter=0" ∷ [])
    try_inside system (
        "ip" ∷ "rule" ∷ "del" ∷ "priority" ∷ "90" ∷ "to" ∷ "172.29.247.0/30" ∷ "lookup" ∷ "main"
        ∷ [])
    inside system (
        "ip" ∷ "rule" ∷ "add" ∷ "priority" ∷ "90" ∷ "to" ∷ "172.29.247.0/30" ∷ "lookup" ∷ "main"
        ∷ [])
    load_inside vip address

  -- what another program may have taken, and the taking is written down
  unfoldable pub take_full : Exec (Tunnel E) (Unit {0})
  unfolding exists prints_something
  take_full = do
    refuse_if system (exists system "/sys/class/net/evn-full-host") "full_interface_collision"
    refuse_if system (prints_something system ("ip" ∷ "route" ∷ "show" ∷ "table" ∷ "51828" ∷ []))
        "full_table_collision"
    refuse_if system (prints_something system ("ip" ∷ "route" ∷ "show" ∷ "table" ∷ "51829" ∷ []))
        "admin_table_collision"
    priorities ← query system system.priorities ("ip" ∷ "-j" ∷ "-4" ∷ "rule" ∷ [])
    raise_if (any (λ n. n == 79 || n == 80) priorities) (runtime_error "full_rule_collision")
    write_full system (record {
      active = false;
      resolver_original = none;
      dns_backup = none;
      dns_mode = none;
      dns_fallback = false;
    })

  unfoldable pub own_full : Exec (Tunnel E) (Unit {0})
  unfolding take_full
  own_full = do there ← has_full system; if there then pure tt else take_full

  -- the guard on the disk, and the unit that loads it before the network
  unfoldable pub persist_guard : Table → Exec (Tunnel E) (Unit {0})
  persist_guard rules = do
    found ← gets (λ t. system.nft_path t.env)
    nft ← or_raise found type_error
    save_guard system rules
    write system "/etc/systemd/system/evgenium-starfive-full-guard.service" (guard_unit nft)
    run system ("systemctl" ∷ "daemon-reload" ∷ [])
    run system ("systemctl" ∷ "enable" ∷ "evgenium-starfive-full-guard.service" ∷ [])

  abbrev pub main_rule : String → List String → List String
  main_rule verb selector =
      "ip" ∷ "rule" ∷ verb ∷ "priority" ∷ "79" ∷ (selector ++ "lookup" ∷ "main" ∷ [])

  -- the routes of the whole device into the tunnel
  unfoldable pub route_device : Exec (Tunnel E) (Unit {0})
  route_device = do
    run system (
        "ip" ∷ "route" ∷ "replace" ∷ "unreachable" ∷ "default" ∷ "metric" ∷ "32760" ∷ "table"
        ∷ "51828" ∷ [])
    run system (
        "ip" ∷ "route" ∷ "replace" ∷ "default" ∷ "via" ∷ "172.29.247.2" ∷ "dev" ∷ "evn-full-host"
        ∷ "metric" ∷ "10" ∷ "table" ∷ "51828" ∷ [])
    try_run system ("ip" ∷ "rule" ∷ "del" ∷ "priority" ∷ "80" ∷ "lookup" ∷ "51828" ∷ [])
    try_run system (main_rule "del" ("to" ∷ "172.29.246.2/32" ∷ []))
    run system (main_rule "add" ("to" ∷ "172.29.246.2/32" ∷ []))
    try_run system (main_rule "del" ("iif" ∷ "evn-full-host" ∷ []))
    run system (main_rule "add" ("iif" ∷ "evn-full-host" ∷ []))
    run system ("ip" ∷ "rule" ∷ "add" ∷ "priority" ∷ "80" ∷ "lookup" ∷ "51828" ∷ [])

  -- `shutil.which('resolvectl') and ...`
  unfoldable pub has_resolved : Exec (Tunnel E) Bool
  has_resolved t =
      if system.which "resolvectl" t.env
      then (do
        o ← try_command system ("systemctl" ∷ "is-active" ∷ "--quiet" ∷ "systemd-resolved" ∷ []) []
        pure (o.returncode == 0))
          t
      else (ok false, t)

  unfoldable pub use_resolved : FullState → Exec (Tunnel E) (Unit {0})
  use_resolved data_ = do
    write_full system (record data_ { dns_mode = some "resolved_link" })
    run system ("resolvectl" ∷ "dns" ∷ "evn-full-host" ∷ "172.29.247.2" ∷ [])
    run system ("resolvectl" ∷ "domain" ∷ "evn-full-host" ∷ "~." ∷ [])
    run system ("resolvectl" ∷ "default-route" ∷ "evn-full-host" ∷ "yes" ∷ [])
    try_run system ("resolvectl" ∷ "flush-caches" ∷ [])

  unfoldable pub point_dns : Exec (Tunnel E) (Unit {0})
  unfolding has_resolved use_resolved use_resolver_file
  point_dns = do
    data_ ← read_full system
    resolved ← has_resolved
    if resolved then use_resolved data_ else use_resolver_file system

  abbrev pub host_probe : List String
  host_probe =
      "curl"
      ∷ "-4"
      ∷ "--noproxy"
      ∷ (if system.with_policy then "" else "*")
      ∷ "--fail"
      ∷ "--silent"
      ∷ "--max-time"
      ∷ "10"
      ∷ ((if system.with_policy then "--socks5-hostname" ∷ "127.0.0.1:18554" ∷ [] else [])
          ++ "https://api.ipify.org" ∷ [])

  -- the path of the host itself, before it is announced
  unfoldable pub verify_host : Exec (Tunnel E) (Unit {0})
  verify_host = do
    check ← command system host_probe []
    raise_if (not (strip system.is_space check.stdout == exit_address))
        (runtime_error "host_egress_failed")
    data_ ← read_full system
    write_full system (record data_ { active = true })
