-- ===== src/Client/Network.antt =====
-- The namespace of src/starfive_tunnel.py: `physical_route` and `setup_network`.
pub mod Removal
use evgenium_network_linux.Prelude.{
  split, map, nat_eq, string_eq, Bool, Exec, List, Option, Result, String, [], err, false,
  if◌then◌else◌, none, not, ok, os_error, pure, raise_if, runtime_error, some, true, ℕ, ◌++◌, ◌<>◌,
  ◌&&◌, ◌||◌, ◌==◌, ◌>>=◌, ◌>>◌, ◌∷◌, modify, gets, lift, keep, ltb, all_chars, is_name_char, leb,
  strip, strip_prefix, value_error, includes, value_or, str,
}
use Prim.Native.String.{count}
use evgenium_network_linux.Client.Nft.{join, add_table}
use evgenium_network_linux.Client.Rules.{host_rules}
use evgenium_network_linux.Client.Machine.{
  on_option, Route, System, Tunnel, NetworkState, unlink, remove_folder,
}
use evgenium_network_linux.Client.Machine.Actions.{
  change_file, write_network, exists, command, read_text, query, prints_something, refuse_if, run,
  try_run, inside, nft_load, nft_check, write, now,
}

abbrev pub starts : String → String → Bool
starts prefix s = elim (strip_prefix prefix s) [ none ↦ false | some rest ↦ true ]

-- an interface that is no tunnel
unfoldable pub is_uplink : Route → Bool
unfolding strip_prefix
is_uplink r = elim r.dev [
  | none ↦ false
  | some dev ↦
      not (value_or "" r.gateway == "")
      && not (dev == "")
      && not (starts "tun" dev || starts "xray" dev || starts "wg" dev || starts "evn-" dev)
]

-- `min(candidates, key=metric)`: the first of the least
pub least_metric : Route → List Route → Route
least_metric r [] = r
least_metric r (x ∷ xs) = least_metric (if ltb x.metric r.metric then x else r) xs

-- `[A-Za-z0-9_.:-]{1,15}`
abbrev pub is_interface : String → Bool
is_interface s =
    leb 1 (count s)
    && leb (count s) 15
    && all_chars (λ c. is_name_char c || c == b'.' || c == b':') s

-- the gateway and the device of a route
abbrev pub Uplink : Type 0
Uplink = String × String

abbrev pub endpoints : List String
endpoints = "195.209.211.163" ∷ "38.180.164.67" ∷ []

abbrev pub legacy_endpoints : List String
legacy_endpoints = "109.194.67.159" ∷ "192.168.0.163" ∷ []

abbrev pub forwarding_path : String → String
forwarding_path dev = "/proc/sys/net/ipv4/conf/" <> (dev <> "/forwarding")

-- `re.sub(r'^hosts:.*$', 'hosts: files dns', nss, flags=re.M)`
unfoldable pub without_resolve : String → String
unfolding strip_prefix split join
without_resolve nss = join "\n" (
    map (λ (line : String). if starts "hosts:" line then "hosts: files dns" else line)
      (split 10 nss))

module _ {E : Type 0} (system : System E) where
  unfoldable pub choose_route : List Route → Result Uplink
  unfolding is_uplink least_metric is_name_char
  choose_route routes = elim (keep is_uplink routes) [
    | [] ↦ err (runtime_error "no_physical_route")
    | r ∷ rest ↦
        let best = least_metric r rest in
        let dev = value_or "" best.dev in
        let gateway = value_or "" best.gateway in
        if not (is_interface dev)
        then err (runtime_error "invalid_interface")
        else if not (system.is_address gateway)
        then err (value_error "gateway")
        else ok (gateway, dev)
  ]

  unfoldable pub physical_route : Exec (Tunnel E) Uplink
  unfolding choose_route
  physical_route = do
    routes ←
        query system system.routes
          ("ip" ∷ "-j" ∷ "-4" ∷ "route" ∷ "show" ∷ "table" ∷ "main" ∷ "default" ∷ [])
    lift (choose_route routes)

  -- the refusals of `setup_network`
  unfoldable pub check_free : Exec (Tunnel E) (Unit {0})
  unfolding exists prints_something
  check_free = do
    refuse_if system (exists system "/run/netns/evn-starfive") "test_namespace_exists"
    refuse_if system (exists system "/sys/class/net/evn-sf-host") "test_namespace_exists"
    refuse_if system (exists system "/etc/netns/evn-starfive") "test_namespace_exists"
    refuse_if system
        (prints_something system ("ip" ∷ "-4" ∷ "route" ∷ "show" ∷ "table" ∷ "51824" ∷ []))
        "test_table_in_use"
    o ← command system ("ip" ∷ "-4" ∷ "route" ∷ "show" ∷ "table" ∷ "all" ∷ []) []
    raise_if (includes "172.29.246.0/30" o.stdout) (runtime_error "test_network_in_use")

  -- what is there before, written down before anything is made
  unfoldable pub record_ownership : Uplink → Exec (Tunnel E) Bool
  record_ownership (gateway, dev) = do
    forward ← read_text system "/proc/sys/net/ipv4/ip_forward"
    uplink ← read_text system (forwarding_path dev)
    write_network system (record {
      forward = strip system.is_space forward;
      interface = dev;
      uplink_forward = some (strip system.is_space uplink);
      measurement_ips = [];
    })
    pure (strip system.is_space forward == "1")

  unfoldable pub create_namespace : Exec (Tunnel E) (Unit {0})
  create_namespace = do
    run system ("ip" ∷ "netns" ∷ "add" ∷ "evn-starfive" ∷ [])
    write system "/etc/netns/evn-starfive/resolv.conf"
        "nameserver 1.1.1.1\nnameserver 9.9.9.9\noptions timeout:2 attempts:2\n"
    nss ← read_text system "/etc/nsswitch.conf"
    write system "/etc/netns/evn-starfive/nsswitch.conf" (without_resolve nss)
    run system (
        "ip" ∷ "link" ∷ "add" ∷ "evn-sf-host" ∷ "type" ∷ "veth" ∷ "peer" ∷ "name" ∷ "evn-sf-peer"
        ∷ [])
    run system ("ip" ∷ "link" ∷ "set" ∷ "evn-sf-peer" ∷ "netns" ∷ "evn-starfive" ∷ [])
    run system ("ip" ∷ "addr" ∷ "add" ∷ "172.29.246.1/30" ∷ "dev" ∷ "evn-sf-host" ∷ [])
    run system ("ip" ∷ "link" ∷ "set" ∷ "evn-sf-host" ∷ "up" ∷ [])
    inside system ("ip" ∷ "addr" ∷ "add" ∷ "172.29.246.2/30" ∷ "dev" ∷ "evn-sf-peer" ∷ [])
    inside system ("ip" ∷ "link" ∷ "set" ∷ "evn-sf-peer" ∷ "up" ∷ [])
    inside system ("ip" ∷ "link" ∷ "set" ∷ "lo" ∷ "up" ∷ [])
    inside system ("ip" ∷ "route" ∷ "add" ∷ "default" ∷ "via" ∷ "172.29.246.1" ∷ [])

  -- the relay's socket stays on the uplink of the namespace
  unfoldable pub relay_rule : Option (String × ℕ) → Exec (Tunnel E) (Unit {0})
  relay_rule transport = on_option transport (pure tt) (λ (address, port). inside system (
      "ip"
      ∷ "rule"
      ∷ "add"
      ∷ "priority"
      ∷ "89"
      ∷ "to"
      ∷ (address <> "/32")
      ∷ "ipproto"
      ∷ "tcp"
      ∷ "dport"
      ∷ str port
      ∷ "lookup"
      ∷ "main"
      ∷ []))

  unfoldable pub add_rules : List String → Exec (Tunnel E) (Unit {0})
  add_rules [] = pure tt
  add_rules (address ∷ addresses) = do
    run system (
        "ip"
        ∷ "rule"
        ∷ "add"
        ∷ "priority"
        ∷ "75"
        ∷ "from"
        ∷ "172.29.246.2/32"
        ∷ "to"
        ∷ (address <> "/32")
        ∷ "lookup"
        ∷ "51824"
        ∷ [])
    add_rules addresses

  unfoldable pub route_namespace : Uplink → Bool → Exec (Tunnel E) (Unit {0})
  unfolding add_rules relay_rule host_rules
  route_namespace (gateway, dev) previous_forward = do
    active ← gets (λ t. t.active)
    relay_rule active.transport
    run system (
        "ip" ∷ "route" ∷ "add" ∷ "table" ∷ "51824" ∷ "default" ∷ "via" ∷ gateway ∷ "dev" ∷ dev ∷ [])
    add_rules endpoints
    nft_check system (add_table (host_rules dev previous_forward) ∷ [])
    nft_load system (add_table (host_rules dev previous_forward) ∷ [])
    write system (forwarding_path "evn-sf-host") "1\n"
    write system (forwarding_path dev) "1\n"

  unfoldable pub create_network : Uplink → Exec (Tunnel E) (Unit {0})
  unfolding record_ownership create_namespace route_namespace
  create_network uplink = do
    previous_forward ← record_ownership uplink
    create_namespace
    route_namespace uplink previous_forward

  unfoldable pub setup_network : Exec (Tunnel E) (Unit {0})
  unfolding physical_route check_free create_network
  setup_network = do uplink ← physical_route; check_free; create_network uplink
