-- ===== src/Tests/Tunnels.antt =====
-- A client whose commands all succeed, and which the user stops after three waits.
use evgenium_network_linux.Prelude.{
  strip, includes, sorted, nat_eq, string_eq, String, ℕ, [], false, leb, none, ok, some, suc, true,
  ◌==◌, ◌∷◌, ◌||◌, List, contains, if◌then◌else◌, not, refl, ◌≡◌, Option,
}
use evgenium_network_linux.Ranking.{Ranking}
use evgenium_network_linux.Client.Policy.{Addresses, defaults, direct_networks, unique}
use evgenium_network_linux.Client.Machine.{Candidate, Output, System, Tunnel, finished, Route, Link}
use evgenium_network_linux.Client.Machine.Actions.{
  exists, is_running, pause, read_text, start, change_file, command, prints_something, save_guard,
  save_waydroid, try_command, write_full, write_network,
}
use evgenium_network_linux.Client.Worker.Exhaustion.{first_path, lose_paths, lose_paths-none}
use evgenium_network_linux.Client.Full.{
  full_namespace, has_resolved, load_inside, make_veth, own_full, persist_guard, point_dns,
  route_device, take_full, the_address, use_resolved, verify_host, virtual_addresses, virtual_ip,
  is_inside,
}
use evgenium_network_linux.Client.Full.Activation.{
  activate_full, enter_device, load_guard, policy_firewall,
}
use evgenium_network_linux.Client.Nft.{text_lt, join, nft_set}
use evgenium_network_linux.Client.Rules.{forward_table, wire_table, daemon_table}
use evgenium_network_linux.Client.Policy.{unique, direct_networks}
use evgenium_network_linux.Client.Policy.Firewall.{firewall}
use evgenium_network_linux.Client.Machine.Actions.{
  try_command, command, change_file, exists, read_text, write_full, write_network, save_guard,
  save_waydroid, pause, start, is_running, prints_something,
}
use evgenium_network_linux.Client.Network.{choose_route, physical_route}
use evgenium_network_linux.Client.Guard.{
  is_empty, networks_of, full_guard_active, clear_mappings, clear_dns_mappings, local_networks,
  found_networks, waydroid_network,
}
use evgenium_network_linux.Client.Apply.{
  same_state, link_routes, drop_stale, write_sync, ensure_runtime, unreachable_default, take_tables,
  own_tables, lan_routes, build_tables, install, wait_device, tun_default, start_engine,
  release_tables,
}
use evgenium_network_linux.Client.Apply.Whole.{
  sync_waydroid_network, write_config, firewall_now, switch_guard, apply,
}
use evgenium_network_linux.Client.Egress.{
  is_answer, parse_exit, observed, ask_provider, egress_rounds, egress_health, ask_servers,
  system_dns_health,
}
use evgenium_network_linux.Client.Resolver.{
  wait_dns, launch_dns, start_namespace_dns, keep_original, use_resolver_file, recover_rounds,
}
use evgenium_network_linux.Client.Full.{
  virtual_addresses, the_address, virtual_ip, make_veth, is_inside, load_inside, full_namespace,
  take_full, own_full, persist_guard, route_device, has_resolved, use_resolved, point_dns,
  verify_host,
}
use evgenium_network_linux.Client.Full.Activation.{policy_firewall, load_guard, enter_device}
use evgenium_network_linux.Client.Closed.Armed.{activate_full-IsArmed, is_armed, is_active}
use evgenium_network_linux.Client.Closed.{IsKept, Holds}
use evgenium_network_linux.Client.Worker.{connect_paths}
use evgenium_network_linux.Client.Closed.{Holds}
use evgenium_network_linux.Client.Closed.Working.{connect_paths-Holds}

abbrev prints : String → Output
prints text = record { returncode = 0; stdout = text; stderr = "" }

-- what a command prints
abbrev printed : List String → String
printed args =
    if contains args "https://1.1.1.1/cdn-cgi/trace"
    then "ip=38.180.164.67"
    else if contains args "https://api.ipify.org"
    then "38.180.164.67"
    else if contains args "ss"
    then "172.29.247.2:53"
    else ""

-- the address inside of the tunnel
abbrev inner : Link
inner = record {
  index = none;
  up = true;
  addresses = record { host = "10.77.0.5"; prefixed = "10.77.0.5/24"; is_global = true } ∷ [];
}

abbrev uplink : Route
uplink = record { gateway = some "192.168.1.1"; dev = some "wlan0"; dst = "default"; metric = 600 }

-- the state is the number of waits
abbrev machine : System ℕ
machine = record {
  run = λ args script n. (finished (prints (printed args)), n);
  pause = suc;
  stop_requested = leb 3;
  time = λ n. (n, n);
  exists = λ path n. not (path == "/sys/class/net/evn-full-host");
  read_text = λ path n. some "nameserver 172.29.247.2";
  read_link = λ path n. none;
  which = λ name n. true;
  nft_path = λ n. some "/usr/sbin/nft";
  change = λ step n. (true, n);
  save = λ name n. (true, n);
  start = λ args n. (some 7, n);
  is_running = λ p n. true;
  stop = λ p n. (true, n);
  links = λ text. ok (inner ∷ []);
  routes = λ text. ok (uplink ∷ []);
  priorities = λ text. ok [];
  with_policy = true;
  is_address = λ s. true;
  is_global = λ s. true;
  in_network = λ a net. ok (net == "10.77.0.0/24");
  is_space = λ c. c == 32 || c == 10;
  settings = λ n. ok (900, 900);
  dumps = λ rules. "{}";
  glob = λ n. [];
  size = λ path n. some 2097152;
  measure = λ down o. some (900, 20);
  token_bytes = λ n. (1 ∷ 2 ∷ [], n);
  machine = "x86_64";
  digest_of = λ path n. none;
  sha256 = λ bytes. bytes;
  fetch = λ url n. (none, n);
  ask = λ server packet n. (some (1 ∷ 2 ∷ 129 ∷ 128 ∷ 0 ∷ 1 ∷ 0 ∷ 1 ∷ 0 ∷ 0 ∷ 0 ∷ 0 ∷ []), n);
}

-- networks are their texts, and overlap where they are the same
abbrev networks : Addresses String
networks = record {
  network = some;
  host_network = some;
  text = λ s. s;
  overlaps = λ a b. a == b;
  subnet_of = λ a b. a == b;
  address_exclude = λ a b. [];
}

abbrev moscow : Candidate
moscow = record {
  id = "ru-udp";
  address = "195.209.211.163";
  identity = "relay.example";
  port = 4500;
  tls = false;
  evgt = false;
  transport = none;
  label = "Moscow";
}

abbrev ranking : Ranking
ranking = record { order = "ru-udp" ∷ []; losses = ("ru-udp", 0) ∷ [] }

abbrev idle : Tunnel ℕ
idle = record {
  env = 0;
  journal = [];
  full = none;
  network = none;
  saved_guard = none;
  policy = some defaults;
  owns_tables = false;
  waydroid = none;
  egress_second = false;
  stage = none;
  active = moscow;
  dns_process = none;
  tls_process = none;
  daemon = none;
  ranking = ranking;
  baselines = [];
}

connect_paths-Holds_example :
    Holds idle
      (connect_paths machine networks 2 5 (("ru-udp", moscow) ∷ []) "client" (some "ru-udp") idle).1
connect_paths-Holds_example =
    connect_paths-Holds machine networks 2 5 (("ru-udp", moscow) ∷ []) "client" (some "ru-udp") idle

abbrev after : Tunnel ℕ
after = (activate_full machine networks "195.209.211.163" idle).1

activate_full-IsArmed_example :
    (is_armed false after.journal ≡ true) × IsKept after.saved_guard × (is_active after.full ≡ true)
unfolding text_lt join nft_set forward_table wire_table daemon_table unique direct_networks firewall
    try_command command change_file exists read_text write_full write_network save_guard
    save_waydroid pause start is_running prints_something choose_route physical_route is_empty
    networks_of full_guard_active clear_mappings clear_dns_mappings local_networks found_networks
    waydroid_network same_state link_routes drop_stale write_sync ensure_runtime unreachable_default
    take_tables own_tables lan_routes build_tables install wait_device tun_default start_engine
    release_tables sync_waydroid_network write_config firewall_now switch_guard apply is_answer
    parse_exit observed ask_provider egress_rounds egress_health ask_servers system_dns_health
    wait_dns launch_dns start_namespace_dns keep_original use_resolver_file recover_rounds
    virtual_addresses the_address virtual_ip make_veth is_inside load_inside full_namespace
    take_full own_full persist_guard route_device has_resolved use_resolved point_dns verify_host
    policy_firewall load_guard enter_device activate_full strip includes sorted
activate_full-IsArmed_example =
    activate_full-IsArmed machine networks "195.209.211.163" idle after refl

abbrev tired : Ranking
tired = record {
  order = "ru-udp" ∷ "ee-udp" ∷ "ee-tls" ∷ [];
  losses = ("ru-udp", 3) ∷ ("ee-udp", 1) ∷ ("ee-tls", 0) ∷ [];
}

lose_paths-none_example :
    (o : Option String) × (first_path tired ≡ ok o) × (lose_paths 9 tired o ≡ ok none)
lose_paths-none_example = lose_paths-none tired ((3, refl), ((1, refl), ((0, refl), tt)))
