-- ===== src/Client/Path.antt =====
-- One path to the exit in src/starfive_tunnel.py: `daemon_configs`, `swan`, `installed` and
-- `start_daemon`, and what is printed for a carrier and a sample of the speed.
pub mod Binary
pub mod Start
pub mod Speed
use evgenium_network_linux.Prelude.{
  first, or_raise, type_error, strip, nat_eq, string_eq, Bool, Error, Exec, List, Option, String,
  [], false, if◌then◌else◌, none, not, pure, raise, raise_if, runtime_error, some, suc, zero, true,
  ℕ, ◌<>◌, ◌&&◌, ◌||◌, ◌==◌, ◌>>=◌, ◌>>◌, ◌∷◌, ◌++◌, gets, modify, includes, map, os_error,
  timeout_expired, split_on, str, ltb, leb, ◌*◌, value_or, permission_error, timeout_error, ◌+◌,
}
use evgenium_network_linux.Issuer.Wireguard.Address.{parse_number, address}
use evgenium_network_linux.Client.Nft.{join, add_table}
use evgenium_network_linux.Client.Rules.{carrier_table, daemon_table}
use evgenium_network_linux.Client.Machine.{
  Candidate, System, Tunnel, catch, make_parents, netns_exec, on_option, set_mode, unlink,
}
use evgenium_network_linux.Client.Machine.Actions.{
  change_file, command, exists, is_running, is_stopping, pause, read_text, start, stop_process,
  try_command, try_inside, write, now,
}
use evgenium_network_linux.Client.Network.{setup_network}
use evgenium_network_linux.Client.Egress.{egress_health}
use evgenium_network_linux.Client.Resolver.{start_namespace_dns}
use evgenium_network_linux.Client.Full.{full_namespace, nft_inside, own_full}
use evgenium_network_linux.Client.Full.Leaving.{cleanup}

-- `s.replace(a, b)`
unfoldable pub replace : String → String → String → String
unfolding split_on join
replace a b s = join b (split_on a s)

-- blocks on one line get a line for each entry
abbrev pub expand : String → String
expand s = replace " }" "\n}" (replace "{ " "{\n" (replace "; " "\n" s))

abbrev pub root : String
root = "/etc/vpn-manager/starfive-tunnel"

unfoldable pub strongswan_conf : List String → String
unfolding join
strongswan_conf includes = join "\n" (
    ("charon {" ∷ " load_modular = yes" ∷ " install_routes = yes" ∷ " routing_table = 51822"
      ∷ " routing_table_prio = 100" ∷ " plugins {" ∷ [])
    ++ (map (λ p. "include " <> p) includes
        ++ ("  vici { socket = unix:///run/evgenium-starfive-tunnel/charon.vici }"
            ∷ "  resolve { load = no }" ∷ "  kernel-libipsec { load = no }" ∷ " }" ∷ "}"
            ∷ "charon-systemd { journal { default = 0; ike = 1 } }" ∷ "" ∷ [])))

unfoldable pub connection_conf : String → String → Candidate → String
unfolding join
connection_conf identity address active = join "\n" (
    "connections {"
    ∷ " starfive {"
    ∷ "  version = 2"
    ∷ ("  remote_addrs = " <> address)
    ∷ ("  remote_port = " <> str active.port)
    ∷ "  local_port = 4500"
    ∷ "  vips = 0.0.0.0"
    ∷ "  proposals = aes256gcm16-prfsha384-ecp384"
    ∷ "  encap = yes"
    ∷ "  fragmentation = yes"
    ∷ "  mobike = yes"
    ∷ "  dpd_delay = 15s"
    ∷ ("  local { auth = eap-tls; id = "
        <> (identity
            <> ("; eap_id = "
                <> (identity <> "; certs = /etc/vpn-manager/starfive-tunnel/client.pem }"))))
    ∷ ("  remote { auth = pubkey; id = "
        <> (active.identity <> "; cacerts = /etc/vpn-manager/starfive-tunnel/ca.pem }"))
    ∷ "  children {"
    ∷ "   starfive-net {"
    ∷ "    local_ts = dynamic"
    ∷ "    remote_ts = 0.0.0.0/0"
    ∷ "    reqid = 177"
    ∷ "    esp_proposals = chacha20poly1305"
    ∷ "    dpd_action = clear"
    ∷ "    start_action = none"
    ∷ "   }"
    ∷ "  }"
    ∷ " }"
    ∷ "}"
    ∷ "secrets { private-client { file = /etc/vpn-manager/starfive-tunnel/client-key.pem } }"
    ∷ ""
    ∷ [])

abbrev pub swan_args : List String → List String
swan_args args =
    netns_exec
      ("swanctl" ∷ (args ++ "--uri" ∷ "unix:///run/evgenium-starfive-tunnel/charon.vici" ∷ []))

-- `OSError` and `subprocess.TimeoutExpired`
unfoldable pub is_failed_call : Error → Bool
is_failed_call os_error = true
is_failed_call timeout_error = true
is_failed_call timeout_expired = true
is_failed_call (permission_error m) = true
is_failed_call _ = false

-- the command line of the carrier of a candidate, by the program of the engine
unfoldable pub carrier : String → Candidate → List String
carrier binary c =
    if c.evgt
    then (let (address, port) = value_or (c.address, 24578) c.transport in
        binary
        ∷ "-mode"
        ∷ "client"
        ∷ "-server"
        ∷ (address <> (":" <> str port))
        ∷ "-server-name"
        ∷ c.identity
        ∷ "-udp-listen"
        ∷ "127.0.0.1:24573"
        ∷ "-udp-peer"
        ∷ "172.29.246.2:4500"
        ∷ "-ca"
        ∷ (root <> "/ca.pem")
        ∷ "-cert"
        ∷ (root <> "/client.pem")
        ∷ "-key"
        ∷ (root <> "/client-key.pem")
        ∷ [])
    else "/usr/local/sbin/vpnctl" ∷ "internal-tls-client" ∷ []

-- a sample of the speed, in hundredths of a megabit
pub record Sample : Type 0 where
  pub available : Bool
  pub down : ℕ
  pub up : ℕ

abbrev pub no_sample : Sample
no_sample = record { available = false; down = 0; up = 0 }

abbrev pub sample_of : ℕ × ℕ → Option (ℕ × ℕ) → Sample
sample_of down none = no_sample
sample_of down (some up) = record { available = true; down = down.0; up = up.0 }

-- `next((p for p in candidates if Path(p).is_file()), None)`
abbrev pub charon_paths : List String
charon_paths =
    "/usr/sbin/charon-systemd" ∷ "/usr/bin/charon-systemd" ∷ "/usr/lib/ipsec/charon-systemd"
    ∷ "/usr/libexec/ipsec/charon-systemd" ∷ "/usr/lib/strongswan/charon-systemd"
    ∷ "/usr/libexec/strongswan/charon-systemd" ∷ []

-- at least two megabits before, and less than a fifth of it now
abbrev pub is_drop : ℕ → ℕ → Bool
is_drop now before = leb 200 before && ltb (5 * now) before

unfoldable pub speed_degraded : Sample → ℕ × ℕ → Bool
speed_degraded sample baseline =
    sample.available && (is_drop sample.down baseline.0 || is_drop sample.up baseline.1)

module _ {E : Type 0} (system : System E) where
  abbrev pub swan : List String → Exec (Tunnel E) (Unit {0})
  swan args = command system (swan_args args) [] >>= λ o. pure tt

  unfoldable pub expand_file : String → Exec (Tunnel E) (Unit {0})
  unfolding replace
  expand_file path = do text ← read_text system path; write system path (expand text)

  unfoldable pub daemon_configs : String → String → Exec (Tunnel E) (Unit {0})
  unfolding strongswan_conf connection_conf expand_file daemon_table
  daemon_configs identity address = do
    change_file system (make_parents "/run/evgenium-starfive-tunnel")
    paths ← gets (λ t. system.glob t.env)
    write system (root <> "/strongswan.conf") (strongswan_conf paths)
    active ← gets (λ t. t.active)
    write system (root <> "/connection.conf") (connection_conf identity address active)
    expand_file (root <> "/strongswan.conf")
    expand_file (root <> "/connection.conf")
    nft_inside system ("-c" ∷ "-f" ∷ "-" ∷ []) (add_table (daemon_table address active.port) ∷ [])
    nft_inside system ("-f" ∷ "-" ∷ []) (add_table (daemon_table address active.port) ∷ [])

  unfoldable pub installed : Exec (Tunnel E) Bool
  unfolding is_failed_call
  installed =
      catch
        (do
          o ← try_command system (swan_args ("--list-sas" ∷ "--raw" ∷ [])) []
          pure (
              o.returncode == 0
              && includes "state=ESTABLISHED" o.stdout
              && includes "state=INSTALLED" o.stdout))
        (λ e. if is_failed_call e then pure false else raise e)

  -- `for _ in range(60)`
  unfoldable pub wait_daemon : ℕ → ℕ → Exec (Tunnel E) (Unit {0})
  unfolding is_stopping is_running exists pause
  wait_daemon zero process = pure tt
  wait_daemon (suc rounds) process = do
    stopping ← is_stopping system
    running ← is_running system (some process)
    raise_if (stopping || not running) (runtime_error "daemon_stopped")
    there ← exists system "/run/evgenium-starfive-tunnel/charon.vici"
    answers ←
        if there
        then (try_command system (swan_args ("--stats" ∷ [])) [] >>= λ o. pure (o.returncode == 0))
        else pure false
    if answers then pure tt else (do pause system; wait_daemon rounds process)

  -- `except BaseException: stop_process(daemon); raise`
  abbrev pub stopping_on_error : ℕ → Exec (Tunnel E) (Unit {0}) → Exec (Tunnel E) (Unit {0})
  stopping_on_error process m = catch m (λ e. stop_process system (some process) >>= λ u. raise e)

  abbrev pub charon_binary : Exec (Tunnel E) (Option String)
  charon_binary = gets (λ t. first (λ p. system.exists p t.env) charon_paths)

  unfoldable pub start_daemon : Exec (Tunnel E) ℕ
  unfolding wait_daemon
  start_daemon = do
    change_file system (unlink "/run/evgenium-starfive-tunnel/charon.vici")
    found ← charon_binary
    binary ← or_raise found type_error
    process ← start system (netns_exec (binary ∷ []))
    stopping_on_error process (do
      wait_daemon 60 process
      swan ("--load-creds" ∷ "--noprompt" ∷ "--file" ∷ (root <> "/connection.conf") ∷ [])
      swan ("--load-conns" ∷ "--file" ∷ (root <> "/connection.conf") ∷ []))
    pure process
