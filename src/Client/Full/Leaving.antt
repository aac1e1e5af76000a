-- ===== src/Client/Full/Leaving.antt =====
-- The cleanup of src/starfive_tunnel.py: `cleanup_full` and `cleanup`.
use evgenium_network_linux.Prelude.{
  nat_eq, string_eq, Bool, Exec, [], false, if◌then◌else◌, none, ok, pure, true, ◌>>=◌, ◌>>◌, ◌∷◌,
  gets, modify,
}
use evgenium_network_linux.Client.Nft.{full_guard}
use evgenium_network_linux.Client.Machine.{on_option, FullState, System, Tunnel, unlink}
use evgenium_network_linux.Client.Machine.Actions.{try_run, stop_process, change_file}
use evgenium_network_linux.Client.Network.Removal.{cleanup_network}
use evgenium_network_linux.Client.Guard.{clear_dns_mappings}
use evgenium_network_linux.Client.Apply.{stop}
use evgenium_network_linux.Client.Resolver.{restore_resolver_file}
use evgenium_network_linux.Client.Full.{main_rule}

module _ {E : Type 0} (system : System E) where
  unfoldable pub stop_dns : Exec (Tunnel E) (Unit {0})
  unfolding stop_process
  stop_dns = do
    process ← gets (λ t. t.dns_process)
    stop_process system process
    modify (λ t. record t { dns_process = none })

  -- the explicit disconnection: only here the guard goes, after the routes
  unfoldable pub release_full : FullState → Exec (Tunnel E) (Unit {0})
  unfolding restore_resolver_file clear_dns_mappings
  release_full data_ = do
    restore_resolver_file system data_
    try_run system ("ip" ∷ "rule" ∷ "del" ∷ "priority" ∷ "80" ∷ "lookup" ∷ "51828" ∷ [])
    try_run system (main_rule system "del" ("to" ∷ "172.29.246.2/32" ∷ []))
    try_run system (main_rule system "del" ("iif" ∷ "evn-full-host" ∷ []))
    try_run system ("ip" ∷ "route" ∷ "flush" ∷ "table" ∷ "51828" ∷ [])
    try_run system (
        "ip" ∷ "rule" ∷ "del" ∷ "priority" ∷ "79" ∷ "to" ∷ "192.168.0.163" ∷ "ipproto" ∷ "tcp"
        ∷ "dport" ∷ "22" ∷ "lookup" ∷ "51829" ∷ [])
    try_run system (
        "ip" ∷ "rule" ∷ "del" ∷ "priority" ∷ "79" ∷ "to" ∷ "38.180.164.67" ∷ "ipproto" ∷ "tcp"
        ∷ "dport" ∷ "22" ∷ "lookup" ∷ "51829" ∷ [])
    try_run system ("systemctl" ∷ "disable" ∷ "--now" ∷ "evgenium-starfive-full-guard.service" ∷ [])
    try_run system ("nft" ∷ "delete" ∷ "table" ∷ "inet" ∷ full_guard ∷ [])
    clear_dns_mappings system false
    clear_dns_mappings system true
    try_run system ("ip" ∷ "route" ∷ "flush" ∷ "table" ∷ "51829" ∷ [])
    change_file system (unlink "full-network.json")
    modify (λ t. record t { full = none })
    λ t.
        if system.which "resolvectl" t.env
        then try_run system ("resolvectl" ∷ "flush-caches" ∷ []) t
        else (ok tt, t)

  unfoldable pub drop_link : Exec (Tunnel E) (Unit {0})
  drop_link = do
    try_run system ("ip" ∷ "route" ∷ "del" ∷ "default" ∷ "metric" ∷ "10" ∷ "table" ∷ "51828" ∷ [])
    try_run system ("ip" ∷ "link" ∷ "del" ∷ "evn-full-host" ∷ [])

  unfoldable pub cleanup_owned : Bool → FullState → Exec (Tunnel E) (Unit {0})
  unfolding drop_link release_full
  cleanup_owned release data_ = do drop_link; if release then release_full data_ else pure tt

  unfoldable pub cleanup_full : Bool → Exec (Tunnel E) (Unit {0})
  unfolding stop_dns stop cleanup_owned
  cleanup_full release = do
    stop_dns
    if system.with_policy then stop system release else pure tt
    found ← gets (λ t. t.full)
    on_option found (pure tt) (cleanup_owned release)

  unfoldable pub cleanup : Exec (Tunnel E) (Unit {0})
  unfolding cleanup_full cleanup_network
  cleanup = do cleanup_full false; cleanup_network system
