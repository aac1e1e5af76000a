-- ===== src/Client/Network/Removal.antt =====
-- The part of `cleanup` of src/starfive_tunnel.py that follows `cleanup_full`.
use evgenium_network_linux.Prelude.{
  nat_eq, string_eq, Exec, List, String, [], err, if◌then◌else◌, none, ok, os_error, pure, ◌++◌,
  ◌<>◌, ◌==◌, ◌>>=◌, ◌>>◌, ◌∷◌, modify, gets, strip,
}
use evgenium_network_linux.Client.Machine.{
  on_option, System, Tunnel, NetworkState, unlink, remove_folder,
}
use evgenium_network_linux.Client.Machine.Actions.{
  change_file, exists, read_text, try_run, write, now,
}
use evgenium_network_linux.Client.Network.{endpoints, forwarding_path, legacy_endpoints}

module _ {E : Type 0} (system : System E) where
  unfoldable pub delete_rules : List String → Exec (Tunnel E) (Unit {0})
  delete_rules [] = pure tt
  delete_rules (address ∷ addresses) = do
    try_run system (
        "ip"
        ∷ "rule"
        ∷ "del"
        ∷ "priority"
        ∷ "75"
        ∷ "from"
        ∷ "172.29.246.2/32"
        ∷ "to"
        ∷ (address <> "/32")
        ∷ "lookup"
        ∷ "51824"
        ∷ [])
    delete_rules addresses

  unfoldable pub delete_measurements : List String → Exec (Tunnel E) (Unit {0})
  delete_measurements [] = pure tt
  delete_measurements (address ∷ addresses) = do
    if system.is_global address
        then try_run system (
            "ip"
            ∷ "rule"
            ∷ "del"
            ∷ "priority"
            ∷ "111"
            ∷ "from"
            ∷ "172.29.246.2/32"
            ∷ "to"
            ∷ (address <> "/32")
            ∷ "lookup"
            ∷ "51824"
            ∷ [])
        else pure tt
    delete_measurements addresses

  -- forwarding as it was before
  unfoldable pub restore_forwarding : NetworkState → Exec (Tunnel E) (Unit {0})
  unfolding exists
  restore_forwarding data_ =
      on_option data_.uplink_forward
        (if data_.forward == "0"
          then (do
            now ← read_text system "/proc/sys/net/ipv4/ip_forward"
            if strip system.is_space now == "1"
                then write system "/proc/sys/net/ipv4/ip_forward" "0\n"
                else pure tt)
          else pure tt)
        (λ old. do
          there ← exists system (forwarding_path data_.interface)
          if there then write system (forwarding_path data_.interface) (old <> "\n") else pure tt)

  -- `contextlib.suppress(OSError)`
  abbrev pub suppress : Exec (Tunnel E) (Unit {0}) → Exec (Tunnel E) (Unit {0})
  suppress m t = (elim (m t).0 [ err os_error ↦ ok tt | r ↦ r ], (m t).1)

  unfoldable pub remove_network : NetworkState → Exec (Tunnel E) (Unit {0})
  unfolding delete_rules delete_measurements restore_forwarding
  remove_network data_ = do
    try_run system ("nft" ∷ "delete" ∷ "table" ∷ "inet" ∷ "evgenium_starfive_lab_host" ∷ [])
    delete_rules (endpoints ++ legacy_endpoints)
    delete_measurements data_.measurement_ips
    try_run system ("ip" ∷ "route" ∷ "flush" ∷ "table" ∷ "51824" ∷ [])
    try_run system ("ip" ∷ "netns" ∷ "del" ∷ "evn-starfive" ∷ [])
    try_run system ("ip" ∷ "link" ∷ "del" ∷ "evn-sf-host" ∷ [])
    restore_forwarding data_
    change_file system (unlink "/etc/netns/evn-starfive/resolv.conf")
    change_file system (unlink "/etc/netns/evn-starfive/nsswitch.conf")
    suppress (change_file system (remove_folder "/etc/netns/evn-starfive"))
    change_file system (unlink "network.json")
    modify (λ t. record t { network = none })

  -- what follows `cleanup_full`: a namespace without its file is not ours
  unfoldable pub cleanup_network : Exec (Tunnel E) (Unit {0})
  unfolding remove_network
  cleanup_network = do owned ← gets (λ t. t.network); on_option owned (pure tt) remove_network
