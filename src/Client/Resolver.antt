-- ===== src/Client/Resolver.antt =====
-- The DNS of the tunnel in src/starfive_tunnel.py: `start_namespace_dns`, `use_resolver_file`,
-- `restore_resolver_file` and `recover_system_dns`.
use evgenium_network_linux.Prelude.{
  ◌<>◌, nat_eq, string_eq, Bool, Exec, Option, String, [], false, if◌then◌else◌, none, not, ok,
  pure, raise, raise_if, runtime_error, some, suc, zero, true, ℕ, ◌||◌, ◌==◌, ◌>>=◌, ◌>>◌, ◌∷◌,
  gets, modify, includes,
}
use evgenium_network_linux.Client.Nft.{join}
use evgenium_network_linux.Client.Machine.{
  on_option, FullState, ResolverOriginal, System, Tunnel, move_to, netns_exec, set_mode, symlink_to,
  unlink, make_parents,
}
use evgenium_network_linux.Client.Machine.Actions.{
  change_file, exists, inside, is_running, is_stopping, pause, read_full, read_text, stage, start,
  try_inside, write, write_full,
}
use evgenium_network_linux.Client.Egress.{system_dns_health}

abbrev pub resolver_text : String
resolver_text = "nameserver 172.29.247.2\noptions timeout:3 attempts:2\n"

abbrev pub resolv_conf : String
resolv_conf = "/etc/resolv.conf"

abbrev pub public_resolver : String
public_resolver = "/run/evgenium-resolv.conf"

abbrev pub xray : String
xray = "/opt/vpn-manager/bin/xray"

abbrev pub dns_config : String
dns_config = "/etc/vpn-manager/starfive-tunnel/namespace-dns.json"

abbrev pub dns_settings : String
dns_settings =
    "{"
    <> (join ", " (
          "\"log\": {\"loglevel\": \"warning\", \"access\": \"none\"}"
          ∷ "\"inbounds\": [{\"tag\": \"dns-in\", \"listen\": \"172.29.247.2\", \"port\": 53, \"protocol\": \"dokodemo-door\", \"settings\": {\"address\": \"1.1.1.1\", \"port\": 53, \"network\": \"tcp,udp\"}}]"
          ∷ "\"dns\": {\"servers\": [\"1.1.1.1\", \"tcp://9.9.9.9\", \"https://1.0.0.1/dns-query\"], \"queryStrategy\": \"UseIPv4\", \"tag\": \"dns-engine\", \"enableParallelQuery\": true}"
          ∷ "\"outbounds\": [{\"tag\": \"wire\", \"protocol\": \"freedom\"}, {\"tag\": \"dns\", \"protocol\": \"dns\", \"settings\": {\"rules\": [{\"qType\": \"1,28\", \"action\": \"hijack\"}, {\"action\": \"direct\"}]}}]"
          ∷ "\"routing\": {\"rules\": [{\"type\": \"field\", \"inboundTag\": [\"dns-in\"], \"outboundTag\": \"dns\"}, {\"type\": \"field\", \"inboundTag\": [\"dns-engine\"], \"outboundTag\": \"wire\"}]}"
          ∷ [])
        <> "}")

module _ {E : Type 0} (system : System E) where
  -- `for _ in range(30)`
  unfoldable pub wait_dns : ℕ → Option ℕ → Exec (Tunnel E) (Unit {0})
  unfolding is_running pause
  wait_dns zero process = raise (runtime_error "private_dns_not_ready")
  wait_dns (suc rounds) process = do
    running ← is_running system process
    raise_if (not running) (runtime_error "private_dns_stopped")
    listening ← try_inside system ("ss" ∷ "-lnu" ∷ [])
    if includes "172.29.247.2:53" listening.stdout
        then write system "/etc/netns/evn-starfive/resolv.conf" resolver_text
        else (do pause system; wait_dns rounds process)

  unfoldable pub launch_dns : Exec (Tunnel E) (Unit {0})
  unfolding wait_dns
  launch_dns = do
    write system dns_config dns_settings
    inside system (xray ∷ "run" ∷ "-test" ∷ "-config" ∷ dns_config ∷ [])
    process ← start system (netns_exec (xray ∷ "run" ∷ "-config" ∷ dns_config ∷ []))
    modify (λ t. record t { dns_process = some process })
    wait_dns 30 (some process)

  unfoldable pub start_namespace_dns : Exec (Tunnel E) (Unit {0})
  unfolding is_running launch_dns
  start_namespace_dns = do
    process ← gets (λ t. t.dns_process)
    running ← is_running system process
    if running then pure tt else launch_dns

  -- `os.readlink(path) if path.is_symlink() else None`
  abbrev pub link_of : String → Exec (Tunnel E) (Option String)
  link_of path t = (ok (system.read_link path t.env), t)

  abbrev pub text_or_empty : String → Exec (Tunnel E) String
  text_or_empty path = do
    there ← exists system path
    if there then read_text system path else pure ""

  -- what stood in /etc/resolv.conf is kept once
  unfoldable pub keep_original : FullState → Exec (Tunnel E) ResolverOriginal
  unfolding exists read_text
  keep_original data_ =
      on_option data_.resolver_original
        (do
          link ← link_of resolv_conf
          text ← text_or_empty resolv_conf
          there ← exists system resolv_conf
          pure (record {
            link = link;
            text = text;
            existed = there || (elim link [ none ↦ false | some l ↦ true ]);
          }))
        pure

  unfoldable pub use_resolver_file : Exec (Tunnel E) (Unit {0})
  unfolding keep_original
  use_resolver_file = do
    data_ ← read_full system
    original ← keep_original data_
    write_full system (record data_ { resolver_original = some original; dns_fallback = true })
    write system "/etc/vpn-manager/starfive-tunnel/resolv-vpn.conf" resolver_text
    change_file system (set_mode "/etc/vpn-manager/starfive-tunnel/resolv-vpn.conf" 420)
    change_file system (make_parents public_resolver)
    text ← read_text system "/etc/vpn-manager/starfive-tunnel/resolv-vpn.conf"
    write system public_resolver text
    change_file system (set_mode public_resolver 420)
    change_file system (unlink "/etc/.evgenium-resolv.new")
    change_file system (symlink_to "/etc/.evgenium-resolv.new" public_resolver)
    change_file system (move_to "/etc/.evgenium-resolv.new" resolv_conf)

  unfoldable pub make_restored : ResolverOriginal → Exec (Tunnel E) (Unit {0})
  make_restored original =
      on_option original.link
        (do
          write system "/etc/.evgenium-resolv.restore" original.text
          change_file system (set_mode "/etc/.evgenium-resolv.restore" 420))
        (λ target. change_file system (symlink_to "/etc/.evgenium-resolv.restore" target))

  unfoldable pub put_back : ResolverOriginal → Exec (Tunnel E) (Unit {0})
  unfolding make_restored
  put_back original = do
    change_file system (unlink "/etc/.evgenium-resolv.restore")
    make_restored original
    if original.existed
        then change_file system (move_to "/etc/.evgenium-resolv.restore" resolv_conf)
        else (do
          change_file system (unlink resolv_conf)
          change_file system (unlink "/etc/.evgenium-resolv.restore"))

  -- only a link that is ours is replaced
  unfoldable pub restore_resolver_file : FullState → Exec (Tunnel E) (Unit {0})
  unfolding put_back
  restore_resolver_file data_ =
      on_option data_.resolver_original
        (on_option data_.dns_backup (pure tt) (write system resolv_conf))
        (λ original. do
          link ← link_of resolv_conf
          on_option link (pure tt)
              (λ target. if target == public_resolver then put_back original else pure tt))

  abbrev pub has_full : Exec (Tunnel E) Bool
  has_full = gets (λ t. elim t.full [ none ↦ false | some s ↦ true ])

  -- the reserve, once both tries have failed
  unfoldable pub switch_resolver : Exec (Tunnel E) Bool
  unfolding use_resolver_file system_dns_health stage
  switch_resolver = do
    there ← has_full
    if not there then pure false else (do
      stage system "repairing" "Переключаю неисправный системный DNS на защищённый резерв." 90
          (λ s. record s { active = false; error_code = "system_dns_failed" })
      use_resolver_file
      system_dns_health system)

  -- `for _ in range(2)`
  unfoldable pub recover_rounds : ℕ → Exec (Tunnel E) Bool
  unfolding system_dns_health is_stopping pause switch_resolver
  recover_rounds zero = switch_resolver
  recover_rounds (suc rounds) = do
    healthy ← system_dns_health system
    stopping ← is_stopping system
    if healthy
        then pure true
        else (if stopping then pure false else (do pause system; recover_rounds rounds))

  abbrev pub recover_system_dns : Exec (Tunnel E) Bool
  recover_system_dns = recover_rounds 2
