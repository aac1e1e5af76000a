-- ===== src/Client/Closed/Parts.antt =====
-- The namespace and the DNS of src/starfive_tunnel.py leave the guard closed.
use evgenium_network_linux.Prelude.{
  ℕ, zero, suc, nat_eq, string_eq, Bool, Exec, List, Option, String, [], ◌∷◌, ◌++◌, ℕ, refl,
  Bool-cases, Option-cases, inl, inr,
}
use evgenium_network_linux.Client.Machine.{
  is_done, System, Tunnel, NetworkState, FullState, ResolverOriginal,
}
use evgenium_network_linux.Client.Closed.{Closed, Holds, Holds-same, Holds-trans}
use evgenium_network_linux.Client.Closed.Primitives.{closed_rules}
use evgenium_network_linux.Client.Guard.{clear_dns_mappings, clear_mappings, full_guard_active}
use evgenium_network_linux.Client.Resolver.{
  keep_original, launch_dns, make_restored, put_back, recover_rounds, restore_resolver_file,
  start_namespace_dns, switch_resolver, use_resolver_file, wait_dns,
}
use evgenium_network_linux.Client.Nft.{after_script, after_statement}
use evgenium_network_linux.Client.Rules.{host_rules}
use evgenium_network_linux.Client.Network.{
  Uplink, add_rules, check_free, create_namespace, create_network, physical_route, record_ownership,
  relay_rule, route_namespace, setup_network,
}
use evgenium_network_linux.Client.Network.Removal.{
  delete_measurements, delete_rules, remove_network, restore_forwarding, cleanup_network, suppress,
}
use evgenium_network_linux.Client.Egress.{
  ask_provider, ask_servers, dns_query, egress_health, egress_rounds, is_answer, probe,
  system_dns_health,
}

module _ {E : Type 0} (system : System E) where
  pub Closed-full_guard_active : Closed (full_guard_active system)
  unfolding full_guard_active
  Closed-full_guard_active = search closed_rules

  Closed-clear_mappings : (b : Bool) (protocol : String) → Closed (clear_mappings system b protocol)
  unfolding clear_mappings
  Closed-clear_mappings b protocol = search closed_rules

  pub Closed-clear_dns_mappings : (b : Bool) → Closed (clear_dns_mappings system b)
  unfolding clear_dns_mappings
  Closed-clear_dns_mappings b = search (closed_rules, Closed-clear_mappings)

  pub Closed-physical_route : Closed (physical_route system)
  unfolding physical_route
  Closed-physical_route = search closed_rules

  Closed-check_free : Closed (check_free system)
  unfolding check_free
  Closed-check_free = search closed_rules depth 20

  Closed-create_namespace : Closed (create_namespace system)
  unfolding create_namespace
  Closed-create_namespace = search closed_rules depth 40

  Closed-record_ownership : (uplink : Uplink) → Closed (record_ownership system uplink)
  unfolding record_ownership
  Closed-record_ownership (gateway, dev) = search closed_rules depth 20

  Closed-add_rules : (addresses : List String) → Closed (add_rules system addresses)
  unfolding add_rules
  Closed-add_rules [] = search closed_rules
  Closed-add_rules (address ∷ addresses) =
      let rest = Closed-add_rules addresses in search closed_rules depth 10

  Closed-relay_rule : (o : Option (String × ℕ)) → Closed (relay_rule system o)
  unfolding relay_rule
  Closed-relay_rule o = search closed_rules

  Closed-route_namespace : (uplink : Uplink) (b : Bool) → Closed (route_namespace system uplink b)
  unfolding route_namespace host_rules after_script after_statement
  Closed-route_namespace (gateway, dev) b =
      search (closed_rules, Closed-add_rules, Closed-relay_rule) depth 30

  Closed-create_network : (uplink : Uplink) → Closed (create_network system uplink)
  unfolding create_network
  Closed-create_network uplink =
      search
        (closed_rules, Closed-record_ownership, Closed-create_namespace, Closed-route_namespace)

  pub Closed-setup_network : Closed (setup_network system)
  unfolding setup_network
  Closed-setup_network =
      search (closed_rules, Closed-physical_route, Closed-check_free, Closed-create_network)

  Closed-delete_rules : (addresses : List String) → Closed (delete_rules system addresses)
  unfolding delete_rules
  Closed-delete_rules [] = search closed_rules
  Closed-delete_rules (address ∷ addresses) =
      let rest = Closed-delete_rules addresses in search closed_rules depth 10

  Closed-delete_measurements :
      (addresses : List String) → Closed (delete_measurements system addresses)
  unfolding delete_measurements
  Closed-delete_measurements [] = search closed_rules
  Closed-delete_measurements (address ∷ addresses) =
      let rest = Closed-delete_measurements addresses in search closed_rules depth 10

  Closed-restore_forwarding : (s : NetworkState) → Closed (restore_forwarding system s)
  unfolding restore_forwarding
  Closed-restore_forwarding s = search closed_rules depth 14

  Closed-suppress : (m : Exec (Tunnel E) (Unit {0})) → Closed m → Closed (suppress system m)
  Closed-suppress m h = record { at = λ t. h.at t }

  Closed-remove_network : (s : NetworkState) → Closed (remove_network system s)
  unfolding remove_network
  Closed-remove_network s =
      search
        (
          closed_rules, Closed-delete_rules, Closed-delete_measurements, Closed-restore_forwarding,
          Closed-suppress,
        )
        depth 40

  pub Closed-cleanup_network : Closed (cleanup_network system)
  unfolding cleanup_network
  Closed-cleanup_network = search (closed_rules, Closed-remove_network)

  Closed-ask_provider : (second : Bool) → Closed (ask_provider system second)
  unfolding ask_provider
  Closed-ask_provider second = record {
    at = λ t. record {
      ran =
          record {
            args = probe second;
            input = [];
            done = is_done (system.run (probe second) [] t.env).0;
          }
          ∷ [];
      journal = refl;
      closed = (refl, tt);
      saved = λ h. h;
      kept = λ h. h;
      policy = refl;
    };
  }

  Closed-egress_rounds : (seconds : List Bool) → Closed (egress_rounds system seconds)
  unfolding egress_rounds
  Closed-egress_rounds [] = search closed_rules
  Closed-egress_rounds (second ∷ others) =
      let rest = Closed-egress_rounds others in search (closed_rules, Closed-ask_provider) depth 12

  pub Closed-egress_health : Closed (egress_health system)
  unfolding egress_health
  Closed-egress_health = search (closed_rules, Closed-egress_rounds)

  Closed-ask_servers : (servers : List String) → Closed (ask_servers system servers)
  unfolding ask_servers
  Closed-ask_servers [] = search closed_rules
  Closed-ask_servers (server ∷ servers) = record {
    at = λ t.
        let (transaction, env) = system.token_bytes t.env in
        let (answer, env') = system.ask server (transaction ++ dns_query) env in
        let rest = (Closed-ask_servers servers).at (record t { env = env' }) in
        let asked : Holds t (record t { env = env' }) = Holds-same t _ refl refl refl in
        elim (Option-cases (system.ask server (transaction ++ dns_query) env).0) [
          | inl silent ↦ rw (ask_servers, silent) (Holds-trans asked rest)
          | inr (bytes, said) ↦ elim (Bool-cases (is_answer transaction bytes)) [
            | inl good ↦ rw (ask_servers, said, good) asked
            | inr bad ↦ rw (ask_servers, said, bad) (Holds-trans asked rest)
          ]
        ];
  }

  pub Closed-system_dns_health : Closed (system_dns_health system)
  unfolding system_dns_health
  Closed-system_dns_health = search (closed_rules, Closed-ask_servers)

  Closed-wait_dns : (rounds : ℕ) (p : Option ℕ) → Closed (wait_dns system rounds p)
  unfolding wait_dns
  Closed-wait_dns zero p = search closed_rules
  Closed-wait_dns (suc rounds) p =
      let rest = Closed-wait_dns rounds p in search closed_rules depth 14

  Closed-launch_dns : Closed (launch_dns system)
  unfolding launch_dns
  Closed-launch_dns = search (closed_rules, Closed-wait_dns) depth 14

  pub Closed-start_namespace_dns : Closed (start_namespace_dns system)
  unfolding start_namespace_dns
  Closed-start_namespace_dns = search (closed_rules, Closed-launch_dns) depth 10

  Closed-keep_original : (s : FullState) → Closed (keep_original system s)
  unfolding keep_original
  Closed-keep_original s = search closed_rules depth 14

  pub Closed-use_resolver_file : Closed (use_resolver_file system)
  unfolding use_resolver_file
  Closed-use_resolver_file = search (closed_rules, Closed-keep_original) depth 30

  Closed-make_restored : (o : ResolverOriginal) → Closed (make_restored system o)
  unfolding make_restored
  Closed-make_restored o = search closed_rules depth 10

  Closed-put_back : (o : ResolverOriginal) → Closed (put_back system o)
  unfolding put_back
  Closed-put_back o = search (closed_rules, Closed-make_restored) depth 14

  pub Closed-restore_resolver_file : (s : FullState) → Closed (restore_resolver_file system s)
  unfolding restore_resolver_file
  Closed-restore_resolver_file s = search (closed_rules, Closed-put_back) depth 14

  Closed-switch_resolver : Closed (switch_resolver system)
  unfolding switch_resolver
  Closed-switch_resolver =
      search (closed_rules, Closed-use_resolver_file, Closed-system_dns_health) depth 14

  pub Closed-recover_rounds : (rounds : ℕ) → Closed (recover_rounds system rounds)
  unfolding recover_rounds
  Closed-recover_rounds zero = search (closed_rules, Closed-switch_resolver)
  Closed-recover_rounds (suc rounds) =
      let rest = Closed-recover_rounds rounds in
      search (closed_rules, Closed-system_dns_health) depth 14
