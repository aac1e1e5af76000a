-- ===== src/Client/Closed/Device.antt =====
-- The functions of src/starfive_tunnel.py that take the whole device into the tunnel, and the
-- cleanup after them, leave the guard closed.
use evgenium_network_linux.Prelude.{
  Bool, Exec, List, String, [], ◌∷◌, ◌≡◌, refl, true, false, pure, if◌then◌else◌, Bool-cases, inl,
  inr, pure_inj, subst,
}
use evgenium_network_linux.Client.Nft.{Table, is_guard}
use evgenium_network_linux.Client.Rules.{minimal_guard}
use evgenium_network_linux.Client.Policy.{Addresses}
use evgenium_network_linux.Client.Machine.{Address, System, Tunnel}
use evgenium_network_linux.Client.Full.{
  full_namespace, has_resolved, is_inside, load_inside, make_veth, own_full, persist_guard,
  point_dns, route_device, take_full, the_address, use_resolved, verify_host, virtual_addresses,
  virtual_ip,
}
use evgenium_network_linux.Client.Full.Leaving.{
  cleanup, cleanup_full, cleanup_owned, drop_link, stop_dns,
}
use evgenium_network_linux.Client.Full.Activation.{
  activate_full, enter_device, full_firewall, load_guard, policy_firewall, refresh_retained_guard,
  replace_retained,
}
use evgenium_network_linux.Client.Closed.{Closed, Closed-reads, Closed-bind, Holds-refl}
use evgenium_network_linux.Client.Closed.Primitives.{
  Closed-save_guard, Closed-try_command, closed_rules,
}
use evgenium_network_linux.Client.Closed.Parts.{
  Closed-cleanup_network, Closed-clear_dns_mappings, Closed-egress_health, Closed-full_guard_active,
  Closed-physical_route, Closed-recover_rounds, Closed-start_namespace_dns,
  Closed-use_resolver_file,
}
use evgenium_network_linux.Client.Closed.Applying.{
  Closed-apply, Closed-bind_guard, Closed-firewall_now, Closed-local_networks, Closed-nft_load,
  Closed-stop, Gives, Gives-bind, Gives-firewall_now,
}

module _ {E : Type 0} (system : System E) where
  Closed-virtual_addresses : (found : List Address) → Closed (virtual_addresses system found)
  unfolding virtual_addresses
  Closed-virtual_addresses [] = search closed_rules
  Closed-virtual_addresses (a ∷ rest) =
      let others = Closed-virtual_addresses rest in search closed_rules depth 10

  Closed-the_address : (ips : List String) → Closed (the_address system ips)
  unfolding the_address
  Closed-the_address [] = search closed_rules
  Closed-the_address (ip ∷ []) = search closed_rules
  Closed-the_address (ip ∷ other ∷ more) = search closed_rules

  Closed-virtual_ip : Closed (virtual_ip system)
  unfolding virtual_ip
  Closed-virtual_ip = search (closed_rules, Closed-virtual_addresses, Closed-the_address) depth 10

  Closed-make_veth : Closed (make_veth system)
  unfolding make_veth
  Closed-make_veth = search closed_rules depth 12

  Closed-is_inside : (family name : String) → Closed (is_inside system family name)
  unfolding is_inside
  Closed-is_inside family name = search closed_rules

  Closed-load_inside : (vip address : String) → Closed (load_inside system vip address)
  unfolding load_inside
  Closed-load_inside vip address = search (closed_rules, Closed-is_inside) depth 40

  pub Closed-full_namespace : (address : String) → Closed (full_namespace system address)
  unfolding full_namespace
  Closed-full_namespace address =
      search (closed_rules, Closed-virtual_ip, Closed-make_veth, Closed-load_inside) depth 40

  pub Closed-own_full : Closed (own_full system)
  unfolding own_full take_full
  Closed-own_full = search closed_rules depth 24

  pub Closed-persist_guard :
      (rules : Table) → is_guard rules ≡ true → Closed (persist_guard system rules)
  unfolding persist_guard
  Closed-persist_guard rules good = search (closed_rules, Closed-save_guard, good) depth 14

  Closed-route_device : Closed (route_device system)
  unfolding route_device
  Closed-route_device = search closed_rules depth 40

  Closed-has_resolved : Closed (has_resolved system)
  unfolding has_resolved
  Closed-has_resolved = record {
    at = λ t. elim (Bool-cases (system.which "resolvectl" t.env)) [
      | inl there ↦
          rw (has_resolved, there)
            ((Closed-bind _ _ (Closed-try_command system _ _ refl) (λ o. Closed-reads _)).at t)
      | inr missing ↦ rw (has_resolved, missing) (Holds-refl t)
    ];
  }

  Closed-point_dns : Closed (point_dns system)
  unfolding point_dns use_resolved
  Closed-point_dns = search (closed_rules, Closed-has_resolved, Closed-use_resolver_file) depth 24

  pub Closed-verify_host : Closed (verify_host system)
  unfolding verify_host
  Closed-verify_host = search closed_rules depth 14

  Closed-stop_dns : Closed (stop_dns system)
  unfolding stop_dns
  Closed-stop_dns = search closed_rules

  -- Cleaning up without a release leaves the guard closed.
  pub Closed-cleanup_full : Closed (cleanup_full system false)
  unfolding cleanup_full cleanup_owned drop_link
  Closed-cleanup_full = search (closed_rules, Closed-stop_dns, Closed-stop) depth 24

  pub Closed-cleanup : Closed (cleanup system)
  unfolding cleanup
  Closed-cleanup = search (closed_rules, Closed-cleanup_full, Closed-cleanup_network)

module _ {E N : Type 0} (system : System E) (ip : Addresses N) where
  pub Closed-policy_firewall : Closed (policy_firewall system ip)
  unfolding policy_firewall
  Closed-policy_firewall =
      search (closed_rules, Closed-physical_route, Closed-local_networks, Closed-firewall_now) depth
        12

  Gives-policy_firewall : Gives (policy_firewall system ip)
  unfolding policy_firewall
  Gives-policy_firewall = search (Gives-bind, Gives-firewall_now) depth 10

  Gives-if :
      (b : Bool) (m n : Exec (Tunnel E) Table) → Gives m → Gives n → Gives (if b then m else n)
  Gives-if true m n hm hn = hm
  Gives-if false m n hm hn = hn

  Gives-minimal_guard : Gives {E = E} (pure minimal_guard)
  unfolding is_guard
  Gives-minimal_guard = record {
    guard = λ t t' rules e. subst (λ x. is_guard x ≡ true) (pure_inj {a = minimal_guard} e) refl;
  }

  pub Gives-full_firewall : Gives (full_firewall system ip)
  Gives-full_firewall = Gives-if _ _ _ Gives-policy_firewall Gives-minimal_guard

  Closed-replace_retained :
      (rules : Table) → is_guard rules ≡ true → Closed (replace_retained system ip rules)
  unfolding replace_retained
  Closed-replace_retained rules good =
      search (closed_rules, Closed-save_guard, Closed-nft_load, good) depth 12

  pub Closed-refresh_retained_guard : Closed (refresh_retained_guard system ip)
  unfolding refresh_retained_guard
  Closed-refresh_retained_guard =
      search
        (
          closed_rules, Closed-bind_guard, Gives-full_firewall, Closed-policy_firewall,
          Closed-full_guard_active, Closed-replace_retained,
        )
        depth 14

  Closed-load_guard : Closed (load_guard system ip)
  unfolding load_guard
  Closed-load_guard =
      search
        (
          closed_rules, Closed-bind_guard, Gives-full_firewall, Closed-policy_firewall,
          Closed-full_guard_active, Closed-nft_load, Closed-persist_guard,
        )
        depth 20

  pub Closed-enter_device : Closed (enter_device system ip)
  unfolding enter_device
  Closed-enter_device =
      search
        (
          closed_rules, Closed-route_device, Closed-point_dns, Closed-clear_dns_mappings,
          Closed-apply, Closed-recover_rounds,
        )
        depth 20

  pub Closed-activate_full : (address : String) → Closed (activate_full system ip address)
  unfolding activate_full
  Closed-activate_full address =
      search
        (
          closed_rules, Closed-own_full, Closed-full_namespace, Closed-start_namespace_dns,
          Closed-egress_health, Closed-load_guard, Closed-enter_device, Closed-verify_host,
        )
        depth 24
