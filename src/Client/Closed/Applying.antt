-- ===== src/Client/Closed/Applying.antt =====
-- `apply`, `sync_waydroid_network` and `stop` of src/network_policy.py leave the guard closed.
use evgenium_network_linux.Prelude.{
  Bool, Exec, List, String, [], ◌∷◌, ◌≡◌, ◌>>=◌, refl, true, false, ℕ, zero, suc, ok, err, Result,
  continue, subst, >>=-eq-ok, pure_inj, all, and-true_left, includes, ◌<>◌, All, includes-append,
  str, ◌||◌,
}
use mathlib.Core.Path.{Σ_path}
use evgenium_network_linux.Client.Nft.{
  Table, after_script, is_guard, after_statement, is_guard_name, makes_test, output_tests,
}
use evgenium_network_linux.Client.Policy.{Addresses, Policy}
use evgenium_network_linux.Client.Policy.Firewall.{firewall, output_rules}
use evgenium_network_linux.Client.Machine.{Output, Route, System, Tunnel, Waydroid}
use evgenium_network_linux.Client.Machine.Actions.{nft_load}
use evgenium_network_linux.Client.Guard.{
  found_networks, local_networks, replacement, waydroid_network,
}
use evgenium_network_linux.Client.Network.{Uplink}
use evgenium_network_linux.Client.Apply.{
  build_tables, drop_stale, ensure_route, ensure_runtime, install, lan_routes, link_routes,
  own_tables, release_tables, start_engine, stop, take_tables, tun_default, unreachable_default,
  wait_device, write_sync, set_script,
}
use evgenium_network_linux.Client.Apply.Whole.{
  apply, firewall_now, switch_guard, sync_waydroid_network, write_config,
}
use evgenium_network_linux.Client.Closed.{
  Closed, Closed-bind, Closed-reads, Holds, Holds-refl, Holds-trans,
}
use evgenium_network_linux.Client.Closed.Primitives.{
  Closed-command, Closed-save_guard, closed_rules,
}
use evgenium_network_linux.Client.Closed.Parts.{
  Closed-clear_dns_mappings, Closed-full_guard_active, Closed-physical_route,
}

-- the tables that an action returns are guards
pub record Gives {E : Type 0} (m : Exec (Tunnel E) Table) : Type 0 where
  pub guard : (t t' : Tunnel E) (rules : Table) → m t ≡ (ok rules, t') → is_guard rules ≡ true

module _ {E A : Type 0} where
  continue-Holds_guard :
      (r : Result Table) (t : Tunnel E) (f : Table → Exec (Tunnel E) A)
      → ((rules : Table) → r ≡ ok rules → Closed (f rules))
      → Holds t (continue r t f).1
  continue-Holds_guard (ok rules) t f h = (h rules refl).at t
  continue-Holds_guard (err e) t f h = Holds-refl t

  -- what follows is closed if the table is a guard
  pub Closed-bind_guard :
      (m : Exec (Tunnel E) Table) (f : Table → Exec (Tunnel E) A)
      → Closed m
      → Gives m
      → ((rules : Table) → is_guard rules ≡ true → Closed (f rules))
      → Closed (m >>= f)
  Closed-bind_guard m f hm gives hf = record {
    at = λ t. Holds-trans (hm.at t) (
        continue-Holds_guard (m t).0 (m t).1 f
          (λ rules e. hf rules (gives.guard t (m t).1 rules (Σ_path e refl))));
  }

pub Gives-bind :
    {E A : Type 0} (m : Exec (Tunnel E) A) (f : A → Exec (Tunnel E) Table)
    → ((a : A) → Gives (f a))
    → Gives (m >>= f)
Gives-bind m f h = record {
  guard =
      λ t t' rules e. let (a, u, e1, e2) = >>=-eq-ok m f t t' rules e in (h a).guard u t' rules e2;
}

is_guard-name : (t : Table) → is_guard t ≡ true → is_guard_name t.family t.name ≡ true
unfolding is_guard
is_guard-name t good = and-true_left (is_guard_name t.family t.name) _ good

-- a script that replaces the guard by a guard ends with one
pub replacement-after_script :
    (before active : Bool) (rules : Table)
    → is_guard rules ≡ true
    → after_script before (replacement active rules) ≡ true
unfolding after_script after_statement
replacement-after_script before true rules good = rw (is_guard-name rules good) good
replacement-after_script before false rules good = rw (is_guard-name rules good) good

set_script-after_script : (networks : List String) → after_script true (set_script networks) ≡ true
unfolding after_script after_statement
set_script-after_script [] = refl
set_script-after_script (n ∷ networks) = refl

all-of-All : {A : Type 0} (p : A → Bool) (xs : List A) → All (λ x. p x ≡ true) xs → all p xs ≡ true
all-of-All p [] h = refl
all-of-All p (x ∷ xs) h = rw (h.0, all-of-All p xs h.1) refl

output_rules_lem : (uid : ℕ) → all (makes_test output_tests) (output_rules uid) ≡ true
unfolding output_rules includes
output_rules_lem uid =
    let test : String = "oifname \"evn-full-host\" accept" in
    let last : String = " meta mark 1163284018 oifname \"evn-full-host\" accept" in
    let into_tunnel : includes test ("meta nfproto ipv4 meta skuid " <> (str uid <> last)) ≡ true =
      includes-append test "meta nfproto ipv4 meta skuid " (str uid <> last)
        (includes-append test (str uid) last refl) in
    all-of-All (makes_test output_tests) (output_rules uid)
      (refl, (refl, (refl, (or_left _ _ into_tunnel, (refl, (refl, tt))))))
  where
    or_left : (a b : Bool) → a ≡ true → (a || b) ≡ true
    or_left a b e = rw e refl

pub firewall-is_guard :
    {N : Type 0} (ip : Addresses N) (p : Policy) (lan : List String) (uid : ℕ) (way : List String)
    → is_guard (firewall ip p lan uid way) ≡ true
unfolding firewall is_guard includes
firewall-is_guard ip p lan uid way = rw (output_rules_lem uid) refl

module _ {E : Type 0} (system : System E) where
  pub Closed-nft_load :
      (active : Bool) (rules : Table)
      → is_guard rules ≡ true
      → Closed (nft_load system (replacement active rules))
  Closed-nft_load active rules good =
      Closed-bind _ _
        (Closed-command system ("nft" ∷ "-f" ∷ "-" ∷ []) (replacement active rules)
          (replacement-after_script true active rules good))
        (λ o. Closed-reads _)

  Closed-link_routes : (networks : List String) → Closed (link_routes system networks)
  unfolding link_routes
  Closed-link_routes [] = search closed_rules
  Closed-link_routes (n ∷ networks) =
      let rest = Closed-link_routes networks in search closed_rules depth 10

  Closed-drop_stale :
      (networks : List String) (routes : List Route) → Closed (drop_stale system networks routes)
  unfolding drop_stale
  Closed-drop_stale networks [] = search closed_rules
  Closed-drop_stale networks (r ∷ routes) =
      let rest = Closed-drop_stale networks routes in search closed_rules depth 10

  Closed-write_sync : (state : Waydroid) → Closed (write_sync system state)
  unfolding write_sync
  Closed-write_sync state =
      search (closed_rules, Closed-link_routes, Closed-drop_stale, set_script-after_script) depth 14

  Closed-ensure_runtime : (gid : ℕ) → Closed (ensure_runtime system gid)
  unfolding ensure_runtime
  Closed-ensure_runtime gid = search closed_rules depth 10

  Closed-own_tables : Closed (own_tables system)
  unfolding own_tables take_tables
  Closed-own_tables = search closed_rules depth 20

  Closed-lan_routes :
      (dev : String) (networks : List String) → Closed (lan_routes system dev networks)
  unfolding lan_routes
  Closed-lan_routes dev [] = search closed_rules
  Closed-lan_routes dev (n ∷ networks) =
      let rest = Closed-lan_routes dev networks in search closed_rules depth 10

  Closed-build_tables :
      (uplink : Uplink) (lan : List String) → Closed (build_tables system uplink lan)
  unfolding build_tables unreachable_default
  Closed-build_tables (gateway, dev) lan = search (closed_rules, Closed-lan_routes) depth 50

  Closed-wait_device : (rounds : ℕ) → Closed (wait_device system rounds)
  unfolding wait_device
  Closed-wait_device zero = search closed_rules
  Closed-wait_device (suc rounds) =
      let rest = Closed-wait_device rounds in search closed_rules depth 12

  Closed-tun_default : Closed (tun_default system)
  unfolding tun_default
  Closed-tun_default = search closed_rules

  Closed-install : Closed (install system)
  unfolding install
  Closed-install = search closed_rules depth 12

  Closed-start_engine : Closed (start_engine system)
  unfolding start_engine
  Closed-start_engine =
      search
        (
          closed_rules, Closed-install, Closed-wait_device, Closed-tun_default,
          Closed-clear_dns_mappings,
        )
        depth 30

  pub Closed-stop : (release : Bool) → Closed (stop system release)
  unfolding stop release_tables
  Closed-stop release = search closed_rules depth 40

  pub Closed-ensure_route : Closed (ensure_route system)
  unfolding ensure_route
  Closed-ensure_route = search (closed_rules, Closed-tun_default)

module _ {E N : Type 0} (system : System E) (ip : Addresses N) where
  pub Closed-local_networks : (dev : String) → Closed (local_networks system ip dev)
  unfolding local_networks
  Closed-local_networks dev = search closed_rules

  Closed-found_networks : (o : Output) → Closed (found_networks system ip o)
  unfolding found_networks
  Closed-found_networks o = search closed_rules depth 10

  Closed-waydroid_network : Closed (waydroid_network system ip)
  unfolding waydroid_network
  Closed-waydroid_network = search (closed_rules, Closed-found_networks)

  Closed-sync_waydroid_network : (force : Bool) → Closed (sync_waydroid_network system ip force)
  unfolding sync_waydroid_network
  Closed-sync_waydroid_network force =
      search (closed_rules, Closed-waydroid_network, Closed-write_sync) depth 10

  Closed-write_config : (p : Policy) (gid : ℕ) → Closed (write_config system ip p gid)
  unfolding write_config
  Closed-write_config p gid = search closed_rules depth 14

  pub Closed-firewall_now :
      (p : Policy) (lan : List String) (uid : ℕ) → Closed (firewall_now system ip p lan uid)
  unfolding firewall_now
  Closed-firewall_now p lan uid = search (closed_rules, Closed-waydroid_network)

  pub Gives-firewall_now :
      (p : Policy) (lan : List String) (uid : ℕ) → Gives (firewall_now system ip p lan uid)
  unfolding firewall_now
  Gives-firewall_now p lan uid = record {
    guard = λ t t' rules e.
        let (way, u, e1, e2) = >>=-eq-ok (waydroid_network system ip) _ t t' rules e in
        subst (λ x. is_guard x ≡ true) (pure_inj {a = firewall ip p lan uid way.networks} e2)
          (firewall-is_guard ip p lan uid way.networks);
  }

  Closed-switch_guard :
      (active : Bool) (rules : Table)
      → is_guard rules ≡ true
      → Closed (switch_guard system ip active rules)
  unfolding switch_guard
  Closed-switch_guard active rules good =
      search (closed_rules, Closed-save_guard, Closed-nft_load, good) depth 12

  pub Closed-apply : Closed (apply system ip)
  unfolding apply
  Closed-apply =
      search
        (
          closed_rules, Closed-bind_guard, Gives-firewall_now, Closed-physical_route,
          Closed-local_networks, Closed-ensure_runtime, Closed-write_config, Closed-firewall_now,
          Closed-full_guard_active, Closed-own_tables, Closed-build_tables, Closed-switch_guard,
          Closed-sync_waydroid_network, Closed-start_engine,
        )
        depth 40
