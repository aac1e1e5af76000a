-- ===== src/Client/Guard.antt =====
-- `full_guard_active`, `clear_dns_mappings` and the networks of `local_networks` and
-- `waydroid_network`, which src/starfive_tunnel.py and src/network_policy.py share.
use evgenium_network_linux.Prelude.{
  nat_eq, string_eq, Bool, Exec, List, Option, Result, String, [], err, if◌then◌else◌, none, not,
  ok, pure, raise_if, runtime_error, some, true, ℕ, ◌++◌, ◌&&◌, ◌==◌, ◌>>=◌, ◌>>◌, ◌∷◌, lift,
  includes, value_error, sorted,
}
use evgenium_network_linux.Client.Nft.{delete_table, add_table, full_guard, text_lt, Script, Table}
use evgenium_network_linux.Client.Policy.{Addresses, unique}
use evgenium_network_linux.Client.Machine.{Address, Link, Output, System, Tunnel, Waydroid}
use evgenium_network_linux.Client.Machine.Actions.{command, try_command, query}

abbrev pub dns_filters : Bool → List String
dns_filters previous_vpn =
    if previous_vpn
    then "--reply-port-src" ∷ "18553" ∷ []
    else "--reply-port-src" ∷ "53" ∷ "--dst-nat" ∷ "1.1.1.1" ∷ []

-- nothing was there to be deleted
unfoldable pub is_empty : Output → Bool
is_empty o = o.returncode == 1 && includes "0 flow entries have been deleted" o.stderr

-- the script that puts a new guard in the place of the old one, in one transaction
abbrev pub replacement : Bool → Table → Script
replacement active rules =
    (if active then delete_table "inet" full_guard ∷ [] else []) ++ add_table rules ∷ []

abbrev pub first_index : List Link → Option ℕ
first_index [] = none
first_index (link ∷ links) = link.index

abbrev pub addresses_of : (Link → Bool) → List Link → List Address
addresses_of p [] = []
addresses_of p (link ∷ links) = (if p link then link.addresses else []) ++ addresses_of p links

module _ {N : Type 0} (ip : Addresses N) where
  -- the networks of the addresses with a global scope, or a ValueError
  pub global_networks : List Address → Result (List String)
  global_networks [] = ok []
  global_networks (a ∷ rest) =
      let others = global_networks rest in
      if not a.is_global then others else elim (ip.host_network a.prefixed) [
        | none ↦ err (value_error "network")
        | some n ↦ elim others [ err e ↦ err e | ok texts ↦ ok (ip.text n ∷ texts) ]
      ]

  -- `sorted({...})` of the networks of some links
  unfoldable pub networks_of : (Link → Bool) → List Link → Result (List String)
  unfolding global_networks unique text_lt
  networks_of p links = elim (global_networks (addresses_of p links)) [
    | err e ↦ err e
    | ok texts ↦ ok (sorted text_lt (unique texts))
  ]

module _ {E : Type 0} (system : System E) where
  unfoldable pub full_guard_active : Exec (Tunnel E) Bool
  unfolding try_command
  full_guard_active = do
    o ← try_command system ("nft" ∷ "list" ∷ "table" ∷ "inet" ∷ full_guard ∷ []) []
    pure (o.returncode == 0)

  unfoldable pub clear_mappings : Bool → String → Exec (Tunnel E) (Unit {0})
  unfolding is_empty
  clear_mappings previous_vpn protocol = do
    o ←
        try_command system
          ("conntrack"
            ∷ "-D"
            ∷ "-f"
            ∷ "ipv4"
            ∷ "-p"
            ∷ protocol
            ∷ "--dport"
            ∷ "53"
            ∷ dns_filters previous_vpn)
          []
    raise_if (not (o.returncode == 0) && not (is_empty o))
        (runtime_error "dns_transition_cleanup_failed")

  unfoldable pub clear_dns_mappings : Bool → Exec (Tunnel E) (Unit {0})
  unfolding clear_mappings
  clear_dns_mappings previous_vpn = do
    clear_mappings previous_vpn "udp"
    clear_mappings previous_vpn "tcp"

module _ {E N : Type 0} (system : System E) (ip : Addresses N) where
  unfoldable pub local_networks : String → Exec (Tunnel E) (List String)
  unfolding networks_of command
  local_networks dev = do
    links ← query system system.links ("ip" ∷ "-j" ∷ "-4" ∷ "addr" ∷ "show" ∷ "dev" ∷ dev ∷ [])
    lift (networks_of ip (λ link. true) links)

  unfoldable pub found_networks : Output → Exec (Tunnel E) Waydroid
  unfolding networks_of
  found_networks o =
      if not (o.returncode == 0) then pure (record { index = none; networks = [] }) else (do
        links ← lift (system.links o.stdout)
        networks ← lift (networks_of ip (λ link. link.up) links)
        pure (record { index = first_index links; networks = networks }))

  unfoldable pub waydroid_network : Exec (Tunnel E) Waydroid
  unfolding try_command found_networks
  waydroid_network = do
    o ← try_command system ("ip" ∷ "-j" ∷ "-4" ∷ "addr" ∷ "show" ∷ "dev" ∷ "waydroid0" ∷ []) []
    found_networks o
