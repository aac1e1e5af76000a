-- ===== src/Client/Policy.antt =====
-- The exceptions of src/network_policy.py: what its file holds, `ports`, `direct_networks`, and the
-- routing rules of `config`. Python's `ipaddress` is a parameter.
pub mod Routing
pub mod Firewall
pub mod Decisions
pub mod Clear
use evgenium_network_linux.Prelude.{
  nat_eq, string_eq, Bool, List, Option, String, [], not, ◌<>◌, ◌∷◌, ◌==◌, contains, if◌then◌else◌,
  split, keep, ◌||◌, true, values, ◌&&◌, map, none, some, sorted, strip_prefix, value_or, ℕ, ◌++◌,
}
use evgenium_network_linux.Issuer.Wireguard.Address.{parse_number}
use evgenium_network_linux.Client.Nft.{text_lt}

-- policy.json; each entry of a list is a text that `normalize` has returned
pub record Policy : Type 0 where
  pub waydroid_direct : Bool
  pub disabled_base : List String
  pub applications : List String
  pub networks : List String
  pub ports : List String
  pub dns : List String

abbrev pub defaults : Policy
defaults = record {
  waydroid_direct = true;
  disabled_base = [];
  applications = [];
  networks = [];
  ports = [];
  dns = [];
}

abbrev pub enabled : Policy → String → String → Bool
enabled p category key = not (contains p.disabled_base (category <> (":" <> key)))

-- of `ipaddress`: `network` is `ip_network`, and `host_network` is the same with `strict=False`
pub record Addresses (N : Type 0) : Type 0 where
  pub network : String → Option N
  pub host_network : String → Option N
  pub text : N → String
  pub overlaps : N → N → Bool
  pub subnet_of : N → N → Bool
  pub address_exclude : N → N → List N

-- `set` of texts, in the order of their first occurrence
unfoldable pub unique : List String → List String
unique [] = []
unique (x ∷ xs) = x ∷ keep (λ y. not (y == x)) (unique xs)

-- the ports of one protocol whose side is `direction` or both; `normalize` has left three parts
pub ports_of : String → String → List String → List ℕ
unfolding split parse_number
ports_of proto direction [] = []
ports_of proto direction (value ∷ values) =
    let rest = ports_of proto direction values in
    elim (split b':' value) [
      | protocol ∷ number ∷ side ∷ [] ↦
          if (side == direction || side == "both") && (protocol == proto || protocol == "both")
          then value_or 0 (parse_number number) ∷ rest
          else rest
      | _ ↦ rest
    ]

-- the networks that the tunnels use
abbrev pub reserved : List String
reserved = "10.77.0.0/24" ∷ "172.29.246.0/30" ∷ "172.29.247.0/30" ∷ "198.18.254.0/30" ∷ []

module _ {N : Type 0} (ip : Addresses N) where
  -- what is left of networks outside of one block
  pub outside : N → List N → List N
  outside block [] = []
  outside block (net ∷ nets) =
      let rest = outside block nets in
      if not (ip.overlaps net block)
      then net ∷ rest
      else if ip.subnet_of block net
      then ip.address_exclude net block ++ rest
      else rest

  unfoldable pub outside_all : List N → List N → List N
  unfolding outside
  outside_all [] nets = nets
  outside_all (block ∷ blocks) nets = outside_all blocks (outside block nets)

  -- `ip_network` of texts that are networks
  pub parsed : List String → List N
  parsed [] = []
  parsed (x ∷ xs) = elim (ip.network x) [ none ↦ parsed xs | some n ↦ n ∷ parsed xs ]

  -- the local networks without what the tunnels use
  unfoldable pub clear_lan : List String → List N
  unfolding outside_all parsed
  clear_lan [] = []
  clear_lan (item ∷ lan) = outside_all (parsed reserved) (parsed (item ∷ [])) ++ clear_lan lan

  unfoldable pub direct_networks : Policy → List String → List String
  unfolding clear_lan parsed unique text_lt
  direct_networks p lan = sorted text_lt (
      unique (
        map ip.text (parsed p.networks)
        ++ ((if enabled p "networks" "lan" then map ip.text (clear_lan lan) else [])
            ++ (if enabled p "networks" "linklocal" then "169.254.0.0/16" ∷ [] else []))))

  -- an entry that is no network is a domain
  pub domains_of : List String → List String
  unfolding strip_prefix
  domains_of [] = []
  domains_of (value ∷ values) =
      let rest = domains_of values in
      elim (ip.network value) [
        | some n ↦ rest
        | none ↦ elim (strip_prefix "=" value) [
          | some name ↦ ("full:" <> name) ∷ rest
          | none ↦ ("domain:" <> value) ∷ rest
        ]
      ]
