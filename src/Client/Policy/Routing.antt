-- ===== src/Client/Policy/Routing.antt =====
-- The routing rules of `config` of src/network_policy.py. The engine that reads them is a parameter,
-- with what is documented of it.
use evgenium_network_linux.Prelude.{
  nat_eq, string_eq, Bool, List, Option, String, [], none, some, first, ◌∷◌, ◌++◌, ◌&&◌, ◌==◌, ◌≡◌,
  if◌then◌else◌, true, any,
}
use evgenium_network_linux.Client.Policy.{Policy, Addresses, enabled, domains_of}

pub record Rule : Type 0 where
  pub process : List String
  pub domain : List String
  pub inbound : String
  pub outbound : String

abbrev pub plain : String → String → Rule
plain inbound outbound = record {
  process = [];
  domain = [];
  inbound = inbound;
  outbound = outbound;
}

abbrev pub process_rule : List String → List Rule
process_rule [] = []
process_rule (a ∷ apps) =
    record { process = a ∷ apps; domain = []; inbound = "tun"; outbound = "direct" } ∷ []

abbrev pub domain_rule : List String → List Rule
domain_rule [] = []
domain_rule (d ∷ domains) =
    record { process = []; domain = d ∷ domains; inbound = "tun"; outbound = "direct" } ∷ []

abbrev pub applications_of : Policy → List String
applications_of p =
    p.applications
    ++ (if enabled p "applications" "mapper" then "evgenium-waydroid-mapper" ∷ [] else [])

unfoldable pub rules_of : {N : Type 0} → Addresses N → Policy → List Rule
unfolding domains_of
rules_of ip p =
    (plain "check" "vpn" ∷ plain "dns-in" "dns" ∷ [])
    ++ (process_rule (applications_of p)
        ++ (domain_rule (domains_of ip p.networks)
            ++ (plain "dns-engine" "vpn" ∷ plain "tun" "vpn" ∷ [])))

-- a connection, with the tests of the engine for a process and a domain
pub record Flow : Type 0 where
  pub inbound : String
  pub is_process : String → Bool
  pub is_domain : String → Bool

-- a list that is not empty asks for one of its entries
abbrev pub one_of : (String → Bool) → List String → Bool
one_of p [] = true
one_of p (x ∷ xs) = any p (x ∷ xs)

abbrev pub fits : Flow → Rule → Bool
fits f r = f.inbound == r.inbound && one_of f.is_process r.process && one_of f.is_domain r.domain

abbrev pub outbound_of : Option Rule → Option String
outbound_of none = none
outbound_of (some r) = some r.outbound

abbrev pub first_match : List Rule → Flow → Option String
first_match rules f = outbound_of (first (fits f) rules)

-- The engine, a program of its own: the first rule that fits decides, and a rule without processes
-- or domains asks for none.
pub record Engine : Type 0 where
  pub decide : List Rule → Flow → Option String
  pub decide-empty : (f : Flow) → decide [] f ≡ none
  pub decide-first :
      (r : Rule) (rules : List Rule) (f : Flow)
      → decide (r ∷ rules) f ≡ (if fits f r then some r.outbound else decide rules f)
