-- ===== src/Client/Policy/Decisions.antt =====
-- What the engine does under the rules of `config` of src/network_policy.py.
use evgenium_network_linux.Prelude.{
  Bool, List, String, [], ◌∷◌, ◌≡◌, ◌||◌, refl, some, any, if◌then◌else◌, string_eq, nat_eq,
  Bool-cases, inl, inr, first, ◌++◌, ◌∙◌, Option,
}
use evgenium_network_linux.Client.Policy.{Addresses, Policy, domains_of}
use evgenium_network_linux.Client.Policy.Routing.{
  Flow, domain_rule, outbound_of, fits, plain, process_rule, applications_of, rules_of, Engine,
  Rule, first_match,
}

abbrev pub flow : String → (String → Bool) → (String → Bool) → Flow
flow inbound is_process is_domain = record {
  inbound = inbound;
  is_process = is_process;
  is_domain = is_domain;
}

-- what the exceptions say of a connection from the device
abbrev pub direct_or_vpn : Bool → String
direct_or_vpn b = if b then "direct" else "vpn"

-- the rules that come after those for the checks and for the listener of DNS
tun_rules :
    (apps domains : List String) (f g : String → Bool)
    → outbound_of (
        first (fits (flow "tun" f g)) (
          process_rule apps
          ++ (domain_rule domains ++ (plain "dns-engine" "vpn" ∷ plain "tun" "vpn" ∷ []))))
      ≡ some (direct_or_vpn (any f apps || any g domains))
tun_rules [] [] f g = refl
tun_rules [] (d ∷ domains) f g = elim (Bool-cases (any g (d ∷ domains))) [
  | inl matched ↦ rw matched refl
  | inr missed ↦ rw missed refl
]
tun_rules (a ∷ apps) [] f g = elim (Bool-cases (any f (a ∷ apps))) [
  | inl matched ↦ rw matched refl
  | inr missed ↦ rw missed refl
]
tun_rules (a ∷ apps) (d ∷ domains) f g = elim (Bool-cases (any f (a ∷ apps))) [
  | inl matched ↦ rw matched refl
  | inr missed ↦ elim (Bool-cases (any g (d ∷ domains))) [
    | inl found ↦ rw (missed, found) refl
    | inr none_found ↦ rw (missed, none_found) refl
  ]
]

decide-first_match :
    (engine : Engine) (rules : List Rule) (f : Flow) → engine.decide rules f ≡ first_match rules f
decide-first_match engine [] f = engine.decide-empty f
decide-first_match engine (r ∷ rules) f =
    let rest = decide-first_match engine rules f in
    elim (Bool-cases (fits f r)) [
      | inl fit ↦ engine.decide-first r rules f ∙ rw fit refl
      | inr unfit ↦ engine.decide-first r rules f ∙ rw (unfit, rest) refl
    ]

module _ {N : Type 0} (engine : Engine) (ip : Addresses N) (p : Policy)
    (is_process is_domain : String → Bool) where
  abbrev routed : String → Option String
  routed inbound = engine.decide (rules_of ip p) (flow inbound is_process is_domain)

  -- The queries of the DNS engine and the checks go into the tunnel, and the listener for DNS to the
  -- engine, whatever the exceptions are. A connection from the device goes out directly where its
  -- process is one of the applications or its domain one of the exceptions, and else into the
  -- tunnel.
  pub rules_of_lem :
      (routed "dns-engine" ≡ some "vpn")
      × (routed "check" ≡ some "vpn")
      × (routed "dns-in" ≡ some "dns")
      × (routed "tun"
          ≡ some (
              direct_or_vpn
                (any is_process (applications_of p) || any is_domain (domains_of ip p.networks))))
  unfolding rules_of
  rules_of_lem = (
    decide-first_match engine _ _ ∙ engine_rules (applications_of p) (domains_of ip p.networks),
    decide-first_match engine _ _,
    decide-first_match engine _ _,
    decide-first_match engine _ _
        ∙ tun_rules (applications_of p) (domains_of ip p.networks) is_process is_domain,
  )
    where
      engine_rules :
          (apps domains : List String)
          → outbound_of (
              first (fits (flow "dns-engine" is_process is_domain)) (
                process_rule apps
                ++ (domain_rule domains ++ (plain "dns-engine" "vpn" ∷ plain "tun" "vpn" ∷ []))))
            ≡ some "vpn"
      engine_rules [] [] = refl
      engine_rules [] (d ∷ domains) = refl
      engine_rules (a ∷ apps) [] = refl
      engine_rules (a ∷ apps) (d ∷ domains) = refl
