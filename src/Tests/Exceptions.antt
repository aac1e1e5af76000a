-- ===== src/Tests/Exceptions.antt =====
-- Networks as intervals of addresses, and exceptions over them.
use evgenium_network_linux.Prelude.{
  Bool, Option, String, ℕ, [], ◌&&◌, ◌==◌, ◌≡◌, ◌||◌, ◌∷◌, All, any, Bool-cases, inl, inr,
  if◌then◌else◌, leb, ltb, nat_eq, none, some, string_eq, false, arith, true, refl,
}
use evgenium_network_linux.Client.Policy.{
  Addresses, Policy, clear_lan, defaults, domains_of, parsed, reserved,
}
use evgenium_network_linux.Client.Policy.Routing.{
  applications_of, Engine, first_match, fits, rules_of,
}
use evgenium_network_linux.Client.Policy.Decisions.{direct_or_vpn, flow, rules_of_lem}
use evgenium_network_linux.Client.Policy.Clear.{Laws, clear_lan-AreOutside}

-- from the first address to the one after the last
abbrev known_network : String → Option (ℕ × ℕ)
known_network s =
    if s == "10.0.0.0/8"
    then some (167772160, 184549376)
    else if s == "10.77.0.0/24"
    then some (172818432, 172818688)
    else if s == "172.29.246.0/30"
    then some (2887644672, 2887644676)
    else if s == "172.29.247.0/30"
    then some (2887644928, 2887644932)
    else if s == "198.18.254.0/30"
    then some (3323133440, 3323133444)
    else if s == "192.168.1.0/24"
    then some (3232235776, 3232236032)
    else none

abbrev intervals : Addresses (ℕ × ℕ)
intervals = record {
  network = known_network;
  host_network = known_network;
  text = λ n. "";
  overlaps = λ a b. ltb a.0 b.1 && ltb b.0 a.1;
  subnet_of = λ a b. (leb b.0 a.0 && leb a.1 b.1) && leb a.0 a.1;
  address_exclude = λ net block. (net.0, block.0) ∷ (block.1, net.1) ∷ [];
}

itself_apart : (a b c : ℕ) → ltb a b && ltb c c ≡ false
itself_apart a b c = ground arith

itself_apart_first : (a b c : ℕ) → ltb c c && ltb a b ≡ false
itself_apart_first a b c = ground arith

-- the parts below and above a block, in an interval that is apart from another
below_apart :
    (a b c d x y : ℕ)
    → (leb a c && leb d b) && leb c d ≡ true
    → ltb a y && ltb x b ≡ false
    → ltb a y && ltb x c ≡ false
below_apart a b c d x y inner apart = ground arith

above_apart :
    (a b c d x y : ℕ)
    → (leb a c && leb d b) && leb c d ≡ true
    → ltb a y && ltb x b ≡ false
    → ltb d y && ltb x b ≡ false
above_apart a b c d x y inner apart = ground arith

intervals-Laws : Laws intervals
intervals-Laws = record {
  excluded = λ net block inner.
      (itself_apart net.0 block.1 block.0, (itself_apart_first block.0 net.1 block.1, tt));
  within = λ net block other inner apart. (
    below_apart net.0 net.1 block.0 block.1 other.0 other.1 inner apart,
    (above_apart net.0 net.1 block.0 block.1 other.0 other.1 inner apart, tt),
  );
}

clear_lan-AreOutside_example :
    All
      (λ (b : ℕ × ℕ).
        All (λ m. intervals.overlaps m b ≡ false) (clear_lan intervals ("10.0.0.0/8" ∷ [])))
      (parsed intervals reserved)
clear_lan-AreOutside_example = clear_lan-AreOutside intervals intervals-Laws ("10.0.0.0/8" ∷ [])

abbrev steam : Policy
steam = record defaults {
  applications = "steam" ∷ [];
  networks = "10.0.0.0/8" ∷ "=bank.example" ∷ [];
}

abbrev is_steam : String → Bool
is_steam s = s == "steam"

abbrev is_bank : String → Bool
is_bank s = s == "full:bank.example"

abbrev engine : Engine
engine = record {
  decide = first_match;
  decide-empty = λ f. refl;
  decide-first = λ r rules f. elim (Bool-cases (fits f r)) [
    | inl fit ↦ rw fit refl
    | inr unfit ↦ rw unfit refl
  ];
}

rules_of_lem_example :
    (first_match (rules_of intervals steam) (flow "dns-engine" is_steam is_bank) ≡ some "vpn")
    × (first_match (rules_of intervals steam) (flow "check" is_steam is_bank) ≡ some "vpn")
    × (first_match (rules_of intervals steam) (flow "dns-in" is_steam is_bank) ≡ some "dns")
    × (first_match (rules_of intervals steam) (flow "tun" is_steam is_bank)
        ≡ some (
            direct_or_vpn (
              any is_steam (applications_of steam)
              || any is_bank (domains_of intervals steam.networks))))
rules_of_lem_example = rules_of_lem engine intervals steam is_steam is_bank
