-- ===== src/Client/Nft.antt =====
-- Scripts of `nft`, by statement: what src/starfive_tunnel.py and src/network_policy.py print as
-- texts. The lines of a chain stand as they are printed, without their indentation.
use evgenium_network_linux.Prelude.{
  nat_eq, string_eq, Bool, List, String, [], any, all, not, includes, false, if◌then◌else◌, true,
  ◌&&◌, ◌==◌, ◌||◌, ◌∷◌, ◌<>◌, sorted, ltb,
}
use Prim.Native.Char.{code}

pub record Chain : Type 0 where
  pub name : String
  pub hook : String
  pub rules : List String

pub record Table : Type 0 where
  pub family : String
  pub name : String
  pub sets : List String
  pub chains : List Chain

pub data Statement : Type 0 where
  delete_table : String → String → Statement
  add_table : Table → Statement
  flush_set : String → String → String → Statement
  add_element : String → String → String → String → Statement

abbrev pub Script : Type 0
Script = List Statement

-- the order of texts, by code points
unfoldable pub text_lt : String → String → Bool
text_lt String.[] String.[] = false
text_lt String.[] (String.◌∷◌ c s) = true
text_lt (String.◌∷◌ c s) String.[] = false
text_lt (String.◌∷◌ c s) (String.◌∷◌ d t) =
    let rest = text_lt s t in if code c == code d then rest else ltb (code c) (code d)

-- `sep.join(items)`
unfoldable pub join : String → List String → String
join sep [] = ""
join sep (x ∷ []) = x
join sep (x ∷ xs) = x <> (sep <> join sep xs)

-- the elements of `nft_set`, in an order that the caller has given them
abbrev pub braces : List String → String
braces items = "{ " <> (join ", " items <> " }")

-- `nft_set` of a set or a list of texts
unfoldable pub nft_set : List String → String
unfolding text_lt join
nft_set items = braces (sorted text_lt items)

-- the table of the guard against traffic outside of the tunnel, FULL_GUARD
abbrev pub full_guard : String
full_guard = "evn_starfive_full"

abbrev pub output_drop : String
output_drop = "type filter hook output priority -30; policy drop;"

abbrev pub forward_drop : String
forward_drop = "type filter hook forward priority -30; policy drop;"

-- What the output chain may accept: the loopback, what enters the tunnel or the engine of the
-- exceptions, what carries the mark of an exception, and the lease of an address. Each is a test
-- that the text of the rule makes, and all tests of a rule must hold.
abbrev pub output_tests : List String
output_tests =
    "oifname \"evn-full-host\" accept" ∷ "oifname \"lo\" accept" ∷ "oifname \"evn-policy\" accept"
    ∷ "meta mark 1163284017 accept" ∷ "ip daddr 255.255.255.255 udp sport 68 udp dport 67 accept"
    ∷ []

-- What the forward chain may accept: the carriers of the tunnel to its relays, what enters the tunnel
-- or the engine, the mark of an exception, and the replies.
abbrev pub forward_tests : List String
forward_tests =
    "iifname \"evn-sf-host\" ip saddr 172.29.246.2 ip daddr { 195.209.211.163 } "
    ∷ "iifname \"evn-sf-host\" ip saddr 172.29.246.2 ip daddr 195.209.211.163 "
    ∷ "iifname \"evn-sf-host\" ip saddr 172.29.246.2 ip daddr 38.180.164.67 "
    ∷ "oifname \"evn-full-host\" accept" ∷ "oifname \"evn-policy\" accept"
    ∷ "meta mark 1163284017 accept" ∷ "ct state established,related accept" ∷ []

abbrev pub makes_test : List String → String → Bool
makes_test tests rule = any (λ t. includes t rule) tests

abbrev pub closes : List String → String → Chain → Bool
closes tests hook c = c.hook == hook && all (makes_test tests) c.rules

-- a chain of that name is there, and every one drops what it does not accept, and accepts no more
-- than the tests allow
abbrev pub is_closed_chain : String → List String → String → List Chain → Bool
is_closed_chain name tests hook chains =
    any (λ (c : Chain). c.name == name) chains
    && all (λ (c : Chain). not (c.name == name) || closes tests hook c) chains

abbrev pub is_guard_name : String → String → Bool
is_guard_name family name = family == "inet" && name == full_guard

-- Whether a table is the guard: its output and forward chains are closed.
unfoldable pub is_guard : Table → Bool
unfolding includes
is_guard t =
    is_guard_name t.family t.name
    && (is_closed_chain "output" output_tests output_drop t.chains
        && is_closed_chain "forward" forward_tests forward_drop t.chains)

-- Whether the guard is there after a statement. A table that is added under its name is merged with
-- it, and leaves a guard only if it is one itself.
unfoldable pub after_statement : Bool → Statement → Bool
after_statement g (delete_table family name) = if is_guard_name family name then false else g
after_statement g (add_table t) = if is_guard_name t.family t.name then is_guard t else g
after_statement g _ = g

-- Whether the guard is there after a script, which `nft` runs as one transaction.
unfoldable pub after_script : Bool → Script → Bool
after_script g [] = g
after_script g (s ∷ rest) = after_script (after_statement g s) rest
