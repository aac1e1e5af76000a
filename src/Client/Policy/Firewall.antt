-- ===== src/Client/Policy/Firewall.antt =====
-- The table of `firewall` of src/network_policy.py, which marks what may leave beside the tunnel and
-- drops the rest. DIRECT is 1163284017 and VPN is 1163284018.
use evgenium_network_linux.Prelude.{
  nat_eq, string_eq, Bool, List, String, [], ◌∷◌, ◌++◌, ◌<>◌, if◌then◌else◌, map, sorted, ltb, str,
  ℕ, keep, not, ◌==◌,
}
use evgenium_network_linux.Client.Nft.{
  Table, braces, full_guard, nft_set, output_drop, forward_drop,
}
use evgenium_network_linux.Client.Policy.{Policy, Addresses, direct_networks, enabled, ports_of}

-- `if values: append(line)`
abbrev pub unless_empty : List String → String → List String
unless_empty [] line = []
unless_empty (x ∷ xs) line = line ∷ []

abbrev pub when : Bool → List String → List String
when b lines = if b then lines else []

abbrev pub dns_lines : Policy → List String
dns_lines p =
    when (enabled p "dns" "stub") ("ip daddr 127.0.0.0/8 return" ∷ [])
    ++ (unless_empty p.dns ("ip daddr " <> (nft_set p.dns <> " return"))
        ++ ("ip daddr 127.0.0.0/8 meta l4proto { tcp, udp } th dport 53 redirect to :18553"
            ∷ "meta nfproto ipv4 meta l4proto { tcp, udp } th dport 53 dnat ip to 172.29.247.2"
            ∷ []))

abbrev pub direct_mark : String
direct_mark = " meta mark set 1163284017 return"

-- a set of numbers in their order
pub unique_numbers : List ℕ → List ℕ
unique_numbers [] = []
unique_numbers (n ∷ ns) = n ∷ keep (λ m. not (m == n)) (unique_numbers ns)

abbrev pub number_set : List ℕ → String
number_set ns = braces (map str (sorted ltb (unique_numbers ns)))

abbrev pub port_line : String → String → List ℕ → List String
port_line direction proto [] = []
port_line direction proto (n ∷ ns) =
    ((if direction == "in" then "ct direction reply " else "")
      <> (proto
          <> ((if direction == "in" then " sport " else " dport ")
              <> (number_set (n ∷ ns) <> direct_mark))))
    ∷ []

abbrev pub port_lines : Policy → String → List String
port_lines p direction =
    port_line direction "tcp" (ports_of "tcp" direction p.ports)
    ++ port_line direction "udp" (ports_of "udp" direction p.ports)

abbrev pub set_line : List String → List String
set_line waynets =
    ("set waydroid_networks { type ipv4_addr; flags interval; "
      <> ((elim waynets as (λ x. String) [
        | [] ↦ ""
        | x ∷ xs ↦ "elements = " <> (nft_set (x ∷ xs) <> ";")
      ])
          <> " }"))
    ∷ []

-- what may leave the device, where the engine runs as the user `uid`
unfoldable pub output_rules : ℕ → List String
output_rules uid =
    "oifname \"lo\" accept"
    ∷ "meta nfproto ipv4 meta mark 1163284017 accept"
    ∷ "meta nfproto ipv4 meta mark 1163284018 meta l4proto { tcp, udp } th dport 53 oifname \"evn-full-host\" accept"
    ∷ ("meta nfproto ipv4 meta skuid "
        <> (str uid <> " meta mark 1163284018 oifname \"evn-full-host\" accept"))
    ∷ "meta nfproto ipv4 oifname \"evn-policy\" accept"
    ∷ "ip daddr 255.255.255.255 udp sport 68 udp dport 67 accept"
    ∷ []

module _ {N : Type 0} (ip : Addresses N) where
  abbrev pub mark_lines : Policy → List String → List String
  mark_lines p lan =
      unless_empty p.dns (
        "ip daddr " <> (nft_set p.dns <> (" meta l4proto { tcp, udp } th dport 53" <> direct_mark)))
      ++ ("meta l4proto { tcp, udp } th dport 53 meta mark set 1163284018 return"
          ∷ ("ip daddr @waydroid_networks" <> direct_mark)
          ∷ ("oifname \"waydroid0\" udp sport 67 udp dport 68" <> direct_mark)
          ∷ [])
      ++ unless_empty (direct_networks ip p lan)
          ("ip daddr " <> (nft_set (direct_networks ip p lan) <> direct_mark))
      ++ when (enabled p "ports" "discovery") (
          ("ip daddr { 224.0.0.251, 224.0.0.252, 239.255.255.250 } udp dport { 5353, 5355, 1900 }"
            <> direct_mark)
          ∷ [])
      ++ port_lines p "out"
      ++ port_lines p "in"

  unfoldable pub firewall : Policy → List String → ℕ → List String → Table
  unfolding direct_networks ports_of unique_numbers nft_set
  firewall p lan uid waynets = record {
    family = "inet";
    name = full_guard;
    sets = set_line waynets;
    chains =
        record {
          name = "route";
          hook = "type route hook output priority -150; policy accept;";
          rules =
              (("meta skuid " <> (str uid <> " return"))
                ∷ "meta mark set 0"
                ∷ "ip daddr 127.0.0.0/8 return"
                ∷ [])
              ++ mark_lines p lan;
        }
        ∷ record {
          name = "dns";
          hook = "type nat hook output priority -101; policy accept;";
          rules = ("meta skuid " <> (str uid <> " return")) ∷ dns_lines p;
        }
        ∷ record {
          name = "preroute";
          hook = "type filter hook prerouting priority -150; policy accept;";
          rules = when p.waydroid_direct (
              "iifname \"waydroid0\" meta nfproto ipv4 meta mark set 1163284017 ct mark set 1163284017"
              ∷ "ct direction reply ct mark 1163284017 meta mark set 1163284017" ∷ []);
        }
        ∷ record {
          name = "waydroid_dns";
          hook = "type nat hook prerouting priority -101; policy accept;";
          rules =
              "iifname \"waydroid0\" meta nfproto ipv4 meta l4proto { tcp, udp } th dport 53 dnat ip to 1.1.1.1"
              ∷ [];
        }
        ∷ record {
          name = "source";
          hook = "type nat hook postrouting priority srcnat; policy accept;";
          rules =
              "meta nfproto ipv4 oifname \"evn-full-host\" snat ip to 172.29.247.1"
              ∷ "meta nfproto ipv4 meta mark 1163284017 oifname != \"lo\" masquerade" ∷ [];
        }
        ∷ record { name = "output"; hook = output_drop; rules = output_rules uid }
        ∷ record {
          name = "forward";
          hook = forward_drop;
          rules =
              "iifname \"evn-sf-host\" ip saddr 172.29.246.2 ip daddr 195.209.211.163 udp dport 24550 accept"
              ∷ "iifname \"evn-sf-host\" ip saddr 172.29.246.2 ip daddr 38.180.164.67 udp dport 443 accept"
              ∷ "iifname \"evn-sf-host\" ip saddr 172.29.246.2 ip daddr 38.180.164.67 tcp dport { 24571, 24578 } accept"
              ∷ "iifname \"evn-sf-host\" ip saddr 172.29.246.2 ip daddr 195.209.211.163 tcp dport 8443 accept"
              ∷ "oifname \"evn-sf-host\" ip daddr 172.29.246.2 ct state established,related accept"
              ∷ "iifname \"waydroid0\" meta nfproto ipv4 meta mark 1163284017 accept"
              ∷ "oifname \"waydroid0\" meta nfproto ipv4 ct state established,related accept"
              ∷ "meta nfproto ipv4 oifname \"evn-policy\" accept"
              ∷ "meta nfproto ipv4 iifname \"evn-policy\" ct state established,related accept"
              ∷ "meta nfproto ipv4 oifname \"evn-full-host\" accept"
              ∷ "meta nfproto ipv4 iifname \"evn-full-host\" ct state established,related accept"
              ∷ [];
        }
        ∷ [];
  }
