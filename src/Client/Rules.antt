-- ===== src/Client/Rules.antt =====
-- The rules that src/starfive_tunnel.py loads: the minimal guard of `full_firewall`, `host_rules`,
-- and the tables of `full_namespace` and of `daemon_configs` inside the namespace.
use evgenium_network_linux.Prelude.{List, String, [], ◌<>◌, ◌∷◌, Bool, if◌then◌else◌, ◌++◌, str, ℕ}
use evgenium_network_linux.Client.Nft.{Table, full_guard, output_drop, forward_drop}

abbrev pub accept_from_client : List String
accept_from_client =
    "iifname \"evn-sf-host\" ip saddr 172.29.246.2 ip daddr 38.180.164.67 udp dport 443 accept"
    ∷ "iifname \"evn-sf-host\" ip saddr 172.29.246.2 ip daddr 38.180.164.67 tcp dport { 24571, 24578 } accept"
    ∷ []

abbrev pub relay_from_client : String
relay_from_client =
    "iifname \"evn-sf-host\" ip saddr 172.29.246.2 ip daddr 195.209.211.163 tcp dport 24579 accept"

-- the guard where there is no policy
abbrev pub minimal_guard : Table
minimal_guard = record {
  family = "inet";
  name = full_guard;
  sets = [];
  chains =
      record {
        name = "dns";
        hook = "type nat hook output priority -101; policy accept;";
        rules =
            "ip daddr 127.0.0.0/8 return" ∷ "ip daddr { 1.1.1.1, 9.9.9.9 } return"
            ∷ "meta nfproto ipv4 meta l4proto { tcp, udp } th dport 53 dnat ip to 1.1.1.1" ∷ [];
      }
      ∷ record {
        name = "source";
        hook = "type nat hook postrouting priority srcnat; policy accept;";
        rules = "meta nfproto ipv4 oifname \"evn-full-host\" snat ip to 172.29.247.1" ∷ [];
      }
      ∷ record {
        name = "output";
        hook = output_drop;
        rules =
            "oifname \"lo\" accept" ∷ "meta nfproto ipv4 oifname \"evn-full-host\" accept"
            ∷ "ip daddr 255.255.255.255 udp sport 68 udp dport 67 accept" ∷ [];
      }
      ∷ record {
        name = "forward";
        hook = forward_drop;
        rules =
            ("iifname \"evn-sf-host\" ip saddr 172.29.246.2 ip daddr { 195.209.211.163 } udp dport 24550 accept"
              ∷ accept_from_client)
            ++ (relay_from_client
                ∷ "iifname \"evn-sf-host\" ip saddr 172.29.246.2 ip daddr { 195.209.211.163 } tcp dport 8443 accept"
                ∷ "oifname \"evn-sf-host\" ip daddr 172.29.246.2 ct state established,related accept"
                ∷ "meta nfproto ipv4 oifname \"evn-full-host\" accept"
                ∷ "meta nfproto ipv4 iifname \"evn-full-host\" ct state established,related accept"
                ∷ []);
      }
      ∷ [];
}

-- what keeps forwarding disabled for others, if it was
abbrev pub preserve_disabled : Bool → List String
preserve_disabled previous_forward =
    if previous_forward
    then []
    else "iifname \"waydroid0\" meta nfproto ipv4 accept"
      ∷ "oifname \"waydroid0\" meta nfproto ipv4 ct state established,related accept"
      ∷ "meta nfproto ipv4 drop" ∷ []

unfoldable pub host_rules : String → Bool → Table
host_rules iface previous_forward = record {
  family = "inet";
  name = "evgenium_starfive_lab_host";
  sets = [];
  chains =
      record {
        name = "forward";
        hook = "type filter hook forward priority -20; policy accept;";
        rules =
            ("iifname \"evn-sf-host\" ip daddr { 195.209.211.163 } udp dport 24550 accept"
              ∷ accept_from_client)
            ++ ((relay_from_client
                  ∷ "iifname \"evn-sf-host\" ip daddr { 195.209.211.163 } tcp dport 8443 accept"
                  ∷ "iifname \"evn-sf-host\" drop"
                  ∷ "oifname \"evn-sf-host\" ip saddr { 195.209.211.163, 38.180.164.67 } ct state established,related accept"
                  ∷ "oifname \"evn-sf-host\" drop" ∷ [])
                ++ preserve_disabled previous_forward);
      }
      ∷ record {
        name = "nat";
        hook = "type nat hook postrouting priority srcnat; policy accept;";
        rules = ("ip saddr 172.29.246.2 oifname \"" <> (iface <> "\" masquerade")) ∷ [];
      }
      ∷ [];
}

-- inside the namespace: what may be forwarded to the tunnel
unfoldable pub forward_table : String → Table
forward_table vip = record {
  family = "inet";
  name = "evn_full_forward";
  sets = [];
  chains =
      record {
        name = "forward";
        hook = "type filter hook forward priority -5; policy drop;";
        rules =
            "iifname \"evn-full-peer\" oifname \"evn-sf-peer\" ip saddr 172.29.247.1 accept"
            ∷ "iifname { \"evn-sf-peer\", \"lo\" } oifname \"evn-full-peer\" ip daddr 172.29.247.1 ipsec in reqid 177 ct state established,related accept"
            ∷ [];
      }
      ∷ record {
        name = "nat";
        hook = "type nat hook postrouting priority srcnat; policy accept;";
        rules = ("ip saddr 172.29.247.1 oifname \"evn-sf-peer\" snat ip to " <> vip) ∷ [];
      }
      ∷ [];
}

-- inside the namespace: what may leave its uplink
unfoldable pub wire_table : String → ℕ → Table
wire_table address port = record {
  family = "netdev";
  name = "evn_full_wire";
  sets = [];
  chains =
      record {
        name = "egress";
        hook = "type filter hook egress device \"evn-sf-peer\" priority 0; policy drop;";
        rules =
            "ether type arp accept"
            ∷ ("ip daddr " <> (address <> (" udp dport " <> (str port <> " accept"))))
            ∷ "ip daddr 38.180.164.67 tcp dport { 24571, 24578 } accept"
            ∷ "ip daddr 195.209.211.163 tcp dport 24579 accept"
            ∷ ("ip daddr " <> (address <> " tcp dport 8443 accept"))
            ∷ [];
      }
      ∷ [];
}

-- inside the namespace, from `daemon_configs`: what its programs may send
unfoldable pub daemon_table : String → ℕ → Table
daemon_table address port = record {
  family = "inet";
  name = "evn_starfive_guard";
  sets = [];
  chains =
      record {
        name = "output";
        hook = "type filter hook output priority -10; policy drop;";
        rules =
            "oifname \"lo\" accept"
            ∷ "ip daddr 127.0.0.1 udp dport 24573 accept"
            ∷ "oifname \"evn-full-peer\" ip daddr 172.29.247.1 meta l4proto { tcp, udp } th sport 53 accept"
            ∷ ("ip daddr " <> (address <> (" udp dport " <> (str port <> " accept"))))
            ∷ "ip daddr 38.180.164.67 tcp dport { 24571, 24578 } accept"
            ∷ "ip daddr 195.209.211.163 tcp dport 24579 accept"
            ∷ ("meta skuid 0 ip daddr " <> (address <> " tcp dport 8443 accept"))
            ∷ "meta nfproto ipv4 ipsec out reqid 177 accept"
            ∷ [];
      }
      ∷ record {
        name = "forward";
        hook = "type filter hook forward priority -10; policy drop;";
        rules = [];
      }
      ∷ [];
}

-- `table ip evn_tls_carrier` of `start_candidate`
abbrev pub carrier_table : Table
carrier_table = record {
  family = "ip";
  name = "evn_tls_carrier";
  sets = [];
  chains =
      record {
        name = "output";
        hook = "type nat hook output priority dstnat; policy accept;";
        rules = "ip daddr 38.180.164.67 udp dport 443 redirect to :24573" ∷ [];
      }
      ∷ [];
}
