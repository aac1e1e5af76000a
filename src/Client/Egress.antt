-- ===== src/Client/Egress.antt =====
-- Whether the tunnel and the host's DNS work: `parse_exit`, `egress_health` and `system_dns_health`
-- of src/starfive_tunnel.py.
use evgenium_network_linux.Prelude.{
  nat_eq, string_eq, bytes_eq, Bool, Exec, List, Option, String, [], false, if◌then◌else◌, none,
  not, ok, pure, some, true, ℕ, ◌++◌, ◌&&◌, ◌==◌, ◌>>=◌, ◌>>◌, ◌∷◌, gets, modify, split_lines,
  strip, strip_prefix, words, take, leb, ltb, ◌%◌, ◌+◌, length,
}
use evgenium_network_linux.Client.Machine.{
  on_option, System, Tunnel, netns_exec, Ending, finished, overdue, unstarted, is_done,
}
use evgenium_network_linux.Client.Machine.Actions.{read_text}

abbrev pub exit_address : String
exit_address = "38.180.164.67"

-- `[line[3:] for line in body.splitlines() if line.startswith('ip=')]`
pub ip_lines : List String → List String
unfolding strip_prefix
ip_lines [] = []
ip_lines (line ∷ lines) =
    let rest = ip_lines lines in
    elim (strip_prefix "ip=" line) [ none ↦ rest | some value ↦ value ∷ rest ]

abbrev pub probe_url : Bool → String
probe_url second = if second then "https://api.ipify.org" else "https://1.1.1.1/cdn-cgi/trace"

abbrev pub probe : Bool → List String
probe second = netns_exec (
    "curl"
    ∷ "-4"
    ∷ "--noproxy"
    ∷ "*"
    ∷ "--fail"
    ∷ "--silent"
    ∷ "--show-error"
    ∷ "--connect-timeout"
    ∷ "3"
    ∷ "--max-time"
    ∷ "5"
    ∷ "--max-filesize"
    ∷ "32768"
    ∷ probe_url second
    ∷ [])

-- api.ipify.org, of type A
abbrev pub dns_query : List ℕ
dns_query =
    1 ∷ 0 ∷ 0 ∷ 1 ∷ 0 ∷ 0 ∷ 0 ∷ 0 ∷ 0 ∷ 0 ∷ 3 ∷ 97 ∷ 112 ∷ 105 ∷ 5 ∷ 105 ∷ 112 ∷ 105 ∷ 102 ∷ 121 ∷ 3
    ∷ 111 ∷ 114 ∷ 103 ∷ 0 ∷ 0 ∷ 1 ∷ 0 ∷ 1 ∷ []

-- `len(line.split()) >= 2` and the first word is 'nameserver'
pub nameservers : List String → List String
unfolding words
nameservers [] = []
nameservers (line ∷ lines) =
    let rest = nameservers lines in
    elim (words line) [
      | word ∷ server ∷ more ↦ if word == "nameserver" then server ∷ rest else rest
      | _ ↦ rest
    ]

-- the first bytes of an answer: its transaction, that it is an answer without an error, and that
-- it holds a record
unfoldable pub is_answer : List ℕ → List ℕ → Bool
is_answer transaction (a ∷ b ∷ flags ∷ code ∷ q0 ∷ q1 ∷ n0 ∷ n1 ∷ rest) =
    leb 4 (length rest)
    && a ∷ b ∷ [] == transaction
    && leb 128 (flags % 256)
    && code % 16 == 0
    && ltb 0 (n0 + n1)
is_answer transaction _ = false

module _ {E : Type 0} (system : System E) where
  -- an address of version 4 is its own text
  unfoldable pub parse_exit : String → Bool → Option String
  unfolding ip_lines split_lines
  parse_exit body trace =
      elim (if trace then ip_lines (split_lines body) else strip system.is_space body ∷ []) [
        | value ∷ [] ↦ if system.is_address value then some value else none
        | _ ↦ none
      ]

  -- what a provider saw; an exception that is passed over is `none`
  unfoldable pub observed : Bool → Ending → Option String
  unfolding parse_exit
  observed second (finished o) =
      if o.returncode == 0 then parse_exit o.stdout (not second) else none
  observed second overdue = none
  observed second unstarted = none

  unfoldable pub ask_provider : Bool → Exec (Tunnel E) (Option String)
  unfolding observed
  ask_provider second t =
      let (e, env) = system.run (probe second) [] t.env in
      (
        ok (observed second e),
        record t {
          env = env;
          journal = t.journal ++ record { args = probe second; input = []; done = is_done e } ∷ [];
        },
      )

  -- a provider that answers decides, and is asked first from then on
  unfoldable pub egress_rounds : List Bool → Exec (Tunnel E) Bool
  unfolding ask_provider
  egress_rounds [] = pure false
  egress_rounds (second ∷ others) = do
    seen ← ask_provider second
    on_option seen (egress_rounds others) (λ value.
        if value == exit_address
        then (do modify (λ t. record t { egress_second = second }); pure true)
        else pure false)

  unfoldable pub egress_health : Exec (Tunnel E) Bool
  unfolding egress_rounds
  egress_health = do second ← gets (λ t. t.egress_second); egress_rounds (second ∷ not second ∷ [])

  unfoldable pub ask_servers : List String → Exec (Tunnel E) Bool
  unfolding is_answer
  ask_servers [] t = (ok false, t)
  ask_servers (server ∷ servers) t =
      let (transaction, env) = system.token_bytes t.env in
      let (answer, env') = system.ask server (transaction ++ dns_query) env in
      let rest = ask_servers servers (record t { env = env' }) in
      elim answer [
        | none ↦ rest
        | some bytes ↦
            if is_answer transaction bytes then (ok true, record t { env = env' }) else rest
      ]

  unfoldable pub system_dns_health : Exec (Tunnel E) Bool
  unfolding nameservers ask_servers split_lines read_text
  system_dns_health = do
    text ← read_text system "/etc/resolv.conf"
    ask_servers (take 3 (nameservers (split_lines text)))
