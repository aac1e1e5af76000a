-- ===== src/Client/Machine.antt =====
-- The machine below src/starfive_tunnel.py, and the state that its functions share. Commands, files
-- and processes are the fields of a record `System` over an unknown state, a parameter of all that
-- follows; the files whose JSON the program reads again are values.
pub mod Actions
use evgenium_network_linux.Prelude.{
  Error, Dict, nat_eq, string_eq, Bool, Exec, List, Option, Result, String, [], err, false,
  if◌then◌else◌, none, ok, os_error, pure, runtime_error, raise_if, not, strip, some,
  timeout_expired, ℕ, ◌++◌, ◌==◌, ◌>>=◌, ◌∷◌, gets, or_raise,
}
use evgenium_network_linux.Client.Nft.{Script, Table}
use evgenium_network_linux.Ranking.{Ranking}
use evgenium_network_linux.Client.Policy.{Policy}
use evgenium_network_linux.Client.Policy.Routing.{Rule}

-- the text output of a command with its exit status
pub record Output : Type 0 where
  pub returncode : ℕ
  pub stdout : String
  pub stderr : String

pub data Ending : Type 0 where
  finished : Output → Ending
  overdue unstarted : Ending

-- a command with what is written to its standard input, and whether it has ended with status 0
pub record Command : Type 0 where
  pub args : List String
  pub input : Script
  pub done : Bool

-- what is done to a file
pub data FileStep : Type 0 where
  write_file : String → String → FileStep
  set_mode : String → ℕ → FileStep
  unlink make_parents remove_folder : String → FileStep
  symlink_to move_to : String → String → FileStep
  set_owner : String → ℕ → FileStep

-- the entries of `ip -j` that are read; an address has its prefix, as in `10.0.0.2/24`
pub record Address : Type 0 where
  pub host : String
  pub prefixed : String
  pub is_global : Bool

pub record Link : Type 0 where
  pub index : Option ℕ
  pub up : Bool
  pub addresses : List Address

pub record Route : Type 0 where
  pub gateway : Option String
  pub dev : Option String
  pub dst : String
  pub metric : ℕ

-- one way to the exit, an entry of CANDIDATES
pub record Candidate : Type 0 where
  pub id : String
  pub address : String
  pub identity : String
  pub port : ℕ
  pub tls : Bool
  pub evgt : Bool
  pub transport : Option (String × ℕ)
  pub label : String

-- /etc/resolv.conf before the tunnel changed it
pub record ResolverOriginal : Type 0 where
  pub link : Option String
  pub text : String
  pub existed : Bool

-- full-network.json: what the tunnel has taken over
pub record FullState : Type 0 where
  pub active : Bool
  pub resolver_original : Option ResolverOriginal
  pub dns_backup : Option String
  pub dns_mode : Option String
  pub dns_fallback : Bool

-- network.json: what the namespace has taken over
pub record NetworkState : Type 0 where
  pub forward : String
  pub interface : String
  pub uplink_forward : Option String
  pub measurement_ips : List String

-- what `waydroid_network` finds
pub record Waydroid : Type 0 where
  pub index : Option ℕ
  pub networks : List String

-- starfive-tunnel.json, without its metrics, the time of the connection and its heartbeat
pub record Stage : Type 0 where
  pub phase : String
  pub message : String
  pub progress : ℕ
  pub active : Bool
  pub path : Option String
  pub error_code : String
  pub updated : ℕ

-- `change` and `save` are false for an OSError; `stop` is false where a process does not end;
-- `links`, `routes` and `priorities` are `json.loads` of what `ip -j` prints; `is_address`,
-- `is_global` and `in_network` are of `ipaddress`; `with_policy` is whether the module
-- `policy` is set; `settings` gives the user and the group of the engine, and `dumps` is the text of its
-- configuration; `ask` sends bytes to a DNS server, and gives `none` where that raises; `measure` reads a
-- speed in hundredths of a megabit and a latency from what `curl` prints, `none` for a ValueError;
-- `nft_path` is `shutil.which('nft')`, `machine` is of `platform`, `digest_of` the SHA-256 of a file that is there, `sha256` that of bytes, and `fetch`
-- gives what a URL answers, `none` for an OSError.
pub record System (E : Type 0) : Type 0 where
  pub run : List String → Script → E → Ending × E
  pub pause : E → E
  pub stop_requested : E → Bool
  pub time : E → ℕ × E
  pub exists : String → E → Bool
  pub read_text : String → E → Option String
  pub read_link : String → E → Option String
  pub which : String → E → Bool
  pub nft_path : E → Option String
  pub change : FileStep → E → Bool × E
  pub save : String → E → Bool × E
  pub start : List String → E → Option ℕ × E
  pub is_running : ℕ → E → Bool
  pub stop : ℕ → E → Bool × E
  pub links : String → Result (List Link)
  pub routes : String → Result (List Route)
  pub priorities : String → Result (List ℕ)
  pub with_policy : Bool
  pub is_address : String → Bool
  pub is_global : String → Bool
  pub in_network : String → String → Result Bool
  pub is_space : ℕ → Bool
  pub settings : E → Result (ℕ × ℕ)
  pub dumps : List Rule → String
  pub glob : E → List String
  pub size : String → E → Option ℕ
  pub measure : Bool → Output → Option (ℕ × ℕ)
  pub token_bytes : E → List ℕ × E
  pub machine : String
  pub digest_of : String → E → Option String
  pub sha256 : String → String
  pub fetch : String → E → Option String × E
  pub ask : String → List ℕ → E → Option (List ℕ) × E

-- the modules' variables, the worker's, and the files that they read again: full-network.json, network.json,
-- full-guard.nft, policy.json, policy-network.json and waydroid-network.json, with the commands run so far, oldest first
pub record Tunnel (E : Type 0) : Type 0 where
  pub env : E
  pub journal : List Command
  pub full : Option FullState
  pub network : Option NetworkState
  pub saved_guard : Option Table
  pub policy : Option Policy
  pub owns_tables : Bool
  pub waydroid : Option Waydroid
  pub egress_second : Bool
  pub stage : Option Stage
  pub active : Candidate
  pub dns_process : Option ℕ
  pub tls_process : Option ℕ
  pub daemon : Option ℕ
  pub ranking : Ranking
  pub baselines : Dict String (ℕ × ℕ)

abbrev pub is_done : Ending → Bool
is_done (finished o) = o.returncode == 0
is_done _ = false

abbrev pub ended : Ending → Result Output
ended (finished o) = ok o
ended overdue = err timeout_expired
ended unstarted = err os_error

-- `raise RuntimeError('command_failed')`
abbrev pub checked : Output → Result Output
checked o = if o.returncode == 0 then ok o else err (runtime_error "command_failed")

-- a branch on a value that may be missing
abbrev pub on_option : {S A B : Type 0} → Option A → Exec S B → (A → Exec S B) → Exec S B
on_option none m f = m
on_option (some a) m f = f a

-- `try: m except: f`, where `f` raises again what it does not expect
abbrev pub handled : {S A : Type 0} → Result A → S → (Error → Exec S A) → Result A × S
handled (ok a) s f = (ok a, s)
handled (err e) s f = f e s

abbrev pub catch : {S A : Type 0} → Exec S A → (Error → Exec S A) → Exec S A
catch m f s = handled (m s).0 (m s).1 f

-- `inside(args)`
abbrev pub netns_exec : List String → List String
netns_exec args = "ip" ∷ "netns" ∷ "exec" ∷ "evn-starfive" ∷ args
