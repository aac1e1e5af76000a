-- ===== src/Issuer/Host.antt =====
-- What the issuer needs of the machine: commands, the clock, random identifiers and the disk. It
-- is a parameter of everything below; the state `E` of the machine is unknown.
use evgenium_network_linux.Prelude.{
  nat_eq, ℕ, Exec, List, Option, Result, String, [], err, ok, os_error, runtime_error, some, suc,
  timeout_expired, value_or, zero, ◌++◌, ◌∷◌, Bool, false, if◌then◌else◌, none, true, ◌==◌,
}
use evgenium_network_linux.Issuer.Model.{Accounts}

-- how `subprocess.run` ends: with an exit status and its output, at the timeout, or not started
pub data Outcome : Type 0 where
  exited : ℕ → String → Outcome
  timed_out : Outcome
  not_started : Outcome

-- how the write of a whole file ends: `os.replace` may not be reached, or the final `fsync` of the
-- folder may fail after it
pub data WriteOutcome : Type 0 where
  written not_replaced not_synced : WriteOutcome

-- what is done to other files than accounts.json
pub data FileChange : Type 0 where
  make_folder set_mode sync_file remove_file : String → FileChange
  write_text : String → String → FileChange

-- the keys of the WireGuard configuration file that are read
pub record WgConfig : Type 0 where
  pub interface : Option String
  pub public_key : Option String
  pub endpoint : Option String
  pub subnet : Option String

-- `exec` is `subprocess.run` with the input text; `write_file` and `replace_file` are a whole-file
-- write and `os.replace`; `change_file` is the rest, false for an OSError; `nfc`, `is_space` and `is_control` are Unicode's tables; `cert_time` is
-- `ssl.cert_time_to_seconds`; the rest are the clock, `secrets`, `hashlib` and reads of files.
pub record Host (E : Type 0) : Type 0 where
  pub exec : List String → String → E → Outcome × E
  pub time : E → ℕ × E
  pub token_hex : ℕ → E → String × E
  pub token_urlsafe : ℕ → E → String × E
  pub sha256 : String → String
  pub write_file : E → WriteOutcome × E
  pub replace_file : String → String → E → Bool × E
  pub change_file : FileChange → E → Bool × E
  pub read_file : String → E → Option String
  pub read_wg_config : E → Result WgConfig
  pub cert_time : String → Result ℕ
  pub nfc : String → String
  pub is_space : ℕ → Bool
  pub is_control : ℕ → Bool

-- A command that was run, with accounts.json as it stood on the disk at that moment.
pub record Event : Type 0 where
  pub args : List String
  pub on_disk : Option Accounts

-- The machine, accounts.json on its disk, and the commands run so far, oldest first.
pub record World (E : Type 0) : Type 0 where
  pub env : E
  pub stored : Option Accounts
  pub journal : List Event

unfoldable pub completed : Outcome → String → Result String
completed (exited zero output) message = ok output
completed (exited (suc status) output) message = err (runtime_error message)
completed timed_out message = err timeout_expired
completed not_started message = err os_error

-- `accounts()`
abbrev pub accounts : {E : Type 0} → World E → Accounts
accounts w = value_or [] w.stored

-- what a write of accounts.json leaves
unfoldable pub store :
    {E : Type 0} → WriteOutcome → Accounts → E → World E → Result (Unit {0}) × World E
store written data_ env w = (ok tt, record w { env = env; stored = some data_ })
store not_replaced data_ env w = (err os_error, record w { env = env })
store not_synced data_ env w = (err os_error, record w { env = env; stored = some data_ })

-- `subprocess.run(...).returncode == 0`, where the status is read and not checked
unfoldable pub returned_zero : Outcome → Result Bool
returned_zero (exited status output) = ok (status == 0)
returned_zero timed_out = err timeout_expired
returned_zero not_started = err os_error

module _ {E : Type 0} (host : Host E) where
  unfoldable pub exec_input : List String → String → Exec (World E) Outcome
  exec_input args input w =
      let (outcome, env) = host.exec args input w.env in
      (
        ok outcome,
        record w {
          env = env;
          journal = w.journal ++ record { args = args; on_disk = w.stored } ∷ [];
        },
      )

  -- `int(time.time())`
  unfoldable pub now : Exec (World E) ℕ
  now w = let (t, env) = host.time w.env in (ok t, record w { env = env })

  unfoldable pub token_hex : ℕ → Exec (World E) String
  token_hex n w = let (s, env) = host.token_hex n w.env in (ok s, record w { env = env })

  -- `write_json(ROOT/'accounts.json', data)`
  unfoldable pub write_json : Accounts → Exec (World E) (Unit {0})
  unfolding store
  write_json data_ w = let (outcome, env) = host.write_file w.env in store outcome data_ env w

  -- `run` of token_issuer.py and `command` of wireguard_backend.py, with the error of each
  unfoldable pub run_or : String → List String → Exec (World E) String
  unfolding exec_input completed
  run_or message args w =
      let (outcome, env) = host.exec args "" w.env in
      (
        completed outcome message,
        record w {
          env = env;
          journal = w.journal ++ record { args = args; on_disk = w.stored } ∷ [];
        },
      )

  abbrev pub run : List String → Exec (World E) String
  run args = run_or "certificate_operation_failed" args

  -- `path.read_text()`
  unfoldable pub read_text : String → Exec (World E) String
  read_text path w = (elim (host.read_file path w.env) [ none ↦ err os_error | some t ↦ ok t ], w)

  -- `path.exists()`
  unfoldable pub exists : String → Exec (World E) Bool
  exists path w = (ok (elim (host.read_file path w.env) [ none ↦ false | some t ↦ true ]), w)

  -- `os.replace`
  unfoldable pub replace : String → String → Exec (World E) (Unit {0})
  replace from to w =
      let (done, env) = host.replace_file from to w.env in
      (if done then ok tt else err os_error, record w { env = env })

  -- a change of another file, or an OSError
  unfoldable pub change : FileChange → Exec (World E) (Unit {0})
  change c w =
      let (done, env) = host.change_file c w.env in
      (if done then ok tt else err os_error, record w { env = env })
