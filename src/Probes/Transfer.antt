-- ===== src/Probes/Transfer.antt =====
-- `TransferSessions` of server/transfer_probe.py: one method at a time. A session is the object
-- that `sessions` holds under its id. The clock is read in whole ticks, `second` of them in a
-- second; what a read1 or a receipt may do is a parameter.
pub mod Capacity
pub mod Consume
pub mod Lookup
pub mod Whole
pub mod Received
use evgenium_network_linux.Prelude.{
  permission_error, nat_eq, bytes_eq, string_eq, option_eq, Bool, none, err, Dict, Exec, List,
  Option, Result, String, count_if, eof_error, false, get, get_or, gets, has, if◌then◌else◌, is_hex,
  keep, leb, length, lift, ltb, matches_class, max, min, modify, not, ok, or_raise, os_error, pure,
  put, raise, raise_if, some, suc, timeout_error, true, value_error, values, zero, ℕ, ◌&&◌, ◌*◌,
  ◌++◌, ◌+◌, ◌-◌, ◌==◌, ◌>>=◌, ◌>>◌, ◌||◌, [], finally_do,
}

abbrev pub Bytes : Type 0
Bytes = List ℕ

pub record Session : Type 0 where
  pub owner : Bytes
  pub expires : ℕ
  pub size : ℕ
  pub started : Bool
  pub received : ℕ
  pub complete : Bool
  pub elapsed_ms : ℕ
  pub max_read_ms : ℕ
  pub sha256 : String

-- what `result` returns
pub record Receipt : Type 0 where
  pub size : ℕ
  pub received : ℕ
  pub complete : Bool
  pub elapsed_ms : ℕ
  pub max_read_ms : ℕ
  pub sha256 : String

-- `read1` gives `none` where the connection raises; `round_ms` is `round(1000 * seconds)` of a
-- span of the clock; `digest` is the SHA-256 of bytes, in hexadecimal.
pub record Wire (E : Type 0) : Type 0 where
  pub second : ℕ
  pub clock : E → ℕ × E
  pub token_hex : ℕ → E → String × E
  pub set_timeout : ℕ → E → E
  pub read1 : ℕ → E → Option Bytes × E
  pub round_ms : ℕ → ℕ
  pub digest : Bytes → String

-- the sessions, and for each owner when its hour began and how many it opened since
pub record Transfers (E : Type 0) : Type 0 where
  pub env : E
  pub sessions : Dict String Session
  pub rates : Dict Bytes (ℕ × ℕ)

abbrev pub owned_by : Bytes → Session → Bool
owned_by owner s = s.owner == owner

abbrev pub live : ℕ → Dict String Session → Dict String Session
live now s = keep (λ e. ltb now e.1.expires) s

abbrev pub recent : ℕ → ℕ → Dict Bytes (ℕ × ℕ) → Dict Bytes (ℕ × ℕ)
recent hour now r = keep (λ e. ltb now (e.1.0 + hour)) r

abbrev pub new_session : Bytes → ℕ → ℕ → Session
new_session owner expires size = record {
  owner = owner;
  expires = expires;
  size = size;
  started = false;
  received = 0;
  complete = false;
  elapsed_ms = 0;
  max_read_ms = 0;
  sha256 = "";
}

abbrev pub receipt_of : Session → Receipt
receipt_of s = record {
  size = s.size;
  received = s.received;
  complete = s.complete;
  elapsed_ms = s.elapsed_ms;
  max_read_ms = s.max_read_ms;
  sha256 = s.sha256;
}

-- the four limits on a new session
unfoldable pub is_full : Bytes → ℕ → Dict String Session → Dict Bytes (ℕ × ℕ) → Bool
is_full owner opened sessions rates =
    leb 256 (length sessions)
    || leb 12 (count_if (owned_by owner) (values sessions))
    || leb 180 opened
    || leb 4096 (length rates) && not (has owner rates)

-- a change of the object that is the session of this id
unfoldable pub on_session : {E : Type 0} → String → (Session → Session) → Transfers E → Transfers E
on_session sid f t = elim (get sid t.sessions) [
  | none ↦ t
  | some s ↦ record t { sessions = put sid (f s) t.sessions }
]

module _ {E : Type 0} (wire : Wire E) where
  abbrev pub clock : Exec (Transfers E) ℕ
  clock t = let (now, env) = wire.clock t.env in (ok now, record t { env = env })

  -- `issue` at a moment, for a size that is allowed
  unfoldable pub issue_at : Bytes → ℕ → ℕ → Exec (Transfers E) (String × ℕ)
  issue_at owner size now t =
      let sessions = live now t.sessions in
      let rates = recent (3600 * wire.second) now t.rates in
      let rate = get_or owner (now, 0) rates in
      if is_full owner rate.1 sessions rates
      then (err (value_error "capacity"), record t { sessions = sessions; rates = rates })
      else (let (sid, env) = wire.token_hex 16 t.env in
          (
            ok (sid, size),
            record {
              env = env;
              sessions = put sid (new_session owner (now + 180 * wire.second) size) sessions;
              rates = put owner (rate.0, rate.1 + 1) rates;
            },
          ))

  -- `None` is a size that is no int or is negative
  unfoldable pub issue : Bytes → Option ℕ → Exec (Transfers E) (String × ℕ)
  unfolding issue_at is_full
  issue owner none = raise (value_error "size")
  issue owner (some size) = do
    raise_if (not (size == 32768 || size == 4194304)) (value_error "size")
    now ← clock
    issue_at owner size now

  -- `_get`; `None` is an id that is no text. The clock is read last.
  unfoldable pub get_session : Option String → Bytes → Exec (Transfers E) (String × Session)
  get_session sid owner = do
    id ← or_raise sid (value_error "session")
    raise_if (not (matches_class is_hex 32 id)) (value_error "session")
    sessions ← gets (λ t. t.sessions)
    s ← or_raise (get id sessions) (value_error "session")
    raise_if (not (s.owner == owner)) (value_error "session")
    now ← clock
    raise_if (leb s.expires now) (value_error "session")
    pure (id, s)

  unfoldable pub result : Option String → Bytes → Exec (Transfers E) Receipt
  unfolding get_session
  result sid owner = do found ← get_session sid owner; pure (receipt_of found.1)

  -- the first block of `consume`
  unfoldable pub begin : Option String → Bytes → ℕ → Exec (Transfers E) String
  unfolding get_session on_session
  begin sid owner size = do
    found ← get_session sid owner
    raise_if (not (size == found.1.size) || found.1.started) (value_error "replay_or_size")
    modify (on_session found.0 (λ s. record s { started = true }))
    pure found.0

  pub read1 : ℕ → Exec (Transfers E) Bytes
  read1 n t =
      let (r, env) = wire.read1 n t.env in
      (elim r [ none ↦ err os_error | some chunk ↦ ok chunk ], record t { env = env })

  abbrev pub set_timeout : ℕ → Exec (Transfers E) (Unit {0})
  set_timeout n t = (ok tt, record t { env = wire.set_timeout n t.env })

  abbrev pub note_read : ℕ → ℕ → ℕ → Session → Session
  note_read count read_ms elapsed s = record s {
    received = count;
    max_read_ms = max s.max_read_ms read_ms;
    elapsed_ms = elapsed;
  }

  -- one round of the loop: the chunk that was read
  unfoldable pub read_chunk : String → ℕ → ℕ → ℕ → Exec (Transfers E) Bytes
  unfolding read1 on_session
  read_chunk sid start size count = do
    now ← clock
    let deadline = start + 25 * wire.second
    raise_if (leb deadline now) timeout_error
    set_timeout (min (8 * wire.second) (deadline - now))
    at ← clock
    chunk ← read1 (min 16384 (size - count))
    raise_if (length chunk == 0) eof_error
    after ← clock
    later ← clock
    modify (
        on_session sid (
          note_read (count + length chunk) (wire.round_ms (after - at))
            (wire.round_ms (later - start))))
    pure chunk

  -- the loop, with the bytes that were fed to the digest; `none` means that the fuel ran out
  pub read_all : ℕ → String → ℕ → ℕ → ℕ → Bytes → Transfers E → Option (Result Bytes) × Transfers E
  read_all zero sid start size count fed t = (none, t)
  read_all (suc fuel) sid start size count fed t = elim (ltb count size) [
    | false ↦ (some (ok fed), t)
    | true ↦
        let (r, t') = read_chunk sid start size count t in
        elim r [
          | err e ↦ (some (err e), t')
          | ok chunk ↦ read_all fuel sid start size (count + length chunk) (fed ++ chunk) t'
        ]
  ]

  -- the end of the `try` block, where the loop did not raise
  unfoldable pub complete : String → Result Bytes → Exec (Transfers E) (Unit {0})
  unfolding on_session
  complete sid r = do
    fed ← lift r
    modify (on_session sid (λ s. record s { complete = true; sha256 = wire.digest fed }))

  -- `except (OSError, ValueError): pass`
  abbrev pub ignore_logging : Result (Unit {0}) → Result (Unit {0})
  ignore_logging (err os_error) = ok tt
  ignore_logging (err timeout_error) = ok tt
  ignore_logging (err (permission_error m)) = ok tt
  ignore_logging (err (value_error m)) = ok tt
  ignore_logging r = r

  abbrev pub ignoring : Exec (Transfers E) (Unit {0}) → Exec (Transfers E) (Unit {0})
  ignoring m t = let (r, t') = m t in (ignore_logging r, t')

  -- what `receipt` does with a result
  abbrev pub log_receipt :
      (Receipt → E → Result (Unit {0}) × E) → Receipt → Exec (Transfers E) (Unit {0})
  log_receipt log receipt t = let (r, env) = log receipt t.env in (r, record t { env = env })

  unfoldable pub give_receipt :
      String → Bytes → Option (Receipt → E → Result (Unit {0}) × E) → Exec (Transfers E) (Unit {0})
  unfolding result
  give_receipt sid owner none = pure tt
  give_receipt sid owner (some log) = ignoring (result (some sid) owner >>= log_receipt log)

  -- the `finally` block
  unfoldable pub closing :
      String
      → Bytes
      → ℕ
      → Option (Receipt → E → Result (Unit {0}) × E)
      → Exec (Transfers E) (Unit {0})
  unfolding give_receipt on_session
  closing sid owner start receipt = do
    now ← clock
    modify (on_session sid (λ s. record s { elapsed_ms = wire.round_ms (now - start) }))
    give_receipt sid owner receipt

  unfoldable pub finish :
      String
      → Bytes
      → ℕ
      → Option (Receipt → E → Result (Unit {0}) × E)
      → Result Bytes
      → Exec (Transfers E) Receipt
  unfolding complete closing result
  finish sid owner start receipt r =
      finally_do (complete sid r) (closing sid owner start receipt) >> result (some sid) owner

  -- what follows the loop; `none` is a loop that ran out of fuel
  unfoldable pub after_loop :
      String
      → Bytes
      → ℕ
      → Option (Receipt → E → Result (Unit {0}) × E)
      → Option (Result Bytes) × Transfers E
      → Option (Result Receipt) × Transfers E
  unfolding finish
  after_loop sid owner start receipt (none, t) = (none, t)
  after_loop sid owner start receipt (some r, t) =
      let (x, t') = finish sid owner start receipt r t in (some x, t')

  -- `consume` after its first block
  unfoldable pub transfer :
      String
      → Bytes
      → ℕ
      → Option (Receipt → E → Result (Unit {0}) × E)
      → Transfers E
      → Option (Result Receipt) × Transfers E
  unfolding read_all after_loop
  transfer sid owner size receipt t =
      let (start, env) = wire.clock t.env in
      after_loop sid owner start receipt
        (read_all (suc size) sid start size 0 [] (record t { env = env }))

  unfoldable pub consume :
      Option String
      → Bytes
      → ℕ
      → Option (Receipt → E → Result (Unit {0}) × E)
      → Transfers E
      → Option (Result Receipt) × Transfers E
  unfolding begin transfer
  consume sid owner size receipt t =
      let (r, t') = begin sid owner size t in
      elim r [ err e ↦ (some (err e), t') | ok id ↦ transfer id owner size receipt t' ]
