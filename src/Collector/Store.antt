-- ===== src/Collector/Store.antt =====
-- `prune` and `store_report` of server/diagnostic_collector.py, from the cleaned record on. The
-- log folder is there and its files can be removed. The clock is read in whole ticks, `second` of
-- them in a second. The lock is held from `prune` on.
pub mod Limits
use evgenium_network_linux.Prelude.{
  nat_eq, string_eq, option_eq, Bool, none, err, [], Dict, Exec, List, Option, String, contains,
  get, gets, if◌then◌else◌, keep, key_error, leb, length, modify, ok, or_raise, os_error, pure, put,
  raise_if, some, value_error, ℕ, ◌*◌, ◌+◌, ◌/◌, ◌==◌, ◌>>=◌, ◌>>◌, ◌∷◌,
}

abbrev pub max_size : ℕ
max_size = 32 * 1024 * 1024

abbrev pub max_age : ℕ
max_age = 7 * 86400

-- one file of the log folder
pub record LogFile : Type 0 where
  pub size : ℕ
  pub modified : ℕ

-- what `store_report` reads of a cleaned record with its device
pub record Cleaned : Type 0 where
  pub event : String
  pub device : String
  pub report_id : Option String

-- `append` is false for an OSError, which leaves the file as it was; `day_start` reads a file's stem as a day, in seconds;
-- `log_name` is the stem of the day of a time; `line_size` is the length of a record's line
pub record Disk (E : Type 0) : Type 0 where
  pub second : ℕ
  pub time : E → ℕ × E
  pub append : String → E → Bool × E
  pub day_start : String → Option ℕ
  pub log_name : ℕ → String
  pub line_size : Cleaned → ℕ

-- SUPPORT_LIMITS holds an hour and the accepted ids for each device
pub record Collector (E : Type 0) : Type 0 where
  pub env : E
  pub limits : Dict String (ℕ × List String)
  pub logs : Dict String LogFile

-- whether a report is a repetition of one that was accepted
pub data Admission : Type 0 where
  repeated fresh : Admission

abbrev pub size_of : Option LogFile → ℕ
size_of none = 0
size_of (some f) = f.size

module _ {E : Type 0} where
  -- the entry of a device, which is made where there is none
  unfoldable pub entry_of : String → ℕ → Exec (Collector E) (List String)
  entry_of device hour s = elim (get device s.limits) [
    | some (since, ids) ↦ (ok ids, s)
    | none ↦
        if leb 8192 (length s.limits)
        then (err (value_error "report_capacity"), s)
        else (ok [], record s { limits = put device (hour, []) s.limits })
  ]

  unfoldable pub drop_old : ℕ → Collector E → Collector E
  drop_old hour s = record s { limits = keep (λ e. e.1.0 == hour) s.limits }

  -- a new id needs fewer than six before it
  unfoldable pub unless_repeated :
      List String → String → ℕ → Exec (Collector E) (Admission × List String × ℕ)
  unless_repeated ids id hour =
      if contains ids id
      then pure (repeated, ids, hour)
      else do raise_if (leb 6 (length ids)) (value_error "hourly_limit"); pure (fresh, ids, hour)

module _ {E : Type 0} (disk : Disk E) where
  pub now : Exec (Collector E) ℕ
  now s = let (t, env) = disk.time s.env in (ok t, record s { env = env })

  abbrev pub created : String × LogFile → ℕ
  created (stem, f) = elim (disk.day_start stem) [
    | none ↦ f.modified
    | some start ↦ start * disk.second
  ]

  unfoldable pub prune : Exec (Collector E) (Unit {0})
  unfolding now
  prune = do
    t ← now
    modify (λ s. record s { logs = keep (λ f. leb t (created f + max_age * disk.second)) s.logs })

  -- the limits on support bundles, with the ids so far and the hour
  unfoldable pub admit_support : String → String → Exec (Collector E) (Admission × List String × ℕ)
  unfolding now entry_of drop_old unless_repeated
  admit_support device id = do
    t ← now
    let hour = t / disk.second / 3600
    modify (drop_old hour)
    ids ← entry_of device hour
    unless_repeated ids id hour

  -- one line at the end of today's file
  unfoldable pub append_line : Cleaned → Exec (Collector E) (Unit {0})
  unfolding now
  append_line r = do
    t ← now
    let name = disk.log_name t
    logs ← gets (λ s. s.logs)
    let size = size_of (get name logs)
    raise_if (leb max_size size) (value_error "daily_limit")
    λ s.
        let (done, env) = disk.append name s.env in
        if done
        then (
          ok tt,
          record s {
            env = env;
            logs = put name (record { size = size + disk.line_size r; modified = t }) s.logs;
          },
        )
        else (err os_error, record s { env = env })

  -- a new support bundle is written, and then its id is kept
  unfoldable pub record_admitted :
      Cleaned → String → Admission × List String × ℕ → Exec (Collector E) (Unit {0})
  unfolding append_line
  record_admitted r id (repeated, ids, hour) = pure tt
  record_admitted r id (fresh, ids, hour) = do
    append_line r
    modify (λ s. record s { limits = put r.device (hour, id ∷ ids) s.limits })

  unfoldable pub store_support : Cleaned → String → Exec (Collector E) (Unit {0})
  unfolding admit_support record_admitted
  store_support r id = do found ← admit_support r.device id; record_admitted r id found

  unfoldable pub store_record : Cleaned → Exec (Collector E) (Unit {0})
  unfolding now prune store_support append_line
  store_record r = do
    received ← now
    prune
    if r.event == "support_bundle"
        then (do id ← or_raise r.report_id key_error; store_support r id)
        else append_line r
