-- ===== src/Collector/GlobalReport.antt =====
-- `clean_global_report` of server/diagnostic_collector.py: what is kept of a report of the global
-- test.
pub mod Fits
use Prim.Native.String.{count}
use evgenium_network_linux.Prelude.{
  nat_eq, string_eq, Bool, none, err, [], Error, Exec, List, Result, String, all_chars, false,
  if◌then◌else◌, is_digit, is_hex, leb, lift, matches_class, not, ok, pure, raise, raise_if, some,
  suc, value_error, ℕ, ◌&&◌, ◌++◌, ◌==◌, ◌>>=◌, ◌>>◌, ◌||◌, ◌∷◌,
}
use evgenium_network_linux.Prelude.Json.{Json, Fields, Items, find_field}
use evgenium_network_linux.Collector.Report.{
  Report, Python, check_delivery, check_set, get_field, in_set, in_tuple, is_true, is_up_to,
}

abbrev pub test_kinds : List String
test_kinds =
    "health" ∷ "ping" ∷ "download" ∷ "upload" ∷ "resume" ∷ "parallel" ∷ "idle" ∷ "reconnect"
    ∷ "daemon_restart" ∷ "guard" ∷ "ru_probe" ∷ "server_control" ∷ "counters" ∷ []

abbrev pub test_outcomes : List String
test_outcomes = "completed" ∷ "failed" ∷ "cancelled" ∷ []

abbrev pub ru_domains : List String
ru_domains = "yandex.ru" ∷ "mail.ru" ∷ "www.rt.ru" ∷ []

abbrev pub item_errors : List String
item_errors = "other" ∷ "http" ∷ "timeout" ∷ "tls" ∷ "network" ∷ []

abbrev pub test_metrics : List String
test_metrics =
    "bytes" ∷ "received_bytes" ∷ "elapsed_ms" ∷ "mbps_milli" ∷ "sent" ∷ "received" ∷ "loss_milli"
    ∷ "rtt_min_us" ∷ "rtt_avg_us" ∷ "rtt_max_us" ∷ "rtt_mdev_us" ∷ "http_status" ∷ "latency_ms"
    ∷ "offset" ∷ "attempt" ∷ "size" ∷ "packets_in" ∷ "packets_out" ∷ "bytes_in" ∷ "bytes_out"
    ∷ "load1" ∷ "cpu_total_ticks" ∷ "cpu_idle_ticks" ∷ "memory_available_kb" ∷ "rx_bytes"
    ∷ "rx_errors" ∷ "rx_dropped" ∷ "tx_bytes" ∷ "tx_errors" ∷ "tx_dropped" ∷ "retrans_segments"
    ∷ "out_segments" ∷ "timeouts" ∷ "xfrm_errors" ∷ "duration_ms" ∷ "at_ms" ∷ []

abbrev pub metric_top : ℕ
metric_top = 1000000000000000000

-- `[0-9.]{1,20}` and `[a-f0-9]{24}`, of a value that is a text
unfoldable pub is_release : Json → Bool
is_release (Json.string s) =
    leb 1 (count s) && leb (count s) 20 && all_chars (λ c. is_digit c || c == b'.') s
is_release _ = false

pub is_run : Json → Bool
is_run (Json.string s) = matches_class is_hex 24 s
is_run _ = false

-- a global report: its own keys, and its records
pub record GlobalReport : Type 0 where
  pub head : Report
  pub records : List Report

pub clean_integrity : Fields → Report
unfolding is_true
clean_integrity entry = elim (find_field "integrity" entry) [
  | none ↦ []
  | some value ↦ ("integrity", Json.boolean (is_true value)) ∷ []
]

abbrev pub count_items : Items → ℕ
count_items Items.no_items = 0
count_items (Items.item j items) = suc (count_items items)

-- `isinstance(records, list) and len(records) <= 256`
pub checked_records : Json → Result Items
checked_records (Json.array items) =
    if leb (count_items items) 256 then ok items else err (value_error "records")
checked_records _ = err (value_error "records")

module _ {S : Type 0} where
  -- the loop over TEST_METRICS, whose order Python leaves open
  pub clean_metrics : List String → Fields → Exec S Report
  unfolding is_up_to
  clean_metrics [] entry = pure []
  clean_metrics (key ∷ more) entry = elim (find_field key entry) [
    | none ↦ clean_metrics more entry
    | some value ↦ do
      raise_if (not (is_up_to metric_top value)) (value_error "metric")
      rest ← clean_metrics more entry
      pure ((key, value) ∷ rest)
  ]

  -- `if key in entry: if entry[key] not in values: raise`
  pub clean_choice : String → Error → (Json → Result Bool) → Fields → Exec S Report
  clean_choice key e allowed entry = elim (find_field key entry) [
    | none ↦ pure []
    | some value ↦ do found ← lift (allowed value); raise_if (not found) e; pure ((key, value) ∷ [])
  ]

  pub clean_item : Json → Exec S Report
  unfolding in_set in_tuple is_true clean_metrics clean_choice clean_integrity
  clean_item (Json.object entry) = do
    let kind = get_field "kind" Json.null entry
    known ← lift (in_set test_kinds kind)
    raise_if (not known) (value_error "kind")
    domain ← clean_choice "domain" (value_error "domain") (λ v. ok (in_tuple ru_domains v)) entry
    metrics ← clean_metrics test_metrics entry
    error ← clean_choice "error" (value_error "error") (in_set item_errors) entry
    pure (
        ("kind", kind)
        ∷ ("ok", Json.boolean (is_true (get_field "ok" Json.null entry)))
        ∷ (domain ++ (metrics ++ (error ++ clean_integrity entry))))
  clean_item _ = raise (value_error "kind")

  pub clean_items : Items → Exec S (List Report)
  unfolding clean_item
  clean_items Items.no_items = pure []
  clean_items (Items.item j items) = do
    row ← clean_item j
    rest ← clean_items items
    pure (row ∷ rest)

abbrev pub kept_global : Fields → List Report → GlobalReport
kept_global body records = record {
  head =
      ("schema", Json.int 1)
      ∷ ("event", Json.string "global_test")
      ∷ ("manager", get_field "manager" (Json.string "") body)
      ∷ ("run", get_field "run" (Json.string "") body)
      ∷ ("outcome", get_field "outcome" Json.null body)
      ∷ ("duration_ms", get_field "duration_ms" (Json.int 0) body)
      ∷ ("previous_delivery_error", get_field "previous_delivery_error" (Json.string "") body)
      ∷ [];
  records = records;
}

module _ {S : Type 0} (py : Python) where
  unfoldable pub clean_global_report : Fields → Exec S GlobalReport
  unfolding check_set check_delivery is_release is_run is_up_to checked_records clean_items
  clean_global_report body = do
    let version = get_field "manager" (Json.string "") body
    let run = get_field "run" (Json.string "") body
    raise_if (not (is_release version)) (value_error "version")
    raise_if (not (is_run run)) (value_error "run")
    let outcome = get_field "outcome" Json.null body
    check_set py test_outcomes outcome (value_error "outcome")
    items ← lift (checked_records (get_field "records" Json.null body))
    records ← clean_items items
    let duration = get_field "duration_ms" (Json.int 0) body
    raise_if (not (is_up_to 1800000 duration)) (value_error "duration")
    let previous = get_field "previous_delivery_error" (Json.string "") body
    check_delivery py previous
    pure (kept_global body records)
