-- ===== src/Tests/Collecting.antt =====
-- A range of a small blob, and the least of the reports that the collector accepts.
use evgenium_network_linux.Prelude.{
  nat_eq, string_eq, [], All, List, arith, drop_while, false, length, refl, some, strip_prefix,
  take_while, ℕ, ◌++◌, ◌+◌, ◌==◌, ◌∷◌, ◌≡◌, ◌≤◌, is_name_char, matches_class, none, true, ok, err,
  type_error, split, includes,
}
use evgenium_network_linux.Prelude.Json.{Json, Fields, Items, find_field}
use evgenium_network_linux.Collector.SiteReport.{
  Reader, SiteReport, natural, kept_sites, clean_sites, is_domain,
}
use evgenium_network_linux.Collector.SiteReport.Fits.{
  sites_schema, probe_schema, clean_sites-Conforms,
}
use evgenium_network_linux.Collector.Store.{Disk, Collector, Cleaned, store_record}
use evgenium_network_linux.Collector.Store.Limits.{IsLimited, store_record-IsLimited}
use evgenium_network_linux.Collector.Blob.{blob_range, blob_chunks, max_blob}
use evgenium_network_linux.Collector.Blob.Chunks.{blob, concat}
use evgenium_network_linux.Collector.Blob.Range.{blob_range-slice}
use evgenium_network_linux.Collector.Report.{is_true, Python, clean_connection, kept_connection}
use evgenium_network_linux.Collector.Report.Fits.{
  Conforms, clean_connection-Conforms, connection_schema,
}
use evgenium_network_linux.Collector.GlobalReport.{GlobalReport, clean_global_report, kept_global}
use evgenium_network_linux.Collector.GlobalReport.Fits.{
  Admitted, clean_global_report-Conforms, head_schema,
}

abbrev block : List ℕ
block = 10 ∷ 20 ∷ 30 ∷ []

blob_range-slice_example :
    (chunks : List (List ℕ)) × (before after : List ℕ) × (blob_chunks block 5 4 2 ≡ some chunks)
    × (blob block 9 0 ≡ before ++ (concat chunks ++ after))
    × (length before ≡ 2)
    × (length (concat chunks) ≡ 4)
    × (1 ≤ 4)
    × (2 + 4 ≤ 9)
    × (9 ≤ max_blob)
unfolding blob_range strip_prefix take_while drop_while
blob_range-slice_example = blob_range-slice block 9 "bytes=2-5" 2 4 (omega arith) refl

abbrev python : Python
python = record { str = λ v. elim v [ Json.string s ↦ s | _ ↦ "?" ]; is_zero = λ s. s == "0.0" }

abbrev connection_body : Fields
connection_body = Fields.field "report_id" (Json.string "0123456789abcdef0123456789abcdef") (
    Fields.field "stage" (Json.string "dns") (
      Fields.field "error" (Json.string "none") (
        Fields.field "elapsed_ms" (Json.int 1500) (
          Fields.field "manager" (Json.string "1.2")
            (Fields.field "secret" (Json.string "dropped") Fields.no_fields)))))

clean_connection-Conforms_example :
    Conforms (connection_schema python) (kept_connection python connection_body) × ◌≡◌ {A = ℕ} 0 0
unfolding clean_connection find_field matches_class is_name_char
clean_connection-Conforms_example =
    clean_connection-Conforms {S = ℕ} python connection_body 0 0
      (kept_connection python connection_body) refl

abbrev ping : Json
ping = Json.object (
    Fields.field "kind" (Json.string "ping") (
      Fields.field "sent" (Json.int 3)
        (Fields.field "ssid" (Json.string "dropped") Fields.no_fields)))

abbrev global_body : Fields
global_body = Fields.field "manager" (Json.string "1.2") (
    Fields.field "run" (Json.string "0123456789abcdef01234567") (
      Fields.field "outcome" (Json.string "completed")
        (Fields.field "records" (Json.array (Items.item ping Items.no_items)) Fields.no_fields)))

abbrev global_report : GlobalReport
global_report =
    kept_global global_body
      ((("kind", Json.string "ping") ∷ ("ok", Json.boolean false) ∷ ("sent", Json.int 3) ∷ []) ∷ [])

clean_global_report-Conforms_example :
    Conforms (head_schema python) global_report.head
    × All (All Admitted) global_report.records
    × (length global_report.records ≤ 256)
unfolding clean_global_report find_field matches_class
clean_global_report-Conforms_example =
    clean_global_report-Conforms {S = ℕ} python global_body 0 0 global_report refl

abbrev reader : Reader
reader = record {
  int_of = λ v. elim v [ Json.int n ↦ ok (natural n) | _ ↦ err type_error ];
  is_address = λ s. s == "1.1.1.1";
}

abbrev site_probe : Json
site_probe = Json.object (
    Fields.field "domain" (Json.string "a.ru") (
      Fields.field "latency_ms" (Json.int 130000)
        (Fields.field "path" (Json.string "dropped") Fields.no_fields)))

abbrev sites_body : Fields
sites_body = Fields.field "event" (Json.string "sample") (
    Fields.field "manager" (Json.string "1.2")
      (Fields.field "probes" (Json.array (Items.item site_probe Items.no_items)) Fields.no_fields))

abbrev site_report : SiteReport
site_report = kept_sites sites_body (
    (("domain", Json.string "a.ru")
      ∷ ("ok", Json.boolean false)
      ∷ ("latency_ms", Json.int 120000)
      ∷ ("http_status", Json.int 0)
      ∷ [])
    ∷ [])

clean_sites-Conforms_example :
    Conforms sites_schema site_report.head
    × All (Conforms (probe_schema reader)) site_report.probes
    × (1 ≤ length site_report.probes)
    × (length site_report.probes ≤ 8)
unfolding clean_sites is_domain is_true find_field matches_class split includes
clean_sites-Conforms_example = clean_sites-Conforms {S = ℕ} reader sites_body 0 0 site_report refl

-- the clock is the machine, and each reading is a second later
abbrev disk : Disk ℕ
disk = record {
  second = 1;
  time = λ t. (t, t + 1);
  append = λ name t. (true, t);
  day_start = λ stem. none;
  log_name = λ t. "2026-01-01";
  line_size = λ r. 100;
}

abbrev bundle : Cleaned
bundle = record { event = "support_bundle"; device = "d1"; report_id = some "r2" }

abbrev collector : Collector ℕ
collector = record { env = 7200; limits = ("d1", (2, "r1" ∷ [])) ∷ ("d2", (1, [])) ∷ []; logs = [] }

store_record-IsLimited_example : IsLimited (store_record disk bundle collector).1
store_record-IsLimited_example =
    store_record-IsLimited disk bundle collector
      (record { devices = omega arith; ids = (omega arith, (omega arith, tt)) })

-- it is stored, and its id is kept beside the other of that hour
stored_bundle : (store_record disk bundle collector).1.limits ≡ ("d1", (2, "r2" ∷ "r1" ∷ [])) ∷ []
unfolding store_record
stored_bundle = refl
