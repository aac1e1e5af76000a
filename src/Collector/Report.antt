-- ===== src/Collector/Report.antt =====
-- What server/diagnostic_collector.py keeps of a report: the branch of `clean_report` for a
-- connection diagnostic, and the tests that it shares with `clean_global_report`.
pub mod Fits
use Prim.Native.String.{count}
use evgenium_network_linux.Prelude.{
  nat_eq, string_eq, Bool, none, err, [], Error, Exec, List, Result, String, any, contains, false,
  is_hex, is_name_char, leb, lift, matches_class, not, ok, pure, raise_if, some, str, strip_prefix,
  true, type_error, value_error, value_or, ℕ, ◌&&◌, ◌<>◌, ◌==◌, ◌>>=◌, ◌>>◌, ◌||◌, ◌∷◌, all_chars,
}
use evgenium_network_linux.Prelude.Json.{Json, Fields, Items, find_field}

abbrev pub Report : Type 0
Report = List (String × Json)

abbrev pub stages : List String
stages =
    "prepare" ∷ "daemon" ∷ "credentials" ∷ "guard" ∷ "handshake" ∷ "dns" ∷ "health" ∷ "connected"
    ∷ "disconnected" ∷ "manual" ∷ []

abbrev pub errors : List String
errors =
    "none" ∷ "certificate" ∷ "tls" ∷ "authentication" ∷ "proposal" ∷ "permission" ∷ "timeout"
    ∷ "network" ∷ "other" ∷ "kernel_ipsec_unavailable" ∷ []

abbrev pub platforms : List String
platforms = "steamos" ∷ "arch" ∷ "fedora" ∷ "other" ∷ []

abbrev pub backends : List String
backends = "kernel" ∷ "userspace" ∷ []

abbrev pub delivery_stages : List String
delivery_stages = "credentials" ∷ "route" ∷ "tcp" ∷ "tls" ∷ "http" ∷ []

abbrev pub delivery_causes : List String
delivery_causes =
    "certificate" ∷ "tls" ∷ "authentication" ∷ "proposal" ∷ "permission" ∷ "timeout" ∷ "network"
    ∷ "other" ∷ "disabled" ∷ "invalid_report" ∷ "rejected" ∷ "ack_mismatch" ∷ []

-- `(stage)_(cause)`
pub is_delivery_error : String → Bool
is_delivery_error s =
    any
      (λ stage. elim (strip_prefix (stage <> "_") s) [
        | none ↦ false
        | some cause ↦ contains delivery_causes cause
      ])
      delivery_stages

-- `[0-9A-Za-z._+-]{1,32}`
pub is_version : String → Bool
is_version s =
    leb 1 (count s)
    && leb (count s) 32
    && all_chars (λ c. is_name_char c || c == b'.' || c == b'+') s

-- `value in {...}` of texts; a list or a dict cannot be hashed
unfoldable pub in_set : List String → Json → Result Bool
in_set xs (Json.string s) = ok (contains xs s)
in_set xs (Json.array items) = err type_error
in_set xs (Json.object pairs) = err type_error
in_set xs _ = ok false

-- `value in (...)`, which compares
unfoldable pub in_tuple : List String → Json → Bool
in_tuple xs (Json.string s) = contains xs s
in_tuple xs _ = false

-- `type(value) is int and 0 <= value <= top`
unfoldable pub is_up_to : ℕ → Json → Bool
is_up_to top (Json.int n) = leb n top
is_up_to top _ = false

-- What Python does with a value of `json.loads`: its text by `str`, and whether a float is zero.
pub record Python : Type 0 where
  pub str : Json → String
  pub is_zero : String → Bool

-- the truth of a value
pub is_truthy : Python → Json → Bool
is_truthy py Json.null = false
is_truthy py (Json.boolean b) = b
is_truthy py (Json.int n) = not (n == 0)
is_truthy py (Json.float f) = not (py.is_zero f)
is_truthy py (Json.string s) = not (s == "")
is_truthy py (Json.array Items.no_items) = false
is_truthy py (Json.object Fields.no_fields) = false
is_truthy py _ = true

-- `body.get(key, default)` and `body.get(key)`
abbrev pub get_field : String → Json → Fields → Json
get_field key default body = value_or default (find_field key body)

-- `body.get(key) is True`
unfoldable pub is_true : Json → Bool
is_true (Json.boolean b) = b
is_true _ = false

-- what is returned of a connection diagnostic that passed every check
abbrev pub kept_connection : Python → Fields → Report
kept_connection py body =
    ("schema", Json.int 1)
    ∷ ("event", Json.string "connection_diagnostic")
    ∷ ("manager", Json.string (py.str (get_field "manager" (Json.string "") body)))
    ∷ ("report_id", get_field "report_id" (Json.string "") body)
    ∷ ("stage", get_field "stage" Json.null body)
    ∷ ("error", get_field "error" Json.null body)
    ∷ ("elapsed_ms", get_field "elapsed_ms" Json.null body)
    ∷ ("guard", Json.boolean (is_true (get_field "guard" Json.null body)))
    ∷ ("ipsec", Json.boolean (is_true (get_field "ipsec" Json.null body)))
    ∷ ("ike_received", get_field "ike_received" (Json.int 0) body)
    ∷ ("ike_sent", get_field "ike_sent" (Json.int 0) body)
    ∷ ("retransmits", get_field "retransmits" (Json.int 0) body)
    ∷ ("platform", get_field "platform" (Json.string "other") body)
    ∷ ("ipsec_backend", get_field "ipsec_backend" (Json.string "kernel") body)
    ∷ ("time", get_field "time" (Json.int 0) body)
    ∷ ("previous_delivery_error", get_field "previous_delivery_error" (Json.string "") body)
    ∷ []

module _ {S : Type 0} (py : Python) where
  unfoldable pub check_set : List String → Json → Error → Exec S (Unit {0})
  unfolding in_set
  check_set xs v e = do found ← lift (in_set xs v); raise_if (not found) e

  -- a value that is falsy, or a text of the form
  unfoldable pub check_delivery : Json → Exec S (Unit {0})
  unfolding is_truthy is_delivery_error
  check_delivery v =
      raise_if (is_truthy py v && not (is_delivery_error (py.str v))) (value_error "delivery_error")

  unfoldable pub clean_connection : Fields → Exec S Report
  unfolding check_set check_delivery is_version is_up_to in_tuple
  clean_connection body = do
    let stage = get_field "stage" Json.null body
    let error = get_field "error" Json.null body
    check_set stages stage (value_error "category")
    check_set errors error (value_error "category")
    let report_id = get_field "report_id" (Json.string "") body
    raise_if (not (matches_class is_hex 32 (py.str report_id))) (value_error "report_id")
    let elapsed = get_field "elapsed_ms" Json.null body
    raise_if (not (is_up_to 1800000 elapsed)) (value_error "elapsed")
    let version = py.str (get_field "manager" (Json.string "") body)
    raise_if (not (is_version version)) (value_error "manager")
    let received = get_field "ike_received" (Json.int 0) body
    raise_if (not (is_up_to 1000 received)) (value_error "counter")
    let sent = get_field "ike_sent" (Json.int 0) body
    raise_if (not (is_up_to 1000 sent)) (value_error "counter")
    let retransmits = get_field "retransmits" (Json.int 0) body
    raise_if (not (is_up_to 1000 retransmits)) (value_error "counter")
    let platform = get_field "platform" (Json.string "other") body
    check_set platforms platform (value_error "platform")
    let backend = get_field "ipsec_backend" (Json.string "kernel") body
    raise_if (not (in_tuple backends backend)) (value_error "backend")
    let stamp = get_field "time" (Json.int 0) body
    raise_if (not (is_up_to 4102444800 stamp)) (value_error "time")
    let previous = get_field "previous_delivery_error" (Json.string "") body
    check_delivery previous
    pure (kept_connection py body)
