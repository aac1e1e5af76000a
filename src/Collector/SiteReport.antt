-- ===== src/Collector/SiteReport.antt =====
-- The last branch of `clean_report` of server/diagnostic_collector.py: reports on web sites.
pub mod Fits
use Prim.Native.String.{count}
use Prim.Native.Char.{code}
use evgenium_network_linux.Prelude.{
  nat_eq, string_eq, Bool, err, [], Exec, List, Result, String, all, all_chars, if◌then◌else◌,
  includes, is_digit, leb, lift, not, ok, pure, raise, raise_if, split, value_error, ℕ, ◌&&◌, ◌==◌,
  ◌>>=◌, ◌>>◌, ◌||◌, ◌∷◌, min,
}
use evgenium_network_linux.Prelude.Json.{Json, Fields, Items}
use evgenium_network_linux.Collector.Report.{Report, get_field, is_true, in_tuple}
use evgenium_network_linux.Collector.GlobalReport.{count_items, is_release}

pub record SiteReport : Type 0 where
  pub head : Report
  pub probes : List Report

pub data Whole : Type 0 where
  natural : ℕ → Whole
  below_zero : Whole

-- `int(value)` of a value of `json.loads`, which may raise, and whether `ipaddress.ip_address`
-- takes a text
pub record Reader : Type 0 where
  pub int_of : Json → Result Whole
  pub is_address : String → Bool

-- `max(0, min(top, n))`
pub clamp : ℕ → Whole → ℕ
clamp top (natural n) = min top n
clamp top below_zero = 0

-- `[a-z0-9]` and `[a-z0-9.-]`
abbrev pub is_label_char : ℕ → Bool
is_label_char c = leb b'a' c && leb c b'z' || is_digit c

abbrev pub is_domain_char : ℕ → Bool
is_domain_char c = is_label_char c || c == b'.' || c == b'-'

-- the first and the last character
abbrev pub first_char : String → ℕ
first_char String.[] = 0
first_char (String.◌∷◌ c s) = code c

pub last_char : String → ℕ
last_char String.[] = 0
last_char (String.◌∷◌ c String.[]) = code c
last_char (String.◌∷◌ c s) = last_char s

-- `[a-z0-9](?:[a-z0-9.-]*[a-z0-9])?`
pub is_domain_text : String → Bool
unfolding last_char
is_domain_text s =
    all_chars is_domain_char s && is_label_char (first_char s) && is_label_char (last_char s)

-- a part of the name between dots
pub is_label : String → Bool
unfolding last_char
is_label x =
    not (x == "") && leb (count x) 63 && not (first_char x == b'-') && not (last_char x == b'-')

unfoldable pub is_domain : String → Bool
unfolding is_domain_text is_label
is_domain name =
    leb (count name) 253
    && is_domain_text name
    && includes "." name
    && all is_label (split b'.' name)

pub checked_domain : Reader → Json → Result String
unfolding is_domain
checked_domain reader (Json.string name) =
    if not (is_domain name)
    then err (value_error "domain")
    else if reader.is_address name
    then err (value_error "ip")
    else ok name
checked_domain reader _ = err (value_error "domain")

-- `isinstance(probes, list) and 1 <= len(probes) <= 8`
abbrev pub checked_probes : Json → Result Items
checked_probes (Json.array items) =
    if leb 1 (count_items items) && leb (count_items items) 8
    then ok items
    else err (value_error "probes")
checked_probes _ = err (value_error "probes")

abbrev pub kept_sites : Fields → List Report → SiteReport
kept_sites body probes = record {
  head =
      ("schema", Json.int 1)
      ∷ ("event", get_field "event" Json.null body)
      ∷ ("manager", get_field "manager" (Json.string "") body)
      ∷ [];
  probes = probes;
}

module _ {S : Type 0} (reader : Reader) where
  pub clean_probe : Json → Exec S Report
  unfolding checked_domain clamp
  clean_probe (Json.object entry) = do
    name ← lift (checked_domain reader (get_field "domain" (Json.string "") entry))
    latency ← lift (reader.int_of (get_field "latency_ms" (Json.int 0) entry))
    status ← lift (reader.int_of (get_field "http_status" (Json.int 0) entry))
    pure (
        ("domain", Json.string name)
        ∷ ("ok", Json.boolean (is_true (get_field "ok" Json.null entry)))
        ∷ ("latency_ms", Json.int (clamp 120000 latency))
        ∷ ("http_status", Json.int (clamp 599 status))
        ∷ [])
  clean_probe _ = raise (value_error "probe")

  pub clean_probes : Items → Exec S (List Report)
  unfolding clean_probe
  clean_probes Items.no_items = pure []
  clean_probes (Items.item j items) = do
    row ← clean_probe j
    rest ← clean_probes items
    pure (row ∷ rest)

  unfoldable pub clean_sites : Fields → Exec S SiteReport
  unfolding clean_probes is_release in_tuple
  clean_sites body = do
    let event = get_field "event" Json.null body
    raise_if (not (in_tuple ("sample" ∷ "site_report" ∷ []) event)) (value_error "event")
    items ← lift (checked_probes (get_field "probes" Json.null body))
    probes ← clean_probes items
    let version = get_field "manager" (Json.string "") body
    raise_if (not (is_release version)) (value_error "version")
    pure (kept_sites body probes)
