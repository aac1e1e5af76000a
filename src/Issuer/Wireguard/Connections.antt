-- ===== src/Issuer/Wireguard/Connections.antt =====
-- `connections` of server/wireguard_backend.py: the peers with their handshakes and counters. The
-- fields of an item that are constants are left out.
pub mod Listed
use evgenium_network_linux.Prelude.{
  nat_eq, string_eq, Bool, Dict, Error, Exec, List, Option, Result, String, [], err, false, get_or,
  if◌then◌else◌, leb, lift, raise, ltb, none, ok, pure, put, runtime_error, some, value_error,
  words, ℕ, ◌&&◌, ◌-◌, ◌==◌, ◌∷◌, true, ◌>>=◌, ◌>>◌, os_error, permission_error, timeout_error,
  timeout_expired, ◌<>◌,
}
use evgenium_network_linux.Issuer.Host.{Host, World, now}
use evgenium_network_linux.Issuer.Wireguard.Key.{public_key}
use evgenium_network_linux.Issuer.Wireguard.Peers.{config, command}

-- `str.splitlines`, and `int` of a text of digits
pub record Texts : Type 0 where
  pub lines : String → List String
  pub int_of : String → Result ℕ

pub record Connection : Type 0 where
  pub identity : String
  pub state : String
  pub handshake_at : Option ℕ
  pub bytes_in : ℕ
  pub bytes_out : ℕ

pub record Listing : Type 0 where
  pub available : Bool
  pub items : List Connection
  pub sampled_at : ℕ

abbrev pub show : String → String → List String
show interface what = "wg" ∷ "show" ∷ interface ∷ what ∷ []

-- `timestamp or None`
abbrev pub seen_at : ℕ → Option ℕ
seen_at timestamp = if timestamp == 0 then none else some timestamp

unfoldable pub connection : String → ℕ → ℕ → ℕ × ℕ → Connection
connection key time timestamp counted = record {
  identity = "wg:" <> key;
  state =
      if ltb 0 timestamp && leb timestamp time && leb (time - timestamp) 180
      then "ESTABLISHED"
      else "IDLE";
  handshake_at = seen_at timestamp;
  bytes_in = counted.0;
  bytes_out = counted.1;
}

-- the exceptions that `connections` answers
unfoldable pub is_expected : Error → Bool
is_expected (value_error m) = true
is_expected (permission_error m) = true
is_expected (runtime_error m) = true
is_expected os_error = true
is_expected timeout_error = true
is_expected timeout_expired = true
is_expected _ = false

module _ (texts : Texts) {S : Type 0} where
  -- one line of `wg show ... transfer`
  unfoldable pub read_counters : List String → Exec S (String × (ℕ × ℕ))
  read_counters (key ∷ received ∷ sent ∷ []) = do
    bytes_in ← lift (texts.int_of received)
    bytes_out ← lift (texts.int_of sent)
    checked ← lift (public_key (some key))
    pure (checked, (bytes_in, bytes_out))
  read_counters _ = raise (value_error "unpack")

  pub traffic_of : List String → Dict String (ℕ × ℕ) → Exec S (Dict String (ℕ × ℕ))
  unfolding read_counters
  traffic_of [] traffic = pure traffic
  traffic_of (row ∷ rows) traffic = do
    found ← read_counters (words row)
    traffic_of rows (put found.0 found.1 traffic)

  -- one line of `wg show ... latest-handshakes`
  unfoldable pub read_handshake : ℕ → Dict String (ℕ × ℕ) → List String → Exec S Connection
  unfolding connection
  read_handshake time traffic (key ∷ timestamp ∷ []) = do
    checked ← lift (public_key (some key))
    at ← lift (texts.int_of timestamp)
    pure (connection checked time at (get_or checked (0, 0) traffic))
  read_handshake time traffic _ = raise (value_error "unpack")

  unfoldable pub items_of : ℕ → Dict String (ℕ × ℕ) → List String → Exec S (List Connection)
  unfolding read_handshake
  items_of time traffic [] = pure []
  items_of time traffic (row ∷ rows) = do
    item ← read_handshake time traffic (words row)
    rest ← items_of time traffic rows
    pure (item ∷ rest)

module _ (texts : Texts) {E : Type 0} (host : Host E) where
  -- the listing at a moment, from the lines of the handshakes
  unfoldable pub listing_at : Dict String (ℕ × ℕ) → List String → ℕ → Exec (World E) Listing
  unfolding items_of
  listing_at traffic rows time = do
    items ← items_of texts time traffic rows
    pure (record { available = true; items = items; sampled_at = time })

  -- the `try` block
  unfoldable pub sample : Exec (World E) Listing
  unfolding config traffic_of now listing_at
  sample = do
    cfg ← config host
    handshake ← command host (show cfg.interface "latest-handshakes")
    transfer ← command host (show cfg.interface "transfer")
    traffic ← traffic_of texts (texts.lines transfer) []
    time ← now host
    listing_at traffic (texts.lines handshake) time

  abbrev pub unavailable : Exec (World E) Listing
  unavailable = do
    time ← now host
    pure (record { available = false; items = []; sampled_at = time })

  abbrev pub answer_sample : Result Listing × World E → Result Listing × World E
  answer_sample (ok l, w) = (ok l, w)
  answer_sample (err e, w) = if is_expected e then unavailable w else (err e, w)

  unfoldable pub connections : Exec (World E) Listing
  unfolding sample
  connections w = answer_sample (sample w)
