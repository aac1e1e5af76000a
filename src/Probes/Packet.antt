-- ===== src/Probes/Packet.antt =====
-- `ProbeSessions` of server/packet_probe.py. Each method holds the lock, so it runs alone. Bytes
-- are lists of numbers; `mac` is `hmac.digest(key, message, 'sha256')`, a parameter; the clock is
-- read in whole ticks, `second` of them in a second.
pub mod Answers
pub mod Counts
use evgenium_network_linux.Prelude.{
  nat_eq, bytes_eq, string_eq, option_eq, Bool, Dict, List, Option, Result, String, ℕ, [], contains,
  count_if, drop, err, get, if◌then◌else◌, keep, key_error, leb, length, ltb, map, none, not, ok,
  put, some, suc, take, value_error, values, zero, ◌&&◌, ◌*◌, ◌++◌, ◌+◌, ◌-◌, ◌/◌, ◌==◌, ◌||◌, ◌∷◌,
}

abbrev pub Bytes : Type 0
Bytes = List ℕ

abbrev pub sizes : List ℕ
sizes = 128 ∷ 512 ∷ 1200 ∷ []

pub record Case : Type 0 where
  pub seen : List ℕ
  pub received : ℕ
  pub duplicates : ℕ
  pub replies : ℕ

pub record Session : Type 0 where
  pub key : Bytes
  pub owner : Bytes
  pub peer : String
  pub expires : ℕ
  pub cases : List Case

abbrev pub Sessions : Type 0
Sessions = Dict Bytes Session

-- what `handle` returns for a valid probe
pub record Reply : Type 0 where
  pub session : Bytes
  pub case_index : ℕ
  pub payload : Bytes

abbrev pub fresh_case : Case
fresh_case = record { seen = []; received = 0; duplicates = 0; replies = 0 }

abbrev fresh_cases : List Case
fresh_cases = fresh_case ∷ fresh_case ∷ fresh_case ∷ fresh_case ∷ fresh_case ∷ fresh_case ∷ []

abbrev pub nth {ℓ} : {A : Type ℓ} → ℕ → List A → Option A
nth n [] = none
nth zero (x ∷ xs) = some x
nth (suc n) (x ∷ xs) = nth n xs

abbrev pub update {ℓ} : {A : Type ℓ} → ℕ → (A → A) → List A → List A
update n f [] = []
update zero f (x ∷ xs) = f x ∷ xs
update (suc n) f (x ∷ xs) = x ∷ update n f xs

-- `struct.unpack('!I', ...)`
abbrev number_from : ℕ → Bytes → ℕ
number_from n [] = n
number_from n (b ∷ bs) = number_from (n * 256 + b) bs

abbrev pub magic : Bytes
magic = b'E' ∷ b'V' ∷ b'P' ∷ b'1' ∷ []

abbrev pub reply_magic : Bytes
reply_magic = b'E' ∷ b'V' ∷ b'P' ∷ b'2' ∷ []

abbrev pub session_of : Bytes → Bytes
session_of data_ = take 16 (drop 4 data_)

abbrev pub sequence_of : Bytes → ℕ
sequence_of data_ = number_from 0 (take 4 (drop 20 data_))

-- the checks before the lock
unfoldable pub is_probe : Bytes → Bool
is_probe data_ =
    contains sizes (length data_)
    && take 4 data_ == magic
    && ltb (sequence_of data_) 120
    && nth (sequence_of data_ / 40) sizes == some (length data_)

-- `v['owner'] == owner`
abbrev pub owned_by : Bytes → Session → Bool
owned_by owner s = s.owner == owner

abbrev pub live : ℕ → Sessions → Sessions
live now s = keep (λ e. ltb now e.1.expires) s

-- the counters of one case at one more packet
abbrev pub count_packet : ℕ → Case → Case
count_packet seq c = record c {
  received = c.received + 1;
  duplicates = if contains c.seen seq then c.duplicates + 1 else c.duplicates;
  seen = if contains c.seen seq then c.seen else seq ∷ c.seen;
}

module _ (second : ℕ) (mac : Bytes → Bytes → Bytes) where
  -- `sid` and `key` are the two reads of `secrets.token_bytes`
  unfoldable pub issue : Bytes → String → ℕ → Bytes → Bytes → Sessions → Result Bytes × Sessions
  issue owner peer now sid key sessions =
      let kept = live now sessions in
      if leb 128 (length kept) || leb 8 (count_if (owned_by owner) (values kept))
      then (err (value_error "probe_capacity"), kept)
      else (
        ok sid,
        put sid
            (record {
              key = key;
              owner = owner;
              peer = peer;
              expires = now + 120 * second;
              cases = fresh_cases;
            })
            kept,
      )

  unfoldable pub is_signed : Bytes → Bytes → Bool
  is_signed key data_ = drop (length data_ - 32) data_ == mac key (take (length data_ - 32) data_)

  unfoldable pub reply_to : Bytes → Bytes → Bytes
  reply_to key data_ =
      let body = reply_magic ++ take (length data_ - 36) (drop 4 data_) in body ++ mac key body

  -- a packet of a session that may answer; a list of cases that is too short raises
  unfoldable pub respond : Bytes → Session → Sessions → Result (Option Reply) × Sessions
  unfolding reply_to
  respond data_ s sessions =
      let seq = sequence_of data_ in
      elim (nth (seq / 20) s.cases) [
        | none ↦ (err key_error, sessions)
        | some c ↦ if leb 40 c.received then (ok none, sessions) else (
          ok (
              some (record {
                session = session_of data_;
                case_index = seq / 20;
                payload = reply_to s.key data_;
              })),
          put (session_of data_) (record s { cases = update (seq / 20) (count_packet seq) s.cases })
              sessions,
        )
      ]

  unfoldable pub handle : Bytes → String → ℕ → Sessions → Result (Option Reply) × Sessions
  unfolding is_probe is_signed respond
  handle data_ peer now sessions =
      if not (is_probe data_) then (ok none, sessions) else elim (get (session_of data_) sessions) [
        | none ↦ (ok none, sessions)
        | some s ↦
            if leb s.expires now || not (s.peer == peer) || not (is_signed s.key data_)
            then (ok none, sessions)
            else respond data_ s sessions
      ]

-- after a reply was sent
unfoldable pub replied : Bytes → ℕ → Sessions → Sessions
replied sid index sessions = elim (get sid sessions) [
  | none ↦ sessions
  | some s ↦
      put sid
        (record s { cases = update index (λ c. record c { replies = c.replies + 1 }) s.cases })
        sessions
]

-- received, duplicates and replies of one case, as the client gets them
abbrev pub summary : Case → ℕ × ℕ × ℕ
summary c = (length c.seen, c.duplicates, c.replies)

-- `sid` is the text of the request, decoded
unfoldable pub result : Bytes → Bytes → ℕ → Sessions → Result (List (ℕ × ℕ × ℕ))
result sid owner now sessions = elim (get sid sessions) [
  | none ↦ err (value_error "probe_session")
  | some s ↦
      if leb s.expires now || not (s.owner == owner)
      then err (value_error "probe_session")
      else ok (map summary s.cases)
]
