-- ===== src/Probes/Packet/Counts.antt =====
-- The counters and the capacity of `ProbeSessions` (server/packet_probe.py), in every state that
-- its methods reach.
use mathlib.Core.Option.{some-injective}
use evgenium_network_linux.Prelude.{
  nat_eq, bytes_eq, string_eq, option_eq, List, String, ℕ, All, All-values-get, All-values-put,
  Option-cases, [], ap, arith, count_if, count_if-put_known, false, get, inl, inr, leb, length,
  length-put_known, put, refl, some, suc, values, zero, ◌+◌, ◌==◌, ◌∙◌, ◌∷◌, ◌≡◌, ◌≤◌,
  All-values-keep, Bool-cases, beq_refl, count_if-keep, count_if-put, length-keep, length-put, ltb,
  not, subst, sym, ◌/◌, ◌<◌, ◌||◌,
}
use evgenium_network_linux.Probes.Packet.{
  Bytes, Case, Session, Sessions, handle, issue, replied, respond, count_packet, nth, owned_by,
  update, is_probe, is_signed, live, sequence_of, session_of, fresh_case,
}

-- each packet of a case is new or a duplicate, and at most 40 are counted
abbrev pub IsCase : Case → Type 0
IsCase c = (length c.seen + c.duplicates ≡ c.received) × (c.received ≤ 40)

abbrev pub IsSession : Session → Type 0
IsSession s = (length s.cases ≡ 6) × All IsCase s.cases

-- at most 128 sessions, at most eight of each owner
pub record Bounded (sessions : Sessions) : Type 0 where
  pub few : length sessions ≤ 128
  pub fair : (owner : Bytes) → count_if (owned_by owner) (values sessions) ≤ 8
  pub sound : All IsSession (values sessions)

-- the states that the methods reach, called in any order with any arguments
pub data Reached (second : ℕ) (mac : Bytes → Bytes → Bytes) : Sessions → Type 0 where
  start : Reached second mac []
  issued :
      (owner : Bytes) (peer : String) (now : ℕ) (sid key : Bytes) (sessions : Sessions)
      → Reached second mac sessions
      → Reached second mac (issue second mac owner peer now sid key sessions).1
  handled :
      (data_ : Bytes) (peer : String) (now : ℕ) (sessions : Sessions)
      → Reached second mac sessions
      → Reached second mac (handle second mac data_ peer now sessions).1
  answered :
      (sid : Bytes) (index : ℕ) (sessions : Sessions)
      → Reached second mac sessions
      → Reached second mac (replied sid index sessions)

length-update : {A : Type 0} (n : ℕ) (f : A → A) (xs : List A) → length (update n f xs) ≡ length xs
length-update n f [] = refl
length-update zero f (x ∷ xs) = refl
length-update (suc n) f (x ∷ xs) = ap suc (length-update n f xs)

All-update :
    {A : Type 0} (P : A → Type 0) (n : ℕ) (f : A → A) (xs : List A)
    → ((x : A) → nth n xs ≡ some x → P x → P (f x))
    → All P xs
    → All P (update n f xs)
All-update P n f [] hf h = tt
All-update P zero f (x ∷ xs) hf h = (hf x refl h.0, h.1)
All-update P (suc n) f (x ∷ xs) hf h = (h.0, All-update P n f xs hf h.1)

-- a new version of a session that is there
Bounded-put :
    (sid : Bytes) (s s' : Session) (sessions : Sessions)
    → get sid sessions ≡ some s
    → s'.owner ≡ s.owner
    → IsSession s'
    → Bounded sessions
    → Bounded (put sid s' sessions)
Bounded-put sid s s' sessions known same good b = record {
  few = omega (arith, b.few, length-put_known sid s' s sessions known);
  fair = λ owner. omega (
    arith,
    b.fair owner,
    count_if-put_known (owned_by owner) sid s' s sessions known
        (ap (λ (o : Bytes). o == owner) same),
  );
  sound = All-values-put IsSession sid s' sessions good b.sound;
}

abbrev one_more : Case → Case
one_more c = record c { replies = c.replies + 1 }

abbrev with_reply : ℕ → Session → Session
with_reply index s = record s { cases = update index one_more s.cases }

Bounded-replied :
    (sid : Bytes) (index : ℕ) (sessions : Sessions)
    → Bounded sessions
    → Bounded (replied sid index sessions)
unfolding replied
Bounded-replied sid index sessions b = elim (Option-cases (get sid sessions)) [
  | inl missing ↦ rw (replied, missing) b
  | inr (s, known) ↦
      let good = All-values-get IsSession sid s sessions known b.sound in
      rw (replied, known)
        (Bounded-put sid s (with_reply index s) sessions known refl
          (
            length-update index one_more s.cases ∙ good.0,
            All-update IsCase index one_more s.cases (λ c e h. h) good.1,
          )
          b)
]

count_packet-IsCase :
    (seq : ℕ) (c : Case) → leb 40 c.received ≡ false → IsCase c → IsCase (count_packet seq c)
count_packet-IsCase seq c room h = ground (arith, room, h)

module _ (second : ℕ) (mac : Bytes → Bytes → Bytes) where
  Bounded-live : (now : ℕ) (sessions : Sessions) → Bounded sessions → Bounded (live now sessions)
  Bounded-live now sessions b =
      let alive = λ (e : Bytes × Session). ltb now e.1.expires in
      record {
        few = omega (arith, b.few, length-keep alive sessions);
        fair = λ owner. omega (arith, b.fair owner, count_if-keep alive (owned_by owner) sessions);
        sound = All-values-keep alive IsSession sessions b.sound;
      }

  Bounded-add :
      (sid : Bytes) (s : Session) (sessions : Sessions)
      → IsSession s
      → length sessions < 128
      → count_if (owned_by s.owner) (values sessions) < 8
      → Bounded sessions
      → Bounded (put sid s sessions)
  Bounded-add sid s sessions good room spare b = record {
    few = omega (arith, room, length-put sid s sessions);
    fair = λ owner. elim (Bool-cases (s.owner == owner)) [
      | inl same ↦
          subst (λ o. count_if (owned_by o) (values (put sid s sessions)) ≤ 8)
            ((bytes_eq.beq_iff s.owner owner).0 same)
            (ground
              (arith, spare, count_if-put (owned_by s.owner) sid s sessions, beq_refl s.owner))
      | inr other ↦
          ground (arith, other, b.fair owner, count_if-put (owned_by owner) sid s sessions)
    ];
    sound = All-values-put IsSession sid s sessions good b.sound;
  }

  Bounded-issue :
      (owner : Bytes) (peer : String) (now : ℕ) (sid key : Bytes) (sessions : Sessions)
      → Bounded sessions
      → Bounded (issue second mac owner peer now sid key sessions).1
  unfolding issue
  Bounded-issue owner peer now sid key sessions b =
      let empty : IsCase fresh_case = (refl, omega arith) in
      let kept = live now sessions in
      elim (Bool-cases (leb 128 (length kept) || leb 8 (count_if (owned_by owner) (values kept)))) [
        | inl full ↦ rw (issue, full) (Bounded-live now sessions b)
        | inr room ↦
            rw (issue, room)
              (Bounded-add sid _ kept
                (refl, (empty, (empty, (empty, (empty, (empty, (empty, tt)))))))
                (ground (arith, room)) (ground (arith, room)) (Bounded-live now sessions b))
      ]

  Bounded-respond :
      (data_ : Bytes) (s : Session) (sessions : Sessions)
      → get (session_of data_) sessions ≡ some s
      → Bounded sessions
      → Bounded (respond second mac data_ s sessions).1
  unfolding respond
  Bounded-respond data_ s sessions known b =
      let seq = sequence_of data_ in
      let good = All-values-get IsSession (session_of data_) s sessions known b.sound in
      elim (Option-cases (nth (seq / 20) s.cases)) [
        | inl absent ↦ rw (respond, absent) b
        | inr (c, found) ↦ elim (Bool-cases (leb 40 c.received)) [
          | inl many ↦ rw (respond, found, many) b
          | inr few ↦
              rw (respond, found, few)
                (Bounded-put (session_of data_) s
                  (record s { cases = update (seq / 20) (count_packet seq) s.cases }) sessions known
                  refl
                  (
                    length-update (seq / 20) (count_packet seq) s.cases ∙ good.0,
                    All-update IsCase (seq / 20) (count_packet seq) s.cases
                        (λ x e h.
                          count_packet-IsCase seq x
                            (ap (λ (y : Case). leb 40 y.received)
                                (some-injective x c (sym e ∙ found))
                              ∙ few)
                            h)
                        good.1,
                  )
                  b)
        ]
      ]

  Bounded-handle :
      (data_ : Bytes) (peer : String) (now : ℕ) (sessions : Sessions)
      → Bounded sessions
      → Bounded (handle second mac data_ peer now sessions).1
  unfolding handle
  Bounded-handle data_ peer now sessions b = elim (Bool-cases (is_probe data_)) [
    | inr other ↦ rw (handle, other) b
    | inl probe ↦ elim (Option-cases (get (session_of data_) sessions)) [
      | inl unknown ↦ rw (handle, probe, unknown) b
      | inr (s, known) ↦
          elim (Bool-cases
            (leb s.expires now || not (s.peer == peer) || not (is_signed second mac s.key data_))) [
              | inl refused ↦ rw (handle, probe, known, refused) b
              | inr accepted ↦
                  rw (handle, probe, known, accepted) (Bounded-respond data_ s sessions known b)
            ]
    ]
  ]

  -- In every state that the methods reach, called in any order, at most 128 sessions are kept, at
  -- most eight of each owner; each has six cases, and in each case every counted packet is either
  -- the first of its number or a duplicate, and at most 40 are counted.
  pub Reached-Bounded : (sessions : Sessions) → Reached second mac sessions → Bounded sessions
  Reached-Bounded _ start = record { few = omega arith; fair = λ owner. omega arith; sound = tt }
  Reached-Bounded _ (issued owner peer now sid key sessions r) =
      Bounded-issue owner peer now sid key sessions (Reached-Bounded sessions r)
  Reached-Bounded _ (handled data_ peer now sessions r) =
      Bounded-handle data_ peer now sessions (Reached-Bounded sessions r)
  Reached-Bounded _ (answered sid index sessions r) =
      Bounded-replied sid index sessions (Reached-Bounded sessions r)
