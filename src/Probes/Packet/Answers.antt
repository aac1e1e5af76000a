-- ===== src/Probes/Packet/Answers.antt =====
-- Which packets `ProbeSessions.handle` of server/packet_probe.py answers, and with how much.
use evgenium_network_linux.Prelude.{
  nat_eq, bytes_eq, string_eq, option_eq, List, String, ℕ, [], arith, drop, get, length,
  length-append, min, ok, some, suc, take, true, zero, ◌++◌, ◌-◌, ◌<◌, ◌∷◌, ◌≡◌, ◌≤◌, Bool-cases,
  Option, Option-cases, Result, ap, err, if◌then◌else◌, inl, inr, key_error, leb, none, not,
  pure_inj, put, sym, ◌/◌, ◌==◌, ◌||◌, ◌∙◌,
}
use mathlib.Core.Option.{some-injective, none-ne-some}
use evgenium_network_linux.Probes.Packet.{
  Bytes, Session, Sessions, Reply, handle, respond, is_probe, is_signed, session_of, reply_magic,
  reply_to, Case, count_packet, nth, sequence_of, update,
}

length-take : {A : Type 0} (n : ℕ) (xs : List A) → length (take n xs) ≡ min n (length xs)
length-take zero xs = omega arith
length-take (suc n) [] = omega arith
length-take (suc n) (x ∷ xs) = omega (arith, length-take n xs)

length-drop : {A : Type 0} (n : ℕ) (xs : List A) → length (drop n xs) ≡ length xs - n
length-drop zero xs = omega arith
length-drop (suc n) [] = omega arith
length-drop (suc n) (x ∷ xs) = omega (arith, length-drop n xs)

is_probe-length : (data_ : Bytes) → is_probe data_ ≡ true → 128 ≤ length data_
unfolding is_probe
is_probe-length data_ h = ground arith

module _ (second : ℕ) (mac : Bytes → Bytes → Bytes) where
  module _ (mac_length : (key message : Bytes) → length (mac key message) ≡ 32) where
    length-reply_to :
        (key data_ : Bytes)
        → 36 ≤ length data_
        → length (reply_to second mac key data_) ≡ length data_
    unfolding reply_to
    length-reply_to key data_ long =
        let body = reply_magic ++ take (length data_ - 36) (drop 4 data_) in
        omega (
          arith,
          long,
          length-append body (mac key body),
          length-append reply_magic (take (length data_ - 36) (drop 4 data_)),
          mac_length key body,
          length-take (length data_ - 36) (drop 4 data_),
          length-drop 4 data_,
        )

    respond-length :
        (data_ : Bytes) (s : Session) (sessions sessions' : Sessions) (r : Reply)
        → 36 ≤ length data_
        → respond second mac data_ s sessions ≡ (ok (some r), sessions')
        → (r.session ≡ session_of data_) × (length r.payload ≡ length data_)
    unfolding respond
    respond-length data_ s sessions sessions' r long h =
        elim (Option-cases (nth (sequence_of data_ / 20) s.cases)) [
          | inl absent ↦
              let h' : ◌≡◌ {A = Result (Option Reply) × Sessions} (err key_error, sessions)
                  (ok (some r), sessions') =
                rw (respond, absent) at h in
              let e : ◌≡◌ {A = Result (Option Reply)} (err key_error) (ok (some r)) =
                ap (λ p. p.0) h' in
              cc
          | inr (c, found) ↦ answered c (rw (respond, found) at h)
        ]
      where
        full : Reply
        full = record {
          session = session_of data_;
          case_index = sequence_of data_ / 20;
          payload = reply_to second mac s.key data_;
        }

        answered :
            (c : Case)
            → ◌≡◌ {A = Result (Option Reply) × Sessions}
                (if leb 40 c.received then (ok none, sessions) else (
                  ok (some full),
                  put
                      (session_of data_)
                      (record s {
                        cases =
                            update
                              (sequence_of data_ / 20)
                              (count_packet (sequence_of data_))
                              s.cases;
                      })
                      sessions,
                ))
                (ok (some r), sessions')
            → (r.session ≡ session_of data_) × (length r.payload ≡ length data_)
        answered c h = elim (Bool-cases (leb 40 c.received)) [
          | inl many ↦ absurd (none-ne-some r (pure_inj (rw many at h)))
          | inr few ↦
              let same : full ≡ r = some-injective full r (pure_inj (rw few at h)) in
              (
                sym (ap (λ q. q.session) same),
                sym (ap (λ q. length q.payload) same) ∙ length-reply_to s.key data_ long,
              )
        ]

    -- With a MAC of 32 bytes, a packet that is answered has the id of a session that has not
    -- expired, comes from the address of that session and is signed with its key; and the answer,
    -- for that session, is exactly as long as the packet.
    pub handle-answers :
        (data_ : Bytes) (peer : String) (now : ℕ) (sessions sessions' : Sessions) (r : Reply)
        → handle second mac data_ peer now sessions ≡ (ok (some r), sessions')
        → (s : Session) × (get (session_of data_) sessions ≡ some s)
          × (now < s.expires)
          × (s.peer ≡ peer)
          × (is_signed second mac s.key data_ ≡ true)
          × (r.session ≡ session_of data_)
          × (length r.payload ≡ length data_)
    unfolding handle
    handle-answers data_ peer now sessions sessions' r h = elim (Bool-cases (is_probe data_)) [
      | inr other ↦ absurd (none-ne-some r (pure_inj (rw (handle, other) at h)))
      | inl probe ↦ elim (Option-cases (get (session_of data_) sessions)) [
        | inl unknown ↦ absurd (none-ne-some r (pure_inj (rw (handle, probe, unknown) at h)))
        | inr (s, known) ↦
            elim (Bool-cases (
              leb s.expires now
              || not (s.peer == peer)
              || not (is_signed second mac s.key data_))) [
                | inl refused ↦
                    absurd (none-ne-some r (pure_inj (rw (handle, probe, known, refused) at h)))
                | inr accepted ↦
                    let long = is_probe-length data_ probe in
                    let (same, size) =
                      respond-length data_ s sessions sessions' r (omega (arith, long))
                        (rw (handle, probe, known, accepted) at h) in
                    (
                      s,
                      known,
                      ground (arith, accepted),
                      ground (arith, accepted, string_eq.beq_iff s.peer peer),
                      ground (arith, accepted),
                      same,
                      size,
                    )
              ]
      ]
    ]
