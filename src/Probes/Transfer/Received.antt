-- ===== src/Probes/Transfer/Received.antt =====
-- What a `consume` of server/transfer_probe.py that returned has received.
use mathlib.Core.Path.{Σ_path}
use mathlib.Core.List.{append_assoc}
use mathlib.Core.Option.{none-ne-some}
use evgenium_network_linux.Prelude.{
  nat_eq, bytes_eq, string_eq, List, String, [], ap, arith, get, get-put_self, length,
  length-append, refl, some, suc, take, zero, ℕ, ◌++◌, ◌+◌, ◌<◌, ◌∷◌, ◌≡◌, ◌≤◌, ◌⊎◌, Bool-cases,
  Result-cases, inl, inr, ltb, ltb→lt, min, ok, sym, ◌-◌, ◌∙◌, Option, Result, err, subst,
}
use evgenium_network_linux.Probes.Transfer.{
  Wire, Transfers, Session, Bytes, on_session, read_all, read_chunk,
}
use evgenium_network_linux.Probes.Transfer.Consume.{Round, read_chunk-Round}

-- The connection as a stream: `stream` is what it has still to deliver. A read gives at most as
-- many bytes as it is asked for, and the first ones; the clock and the time limit leave it.
pub record IsStream {E : Type 0} (wire : Wire E) (stream : E → Bytes) : Type 0 where
  pub clock_keeps : (e : E) → stream (wire.clock e).1 ≡ stream e
  pub timeout_keeps : (n : ℕ) (e : E) → stream (wire.set_timeout n e) ≡ stream e
  pub at_most : (n : ℕ) (e : E) (c : Bytes) → (wire.read1 n e).0 ≡ some c → length c ≤ n
  pub delivers :
      (n : ℕ) (e : E) (c : Bytes)
      → (wire.read1 n e).0 ≡ some c
      → stream e ≡ c ++ stream (wire.read1 n e).1

pub take-append : {A : Type 0} (xs ys : List A) (n : ℕ) → length xs ≡ n → take n (xs ++ ys) ≡ xs
take-append [] ys zero h = refl
take-append [] ys (suc n) h = absurd (omega arith)
take-append (x ∷ xs) ys zero h = absurd (omega arith)
take-append (x ∷ xs) ys (suc n) h = ap (λ l. x ∷ l) (take-append xs ys n (omega arith))

module _ {E : Type 0} where
  -- the session of this id is there and has the property
  abbrev pub Has : String → (Session → Type 0) → Transfers E → Type 0
  Has sid Q t = (s : Session) × (get sid t.sessions ≡ some s) × Q s

  pub on_session-env :
      (sid : String) (f : Session → Session) (t : Transfers E) → (on_session sid f t).env ≡ t.env
  unfolding on_session
  on_session-env sid f t = ground arith

  pub on_session-Has :
      (Q R : Session → Type 0) (sid : String) (f : Session → Session) (t : Transfers E)
      → ((s : Session) → Q s → R (f s))
      → Has sid Q t
      → Has sid R (on_session sid f t)
  unfolding on_session
  on_session-Has Q R sid f t step (s, found, q) =
      rw (on_session, found) ((f s, get-put_self sid (f s) t.sessions, step s q))

  module _ (wire : Wire E) (stream : E → Bytes) (source : IsStream wire stream) (sid : String)
      (size : ℕ) where
    -- the session while the loop runs
    abbrev pub Ongoing : ℕ → Session → Type 0
    Ongoing count s = (s.size ≡ size) × ((s.received ≡ count) ⊎ (count ≡ 0))

    -- between two rounds
    pub record Fed (count : ℕ) (fed body : Bytes) (t : Transfers E) : Type 0 where
      pub counted : length fed ≡ count
      pub bounded : count ≤ size
      pub streamed : fed ++ stream t.env ≡ body
      pub session : Has sid (Ongoing count) t

    Round-stream :
        (start count : ℕ) (t t' : Transfers E) (chunk : Bytes)
        → Round wire sid start size count t t' chunk
        → (length chunk ≤ min 16384 (size - count)) × (chunk ++ stream t'.env ≡ stream t.env)
    Round-stream start count t t' chunk r =
        let n = min 16384 (size - count) in
        let asked = (wire.clock (wire.set_timeout r.limit (wire.clock t.env).1)).1 in
        let left = (wire.read1 n asked).1 in
        let kept : stream asked ≡ stream t.env =
          source.clock_keeps _ ∙ source.timeout_keeps _ _ ∙ source.clock_keeps t.env in
        let later : stream t'.env ≡ stream left =
          ap stream (ap (λ x. x.env) r.after ∙ on_session-env sid _ _)
          ∙ source.clock_keeps _
          ∙ source.clock_keeps left in
        (
          source.at_most n asked chunk r.reads,
          ap (λ l. chunk ++ l) later ∙ sym (source.delivers n asked chunk r.reads) ∙ kept,
        )

    read_chunk-Fed :
        (start count : ℕ) (fed body : Bytes) (t t' : Transfers E) (chunk : Bytes)
        → count < size
        → Fed count fed body t
        → Round wire sid start size count t t' chunk
        → Fed (count + length chunk) (fed ++ chunk) body t'
    read_chunk-Fed start count fed body t t' chunk more f r =
        let (at_most, streamed) = Round-stream start count t t' chunk r in
        record {
          counted = omega (arith, length-append fed chunk, f.counted);
          bounded = omega (arith, at_most);
          streamed =
              append_assoc fed chunk (stream t'.env) ∙ ap (λ l. fed ++ l) streamed ∙ f.streamed;
          session = rw (r.after) (
              on_session-Has (Ongoing count) (Ongoing (count + length chunk)) sid _ _
                (λ s q. (q.0, inl refl)) f.session);
        }

    pub read_all-Fed :
        (fuel start count : ℕ) (fed body out : Bytes) (t t' : Transfers E)
        → Fed count fed body t
        → read_all wire fuel sid start size count fed t ≡ (some (ok out), t')
        → Fed size out body t'
    unfolding read_all
    read_all-Fed zero start count fed body out t t' f h =
        absurd (none-ne-some (ok out) (ap (λ p. p.0) h))
    read_all-Fed (suc fuel) start count fed body out t t' f h = elim (Bool-cases (ltb count size)) [
      | inr done ↦
          let e : (some (ok fed), t) ≡ (some (ok out), t') = rw (read_all, done) at h in
          let o : ◌≡◌ {A = Option (Result Bytes)} (some (ok fed)) (some (ok out)) =
            ap (λ p. p.0) e in
          let same : fed ≡ out = cc (o) in
          let whole : count ≡ size = ground (arith, f.bounded) in
          subst (λ x. Fed size x body t') same
            (subst (λ y. Fed size fed body y) (ap (λ p. p.1) e)
              (subst (λ n. Fed n fed body t) whole f))
      | inl more ↦ elim (Result-cases (read_chunk wire sid start size count t).0) [
        | inr (e, failed) ↦
            let r : ◌≡◌ {A = Option (Result Bytes)} (some (err e)) (some (ok out)) =
              ap (λ p. p.0) (rw (read_all, more, failed) at h) in
            absurd (cc)
        | inl (chunk, got) ↦
            let s = (read_chunk wire sid start size count t).1 in
            let round = read_chunk-Round wire sid start size count t s chunk (Σ_path got refl) in
            let next =
              read_chunk-Fed start count fed body t s chunk (ltb→lt count size more) f round in
            read_all-Fed fuel start (count + length chunk) (fed ++ chunk) body out s t' next
              (rw (read_all, more, got) at h)
      ]
    ]
