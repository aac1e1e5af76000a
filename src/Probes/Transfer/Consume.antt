-- ===== src/Probes/Transfer/Consume.antt =====
-- The loop of `consume` of server/transfer_probe.py: that it ends, and what a round does.
use mathlib.Core.Path.{Σ_path}
use evgenium_network_linux.Prelude.{
  nat_eq, bytes_eq, string_eq, option_eq, String, length, ok, ℕ, ◌+◌, ◌≡◌, ◌≤◌, Exec, leb, min,
  raise_if-eq-ok, some, timeout_error, ◌*◌, ◌-◌, ◌>>=◌, Option, ap, arith, continue, eof_error, err,
  err-ne-ok, none, os_error, pure_inj, refl, subst, suc, sym, zero, ◌<◌, ◌==◌, ◌∙◌, ◌≢◌, Bool-cases,
  Result, Result-cases, inl, inr, ltb, ltb→lt, ◌++◌, [], some-of-ne-none,
}
use evgenium_network_linux.Probes.Transfer.{
  Wire, Transfers, read_chunk, Bytes, on_session, read1, note_read, read_all, Receipt, after_loop,
  begin, consume, transfer,
}

module _ {E : Type 0} (wire : Wire E) where
  module _ {A : Type 0} where
    continue-read :
        (o : Option Bytes) (t t' : Transfers E) (f : Bytes → Exec (Transfers E) A) (a : A)
        → continue (elim o [ none ↦ err os_error | some chunk ↦ ok chunk ]) t f ≡ (ok a, t')
        → (c : Bytes) × (o ≡ some c) × (f c t ≡ (ok a, t'))
    continue-read none t t' f a h = absurd (err-ne-ok (ap (λ r. r.0) h))
    continue-read (some c) t t' f a h = (c, refl, h)

    read1-eq-ok :
        (n : ℕ) (t t' : Transfers E) (f : Bytes → Exec (Transfers E) A) (a : A)
        → (read1 wire n >>= f) t ≡ (ok a, t')
        → (c : Bytes) × ((wire.read1 n t.env).0 ≡ some c)
          × (f c (record t { env = (wire.read1 n t.env).1 }) ≡ (ok a, t'))
    unfolding read1
    read1-eq-ok n t t' f a h =
        continue-read (wire.read1 n t.env).0 (record t { env = (wire.read1 n t.env).1 }) t' f a h

  abbrev tick : E → E
  tick e = (wire.clock e).1

  -- What a round that does not raise has done.
  pub record Round (sid : String) (start size count : ℕ) (t t' : Transfers E) (chunk : Bytes)
      : Type 0 where
    pub limit : ℕ
    pub read_ms : ℕ
    pub elapsed : ℕ
    pub reads :
        (wire.read1 (min 16384 (size - count)) (tick (wire.set_timeout limit (tick t.env)))).0
        ≡ some chunk
    pub nonempty : 1 ≤ length chunk
    pub after :
        t'
        ≡ on_session sid (note_read wire (count + length chunk) read_ms elapsed) (record t {
          env = tick (
              tick
                (wire.read1
                  (min 16384 (size - count))
                  (tick (wire.set_timeout limit (tick t.env)))).1);
        })

  pub read_chunk-Round :
      (sid : String) (start size count : ℕ) (t t' : Transfers E) (chunk : Bytes)
      → read_chunk wire sid start size count t ≡ (ok chunk, t')
      → Round sid start size count t t' chunk
  unfolding read_chunk
  read_chunk-Round sid start size count t t' chunk h =
      let (now, e1) = wire.clock t.env in
      let deadline = start + 25 * wire.second in
      let (_, r1) =
        raise_if-eq-ok (leb deadline now) timeout_error _ (record t { env = e1 }) t' chunk h in
      let e2 = wire.set_timeout (min (8 * wire.second) (deadline - now)) e1 in
      let (at, e3) = wire.clock e2 in
      let (left, e4) = wire.read1 (min 16384 (size - count)) e3 in
      let (c, got, r2) =
        read1-eq-ok (min 16384 (size - count)) (record t { env = e3 }) t' _ chunk r1 in
      let (nonzero, r3) =
        raise_if-eq-ok (length c == 0) eof_error _ (record t { env = e4 }) t' chunk r2 in
      let (after, e5) = wire.clock e4 in
      let (later, e6) = wire.clock e5 in
      let same : c ≡ chunk = pure_inj r3 in
      record {
        limit = min (8 * wire.second) (deadline - now);
        read_ms = wire.round_ms (after - at);
        elapsed = wire.round_ms (later - start);
        reads = got ∙ ap some same;
        nonempty = subst (λ x. 1 ≤ length x) same (ground arith);
        after =
            subst
              (λ x.
                t'
                ≡ on_session sid
                    (note_read wire (count + length x) (wire.round_ms (after - at))
                      (wire.round_ms (later - start)))
                    (record t { env = e6 }))
              same (sym (ap (λ r. r.1) r3));
      }

  read_all-ends :
      (fuel : ℕ) (sid : String) (start size count : ℕ) (fed : Bytes) (t : Transfers E)
      → 1 ≤ fuel
      → size < count + fuel
      → (read_all wire fuel sid start size count fed t).0 ≢ none
  unfolding read_all
  read_all-ends zero sid start size count fed t pos h = absurd (omega arith)
  read_all-ends (suc fuel) sid start size count fed t pos h = elim (Bool-cases (ltb count size)) [
    | inr done ↦ rw (read_all, done) (λ e. cc)
    | inl more ↦ elim (Result-cases (read_chunk wire sid start size count t).0) [
      | inr (e, failed) ↦ rw (read_all, more, failed) (λ e. cc)
      | inl (chunk, got) ↦
          let t' = (read_chunk wire sid start size count t).1 in
          let round = read_chunk-Round sid start size count t t' chunk (Σ_path got refl) in
          let room = ltb→lt count size more in
          rw (read_all, more, got)
            (read_all-ends fuel sid start size (count + length chunk) (fed ++ chunk) t'
              (omega arith) (omega (arith, round.nonempty)))
    ]
  ]

  after_loop-ends :
      (sid : String) (owner : Bytes) (start : ℕ)
      (receipt : Option (Receipt → E → Result (Unit {0}) × E)) (o : Option (Result Bytes))
      (t : Transfers E)
      → o ≢ none
      → (after_loop wire sid owner start receipt (o, t)).0 ≢ none
  unfolding after_loop
  after_loop-ends sid owner start receipt none t h = absurd (h refl)
  after_loop-ends sid owner start receipt (some r) t h = λ e. cc

  -- `consume` ends: its loop runs at most as often as the transfer has bytes, whatever the
  -- connection, the clock and the sessions do, and however the call came to be refused.
  pub consume-ends :
      (sid : Option String) (owner : Bytes) (size : ℕ)
      (receipt : Option (Receipt → E → Result (Unit {0}) × E)) (t : Transfers E)
      → (r : Result Receipt) × ((consume wire sid owner size receipt t).0 ≡ some r)
  unfolding consume transfer
  consume-ends sid owner size receipt t = elim (Result-cases (begin wire sid owner size t).0) [
    | inr (e, refused) ↦ (err e, rw (consume, refused) refl)
    | inl (id, begun) ↦
        let t' = (begin wire sid owner size t).1 in
        let (start, env) = wire.clock t'.env in
        let (o, s) = read_all wire (suc size) id start size 0 [] (record t' { env = env }) in
        let ends = read_all-ends (suc size) id start size 0 [] (record t' { env = env }) in
        rw (consume, begun)
          (some-of-ne-none (transfer wire id owner size receipt t').0
            (after_loop-ends id owner start receipt o s (ends (omega arith) (omega arith))))
  ]
