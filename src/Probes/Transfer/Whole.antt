-- ===== src/Probes/Transfer/Whole.antt =====
-- A `consume` of server/transfer_probe.py that returned, from its first block to its receipt.
use mathlib.Core.Path.{Σ_path}
use mathlib.Core.Option.{none-ne-some, some-injective}
use evgenium_network_linux.Prelude.{
  nat_eq, bytes_eq, string_eq, Option, Result, String, ap, arith, get, inl, inr, length, ok, refl,
  subst, sym, take, true, ℕ, ◌-◌, ◌<◌, ◌∙◌, ◌≡◌, >>=-eq-ok, [], not, raise_if-eq-ok, some,
  value_error, ◌==◌, ◌||◌, pure_inj, after_result-eq-ok, finally_do, Result-cases, err, err-ne-ok,
  none, suc,
}
use evgenium_network_linux.Probes.Transfer.{
  Wire, Transfers, Session, Receipt, Bytes, closing, complete, on_session, begin, consume,
  get_session, transfer, finish, receipt_of, after_loop, read_all,
}
use evgenium_network_linux.Probes.Transfer.Lookup.{
  give_receipt-sessions, get_session-eq-ok, result-eq-ok,
}
use evgenium_network_linux.Probes.Transfer.Received.{
  IsStream, Fed, Has, Ongoing, on_session-Has, take-append, on_session-env, read_all-Fed,
}

module _ {E : Type 0} (wire : Wire E) (stream : E → Bytes) (source : IsStream wire stream)
    (sid : String) (owner : Bytes) (size : ℕ)
    (receipt : Option (Receipt → E → Result (Unit {0}) × E)) where
  -- what a receipt says of a whole body
  abbrev pub IsComplete : Bytes → Receipt → Type 0
  IsComplete body r =
      (r.size ≡ size)
      × (r.received ≡ size)
      × (r.complete ≡ true)
      × (r.sha256 ≡ wire.digest (take size body))
      × (length (take size body) ≡ size)

  -- the session after the loop and the end of the `try` block
  abbrev Complete : Bytes → Session → Type 0
  Complete body s =
      (s.size ≡ size)
      × (s.received ≡ size)
      × (s.complete ≡ true)
      × (s.sha256 ≡ wire.digest (take size body))
      × (length (take size body) ≡ size)

  complete-Has :
      (body out : Bytes) (t t' : Transfers E) (u : Unit {0})
      → 0 < size
      → Fed wire stream source sid size size out body t
      → complete wire sid (ok out) t ≡ (ok u, t')
      → Has sid (Complete body) t'
  unfolding complete
  complete-Has body out t t' u pos f h =
      let whole : take size body ≡ out =
        ap (take size) (sym f.streamed) ∙ take-append out (stream t.env) size f.counted in
      subst (Has sid (Complete body)) (ap (λ r. r.1) h) (
        on_session-Has (Ongoing wire stream source sid size size) (Complete body) sid _ t
          (λ s q. (
            q.0,
            elim q.1 [ inl r ↦ r | inr z ↦ absurd (omega arith) ],
            refl,
            ap wire.digest (sym whole),
            ap length whole ∙ f.counted,
          ))
          f.session)

  closing-Has :
      (body : Bytes) (start : ℕ) (t : Transfers E)
      → Has sid (Complete body) t
      → Has sid (Complete body) (closing wire sid owner start receipt t).1
  unfolding closing
  closing-Has body start t h =
      let (now, env) = wire.clock t.env in
      let elapsed = wire.round_ms (now - start) in
      let s = on_session sid (λ s. record s { elapsed_ms = elapsed }) (record t { env = env }) in
      let (x, found, q) =
        on_session-Has (Complete body) (Complete body) sid _ (record t { env = env }) (λ s q. q)
          h in
      (x, ap (get sid) (give_receipt-sessions wire sid owner receipt s) ∙ found, q)

  begin-Fed :
      (t t' : Transfers E) (id : String)
      → begin wire (some sid) owner size t ≡ (ok id, t')
      → (sid ≡ id) × Fed wire stream source sid size 0 [] (stream t.env) t'
  unfolding begin
  begin-Fed t t' id h =
      let (found, u, e, r1) = >>=-eq-ok (get_session wire (some sid) owner) _ t t' id h in
      let (same, at_sid, after) = get_session-eq-ok wire sid owner t u found e in
      let (fits, r2) =
        raise_if-eq-ok (not (size == found.1.size) || found.1.started)
          (value_error "replay_or_size") _ u t' id r1 in
      let mark = λ (s : Session). record s { started = true } in
      let left : t' ≡ on_session sid mark u =
        sym (ap (λ r. r.1) r2) ∙ ap (λ x. on_session x mark u) (sym same) in
      let is_size : found.1.size ≡ size = ground (arith, fits) in
      let at_u : get sid u.sessions ≡ some found.1 = ap (λ x. get sid x.sessions) after ∙ at_sid in
      (
        same ∙ pure_inj r2,
        record {
          counted = refl;
          bounded = omega arith;
          streamed =
              ap (λ x. stream x.env) left
              ∙ ap stream (on_session-env sid mark u ∙ ap (λ x. x.env) after)
              ∙ source.clock_keeps t.env;
          session = subst (Has sid (Ongoing wire stream source sid size 0)) (sym left) (
              on_session-Has (Ongoing wire stream source sid size 0)
                (Ongoing wire stream source sid size 0) sid mark u (λ s q. q)
                (found.1, at_u, (is_size, inr refl)));
        },
      )

  finish-Complete :
      (body out : Bytes) (start : ℕ) (t t' : Transfers E) (x : Result Bytes) (r : Receipt)
      → 0 < size
      → x ≡ ok out
      → Fed wire stream source sid size size out body t
      → finish wire sid owner start receipt x t ≡ (ok r, t')
      → IsComplete body r
  unfolding finish
  finish-Complete body out start t t' x r pos e f h =
      let (u, s, e1, e2) =
        >>=-eq-ok (finally_do (complete wire sid x) (closing wire sid owner start receipt)) _ t t' r
          h in
      let done = complete wire sid x t in
      let (ended, closed) =
        after_result-eq-ok done.0 (closing wire sid owner start receipt done.1) u s e1 in
      let completed : complete wire sid (ok out) t ≡ (ok u, done.1) =
        subst (λ y. complete wire sid y t ≡ (ok u, done.1)) e (Σ_path ended refl) in
      let has = closing-Has body start done.1 (complete-Has body out t done.1 u pos f completed) in
      let (z, found, q) = subst (Has sid (Complete body)) closed has in
      let (y, at_sid, is_receipt) = result-eq-ok wire sid owner s t' r e2 in
      let same : z ≡ y = some-injective z y (sym found ∙ at_sid) in
      subst (IsComplete body) (ap receipt_of same ∙ sym is_receipt) q

  -- A run that ends well has not raised before.
  finish-eq-ok :
      (x : Result Bytes) (start : ℕ) (t t' : Transfers E) (r : Receipt)
      → finish wire sid owner start receipt x t ≡ (ok r, t')
      → (out : Bytes) × (x ≡ ok out)
  unfolding finish complete
  finish-eq-ok (ok out) start t t' r h = (out, refl)
  finish-eq-ok (err e) start t t' r h =
      let (u, s, e1, e2) =
        >>=-eq-ok (finally_do (complete wire sid (err e)) (closing wire sid owner start receipt)) _
          t t' r h in
      let (ended, _) = after_result-eq-ok (err e) (closing wire sid owner start receipt t) u s e1 in
      absurd (err-ne-ok ended)

  after_loop-eq-ok :
      (start : ℕ) (o : Option (Result Bytes)) (s t' : Transfers E) (r : Receipt)
      → after_loop wire sid owner start receipt (o, s) ≡ (some (ok r), t')
      → (out : Bytes) × (o ≡ some (ok out))
        × (finish wire sid owner start receipt (ok out) s ≡ (ok r, t'))
  unfolding after_loop
  after_loop-eq-ok start none s t' r h = absurd (none-ne-some (ok r) (ap (λ p. p.0) h))
  after_loop-eq-ok start (some x) s t' r h =
      let ended : finish wire sid owner start receipt x s ≡ (ok r, t') =
        Σ_path (some-injective _ _ (ap (λ p. p.0) h)) (ap (λ p. p.1) h) in
      let (out, is_ok) = finish-eq-ok x start s t' r ended in
      (
        out,
        ap some is_ok,
        subst (λ y. finish wire sid owner start receipt y s ≡ (ok r, t')) is_ok ended,
      )

  transfer-Complete :
      (body : Bytes) (t t' : Transfers E) (r : Receipt)
      → 0 < size
      → Fed wire stream source sid size 0 [] body t
      → transfer wire sid owner size receipt t ≡ (some (ok r), t')
      → IsComplete body r
  unfolding transfer
  transfer-Complete body t t' r pos f h =
      let (start, env) = wire.clock t.env in
      let run = read_all wire (suc size) sid start size 0 [] (record t { env = env }) in
      let ticked : Fed wire stream source sid size 0 [] body (record t { env = env }) = record {
        counted = f.counted;
        bounded = f.bounded;
        streamed = source.clock_keeps t.env ∙ f.streamed;
        session = f.session;
      } in
      let (out, finished, ended) = after_loop-eq-ok start run.0 run.1 t' r h in
      finish-Complete body out start run.1 t' (ok out) r pos refl
        (read_all-Fed wire stream source sid size (suc size) start 0 [] body out
          (record t { env = env }) run.1 ticked (Σ_path finished refl))
        ended

  -- If the connection is a stream, a `consume` of a size above 0 that returns has read the next
  -- `size` bytes of the stream, no fewer: its receipt says that the session is complete, with that
  -- size and that many bytes received, and holds the SHA-256 of exactly those bytes.
  pub consume-Complete :
      (t t' : Transfers E) (r : Receipt)
      → 0 < size
      → consume wire (some sid) owner size receipt t ≡ (some (ok r), t')
      → (r.size ≡ size)
        × (r.received ≡ size)
        × (r.complete ≡ true)
        × (r.sha256 ≡ wire.digest (take size (stream t.env)))
        × (length (take size (stream t.env)) ≡ size)
  unfolding consume transfer
  consume-Complete t t' r pos h = elim (Result-cases (begin wire (some sid) owner size t).0) [
    | inr (e, refused) ↦
        let bad : ◌≡◌ {A = Option (Result Receipt)} (some (err e)) (some (ok r)) =
          ap (λ p. p.0) (rw (consume, refused) at h) in
        absurd (err-ne-ok (some-injective _ _ bad))
    | inl (id, begun) ↦
        let s = (begin wire (some sid) owner size t).1 in
        let (same, fed) = begin-Fed t s id (Σ_path begun refl) in
        transfer-Complete (stream t.env) s t' r pos fed (
          subst (λ z. transfer wire z owner size receipt s ≡ (some (ok r), t')) (sym same)
            (rw (consume, begun) at h))
  ]
