-- ===== src/Probes/Transfer/Lookup.antt =====
-- What `_get` and `result` of server/transfer_probe.py find, and that a receipt leaves the
-- sessions.
use evgenium_network_linux.Prelude.{
  nat_eq, bytes_eq, string_eq, >>=-eq-ok, Error, Exec, Option, Result, String, ap, continue, err,
  err-ne-ok, get, gets, is_hex, leb, matches_class, none, not, ok, or_raise, pure_inj, raise_if,
  raise_if-eq-ok, refl, some, sym, value_error, ◌==◌, ◌>>=◌, ◌∙◌, ◌≡◌, Bool, pure,
}
use evgenium_network_linux.Probes.Transfer.{
  Wire, Transfers, Session, Receipt, Bytes, clock, get_session, give_receipt, log_receipt,
  receipt_of, result, ignoring,
}

module _ {E : Type 0} (wire : Wire E) where
  pub or_raise-eq-some :
      {A B : Type 0} (o : Option A) (x : Error) (p q : Transfers E) (f : A → Exec (Transfers E) B)
      (b : B)
      → (or_raise o x >>= f) p ≡ (ok b, q)
      → (a : A) × (o ≡ some a) × (f a p ≡ (ok b, q))
  or_raise-eq-some none x p q f b h = absurd (err-ne-ok (ap (λ r. r.0) h))
  or_raise-eq-some (some a) x p q f b h = (a, refl, h)

  pub get_session-eq-ok :
      (sid : String) (owner : Bytes) (t t' : Transfers E) (found : String × Session)
      → get_session wire (some sid) owner t ≡ (ok found, t')
      → (sid ≡ found.0)
        × (get sid t.sessions ≡ some found.1)
        × (t' ≡ record t { env = (wire.clock t.env).1 })
  unfolding get_session
  get_session-eq-ok sid owner t t' found h =
      let (_, r1) =
        raise_if-eq-ok (not (matches_class is_hex 32 sid)) (value_error "session") _ t t' found h in
      let (s, e2, r2) =
        or_raise-eq-some (get sid t.sessions) (value_error "session") t t' _ found r1 in
      let (_, r3) =
        raise_if-eq-ok (not (s.owner == owner)) (value_error "session") _ t t' found r2 in
      let (now, env) = wire.clock t.env in
      let (_, r4) =
        raise_if-eq-ok (leb s.expires now) (value_error "session") _ (record t { env = env }) t'
          found r3 in
      let same : (sid, s) ≡ found = pure_inj r4 in
      (ap (λ p. p.0) same, e2 ∙ ap (λ p. some p.1) same, sym (ap (λ r. r.1) r4))

  -- what a `result` that returned has read
  pub result-eq-ok :
      (sid : String) (owner : Bytes) (t t' : Transfers E) (r : Receipt)
      → result wire (some sid) owner t ≡ (ok r, t')
      → (s : Session) × (get sid t.sessions ≡ some s) × (r ≡ receipt_of s)
  unfolding result
  result-eq-ok sid owner t t' r h =
      let (found, u, e, rest) = >>=-eq-ok (get_session wire (some sid) owner) _ t t' r h in
      let (_, at_sid, _) = get_session-eq-ok sid owner t u found e in
      (found.1, at_sid, sym (pure_inj rest))

-- An action that leaves the sessions: one rule for each way to build one.
record Keeps {E A : Type 0} (m : Exec (Transfers E) A) : Type 0 where
  at : (t : Transfers E) → (m t).1.sessions ≡ t.sessions

module _ {E : Type 0} where
  continue-Keeps :
      {A B : Type 0} (r : Result A) (t u : Transfers E) (f : A → Exec (Transfers E) B)
      → u.sessions ≡ t.sessions
      → ((a : A) → Keeps (f a))
      → (continue r u f).1.sessions ≡ t.sessions
  continue-Keeps (ok a) t u f e keeps = (keeps a).at u ∙ e
  continue-Keeps (err x) t u f e keeps = e

  Keeps-bind :
      {A B : Type 0} (m : Exec (Transfers E) A) (f : A → Exec (Transfers E) B)
      → Keeps m
      → ((a : A) → Keeps (f a))
      → Keeps (m >>= f)
  Keeps-bind m f keeps rest = record {
    at = λ t. continue-Keeps (m t).0 t (m t).1 f (keeps.at t) rest;
  }

  Keeps-or_raise : {A : Type 0} (o : Option A) (x : Error) → Keeps {E = E} {A = A} (or_raise o x)
  Keeps-or_raise none x = record { at = λ t. refl }
  Keeps-or_raise (some a) x = record { at = λ t. refl }

  Keeps-raise_if : (b : Bool) (x : Error) → Keeps {E = E} (raise_if b x)
  Keeps-raise_if b x = record { at = λ t. refl }

  Keeps-pure : {A : Type 0} (a : A) → Keeps {E = E} (pure a)
  Keeps-pure a = record { at = λ t. refl }

  Keeps-gets : {A : Type 0} (f : Transfers E → A) → Keeps (gets f)
  Keeps-gets f = record { at = λ t. refl }

  Keeps-ignoring :
      (wire : Wire E) (m : Exec (Transfers E) (Unit {0})) → Keeps m → Keeps (ignoring wire m)
  Keeps-ignoring wire m keeps = record { at = keeps.at }

  Keeps-clock : (wire : Wire E) → Keeps (clock wire)
  Keeps-clock wire = record { at = λ t. refl }

  Keeps-log_receipt :
      (wire : Wire E) (log : Receipt → E → Result (Unit {0}) × E) (r : Receipt)
      → Keeps (log_receipt wire log r)
  Keeps-log_receipt wire log r = record { at = λ t. refl }

ruleset keeps_rules = (
  Keeps-bind, Keeps-or_raise, Keeps-raise_if, Keeps-pure, Keeps-gets, Keeps-ignoring, Keeps-clock,
  Keeps-log_receipt,
)

module _ {E : Type 0} (wire : Wire E) where
  get_session-Keeps : (sid : Option String) (owner : Bytes) → Keeps (get_session wire sid owner)
  unfolding get_session
  get_session-Keeps sid owner = search keeps_rules depth 20

  give_receipt-Keeps :
      (sid : String) (owner : Bytes) (receipt : Option (Receipt → E → Result (Unit {0}) × E))
      → Keeps (give_receipt wire sid owner receipt)
  unfolding give_receipt result
  give_receipt-Keeps sid owner none = search keeps_rules
  give_receipt-Keeps sid owner (some log) = Keeps-ignoring wire _ (
      Keeps-bind _ _ (Keeps-bind _ _ (get_session-Keeps (some sid) owner) (λ found. Keeps-pure _))
        (Keeps-log_receipt wire log))

  pub give_receipt-sessions :
      (sid : String) (owner : Bytes) (receipt : Option (Receipt → E → Result (Unit {0}) × E))
      (t : Transfers E)
      → (give_receipt wire sid owner receipt t).1.sessions ≡ t.sessions
  give_receipt-sessions sid owner receipt t = (give_receipt-Keeps sid owner receipt).at t
