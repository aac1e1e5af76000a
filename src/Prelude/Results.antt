-- ===== src/Prelude/Results.antt =====
-- Exceptions as values, and methods that change a state and may raise. What was written before a
-- raise stays written, so the state comes back beside the error too.
use Prim.Native.String.{String}
use mathlib.Core.Bool.{Bool, true, false}
use mathlib.Core.Path.{◌≡◌, refl, Σ_path, ap}
use mathlib.Core.Logic.{◌⊎◌, inl, inr, ◌≢◌}
use mathlib.Core.Option.{Option, none, some}

pub data Error : Type 0 where
  value_error permission_error runtime_error : String → Error
  os_error key_error type_error timeout_expired timeout_error eof_error : Error

pub data Result {ℓ} (A : Type ℓ) : Type ℓ where
  ok : A → Result A
  err : Error → Result A

abbrev pub Exec {ℓ} : Type ℓ → Type ℓ → Type ℓ
Exec S A = S → Result A × S

module _ {ℓ} {S A : Type ℓ} where
  abbrev pub pure : A → Exec S A
  pure a s = (ok a, s)

  abbrev pub raise : Error → Exec S A
  raise e s = (err e, s)

  abbrev pub lift : Result A → Exec S A
  lift r s = (r, s)

  abbrev pub gets : (S → A) → Exec S A
  gets f s = (ok (f s), s)

  abbrev pub or_raise : Option A → Error → Exec S A
  or_raise none e s = (err e, s)
  or_raise (some a) e s = (ok a, s)

abbrev pub raise_if : {S : Type 0} → Bool → Error → Exec S (Unit {0})
raise_if b e s = (elim b [ true ↦ err e | false ↦ ok tt ], s)

abbrev pub modify : {S : Type 0} → (S → S) → Exec S (Unit {0})
modify f s = (ok tt, f s)

module _ {ℓ} {S A B : Type ℓ} where
  infixl 5 ◌>>=◌ ◌>>◌
  abbrev pub continue : Result A → S → (A → Exec S B) → Result B × S
  continue (ok a) s f = f a s
  continue (err e) s f = (err e, s)

  abbrev pub ◌>>=◌ : Exec S A → (A → Exec S B) → Exec S B
  ◌>>=◌ m f s = let (r, s') = m s in continue r s' f

  abbrev pub ◌>>◌ : Exec S A → Exec S B → Exec S B
  m >> n = m >>= λ _. n

-- A sequence that returns has returned at each step.
module _ {ℓ} {S A B : Type ℓ} where
  pub continue-eq-ok :
      (r : Result A) (s s' : S) (f : A → Exec S B) (b : B)
      → continue r s f ≡ (ok b, s')
      → (a : A) × (r ≡ ok a) × (f a s ≡ (ok b, s'))
  continue-eq-ok (ok a) s s' f b h = (a, refl, h)
  continue-eq-ok (err e) s s' f b h = cc

  pub >>=-eq-ok :
      (m : Exec S A) (f : A → Exec S B) (s s' : S) (b : B)
      → (m >>= f) s ≡ (ok b, s')
      → (a : A) × (t : S) × (m s ≡ (ok a, t)) × (f a t ≡ (ok b, s'))
  >>=-eq-ok m f s s' b h =
      let (a, e, rest) = continue-eq-ok (m s).0 (m s).1 s' f b h in
      (a, (m s).1, Σ_path e refl, rest)

pub Result-cases {ℓ} :
    {A : Type ℓ} (r : Result A) → ((a : A) × (r ≡ ok a)) ⊎ ((e : Error) × (r ≡ err e))
Result-cases (ok a) = inl (a, refl)
Result-cases (err e) = inr (e, refl)

pub err-ne-ok {ℓ} : {A : Type ℓ} {e : Error} {a : A} → ◌≢◌ {A = Result A} (err e) (ok a)
err-ne-ok h = cc

-- what `pure` returns, in either state
pub pure_inj {ℓ} :
    {S A : Type ℓ} {a b : A} {s t : S} → ◌≡◌ {A = Result A × S} (ok a, s) (ok b, t) → a ≡ b
pure_inj {S} {A} {a} {b} {s} {t} h = let e : ok a ≡ ok b = ap (λ p. p.0) h in cc

-- A guard that passes changes nothing.
pub raise_if-eq-ok :
    {S A : Type 0} (b : Bool) (e : Error) (m : Exec S A) (s s' : S) (a : A)
    → (raise_if b e >> m) s ≡ (ok a, s')
    → (b ≡ false) × (m s ≡ (ok a, s'))
raise_if-eq-ok false e m s s' a h = (refl, h)
raise_if-eq-ok {A = A} true e m s s' a h =
    let r : ◌≡◌ {A = Result A} (err e) (ok a) = ap (λ p. p.0) h in cc

pub raise_if_inj :
    {S : Type 0} (b : Bool) (e : Error) (s t : S) (u : Unit {0})
    → raise_if b e s ≡ (ok u, t)
    → (b ≡ false) × (s ≡ t)
raise_if_inj false e s t u h = (refl, ap (λ p. p.1) h)
raise_if_inj true e s t u h = absurd (err-ne-ok (ap (λ p. p.0) h))

-- `try: m finally: c`; what `c` raises takes the place of the result
abbrev pub after_result {ℓ} : {S A : Type ℓ} → Result A → Result (Unit {0}) × S → Result A × S
after_result r (ok u, s) = (r, s)
after_result r (err e, s) = (err e, s)

abbrev pub finally_do : {S A : Type 0} → Exec S A → Exec S (Unit {0}) → Exec S A
finally_do m c s = let (r, t) = m s in after_result r (c t)

-- A `try ... finally` that returns: so did both parts.
pub after_result-eq-ok {ℓ} :
    {S A : Type ℓ} (r : Result A) (q : Result (Unit {0}) × S) (a : A) (s : S)
    → after_result r q ≡ (ok a, s)
    → (r ≡ ok a) × (q.1 ≡ s)
after_result-eq-ok r (ok u, t) a s h = (ap (λ p. p.0) h, ap (λ p. p.1) h)
after_result-eq-ok r (err e, t) a s h = absurd (err-ne-ok (ap (λ p. p.0) h))
