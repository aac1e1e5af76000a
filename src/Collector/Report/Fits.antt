-- ===== src/Collector/Report/Fits.antt =====
-- What a report that `clean_report` of server/diagnostic_collector.py accepts may hold.
use evgenium_network_linux.Prelude.{
  nat_eq, string_eq, Bool, [], Error, Exec, List, String, arith, contains, false, is_hex,
  matches_class, not, not-false, ok, refl, true, ℕ, ◌>>◌, ◌||◌, ◌∷◌, ◌≡◌, ◌≤◌, >>=-eq-ok, ap,
  continue-eq-ok, pure_inj, raise_if-eq-ok, raise_if_inj, subst, sym, value_error, ◌&&◌, ◌∙◌, pure,
}
use evgenium_network_linux.Prelude.Json.{Json, Fields}
use evgenium_network_linux.Collector.Report.{
  Report, Python, backends, check_delivery, check_set, errors, in_set, in_tuple, is_delivery_error,
  is_truthy, is_up_to, is_version, platforms, stages, clean_connection, get_field, kept_connection,
}

-- the values that a key may have
pub data Kind : Type 0 where
  exactly : Json → Kind
  one_of : List String → Kind
  up_to : ℕ → Kind
  flag : Kind
  shaped : (Json → Bool) → Kind
  text : (String → Bool) → Kind

abbrev pub Fits : Kind → Json → Type 0
Fits (exactly j) v = v ≡ j
Fits (one_of xs) v = (s : String) × (v ≡ Json.string s) × (contains xs s ≡ true)
Fits (up_to top) v = (n : ℕ) × (v ≡ Json.int n) × (n ≤ top)
Fits flag v = (b : Bool) × (v ≡ Json.boolean b)
Fits (shaped p) v = p v ≡ true
Fits (text p) v = (s : String) × (v ≡ Json.string s) × (p s ≡ true)

-- the keys of the schema, in its order and no others, each with a value of its kind
abbrev pub Conforms : List (String × Kind) → Report → Type 0
Conforms [] [] = Unit
Conforms [] (e ∷ r) = ⊥
Conforms (e ∷ s) [] = ⊥
Conforms ((k, kind) ∷ s) ((j, v) ∷ r) = (j ≡ k) × Fits kind v × Conforms s r

-- the fields of a connection diagnostic
abbrev pub connection_schema : Python → List (String × Kind)
connection_schema py =
    ("schema", exactly (Json.int 1))
    ∷ ("event", exactly (Json.string "connection_diagnostic"))
    ∷ ("manager", text is_version)
    ∷ ("report_id", shaped (λ v. matches_class is_hex 32 (py.str v)))
    ∷ ("stage", one_of stages)
    ∷ ("error", one_of errors)
    ∷ ("elapsed_ms", up_to 1800000)
    ∷ ("guard", flag)
    ∷ ("ipsec", flag)
    ∷ ("ike_received", up_to 1000)
    ∷ ("ike_sent", up_to 1000)
    ∷ ("retransmits", up_to 1000)
    ∷ ("platform", one_of platforms)
    ∷ ("ipsec_backend", one_of backends)
    ∷ ("time", up_to 4102444800)
    ∷ (
      "previous_delivery_error",
      shaped (λ v. not (is_truthy py v) || is_delivery_error (py.str v)),
    )
    ∷ []

pub is_up_to-Fits : (top : ℕ) (v : Json) → not (is_up_to top v) ≡ false → Fits (up_to top) v
unfolding is_up_to
is_up_to-Fits top (Json.int n) h = (n, refl, ground arith)
is_up_to-Fits top _ h = cc

pub in_set-Fits : (xs : List String) (v : Json) → in_set xs v ≡ ok true → Fits (one_of xs) v
unfolding in_set
in_set-Fits xs (Json.string s) h = (s, refl, cc)
in_set-Fits xs _ h = cc

pub in_tuple-Fits : (xs : List String) (v : Json) → not (in_tuple xs v) ≡ false → Fits (one_of xs) v
unfolding in_tuple
in_tuple-Fits xs (Json.string s) h = (s, refl, not-false (contains xs s) h)
in_tuple-Fits xs _ h = cc

not-and : (a b : Bool) → (a && not b) ≡ false → (not a || b) ≡ true
not-and a b h = ground arith

module _ {S A : Type 0} (py : Python) where
  pub check_set-Fits :
      (xs : List String) (v : Json) (e : Error) (m : Exec S A) (s s' : S) (a : A)
      → (check_set py xs v e >> m) s ≡ (ok a, s')
      → Fits (one_of xs) v × (m s ≡ (ok a, s'))
  unfolding check_set
  check_set-Fits xs v e m s s' a h =
      let (u, t, e1, rest) = >>=-eq-ok (check_set py xs v e) _ s s' a h in
      let (found, e2, e3) = continue-eq-ok (in_set xs v) s t _ u e1 in
      let (known, same) = raise_if_inj (not found) e s t u e3 in
      (
        in_set-Fits xs v (e2 ∙ ap ok (not-false found known)),
        subst (λ x. m x ≡ (ok a, s')) (sym same) rest,
      )

  pub check_delivery-eq-ok :
      (v : Json) (m : Exec S A) (s s' : S) (a : A)
      → (check_delivery py v >> m) s ≡ (ok a, s')
      → ((not (is_truthy py v) || is_delivery_error (py.str v)) ≡ true) × (m s ≡ (ok a, s'))
  unfolding check_delivery
  check_delivery-eq-ok v m s s' a h =
      let (fine, rest) = raise_if-eq-ok _ (value_error "delivery_error") m s s' a h in
      (not-and (is_truthy py v) (is_delivery_error (py.str v)) fine, rest)

-- A connection diagnostic is accepted with exactly the sixteen fields of the schema, each within
-- its bounds: nothing else of the body is kept. The call changes nothing.
pub clean_connection-Conforms :
    {S : Type 0} (py : Python) (body : Fields) (s s' : S) (r : Report)
    → clean_connection py body s ≡ (ok r, s')
    → Conforms (connection_schema py) r × (s ≡ s')
unfolding clean_connection
clean_connection-Conforms py body s s' r h =
    let stage = get_field "stage" Json.null body in
    let error = get_field "error" Json.null body in
    let category = value_error "category" in
    let counter = value_error "counter" in
    let elapsed = get_field "elapsed_ms" Json.null body in
    let sent = get_field "ike_sent" (Json.int 0) body in
    let received = get_field "ike_received" (Json.int 0) body in
    let retransmits = get_field "retransmits" (Json.int 0) body in
    let backend = get_field "ipsec_backend" (Json.string "kernel") body in
    let stamp = get_field "time" (Json.int 0) body in
    let (f1, h1) = check_set-Fits py stages stage category _ s s' r h in
    let (f2, h2) = check_set-Fits py errors error category _ s s' r h1 in
    let (f3, h3) = raise_if-eq-ok _ (value_error "report_id") _ s s' r h2 in
    let (f4, h4) = raise_if-eq-ok _ (value_error "elapsed") _ s s' r h3 in
    let (f5, h5) = raise_if-eq-ok _ (value_error "manager") _ s s' r h4 in
    let (f6, h6) = raise_if-eq-ok _ counter _ s s' r h5 in
    let (f7, h7) = raise_if-eq-ok _ counter _ s s' r h6 in
    let (f8, h8) = raise_if-eq-ok _ counter _ s s' r h7 in
    let (f9, h9) = check_set-Fits py platforms _ (value_error "platform") _ s s' r h8 in
    let (f10, h10) = raise_if-eq-ok _ (value_error "backend") _ s s' r h9 in
    let (f11, h11) = raise_if-eq-ok _ (value_error "time") _ s s' r h10 in
    let (f12, h12) =
      check_delivery-eq-ok py (get_field "previous_delivery_error" (Json.string "") body)
        (pure (kept_connection py body)) s s' r h11 in
    (
      subst (Conforms (connection_schema py)) (pure_inj {a = kept_connection py body} h12) (
        refl,
        refl,
        (
          refl,
          refl,
          (
            refl,
            (_, refl, not-false _ f5),
            (
              refl,
              not-false _ f3,
              (
                refl,
                f1,
                (
                  refl,
                  f2,
                  (
                    refl,
                    is_up_to-Fits 1800000 elapsed f4,
                    (
                      refl,
                      (_, refl),
                      (
                        refl,
                        (_, refl),
                        (
                          refl,
                          is_up_to-Fits 1000 received f6,
                          (
                            refl,
                            is_up_to-Fits 1000 sent f7,
                            (
                              refl,
                              is_up_to-Fits 1000 retransmits f8,
                              (
                                refl,
                                f9,
                                (
                                  refl,
                                  in_tuple-Fits backends backend f10,
                                  (refl, is_up_to-Fits 4102444800 stamp f11, (refl, f12, tt)),
                                ),
                              ),
                            ),
                          ),
                        ),
                      ),
                    ),
                  ),
                ),
              ),
            ),
          ),
        ),
      ),
      ap (λ p. p.1) h12,
    )
