-- ===== src/Collector/GlobalReport/Fits.antt =====
-- What a report that `clean_global_report` of server/diagnostic_collector.py accepts may hold.
use evgenium_network_linux.Prelude.{
  nat_eq, string_eq, none, [], All, List, Option, Option-cases, String, contains, if◌then◌else◌,
  inl, inr, keys, not, ok, pure_inj, some, subst, ◌==◌, ◌||◌, ◌∷◌, ◌≡◌, >>=-eq-ok, All-append, Bool,
  Error, Result, ap, continue-eq-ok, err-ne-ok, length, not-false, raise_if-eq-ok, refl, true,
  value_error, ◌++◌, ◌∙◌, all, and-true_left, and-true_right, arith, pure, suc, ◌≤◌,
}
use evgenium_network_linux.Prelude.Json.{Json, Fields, find_field, Items}
use evgenium_network_linux.Collector.Report.{
  Report, Python, is_delivery_error, is_truthy, get_field, in_set, in_tuple, is_true, is_up_to,
}
use evgenium_network_linux.Collector.Report.Fits.{
  Kind, Fits, exactly, one_of, up_to, flag, shaped, in_set-Fits, in_tuple-Fits, is_up_to-Fits,
  Conforms, check_delivery-eq-ok, check_set-Fits,
}
use evgenium_network_linux.Collector.GlobalReport.{
  clean_metrics, is_release, is_run, item_errors, metric_top, ru_domains, test_kinds, test_metrics,
  test_outcomes, clean_choice, clean_integrity, clean_item, clean_items, count_items, GlobalReport,
  checked_records, clean_global_report, kept_global,
}

-- the kinds of the fields that a record may have
abbrev pub other_kind : String → Option Kind
other_kind key =
    if key == "kind"
    then some (one_of test_kinds)
    else if key == "ok" || key == "integrity"
    then some flag
    else if key == "domain"
    then some (one_of ru_domains)
    else if key == "error"
    then some (one_of item_errors)
    else none

abbrev pub item_kind : String → Option Kind
item_kind key = if contains test_metrics key then some (up_to metric_top) else other_kind key

-- the field has a kind and its value is of that kind
abbrev pub Admitted : String × Json → Type 0
Admitted (key, v) = (kind : Kind) × (item_kind key ≡ some kind) × Fits kind v

abbrev pub head_schema : Python → List (String × Kind)
head_schema py =
    ("schema", exactly (Json.int 1))
    ∷ ("event", exactly (Json.string "global_test"))
    ∷ ("manager", shaped is_release)
    ∷ ("run", shaped is_run)
    ∷ ("outcome", one_of test_outcomes)
    ∷ ("duration_ms", up_to 1800000)
    ∷ (
      "previous_delivery_error",
      shaped (λ v. not (is_truthy py v) || is_delivery_error (py.str v)),
    )
    ∷ []

all-All : {A : Type 0} (p : A → Bool) (xs : List A) → all p xs ≡ true → All (λ x. p x ≡ true) xs
all-All p [] h = tt
all-All p (x ∷ xs) h = (and-true_left (p x) _ h, all-All p xs (and-true_right (p x) _ h))

metrics-known : All (λ k. contains test_metrics k ≡ true) test_metrics
metrics-known = all-All (contains test_metrics) test_metrics refl

metric_kind :
    (key : String) → contains test_metrics key ≡ true → item_kind key ≡ some (up_to metric_top)
metric_kind key h = ap (λ b. if b then some (up_to metric_top) else other_kind key) h

clean_integrity-Admitted : (entry : Fields) → All Admitted (clean_integrity entry)
unfolding clean_integrity
clean_integrity-Admitted entry = elim (Option-cases (find_field "integrity" entry)) [
  | inl missing ↦ rw (clean_integrity, missing) tt
  | inr (value, found) ↦ rw (clean_integrity, found) ((flag, refl, (is_true value, refl)), tt)
]

in_tuple_ok : (xs : List String) (v : Json) → ok (in_tuple xs v) ≡ ok true → Fits (one_of xs) v
in_tuple_ok xs v h = let e : in_tuple xs v ≡ true = cc in in_tuple-Fits xs v (ap not e)

module _ {S : Type 0} where
  -- the metrics are kinds of their own
  clean_metrics-Admitted :
      (keys : List String) (entry : Fields) (s s' : S) (r : Report)
      → All (λ k. contains test_metrics k ≡ true) keys
      → clean_metrics keys entry s ≡ (ok r, s')
      → All Admitted r
  unfolding clean_metrics
  clean_metrics-Admitted [] entry s s' r known h = subst (All Admitted) (pure_inj {a = []} h) tt
  clean_metrics-Admitted (key ∷ keys) entry s s' r known h =
      elim (Option-cases (find_field key entry)) [
        | inl missing ↦
            clean_metrics-Admitted keys entry s s' r known.1 (rw (clean_metrics, missing) at h)
        | inr (value, found) ↦
            let (fine, h1) =
              raise_if-eq-ok (not (is_up_to metric_top value)) (value_error "metric") _ s s' r
                (rw (clean_metrics, found) at h) in
            let (rest, t, e1, e2) = >>=-eq-ok (clean_metrics keys entry) _ s s' r h1 in
            subst (All Admitted) (pure_inj {a = (key, value) ∷ rest} e2) (
              (up_to metric_top, metric_kind key known.0, is_up_to-Fits metric_top value fine),
              clean_metrics-Admitted keys entry s t rest known.1 e1,
            )
      ]

  clean_choice-Admitted :
      (key : String) (kind : Kind) (e : Error) (allowed : Json → Result Bool) (entry : Fields)
      (s s' : S) (r : Report)
      → item_kind key ≡ some kind
      → ((v : Json) → allowed v ≡ ok true → Fits kind v)
      → clean_choice key e allowed entry s ≡ (ok r, s')
      → All Admitted r
  unfolding clean_choice
  clean_choice-Admitted key kind e allowed entry s s' r known fits h =
      elim (Option-cases (find_field key entry)) [
        | inl missing ↦
            subst (All Admitted) (pure_inj {a = []} (rw (clean_choice, missing) at h)) tt
        | inr (value, found) ↦
            let (yes_no, e1, h1) =
              continue-eq-ok (allowed value) s s' _ r (rw (clean_choice, found) at h) in
            let (good, h2) = raise_if-eq-ok (not yes_no) e _ s s' r h1 in
            subst (All Admitted) (pure_inj {a = (key, value) ∷ []} h2)
              ((kind, known, fits value (e1 ∙ ap ok (not-false yes_no good))), tt)
      ]

  clean_item-Admitted :
      (j : Json) (s s' : S) (r : Report) → clean_item j s ≡ (ok r, s') → All Admitted r
  unfolding clean_item
  clean_item-Admitted (Json.object entry) s s' r h =
      let kind = get_field "kind" Json.null entry in
      let (found, e1, h1) = continue-eq-ok (in_set test_kinds kind) s s' _ r h in
      let (known, h2) = raise_if-eq-ok (not found) (value_error "kind") _ s s' r h1 in
      let (domain, s1, e2, h3) =
        >>=-eq-ok
          (clean_choice "domain" (value_error "domain") (λ v. ok (in_tuple ru_domains v)) entry) _ s
          s' r h2 in
      let (metrics, s2, e3, h4) = >>=-eq-ok (clean_metrics test_metrics entry) _ s1 s' r h3 in
      let (error, s3, e4, h5) =
        >>=-eq-ok (clean_choice "error" (value_error "error") (in_set item_errors) entry) _ s2 s' r
          h4 in
      let ok_flag = is_true (get_field "ok" Json.null entry) in
      let tail = domain ++ (metrics ++ (error ++ clean_integrity entry)) in
      subst (All Admitted) (pure_inj {a = ("kind", kind) ∷ ("ok", Json.boolean ok_flag) ∷ tail} h5)
        (
          (
            one_of test_kinds,
            refl,
            in_set-Fits test_kinds kind (e1 ∙ ap ok (not-false found known)),
          ),
          (
            (flag, refl, (ok_flag, refl)),
            All-append Admitted domain _
                (clean_choice-Admitted "domain" (one_of ru_domains) (value_error "domain") _ entry s
                  s1 domain refl (in_tuple_ok ru_domains) e2)
                (All-append Admitted metrics _
                  (clean_metrics-Admitted test_metrics entry s1 s2 metrics metrics-known e3)
                  (All-append Admitted error _
                    (clean_choice-Admitted "error" (one_of item_errors) (value_error "error") _
                      entry s2 s3 error refl (in_set-Fits item_errors) e4)
                    (clean_integrity-Admitted entry))),
          ),
        )
  clean_item-Admitted _ s s' r h = absurd (err-ne-ok (ap (λ p. p.0) h))

  clean_items-Admitted :
      (items : Items) (s s' : S) (rs : List Report)
      → clean_items items s ≡ (ok rs, s')
      → All (All Admitted) rs × (length rs ≡ count_items items)
  unfolding clean_items
  clean_items-Admitted Items.no_items s s' rs h =
      subst (λ x. All (All Admitted) x × (length x ≡ 0)) (pure_inj {a = []} h) (tt, refl)
  clean_items-Admitted (Items.item j items) s s' rs h =
      let (row, t, e1, h1) = >>=-eq-ok (clean_item j) _ s s' rs h in
      let (rest, u, e2, h2) = >>=-eq-ok (clean_items items) _ t s' rs h1 in
      let (fits, counted) = clean_items-Admitted items t u rest e2 in
      subst (λ x. All (All Admitted) x × (length x ≡ suc (count_items items)))
        (pure_inj {a = row ∷ rest} h2) ((clean_item-Admitted j s t row e1, fits), ap suc counted)

checked_records-eq-ok :
    (v : Json) (items : Items) → checked_records v ≡ ok items → count_items items ≤ 256
unfolding checked_records
checked_records-eq-ok (Json.array xs) items h = ground arith
checked_records-eq-ok _ items h = absurd (err-ne-ok h)

-- A report of the global test is accepted with exactly the seven fields of the schema beside its
-- records, at most 256 of them, and each record holds only known fields within their bounds.
pub clean_global_report-Conforms :
    {S : Type 0} (py : Python) (body : Fields) (s s' : S) (r : GlobalReport)
    → clean_global_report py body s ≡ (ok r, s')
    → Conforms (head_schema py) r.head × All (All Admitted) r.records × (length r.records ≤ 256)
unfolding clean_global_report
clean_global_report-Conforms py body s s' r h =
    let version = get_field "manager" (Json.string "") body in
    let run = get_field "run" (Json.string "") body in
    let outcome = get_field "outcome" Json.null body in
    let duration = get_field "duration_ms" (Json.int 0) body in
    let previous = get_field "previous_delivery_error" (Json.string "") body in
    let (f1, h1) = raise_if-eq-ok (not (is_release version)) (value_error "version") _ s s' r h in
    let (f2, h2) = raise_if-eq-ok (not (is_run run)) (value_error "run") _ s s' r h1 in
    let (f3, h3) = check_set-Fits py test_outcomes outcome (value_error "outcome") _ s s' r h2 in
    let (items, e4, h4) =
      continue-eq-ok (checked_records (get_field "records" Json.null body)) s s' _ r h3 in
    let (records, t, e5, h5) = >>=-eq-ok (clean_items items) _ s s' r h4 in
    let (f6, h6) =
      raise_if-eq-ok (not (is_up_to 1800000 duration)) (value_error "duration") _ t s' r h5 in
    let (f7, h7) = check_delivery-eq-ok py previous (pure (kept_global body records)) t s' r h6 in
    let (fits, counted) = clean_items-Admitted items s t records e5 in
    let few = checked_records-eq-ok (get_field "records" Json.null body) items e4 in
    subst
      (λ (x : GlobalReport).
        Conforms (head_schema py) x.head × All (All Admitted) x.records × (length x.records ≤ 256))
      (pure_inj {a = kept_global body records} h7)
      (
        (
          refl,
          refl,
          (
            refl,
            refl,
            (
              refl,
              not-false _ f1,
              (
                refl,
                not-false _ f2,
                (refl, f3, (refl, is_up_to-Fits 1800000 duration f6, (refl, f7, tt))),
              ),
            ),
          ),
        ),
        fits,
        omega (arith, counted, few),
      )
