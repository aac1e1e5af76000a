-- ===== src/Collector/SiteReport/Fits.antt =====
-- What a report on web sites that server/diagnostic_collector.py accepts may hold.
use evgenium_network_linux.Prelude.{
  nat_eq, string_eq, Bool, [], >>=-eq-ok, All, Bool-cases, List, String, ap, arith, continue-eq-ok,
  err-ne-ok, inl, inr, length, not, not-false, ok, pure_inj, raise_if-eq-ok, refl, subst, suc, true,
  value_error, ℕ, ◌&&◌, ◌∷◌, ◌≡◌, ◌≤◌,
}
use evgenium_network_linux.Prelude.Json.{Json, Fields, Items}
use evgenium_network_linux.Collector.Report.{Report, get_field, is_true, in_tuple}
use evgenium_network_linux.Collector.Report.Fits.{
  Kind, Conforms, exactly, one_of, up_to, flag, shaped, text, in_tuple-Fits,
}
use evgenium_network_linux.Collector.GlobalReport.{count_items, is_release}
use evgenium_network_linux.Collector.SiteReport.{
  SiteReport, Reader, clean_sites, Whole, below_zero, checked_domain, checked_probes, clamp,
  clean_probe, clean_probes, is_domain, kept_sites, natural,
}

-- a domain that is no address
abbrev pub is_site : Reader → String → Bool
is_site reader name = is_domain name && not (reader.is_address name)

abbrev pub probe_schema : Reader → List (String × Kind)
probe_schema reader =
    ("domain", text (is_site reader))
    ∷ ("ok", flag)
    ∷ ("latency_ms", up_to 120000)
    ∷ ("http_status", up_to 599)
    ∷ []

abbrev pub sites_schema : List (String × Kind)
sites_schema =
    ("schema", exactly (Json.int 1))
    ∷ ("event", one_of ("sample" ∷ "site_report" ∷ []))
    ∷ ("manager", shaped is_release)
    ∷ []

clamp-le : (top : ℕ) (n : Whole) → clamp top n ≤ top
unfolding clamp
clamp-le top (natural n) = omega arith
clamp-le top below_zero = omega arith

checked_domain-Fits :
    (reader : Reader) (v : Json) (name : String)
    → checked_domain reader v ≡ ok name
    → is_site reader name ≡ true
unfolding checked_domain
checked_domain-Fits reader (Json.string s) name h = elim (Bool-cases (is_domain s)) [
  | inr bad ↦ absurd (err-ne-ok (rw (checked_domain, bad) at h))
  | inl good ↦ elim (Bool-cases (reader.is_address s)) [
    | inl numeric ↦ absurd (err-ne-ok (rw (checked_domain, good, numeric) at h))
    | inr named ↦
        let e : ok s ≡ ok name = rw (checked_domain, good, named) at h in
        let same : s ≡ name = cc in rw (← same) (rw (good, named) refl)
  ]
]
checked_domain-Fits reader _ name h = absurd (err-ne-ok h)

module _ {S : Type 0} (reader : Reader) where
  clean_probe-Conforms :
      (j : Json) (s s' : S) (r : Report)
      → clean_probe reader j s ≡ (ok r, s')
      → Conforms (probe_schema reader) r
  unfolding clean_probe
  clean_probe-Conforms (Json.object entry) s s' r h =
      let domain = get_field "domain" (Json.string "") entry in
      let (name, e1, h1) = continue-eq-ok (checked_domain reader domain) s s' _ r h in
      let (latency, e2, h2) =
        continue-eq-ok (reader.int_of (get_field "latency_ms" (Json.int 0) entry)) s s' _ r h1 in
      let (status, e3, h3) =
        continue-eq-ok (reader.int_of (get_field "http_status" (Json.int 0) entry)) s s' _ r h2 in
      subst (Conforms (probe_schema reader))
        (pure_inj
          {a = ("domain", Json.string name)
            ∷ ("ok", Json.boolean (is_true (get_field "ok" Json.null entry)))
            ∷ ("latency_ms", Json.int (clamp 120000 latency))
            ∷ ("http_status", Json.int (clamp 599 status))
            ∷ []}
          h3)
        (
          refl,
          (name, refl, checked_domain-Fits reader domain name e1),
          (
            refl,
            (_, refl),
            (refl, (_, refl, clamp-le 120000 latency), (refl, (_, refl, clamp-le 599 status), tt)),
          ),
        )
  clean_probe-Conforms _ s s' r h = absurd (err-ne-ok (ap (λ p. p.0) h))

  clean_probes-Conforms :
      (items : Items) (s s' : S) (rs : List Report)
      → clean_probes reader items s ≡ (ok rs, s')
      → All (Conforms (probe_schema reader)) rs × (length rs ≡ count_items items)
  unfolding clean_probes
  clean_probes-Conforms Items.no_items s s' rs h =
      subst (λ x. All (Conforms (probe_schema reader)) x × (length x ≡ 0)) (pure_inj {a = []} h)
        (tt, refl)
  clean_probes-Conforms (Items.item j items) s s' rs h =
      let (row, t, e1, h1) = >>=-eq-ok (clean_probe reader j) _ s s' rs h in
      let (rest, u, e2, h2) = >>=-eq-ok (clean_probes reader items) _ t s' rs h1 in
      let (fits, counted) = clean_probes-Conforms items t u rest e2 in
      subst (λ x. All (Conforms (probe_schema reader)) x × (length x ≡ suc (count_items items)))
        (pure_inj {a = row ∷ rest} h2) ((clean_probe-Conforms j s t row e1, fits), ap suc counted)

checked_probes-eq-ok :
    (v : Json) (items : Items)
    → checked_probes v ≡ ok items
    → (1 ≤ count_items items) × (count_items items ≤ 8)
checked_probes-eq-ok (Json.array xs) items h = ground arith
checked_probes-eq-ok _ items h = absurd (err-ne-ok h)

-- A report on web sites is accepted with exactly the three fields of its schema beside one to
-- eight probes; each probe holds a domain name that is no address, and three fields within their
-- bounds.
pub clean_sites-Conforms :
    {S : Type 0} (reader : Reader) (body : Fields) (s s' : S) (r : SiteReport)
    → clean_sites reader body s ≡ (ok r, s')
    → Conforms sites_schema r.head
      × All (Conforms (probe_schema reader)) r.probes
      × (1 ≤ length r.probes)
      × (length r.probes ≤ 8)
unfolding clean_sites
clean_sites-Conforms reader body s s' r h =
    let event = get_field "event" Json.null body in
    let events : List String = "sample" ∷ "site_report" ∷ [] in
    let (f1, h1) = raise_if-eq-ok (not (in_tuple events event)) (value_error "event") _ s s' r h in
    let (items, e2, h2) =
      continue-eq-ok (checked_probes (get_field "probes" Json.null body)) s s' _ r h1 in
    let (probes, t, e3, h3) = >>=-eq-ok (clean_probes reader items) _ s s' r h2 in
    let version = get_field "manager" (Json.string "") body in
    let (f4, h4) = raise_if-eq-ok (not (is_release version)) (value_error "version") _ t s' r h3 in
    let (fits, counted) = clean_probes-Conforms reader items s t probes e3 in
    let (some_probe, few) = checked_probes-eq-ok (get_field "probes" Json.null body) items e2 in
    subst
      (λ (x : SiteReport).
        Conforms sites_schema x.head
        × All (Conforms (probe_schema reader)) x.probes
        × (1 ≤ length x.probes)
        × (length x.probes ≤ 8))
      (pure_inj {a = kept_sites body probes} h4)
      (
        (refl, refl, (refl, in_tuple-Fits events event f1, (refl, not-false _ f4, tt))),
        fits,
        omega (arith, counted, some_probe),
        omega (arith, counted, few),
      )
