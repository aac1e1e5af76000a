-- ===== src/Collector/Store/Limits.antt =====
-- That `store_report` of server/diagnostic_collector.py keeps the limits on support bundles.
use mathlib.Core.Path.{Σ_path}
use evgenium_network_linux.Prelude.{
  nat_eq, string_eq, err, [], All, All-values-keep, All-values-put, Bool-cases, Exec, List,
  Option-cases, Result, String, ap, arith, continue, err-ne-ok, get, inl, inr, leb, length,
  length-keep, length-put, length-put_known, ok, put, refl, some, subst, sym, values, ℕ, ◌<◌, ◌==◌,
  ◌∷◌, ◌≡◌, ◌≤◌, get-put_self, pure_inj, ◌∙◌, >>=-eq-ok, contains, pure, raise_if-eq-ok,
  value_error, ◌/◌, ◌≢◌, key_error, or_raise, raise_if, Option, none, ◌>>=◌,
}
use evgenium_network_linux.Collector.Store.{
  Collector, drop_old, entry_of, Cleaned, Disk, admit_support, append_line, now, prune,
  store_record, store_support, Admission, fresh, max_size, repeated, size_of, unless_repeated,
  record_admitted,
}

-- at most 8192 devices with an entry, and at most six ids in each
pub record IsLimited {E : Type 0} (s : Collector E) : Type 0 where
  pub devices : length s.limits ≤ 8192
  pub ids : All (λ (e : ℕ × List String). length e.1 ≤ 6) (values s.limits)

module _ {E : Type 0} where
  IsLimited-limits : (s t : Collector E) → t.limits ≡ s.limits → IsLimited s → IsLimited t
  IsLimited-limits s t e h = record {
    devices = subst (λ l. length l ≤ 8192) (sym e) h.devices;
    ids = subst (λ l. All (λ (x : ℕ × List String). length x.1 ≤ 6) (values l)) (sym e) h.ids;
  }

  continue-IsLimited :
      {A B : Type 0} (r : Result A) (s : Collector E) (f : A → Exec (Collector E) B)
      → IsLimited s
      → ((a : A) → r ≡ ok a → IsLimited (f a s).1)
      → IsLimited (continue r s f).1
  continue-IsLimited (ok a) s f h rest = rest a refl
  continue-IsLimited (err e) s f h rest = h

  drop_old-IsLimited : (hour : ℕ) (s : Collector E) → IsLimited s → IsLimited (drop_old hour s)
  unfolding drop_old
  drop_old-IsLimited hour s h =
      let q = λ (e : String × (ℕ × List String)). e.1.0 == hour in
      record {
        devices = omega (arith, length-keep q s.limits, h.devices);
        ids = All-values-keep q _ s.limits h.ids;
      }

  -- the entry that is made is empty, and there is room for it
  entry_of-IsLimited :
      (device : String) (hour : ℕ) (s : Collector E)
      → IsLimited s
      → IsLimited (entry_of device hour s).1
  unfolding entry_of
  entry_of-IsLimited device hour s h = elim (Option-cases (get device s.limits)) [
    | inr ((since, ids), found) ↦ rw (entry_of, found) h
    | inl missing ↦ elim (Bool-cases (leb 8192 (length s.limits))) [
      | inl full ↦ rw (entry_of, missing, full) h
      | inr room ↦
          rw (entry_of, missing, room)
            (record {
              devices = ground (arith, length-put device (hour, []) s.limits);
              ids = All-values-put _ device (hour, []) s.limits (omega arith) h.ids;
            })
    ]
  ]

  entry_of-eq-ok :
      (device : String) (hour : ℕ) (s s' : Collector E) (ids : List String)
      → entry_of device hour s ≡ (ok ids, s')
      → (since : ℕ) × (get device s'.limits ≡ some (since, ids))
  unfolding entry_of
  entry_of-eq-ok device hour s s' ids h = elim (Option-cases (get device s.limits)) [
    | inr ((since, old), found) ↦
        let e : (ok old, s) ≡ (ok ids, s') = rw (entry_of, found) at h in
        (
          since,
          ap (λ x. get device x.limits) (sym (ap (λ p. p.1) e))
              ∙ found
              ∙ ap (λ l. some (since, l)) (pure_inj e),
        )
    | inl missing ↦ elim (Bool-cases (leb 8192 (length s.limits))) [
      | inl full ↦ absurd (err-ne-ok (ap (λ p. p.0) (rw (entry_of, missing, full) at h)))
      | inr room ↦
          let s2 = record s { limits = put device (hour, []) s.limits } in
          let e : (ok [], s2) ≡ (ok ids, s') = rw (entry_of, missing, room) at h in
          (
            hour,
            ap (λ x. get device x.limits) (sym (ap (λ p. p.1) e))
                ∙ get-put_self device (hour, []) s.limits
                ∙ ap (λ l. some (hour, l)) (pure_inj e),
          )
    ]
  ]

  -- one more id at an entry that has fewer than six
  put-IsLimited :
      (device id : String) (since hour : ℕ) (ids : List String) (s : Collector E)
      → IsLimited s
      → get device s.limits ≡ some (since, ids)
      → length ids < 6
      → IsLimited (record s { limits = put device (hour, id ∷ ids) s.limits })
  put-IsLimited device id since hour ids s h found few = record {
    devices =
        omega
          (arith, length-put_known device (hour, id ∷ ids) (since, ids) s.limits found, h.devices);
    ids = All-values-put _ device (hour, id ∷ ids) s.limits (omega (arith, few)) h.ids;
  }

repeated-ne-fresh : repeated ≢ fresh
repeated-ne-fresh h = cc

module _ {E : Type 0} (disk : Disk E) where
  append_line-limits : (r : Cleaned) (s : Collector E) → (append_line disk r s).1.limits ≡ s.limits
  unfolding append_line now
  append_line-limits r s =
      let (t, env) = disk.time s.env in
      let name = disk.log_name t in
      elim (Bool-cases (leb max_size (size_of (get name s.logs)))) [
        | inl full ↦ rw (append_line, full) refl
        | inr room ↦ elim (Bool-cases (disk.append name env).0) [
          | inl done ↦ rw (append_line, room, done) refl
          | inr failed ↦ rw (append_line, room, failed) refl
        ]
      ]

  unless_repeated-IsLimited :
      (ids : List String) (id : String) (hour : ℕ) (s : Collector E)
      → IsLimited s
      → IsLimited (unless_repeated ids id hour s).1
  unfolding unless_repeated
  unless_repeated-IsLimited ids id hour s h = elim (Bool-cases (contains ids id)) [
    | inl old ↦ rw (unless_repeated, old) h
    | inr new ↦
        rw (unless_repeated, new)
          (continue-IsLimited (raise_if (leb 6 (length ids)) (value_error "hourly_limit") s).0 s _ h
            (λ u e. h))
  ]

  unless_repeated-eq-ok :
      (ids : List String) (id : String) (hour : ℕ) (s s' : Collector E)
      (found : Admission × List String × ℕ)
      → unless_repeated ids id hour s ≡ (ok found, s')
      → found.0 ≡ fresh
      → (found.1 ≡ ids) × (length ids < 6) × (s ≡ s')
  unfolding unless_repeated
  unless_repeated-eq-ok ids id hour s s' found h is_fresh = elim (Bool-cases (contains ids id)) [
    | inl old ↦
        let e = rw (unless_repeated, old) at h in
        let same : (repeated, ids, hour) ≡ found = pure_inj e in
        absurd (repeated-ne-fresh (ap (λ x. x.0) same ∙ is_fresh))
    | inr new ↦
        let (few, rest) =
          raise_if-eq-ok (leb 6 (length ids)) (value_error "hourly_limit") (pure (fresh, ids, hour))
            s s' found (rw (unless_repeated, new) at h) in
        let same : (fresh, ids, hour) ≡ found = pure_inj rest in
        (sym (ap (λ x. x.1) same), ground arith, ap (λ p. p.1) rest)
  ]

  admit_support-IsLimited :
      (device id : String) (s : Collector E)
      → IsLimited s
      → IsLimited (admit_support disk device id s).1
  unfolding admit_support now
  admit_support-IsLimited device id s h =
      let (t, env) = disk.time s.env in
      let hour = t / disk.second / 3600 in
      let pruned = drop_old hour (record s { env = env }) in
      let ready =
        drop_old-IsLimited hour (record s { env = env })
          (IsLimited-limits s (record s { env = env }) refl h) in
      let made = entry_of device hour pruned in
      continue-IsLimited made.0 made.1 _ (entry_of-IsLimited device hour pruned ready) (λ ids e.
        unless_repeated-IsLimited ids id hour made.1 (entry_of-IsLimited device hour pruned ready))

  admit_support-eq-ok :
      (device id : String) (s s' : Collector E) (found : Admission × List String × ℕ)
      → admit_support disk device id s ≡ (ok found, s')
      → found.0 ≡ fresh
      → (since : ℕ) × (get device s'.limits ≡ some (since, found.1)) × (length found.1 < 6)
  unfolding admit_support now
  admit_support-eq-ok device id s s' found h is_fresh =
      let (t, env) = disk.time s.env in
      let hour = t / disk.second / 3600 in
      let pruned = drop_old hour (record s { env = env }) in
      let (ids, u, e1, e2) = >>=-eq-ok (entry_of device hour) _ pruned s' found h in
      let (since, entry) = entry_of-eq-ok device hour pruned u ids e1 in
      let (same, few, after) = unless_repeated-eq-ok ids id hour u s' found e2 is_fresh in
      (
        since,
        ap (λ x. get device x.limits) (sym after) ∙ entry ∙ ap (λ l. some (since, l)) (sym same),
        subst (λ l. length l < 6) (sym same) few,
      )

  record_admitted-IsLimited :
      (r : Cleaned) (id : String) (found : Admission × List String × ℕ) (s : Collector E)
      → IsLimited s
      → (found.0 ≡ fresh
          → (since : ℕ) × (get r.device s.limits ≡ some (since, found.1)) × (length found.1 < 6))
      → IsLimited (record_admitted disk r id found s).1
  unfolding record_admitted
  record_admitted-IsLimited r id (repeated, ids, hour) s h room = h
  record_admitted-IsLimited r id (fresh, ids, hour) s h room =
      let written = append_line disk r s in
      let same = append_line-limits r s in
      let kept = IsLimited-limits s written.1 same h in
      let (since, found, few) = room refl in
      continue-IsLimited written.0 written.1 _ kept (λ u e.
        put-IsLimited r.device id since hour ids written.1 kept (ap (get r.device) same ∙ found)
          few)

  store_support-IsLimited :
      (r : Cleaned) (id : String) (s : Collector E)
      → IsLimited s
      → IsLimited (store_support disk r id s).1
  unfolding store_support
  store_support-IsLimited r id s h =
      let admitted = admit_support disk r.device id s in
      let kept = admit_support-IsLimited r.device id s h in
      continue-IsLimited admitted.0 admitted.1 _ kept (λ found e.
        record_admitted-IsLimited r id found admitted.1 kept
          (admit_support-eq-ok r.device id s admitted.1 found (Σ_path e refl)))

  bundle-IsLimited :
      (r : Cleaned) (o : Option String) (s : Collector E)
      → IsLimited s
      → IsLimited ((or_raise o key_error >>= store_support disk r) s).1
  bundle-IsLimited r none s h = h
  bundle-IsLimited r (some id) s h = store_support-IsLimited r id s h

  -- `store_report` keeps the limits on support bundles, whether it stores the record or raises, at
  -- whichever step: the disk may fail, the day's file or the device's hour may be full.
  pub store_record-IsLimited :
      (r : Cleaned) (s : Collector E) → IsLimited s → IsLimited (store_record disk r s).1
  unfolding store_record prune now
  store_record-IsLimited r s h =
      let pruned = (prune disk (now disk s).1).1 in
      let ready : IsLimited pruned = IsLimited-limits s pruned refl h in
      elim (Bool-cases (r.event == "support_bundle")) [
        | inl bundle ↦ rw (store_record, bundle) (bundle-IsLimited r r.report_id pruned ready)
        | inr other ↦
            rw (store_record, other)
              (IsLimited-limits pruned (append_line disk r pruned).1 (append_line-limits r pruned)
                ready)
      ]
