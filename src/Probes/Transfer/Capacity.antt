-- ===== src/Probes/Transfer/Capacity.antt =====
-- The limits of `issue` of server/transfer_probe.py.
use evgenium_network_linux.Prelude.{
  nat_eq, bytes_eq, string_eq, All, Bool-cases, Dict, Option, Option-cases, String, arith, count_if,
  false, get, get_or, has, inl, inr, length, length-put, length-put_known, none, put, some, true,
  values, ℕ, ◌*◌, ◌<◌, ◌==◌, ◌||◌, ◌≡◌, ◌≤◌, ◌⊎◌, All-values-keep, All-values-put, count_if-keep,
  count_if-put, length-keep, ltb, refl, subst, sym, ◌+◌, ◌∙◌,
}
use evgenium_network_linux.Probes.Transfer.{
  Wire, Transfers, Session, Bytes, is_full, issue, issue_at, live, owned_by, recent, new_session,
}

-- at most 256 sessions and 12 of one owner, at most 4096 owners with a count, each at most 180
pub record IsBounded {E : Type 0} (t : Transfers E) : Type 0 where
  pub sessions : length t.sessions ≤ 256
  pub owned : (owner : Bytes) → count_if (owned_by owner) (values t.sessions) ≤ 12
  pub owners : length t.rates ≤ 4096
  pub opened : All (λ (r : ℕ × ℕ). r.1 ≤ 180) (values t.rates)

-- what the test of `issue` lets through
record HasRoom (owner : Bytes) (rate : ℕ) (s : Dict String Session) (r : Dict Bytes (ℕ × ℕ))
    : Type 0 where
  sessions : length s < 256
  owned : count_if (owned_by owner) (values s) < 12
  opened : rate < 180
  owners : (length r < 4096) ⊎ (has owner r ≡ true)

is_full-HasRoom :
    (owner : Bytes) (opened : ℕ) (s : Dict String Session) (r : Dict Bytes (ℕ × ℕ))
    → is_full owner opened s r ≡ false
    → HasRoom owner opened s r
unfolding is_full
is_full-HasRoom owner opened s r h = record {
  sessions = ground arith;
  owned = ground arith;
  opened = ground arith;
  owners = elim (Bool-cases (has owner r)) [
    | inl known ↦ inr known
    | inr unknown ↦ inl (ground arith)
  ];
}

length-put_bounded :
    (owner : Bytes) (v : ℕ × ℕ) (r : Dict Bytes (ℕ × ℕ)) (n : ℕ)
    → length r ≤ n
    → (length r < n) ⊎ (has owner r ≡ true)
    → length (put owner v r) ≤ n
length-put_bounded owner v r n le (inl lt) = omega (arith, length-put owner v r)
length-put_bounded owner v r n le (inr known) = elim (Option-cases (get owner r)) [
  | inl missing ↦ absurd (let e : false ≡ true = rw (has, missing) at known in cc)
  | inr (old, found) ↦ omega (arith, length-put_known owner v old r found)
]

pruned_owned :
    {E : Type 0} (now : ℕ) (owner : Bytes) (t : Transfers E)
    → IsBounded t
    → count_if (owned_by owner) (values (live now t.sessions)) ≤ 12
pruned_owned now owner t b = omega (
  arith,
  count_if-keep (λ (e : String × Session). ltb now e.1.expires) (owned_by owner) t.sessions,
  b.owned owner,
)

-- One more session of an owner who has fewer than twelve.
new_owned :
    (owner o : Bytes) (sid : String) (new : Session)
    → new.owner ≡ owner
    → (s : Dict String Session) → count_if (owned_by owner) (values s) < 12
    → count_if (owned_by o) (values s) ≤ 12
    → count_if (owned_by o) (values (put sid new s)) ≤ 12
new_owned owner o sid new mine s room le = elim (Bool-cases (new.owner == o)) [
  | inl same ↦
      let e : owner ≡ o = sym mine ∙ (bytes_eq.beq_iff new.owner o).0 same in
      let fewer : count_if (owned_by o) (values s) < 12 =
        subst (λ x. count_if (owned_by x) (values s) < 12) e room in
      ground (arith, count_if-put (owned_by o) sid new s, same, fewer)
  | inr other ↦ ground (arith, count_if-put (owned_by o) sid new s, other)
]

module _ {E : Type 0} (wire : Wire E) where
  issue_at-IsBounded :
      (owner : Bytes) (size now : ℕ) (t : Transfers E)
      → IsBounded t
      → IsBounded (issue_at wire owner size now t).1
  unfolding issue_at
  issue_at-IsBounded owner size now t b =
      let s = live now t.sessions in
      let r = recent (3600 * wire.second) now t.rates in
      let rate = get_or owner (now, 0) r in
      let kept = λ (e : Bytes × (ℕ × ℕ)). ltb now (e.1.0 + 3600 * wire.second) in
      let opened = All-values-keep kept (λ x. x.1 ≤ 180) t.rates b.opened in
      let sid = (wire.token_hex 16 t.env).0 in
      let new = new_session owner (now + 180 * wire.second) size in
      elim (Bool-cases (is_full owner rate.1 s r)) [
        | inl full ↦
            rw (issue_at, full)
              (record {
                sessions = omega (
                  arith,
                  length-keep (λ (e : String × Session). ltb now e.1.expires) t.sessions,
                  b.sessions,
                );
                owned = λ o. pruned_owned now o t b;
                owners = omega (arith, length-keep kept t.rates, b.owners);
                opened = opened;
              })
        | inr room ↦
            let h = is_full-HasRoom owner rate.1 s r room in
            rw (issue_at, room)
              (record {
                sessions = omega (arith, length-put sid new s, h.sessions);
                owned = λ o. new_owned owner o sid new refl s h.owned (pruned_owned now o t b);
                owners =
                    length-put_bounded owner (rate.0, rate.1 + 1) r 4096
                      (omega (arith, length-keep kept t.rates, b.owners)) h.owners;
                opened =
                    All-values-put (λ x. x.1 ≤ 180) owner (rate.0, rate.1 + 1) r
                      (omega (arith, h.opened)) opened;
              })
      ]

  -- `issue` keeps the limits, whether it opens a session or raises.
  pub issue-IsBounded :
      (owner : Bytes) (size : Option ℕ) (t : Transfers E)
      → IsBounded t
      → IsBounded (issue wire owner size t).1
  unfolding issue
  issue-IsBounded owner none t b = b
  issue-IsBounded owner (some size) t b = elim (Bool-cases (size == 32768 || size == 4194304)) [
    | inl allowed ↦
        let (now, env) = wire.clock t.env in
        let b' : IsBounded (record t { env = env }) = record {
          sessions = b.sessions;
          owned = b.owned;
          owners = b.owners;
          opened = b.opened;
        } in
        rw (issue, allowed) (issue_at-IsBounded owner size now (record t { env = env }) b')
    | inr other ↦ rw (issue, other) b
  ]
