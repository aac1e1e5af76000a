-- ===== src/Link/Repair/Response.antt =====
-- That scripts/server-link/health.py switches a transport that stays silent.
use evgenium_network_linux.Prelude.{
  nat_eq, string_eq, Bool, List, ℕ, [], ◌+◌, ◌∷◌, keep, length, true, false, Bool-cases, arith, ◌≡◌,
  ◌≤◌, ◌<◌, refl, inl, inr, leb, ◌⊎◌, ltb, String, if◌then◌else◌, not, ◌||◌,
}
use evgenium_network_linux.Link.Repair.{
  Memory, Findings, is_recent, run_once, switch_own_transport, needs_action, needs_endpoint_repair,
  needs_switch, switch_target, is_reachable, count_failure, action_of, restart_own_link,
  restore_selected_endpoint,
}

-- The link is up and its peer is silent, the underlay is not known to be down, the retry time has
-- come, and fewer than five attempts are recent.
pub record IsDue (second : ℕ) (s : Memory) (r : Findings) : Type 0 where
  pub up : r.local_ok ≡ true
  pub silent : r.inner ≡ false
  pub reachable : is_reachable r ≡ true
  pub due : s.retry_after ≤ r.now
  pub room : length (keep (is_recent second r.now) s.attempts) < 5

-- fewer attempts are left, and no later retry time
record IsEasier (second : ℕ) (s s' : Memory) : Type 0 where
  pub sooner : s'.retry_after ≤ s.retry_after
  pub fewer :
      (now : ℕ)
      → length (keep (is_recent second now) s'.attempts)
        ≤ length (keep (is_recent second now) s.attempts)

length-keep_twice :
    (p q : ℕ → Bool) (xs : List ℕ) → length (keep p (keep q xs)) ≤ length (keep p xs)
length-keep_twice p q [] = omega arith
length-keep_twice p q (x ∷ xs) =
    let rest = length-keep_twice p q xs in
    elim (Bool-cases (q x)) [
      | inl kept ↦ elim (Bool-cases (p x)) [
        | inl once ↦ rw (kept, once) (omega (arith, rest))
        | inr gone ↦ rw (kept, gone) rest
      ]
      | inr dropped ↦ elim (Bool-cases (p x)) [
        | inl once ↦ rw (dropped, once) (omega (arith, rest))
        | inr gone ↦ rw (dropped, gone) rest
      ]
    ]

abbrev Switches : ℕ → Memory → Findings → Type 0
Switches second s r = (run_once second "star" r s).0 ≡ switch_own_transport (switch_target r)

IsDue-IsEasier :
    (second : ℕ) (s s' : Memory) (r : Findings)
    → IsDue second s r
    → IsEasier second s s'
    → IsDue second s' r
IsDue-IsEasier second s s' r h e = record {
  up = h.up;
  silent = h.silent;
  reachable = h.reachable;
  due = omega (arith, e.sooner, h.due);
  room = omega (arith, e.fewer r.now, h.room);
}

only_switch :
    (up switch repair wanted : Bool)
    → up ≡ true
    → repair ≡ false
    → switch ≡ wanted
    → (not up || switch || repair) ≡ wanted
only_switch up switch repair true is_up healthy same = rw (is_up, healthy, same) refl
only_switch up switch repair false is_up healthy same = rw (is_up, healthy, same) refl

switch_last :
    (up repair : Bool) (target : String)
    → up ≡ true
    → repair ≡ false
    → (if not up
        then restart_own_link
        else if repair
        then restore_selected_endpoint
        else switch_own_transport target)
      ≡ switch_own_transport target
switch_last up repair target is_up healthy = rw (is_up, healthy) refl

module _ (second : ℕ) (s : Memory) (r : Findings) (h : IsDue second s r) where
  count_failure-silent : count_failure "star" r s ≡ s.failures + 1
  unfolding count_failure
  count_failure-silent = rw (count_failure, h.silent) refl

  needs_endpoint_repair-silent : needs_endpoint_repair "star" r s ≡ false
  unfolding needs_endpoint_repair
  needs_endpoint_repair-silent = rw (needs_endpoint_repair, h.up, h.silent) refl

  needs_switch-silent : needs_switch "star" r s ≡ leb 3 (s.failures + 1)
  unfolding needs_switch
  needs_switch-silent =
      rw (needs_switch, h.up, h.reachable, count_failure-silent)
        (elim (Bool-cases (leb 3 (s.failures + 1))) [
          | inl thrice ↦ rw (thrice) refl
          | inr seldom ↦ rw (seldom) refl
        ])

  needs_action-silent : needs_action "star" r s ≡ leb 3 (s.failures + 1)
  unfolding needs_action
  needs_action-silent =
      only_switch r.local_ok (needs_switch "star" r s) (needs_endpoint_repair "star" r s) _ h.up
        needs_endpoint_repair-silent needs_switch-silent

  action_of-silent : action_of "star" r s ≡ switch_own_transport (switch_target r)
  unfolding action_of
  action_of-silent =
      switch_last r.local_ok (needs_endpoint_repair "star" r s) (switch_target r) h.up
        needs_endpoint_repair-silent

  run_once-silent :
      Switches second s r
      ⊎ (((run_once second "star" r s).1.failures ≡ s.failures + 1)
          × (s.failures + 1 < 3)
          × IsEasier second s (run_once second "star" r s).1)
  unfolding run_once
  run_once-silent = elim (Bool-cases (leb 3 (s.failures + 1))) [
    | inl thrice ↦ inl (
        let due : leb s.retry_after r.now ≡ true = ground (arith, h.due) in
        let room : ltb (length (keep (is_recent second r.now) s.attempts)) 5 ≡ true =
          ground (arith, h.room) in
        rw (run_once, needs_action-silent, thrice, due, room) action_of-silent)
    | inr seldom ↦ inr (
        rw (run_once, needs_action-silent, seldom)
          (
            count_failure-silent,
            ground arith,
            record {
              sooner = omega arith;
              fewer = λ now.
                  length-keep_twice (is_recent second now) (is_recent second r.now) s.attempts;
            },
          ))
  ]

-- Three runs on 'star', each of which finds the link up, its peer silent, the underlay not known to
-- be down, the retry time come and fewer than five recent attempts (both by the memory before the
-- first), switch the transport: the first of them, the second or the third.
pub run_once-switches :
    (second : ℕ) (s : Memory) (r1 r2 r3 : Findings)
    → IsDue second s r1
    → IsDue second s r2
    → IsDue second s r3
    → let s1 = (run_once second "star" r1 s).1 in
      let s2 = (run_once second "star" r2 s1).1 in
      ((run_once second "star" r1 s).0 ≡ switch_own_transport (switch_target r1))
      ⊎ (((run_once second "star" r2 s1).0 ≡ switch_own_transport (switch_target r2))
          ⊎ ((run_once second "star" r3 s2).0 ≡ switch_own_transport (switch_target r3)))
run_once-switches second s r1 r2 r3 h1 h2 h3 =
    let s1 = (run_once second "star" r1 s).1 in
    let s2 = (run_once second "star" r2 s1).1 in
    elim (run_once-silent second s r1 h1) [
      | inl done ↦ inl done
      | inr (once, few1, e1) ↦
          elim (run_once-silent second s1 r2 (IsDue-IsEasier second s s1 r2 h2 e1)) [
            | inl done ↦ inr (inl done)
            | inr (twice, few2, e2) ↦
                elim (run_once-silent second s2 r3
                  (IsDue-IsEasier second s1 s2 r3 (IsDue-IsEasier second s s1 r3 h3 e1) e2)) [
                    | inl done ↦ inr (inr done)
                    | inr (thrice, few3, e3) ↦ absurd (omega (arith, once, twice, few3))
                  ]
          ]
    ]
