-- ===== src/Tests/Transfers.antt =====
-- A transfer session: opened, and read to its end over a connection that has 40000 bytes.
use mathlib.Core.Option.{some-injective}
use evgenium_network_linux.Prelude.{
  nat_eq, bytes_eq, string_eq, none, [], Result, ap, arith, drop, length, refl, some, subst, suc,
  take, true, zero, ℕ, ◌++◌, ◌∷◌, ◌≡◌, ◌≤◌, matches_class,
}
use evgenium_network_linux.Probes.Transfer.{
  Wire, Transfers, Receipt, consume, issue, Bytes, new_session, read_chunk,
}
use evgenium_network_linux.Probes.Transfer.Consume.{consume-ends}
use evgenium_network_linux.Probes.Transfer.Received.{IsStream}
use evgenium_network_linux.Probes.Transfer.Whole.{consume-Complete, IsComplete}
use evgenium_network_linux.Probes.Transfer.Capacity.{issue-IsBounded, IsBounded}
use evgenium_network_linux.Tests.Machine.{demo_device_id}

-- the machine is what the connection has still to deliver; a read gives all that it may
abbrev wire : Wire Bytes
wire = record {
  second = 1000;
  clock = λ e. (5, e);
  token_hex = λ n e. (demo_device_id, e);
  set_timeout = λ n e. e;
  read1 = λ n e. (some (take n e), drop n e);
  round_ms = λ n. n;
  digest = λ b. "digest";
}

take-append-drop : (n : ℕ) (xs : Bytes) → xs ≡ take n xs ++ drop n xs
take-append-drop zero xs = refl
take-append-drop (suc n) [] = refl
take-append-drop (suc n) (x ∷ xs) = ap (λ l. x ∷ l) (take-append-drop n xs)

length-take_le : (n : ℕ) (xs : Bytes) → length (take n xs) ≤ n
length-take_le zero xs = omega arith
length-take_le (suc n) [] = omega arith
length-take_le (suc n) (x ∷ xs) = omega (arith, length-take_le n xs)

wire-IsStream : IsStream wire (λ e. e)
wire-IsStream = record {
  clock_keeps = λ e. refl;
  timeout_keeps = λ n e. refl;
  at_most = λ n e c h. subst (λ x. length x ≤ n) (some-injective _ _ h) (length-take_le n e);
  delivers =
      λ n e c h. subst (λ x. e ≡ x ++ drop n e) (some-injective _ _ h) (take-append-drop n e);
}

abbrev opened : Transfers Bytes
opened = record {
  env = 1 ∷ 2 ∷ 3 ∷ 4 ∷ 5 ∷ [];
  sessions = (demo_device_id, new_session (7 ∷ []) 200 3) ∷ [];
  rates = (7 ∷ [], (5, 1)) ∷ [];
}

abbrev the_receipt : Receipt
the_receipt = record {
  size = 3;
  received = 3;
  complete = true;
  elapsed_ms = 0;
  max_read_ms = 0;
  sha256 = "digest";
}

consume-ends_example :
    (r : Result Receipt) × ((consume wire (some demo_device_id) (7 ∷ []) 3 none opened).0 ≡ some r)
consume-ends_example = consume-ends wire (some demo_device_id) (7 ∷ []) 3 none opened

consume-Complete_example :
    IsComplete wire
      (λ e. e)
      wire-IsStream
      demo_device_id
      (7 ∷ [])
      3
      none
      (1 ∷ 2 ∷ 3 ∷ 4 ∷ 5 ∷ [])
      the_receipt
unfolding consume matches_class read_chunk
consume-Complete_example =
    consume-Complete wire (λ e. e) wire-IsStream demo_device_id (7 ∷ []) 3 none opened
      (consume wire (some demo_device_id) (7 ∷ []) 3 none opened).1 the_receipt (omega arith) refl

opened-IsBounded : IsBounded opened
opened-IsBounded = record {
  sessions = omega arith;
  owned = λ o. ground arith;
  owners = omega arith;
  opened = (omega arith, tt);
}

issue-IsBounded_example : IsBounded (issue wire (8 ∷ []) (some 32768) opened).1
issue-IsBounded_example = issue-IsBounded wire (8 ∷ []) (some 32768) opened opened-IsBounded
