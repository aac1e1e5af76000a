-- ===== src/Issuer/Enrollment/Committed.antt =====
-- What the two writes of an enrollment and the command between them have done
-- (server/token_issuer.py).
use evgenium_network_linux.Prelude.{
  All-mono, nat_eq, string_eq, option_eq, String, ok, some, ◌≡◌, ap, put, ◌∙◌, >>=-eq-ok, ◌++◌,
  first,
}
use evgenium_network_linux.Issuer.Model.{Device, Account, Accounts}
use evgenium_network_linux.Issuer.Host.{write_json, Host, World}
use evgenium_network_linux.Issuer.Quiet.{Quiet, quiet_rules, Sees, Sees-result}
use evgenium_network_linux.Issuer.TwoPhase.{RanUnder}
use evgenium_network_linux.Issuer.Revoke.{with_device}
use evgenium_network_linux.Issuer.Writes.{write_json-eq-ok}
use evgenium_network_linux.Issuer.Wireguard.Peers.{apply_peer}
use evgenium_network_linux.Issuer.Enrollment.{commit, completed_record, pending}

module _ {E : Type 0} (host : Host E) where
  Quiet-apply_peer : (d : Device) → Quiet (apply_peer host d)
  unfolding apply_peer
  Quiet-apply_peer d = search quiet_rules depth 9

  -- What a `commit` that returns has done: both writes, and between them `apply_peer` and no other
  -- command.
  pub record Committed (first last : Accounts) (d : Device) (w w' : World E) : Type 0 where
    pub u : World E
    pub v : World E
    pub quiet : u.journal ≡ w.journal
    pub saved : u.stored ≡ some first
    pub applied : apply_peer host d u ≡ (ok tt, v)
    pub ran : RanUnder first w w'
    pub ended : w'.journal ≡ v.journal
    pub on_disk : w'.stored ≡ some last

  pub commit_lem :
      (id device : String) (named : Account) (data_ : Accounts) (d : Device) (w w' : World E)
      → commit host id named data_ device d w ≡ (ok tt, w')
      → Committed
          (put id (with_device device (pending d) named) data_)
          (put id (with_device device (completed_record d) named) data_)
          (pending d)
          w
          w'
  unfolding commit
  commit_lem id device named data_ d w w' h =
      let first = put id (with_device device (pending d) named) data_ in
      let last = put id (with_device device (completed_record d) named) data_ in
      let (a, u, e1, r1) = >>=-eq-ok (write_json host first) _ w w' tt h in
      let (b, v, e2, r2) = >>=-eq-ok (apply_peer host (pending d)) _ u w' tt r1 in
      let (saved, quiet) = write_json-eq-ok host first w u a e1 in
      let (stored, still) = write_json-eq-ok host last v w' tt r2 in
      let sees : Sees u v =
        Sees-result (apply_peer host (pending d)) u v (ok b) (Quiet-apply_peer (pending d)) e2 in
      record {
        u = u;
        v = v;
        quiet = quiet;
        saved = saved;
        applied = e2;
        ran = (
          sees.ran,
          still ∙ sees.journal ∙ ap (λ j. j ++ sees.ran) quiet,
          All-mono _ _ sees.ran (λ e h. h ∙ saved) sees.saw,
        );
        ended = still;
        on_disk = stored;
      }

  -- the file was not read again before the first write
  pub Committed-from :
      (first last : Accounts) (d : Device) (w u w' : World E)
      → u.journal ≡ w.journal
      → Committed first last d u w'
      → Committed first last d w w'
  Committed-from first last d w u w' quiet c = record {
    u = c.u;
    v = c.v;
    quiet = c.quiet ∙ quiet;
    saved = c.saved;
    applied = c.applied;
    ran = (c.ran.0, c.ran.1 ∙ ap (λ j. j ++ c.ran.0) quiet, c.ran.2);
    ended = c.ended;
    on_disk = c.on_disk;
  }
