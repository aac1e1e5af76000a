-- ===== src/Issuer/Wireguard/Peers/Runs.antt =====
-- What a call that returned has run.
use mathlib.Core.Path.{Σ_path, subst₂}
use evgenium_network_linux.Prelude.{
  string_eq, List, String, ap, ok, suc, zero, ◌≡◌, >>=-eq-ok, Result, arith, lift, sym, ◌∙◌,
}
use evgenium_network_linux.Issuer.Model.{Device}
use evgenium_network_linux.Issuer.Host.{
  Host, Outcome, World, completed, exited, not_started, run_or, timed_out,
}
use evgenium_network_linux.Issuer.Wireguard.Peers.{
  address_of, apply_peer, key_of, Config, command, config, set_peer,
}

pub completed-eq-ok :
    (outcome : Outcome) (message out : String)
    → completed outcome message ≡ ok out
    → outcome ≡ exited 0 out
unfolding completed
completed-eq-ok (exited zero output) message out h = cc
completed-eq-ok (exited (suc status) output) message out h = absurd (cc)
completed-eq-ok timed_out message out h = absurd (cc)
completed-eq-ok not_started message out h = absurd (cc)

pub ok-injective : (a b : String) → ok a ≡ ok b → a ≡ b
ok-injective a b h = cc

module _ {E : Type 0} (host : Host E) where
  -- A command that succeeded was run to the end with status 0.
  pub run_or-eq-ok :
      (message : String) (args : List String) (w w' : World E) (out : String)
      → run_or host message args w ≡ (ok out, w')
      → host.exec args "" w.env ≡ (exited 0 out, w'.env)
  unfolding run_or
  run_or-eq-ok message args w w' out h =
      let (outcome, env) = host.exec args "" w.env in
      Σ_path (completed-eq-ok outcome message out (ap (λ r. r.0) h)) (ap (λ r. r.1.env) h)

  -- Reading the configuration changes nothing.
  pub config_keeps : (w t : World E) (r : Result Config) → config host w ≡ (r, t) → t ≡ w
  unfolding config
  config_keeps w t r h = ground arith

  pub lift_keeps :
      {A : Type 0} (r : Result A) (w t : World E) (a : A)
      → lift r w ≡ (ok a, t)
      → (r ≡ ok a) × (t ≡ w)
  lift_keeps r w t a h = (ap (λ p. p.0) h, sym (ap (λ p. p.1) h))

  -- An `apply_peer` that returns has run its one command, for the key and address of the record.
  pub apply_peer-eq-ok :
      (d : Device) (w w' : World E)
      → apply_peer host d w ≡ (ok tt, w')
      → (i k a out : String) × (key_of d ≡ ok k)
        × (address_of d ≡ ok a)
        × (host.exec (set_peer i k a) "" w.env ≡ (exited 0 out, w'.env))
  unfolding apply_peer
  apply_peer-eq-ok d w w' h =
      let (cfg, t1, e1, r1) = >>=-eq-ok (config host) _ w w' tt h in
      let (k, t2, e2, r2) = >>=-eq-ok (lift (key_of d)) _ t1 w' tt r1 in
      let (a, t3, e3, r3) = >>=-eq-ok (lift (address_of d)) _ t2 w' tt r2 in
      let (out, t4, e4, r4) = >>=-eq-ok (command host (set_peer cfg.interface k a)) _ t3 w' tt r3 in
      let p2 = lift_keeps (key_of d) t1 t2 k e2 in
      let p3 = lift_keeps (address_of d) t2 t3 a e3 in
      let start : t3 ≡ w = p3.1 ∙ p2.1 ∙ config_keeps w t1 _ e1 in
      let end : t4 ≡ w' = ap (λ p. p.1) r4 in
      (
        cfg.interface,
        k,
        a,
        out,
        p2.0,
        p3.0,
        subst₂
            (λ (u v : World E).
              host.exec (set_peer cfg.interface k a) "" u.env ≡ (exited 0 out, v.env))
            start end
            (run_or-eq-ok "wireguard_unavailable" (set_peer cfg.interface k a) t3 t4 out e4),
      )
