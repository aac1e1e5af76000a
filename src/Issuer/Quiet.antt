-- ===== src/Issuer/Quiet.antt =====
-- Actions that leave accounts.json alone: one rule for each way to build an action.
use mathlib.Core.List.{append-nil, append_assoc}
use evgenium_network_linux.Prelude.{
  nat_eq, string_eq, All, All-append, All-mono, Bool, Error, Exec, List, Result, String, [], ap,
  continue, err, false, if◌then◌else◌, lift, ok, pure, raise, raise_if, refl, sym, true, ◌++◌,
  ◌>>=◌, ◌∙◌, ◌∷◌, ◌≡◌, subst, after_result, finally_do, ℕ,
}
use evgenium_network_linux.Issuer.Wireguard.Peers.{config}
use evgenium_network_linux.Issuer.Wireguard.Peers.Runs.{config_keeps}
use evgenium_network_linux.Issuer.Host.{
  Host, Event, World, exec_input, now, run_or, exists, read_text, replace, FileChange, change,
  token_hex,
}

-- From `w` to `w'` the file is unchanged, and the commands that ran saw it so.
pub record Sees {E : Type 0} (w w' : World E) : Type 0 where
  pub same : w'.stored ≡ w.stored
  pub ran : List Event
  pub journal : w'.journal ≡ w.journal ++ ran
  pub saw : All (λ (e : Event). e.on_disk ≡ w.stored) ran

pub record Quiet {E A : Type 0} (m : Exec (World E) A) : Type 0 where
  pub at : (w : World E) → Sees w (m w).1

module _ {E : Type 0} where
  pub Sees-refl : (w : World E) → Sees w w
  Sees-refl w = record { same = refl; ran = []; journal = sym (append-nil w.journal); saw = tt }

  pub Sees-env : (w : World E) (e : E) → Sees w (record w { env = e })
  Sees-env w e = record { same = refl; ran = []; journal = sym (append-nil w.journal); saw = tt }

  pub Sees-trans : {u v w : World E} → Sees u v → Sees v w → Sees u w
  Sees-trans {u = u} p q = record {
    same = q.same ∙ p.same;
    ran = p.ran ++ q.ran;
    journal = q.journal ∙ ap (λ j. j ++ q.ran) p.journal ∙ append_assoc u.journal p.ran q.ran;
    saw = All-append _ p.ran q.ran p.saw (All-mono _ _ q.ran (λ e h. h ∙ p.same) q.saw);
  }

module _ {E A : Type 0} where
  pub Quiet-pure : (a : A) → Quiet {E = E} (pure a)
  Quiet-pure a = record { at = λ w. Sees-refl w }

  pub Quiet-raise : (e : Error) → Quiet {E = E} {A = A} (raise e)
  Quiet-raise e = record { at = λ w. Sees-refl w }

  pub Quiet-lift : (r : Result A) → Quiet {E = E} (lift r)
  Quiet-lift r = record { at = λ w. Sees-refl w }

  pub Quiet-if :
      (b : Bool) (m n : Exec (World E) A) → Quiet m → Quiet n → Quiet (if b then m else n)
  Quiet-if true m n qm qn = qm
  Quiet-if false m n qm qn = qn

module _ {E : Type 0} where
  pub Quiet-raise_if : (b : Bool) (e : Error) → Quiet {E = E} (raise_if b e)
  Quiet-raise_if b e = record { at = λ w. Sees-refl w }

module _ {E A B : Type 0} where
  continue-Sees :
      (r : Result A) (w : World E) (f : A → Exec (World E) B)
      → ((a : A) → Quiet (f a))
      → Sees w (continue r w f).1
  continue-Sees (ok a) w f qf = (qf a).at w
  continue-Sees (err e) w f qf = Sees-refl w

  pub Quiet-bind :
      (m : Exec (World E) A) (f : A → Exec (World E) B)
      → Quiet m
      → ((a : A) → Quiet (f a))
      → Quiet (m >>= f)
  Quiet-bind m f qm qf = record {
    at = λ w. Sees-trans (qm.at w) (continue-Sees (m w).0 (m w).1 f qf);
  }

module _ {E : Type 0} (host : Host E) where
  pub Quiet-run_or : (message : String) (args : List String) → Quiet (run_or host message args)
  unfolding run_or
  Quiet-run_or message args = record {
    at = λ w. record {
      same = refl;
      ran = record { args = args; on_disk = w.stored } ∷ [];
      journal = refl;
      saw = (refl, tt);
    };
  }

  pub Quiet-exec_input : (args : List String) (input : String) → Quiet (exec_input host args input)
  unfolding exec_input
  Quiet-exec_input args input = record {
    at = λ w. record {
      same = refl;
      ran = record { args = args; on_disk = w.stored } ∷ [];
      journal = refl;
      saw = (refl, tt);
    };
  }

  pub Quiet-now : Quiet (now host)
  unfolding now
  Quiet-now = record { at = λ w. Sees-env w (host.time w.env).1 }

  pub Quiet-token_hex : (n : ℕ) → Quiet (token_hex host n)
  unfolding token_hex
  Quiet-token_hex n = record { at = λ w. Sees-env w (host.token_hex n w.env).1 }

  pub Quiet-replace : (from to : String) → Quiet (replace host from to)
  unfolding replace
  Quiet-replace from to = record { at = λ w. Sees-env w (host.replace_file from to w.env).1 }

  pub Quiet-read_text : (path : String) → Quiet (read_text host path)
  unfolding read_text
  Quiet-read_text path = record { at = λ w. Sees-refl w }

  pub Quiet-exists : (path : String) → Quiet (exists host path)
  unfolding exists
  Quiet-exists path = record { at = λ w. Sees-refl w }

  pub Quiet-config : Quiet (config host)
  unfolding config
  Quiet-config = record {
    at = λ w. subst (Sees w) (sym (config_keeps host w (config host w).1 _ refl)) (Sees-refl w);
  }

  pub Quiet-change : (c : FileChange) → Quiet (change host c)
  unfolding change
  Quiet-change c = record { at = λ w. Sees-env w (host.change_file c w.env).1 }

module _ {E A : Type 0} where
  after_result-Sees :
      (r : Result A) (w : World E) (q : Result (Unit {0}) × World E)
      → Sees w q.1
      → Sees w (after_result r q).1
  after_result-Sees r w (ok u, s) h = h
  after_result-Sees r w (err e, s) h = h

  pub Quiet-finally_do :
      (m : Exec (World E) A) (c : Exec (World E) (Unit {0}))
      → Quiet m
      → Quiet c
      → Quiet (finally_do m c)
  Quiet-finally_do m c qm qc = record {
    at = λ w. after_result-Sees (m w).0 w (c (m w).1) (Sees-trans (qm.at w) (qc.at (m w).1));
  }

module _ {E A : Type 0} where
  -- what a run of a quiet action has done
  pub Sees-result :
      (m : Exec (World E) A) (w w' : World E) (r : Result A) → Quiet m → m w ≡ (r, w') → Sees w w'
  Sees-result m w w' r q h = subst (Sees w) (ap (λ p. p.1) h) (q.at w)

pub ruleset quiet_rules = (
  Quiet-pure, Quiet-raise, Quiet-lift, Quiet-if, Quiet-raise_if, Quiet-bind, Quiet-run_or,
  Quiet-exec_input, Quiet-now, Quiet-replace, Quiet-read_text, Quiet-exists, Quiet-config,
  Quiet-change, Quiet-finally_do,
)
