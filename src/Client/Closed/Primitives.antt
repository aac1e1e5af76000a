-- ===== src/Client/Closed/Primitives.antt =====
-- The actions of the machine leave the guard closed.
use mathlib.Core.List.{append-nil}
use evgenium_network_linux.Prelude.{
  after_result, finally_do, nat_eq, string_eq, All, All-append, Bool, Error, Exec, List, Option,
  Result, String, [], ap, continue, err, contains, false, if◌then◌else◌, none, not, ok, or_raise,
  refl, some, sym, true, ◌++◌, ◌&&◌, ◌||◌, ◌==◌, ◌>>=◌, ◌∙◌, ◌∷◌, ◌≡◌, modify, ℕ, Bool-cases, inl,
  inr,
}
use evgenium_network_linux.Ranking.{Ranking}
use evgenium_network_linux.Client.Nft.{Script, Table, is_guard}
use evgenium_network_linux.Client.Machine.{
  is_done, FileStep, FullState, NetworkState, Stage, System, Waydroid, checked,
}
use evgenium_network_linux.Client.Machine.Actions.{
  save_ranking, change_file, command, exists, is_running, is_stopping, pause, prints_something,
  read_text, save_guard, save_waydroid, stage, start, stop_process, try_command, write_full,
  write_network,
}
use evgenium_network_linux.Client.Closed.{
  Closed, Closed-bind, Closed-catch, Closed-finally_do, Closed-if, Closed-modify, Closed-on_option,
  Closed-or_raise, Closed-reads, Holds-refl, Holds-same, keeps_guard,
}

module _ {E : Type 0} (system : System E) where
  pub Closed-try_command :
      (args : List String) (input : Script)
      → keeps_guard args input ≡ true
      → Closed (try_command system args input)
  unfolding try_command
  Closed-try_command args input keeps = record {
    at = λ t. record {
      ran =
          record { args = args; input = input; done = is_done (system.run args input t.env).0 }
          ∷ [];
      journal = refl;
      closed = (keeps, tt);
      saved = λ h. h;
      kept = λ h. h;
      policy = refl;
    };
  }

  pub Closed-command :
      (args : List String) (input : Script)
      → keeps_guard args input ≡ true
      → Closed (command system args input)
  unfolding command
  Closed-command args input keeps =
      Closed-bind _ _ (Closed-try_command args input keeps) (λ o. Closed-reads (λ t. checked o))

  pub Closed-change_file : (step : FileStep) → Closed (change_file system step)
  unfolding change_file
  Closed-change_file step = record { at = λ t. Holds-same t _ refl refl refl }

  pub Closed-exists : (path : String) → Closed (exists system path)
  unfolding exists
  Closed-exists path = record { at = λ t. Holds-refl t }

  pub Closed-read_text : (path : String) → Closed (read_text system path)
  unfolding read_text
  Closed-read_text path = record { at = λ t. Holds-refl t }

  pub Closed-write_full : (s : FullState) → Closed (write_full system s)
  unfolding write_full
  Closed-write_full s = record {
    at = λ t. elim (Bool-cases (system.save "full-network.json" t.env).0) [
      | inl done ↦ rw (write_full, done) (Holds-same t _ refl refl refl)
      | inr failed ↦ rw (write_full, failed) (Holds-same t _ refl refl refl)
    ];
  }

  pub Closed-write_network : (s : NetworkState) → Closed (write_network system s)
  unfolding write_network
  Closed-write_network s = record {
    at = λ t. elim (Bool-cases (system.save "network.json" t.env).0) [
      | inl done ↦ rw (write_network, done) (Holds-same t _ refl refl refl)
      | inr failed ↦ rw (write_network, failed) (Holds-same t _ refl refl refl)
    ];
  }

  pub Closed-save_waydroid : (s : Waydroid) → Closed (save_waydroid system s)
  unfolding save_waydroid
  Closed-save_waydroid s = record {
    at = λ t. elim (Bool-cases (system.save "waydroid-network.json" t.env).0) [
      | inl done ↦ rw (save_waydroid, done) (Holds-same t _ refl refl refl)
      | inr failed ↦ rw (save_waydroid, failed) (Holds-same t _ refl refl refl)
    ];
  }

  pub Closed-save_guard : (rules : Table) → is_guard rules ≡ true → Closed (save_guard system rules)
  unfolding save_guard
  Closed-save_guard rules good = record {
    at = λ t. elim (Bool-cases (system.save "full-guard.nft" t.env).0) [
      | inl done ↦
          rw (save_guard, done)
            (record {
              ran = [];
              journal = sym (append-nil t.journal);
              closed = tt;
              saved = λ h. good;
              kept = λ h. good;
              policy = refl;
            })
      | inr failed ↦ rw (save_guard, failed) (Holds-same t _ refl refl refl)
    ];
  }

  pub Closed-pause : Closed (pause system)
  unfolding pause
  Closed-pause = record { at = λ t. Holds-same t _ refl refl refl }

  pub Closed-is_stopping : Closed (is_stopping system)
  unfolding is_stopping
  Closed-is_stopping = record { at = λ t. Holds-refl t }

  pub Closed-save_ranking : (r : Ranking) → Closed (save_ranking system r)
  unfolding save_ranking
  Closed-save_ranking r = record { at = λ t. Holds-same t _ refl refl refl }

  pub Closed-start : (args : List String) → Closed (start system args)
  unfolding start
  Closed-start args = record { at = λ t. Holds-same t _ refl refl refl }

  pub Closed-is_running : (p : Option ℕ) → Closed (is_running system p)
  unfolding is_running
  Closed-is_running none = record { at = λ t. Holds-refl t }
  Closed-is_running (some p) = record { at = λ t. Holds-refl t }

  pub Closed-stop_process : (p : Option ℕ) → Closed (stop_process system p)
  unfolding stop_process
  Closed-stop_process none = record { at = λ t. Holds-refl t }
  Closed-stop_process (some p) = record {
    at = λ t. elim (Bool-cases (system.is_running p t.env)) [
      | inl runs ↦ rw (stop_process, runs) (Holds-same t _ refl refl refl)
      | inr gone ↦ rw (stop_process, gone) (Holds-refl t)
    ];
  }

  pub Closed-prints_something :
      (args : List String) → keeps_guard args [] ≡ true → Closed (prints_something system args)
  unfolding prints_something
  Closed-prints_something args keeps =
      Closed-bind _ _ (Closed-try_command args [] keeps) (λ o. Closed-reads _)

  pub Closed-stage :
      (phase message : String) (progress : ℕ) (fields : Stage → Stage)
      → Closed (stage system phase message progress fields)
  unfolding stage
  Closed-stage phase message progress fields = record {
    at = λ t. elim (Bool-cases (system.save "starfive-tunnel.json" (system.time t.env).1).0) [
      | inl done ↦ rw (stage, done) (Holds-same t _ refl refl refl)
      | inr failed ↦ rw (stage, failed) (Holds-same t _ refl refl refl)
    ];
  }

pub ruleset closed_rules = (
  Closed-reads, Closed-if, Closed-or_raise, Closed-on_option, Closed-bind, Closed-modify,
  Closed-try_command, Closed-command, Closed-change_file, Closed-exists, Closed-read_text,
  Closed-write_full, Closed-write_network, Closed-save_waydroid, Closed-save_ranking,
  Closed-finally_do, Closed-catch, Closed-pause, Closed-is_stopping, Closed-start,
  Closed-is_running, Closed-stop_process, Closed-prints_something, Closed-stage, refl,
)
