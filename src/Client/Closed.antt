-- ===== src/Client/Closed.antt =====
-- Actions of the client that leave the guard closed: one rule for each way to build an action.
pub mod Primitives
pub mod Parts
pub mod Applying
pub mod Device
pub mod Trying
pub mod Working
pub mod Armed
use mathlib.Core.List.{append-nil, append_assoc}
use evgenium_network_linux.Prelude.{
  after_result, finally_do, nat_eq, string_eq, All, All-append, Bool, Error, Exec, List, Option,
  Result, String, [], ap, continue, err, contains, false, if◌then◌else◌, none, not, ok, or_raise,
  refl, some, sym, true, ◌++◌, ◌&&◌, ◌||◌, ◌==◌, ◌>>=◌, ◌∙◌, ◌∷◌, ◌≡◌, modify, ℕ, Bool-cases, inl,
  inr,
}
use evgenium_network_linux.Ranking.{Ranking}
use evgenium_network_linux.Client.Nft.{Script, Table, after_script, full_guard, is_guard}
use evgenium_network_linux.Client.Machine.{
  Command, FileStep, FullState, NetworkState, Stage, System, Tunnel, Waydroid, on_option, catch,
  handled, checked,
}
use evgenium_network_linux.Client.Machine.Actions.{
  save_ranking, change_file, command, exists, is_running, is_stopping, pause, prints_something,
  read_text, save_guard, save_waydroid, stage, start, stop_process, try_command, write_full,
  write_network,
}

abbrev pub guard_service : String
guard_service = "evgenium-starfive-full-guard.service"

-- `nft delete table` of another table
abbrev pub is_other_table : List String → Bool
is_other_table (table ∷ family ∷ name ∷ []) = table == "table" && not (name == full_guard)
is_other_table _ = false

-- what `nft` may be asked: a dry run, a look, another table, or a script that ends with the guard
abbrev pub nft_keeps : List String → Script → Bool
nft_keeps [] input = false
nft_keeps (verb ∷ args) input =
    if verb == "-f"
    then after_script true input
    else verb == "-c" || verb == "list" || (verb == "delete" && is_other_table args)

abbrev pub systemctl_keeps : List String → Bool
systemctl_keeps [] = true
systemctl_keeps (verb ∷ args) = verb == "enable" || not (contains args guard_service)

-- Whether a command leaves a guard that is there in its place. What runs inside the namespace has
-- its own tables.
abbrev pub keeps_guard : List String → Script → Bool
keeps_guard [] input = true
keeps_guard (tool ∷ args) input =
    if tool == "nft"
    then nft_keeps args input
    else if tool == "systemctl"
    then systemctl_keeps args
    else true

abbrev pub IsClosed : Command → Type 0
IsClosed c = keeps_guard c.args c.input ≡ true

-- what stands in the file that is loaded before the network
abbrev pub IsSaved : Option Table → Type 0
IsSaved none = Unit
IsSaved (some t) = is_guard t ≡ true

-- the file is there, and holds a guard
abbrev pub IsKept : Option Table → Type 0
IsKept none = false ≡ true
IsKept (some t) = is_guard t ≡ true

-- From `t` to `t'` every command has left the guard closed, the file of the guard holds nothing but a
-- guard if it did, and still holds one if it did, and the policy is unchanged.
pub record Holds {E : Type 0} (t t' : Tunnel E) : Type 0 where
  pub ran : List Command
  pub journal : t'.journal ≡ t.journal ++ ran
  pub closed : All IsClosed ran
  pub saved : IsSaved t.saved_guard → IsSaved t'.saved_guard
  pub kept : IsKept t.saved_guard → IsKept t'.saved_guard
  pub policy : t'.policy ≡ t.policy

pub record Closed {E A : Type 0} (m : Exec (Tunnel E) A) : Type 0 where
  pub at : (t : Tunnel E) → Holds t (m t).1

module _ {E : Type 0} where
  pub Holds-same :
      (t t' : Tunnel E)
      → t'.journal ≡ t.journal
      → t'.saved_guard ≡ t.saved_guard
      → t'.policy ≡ t.policy
      → Holds t t'
  Holds-same t t' j g p = record {
    ran = [];
    journal = j ∙ sym (append-nil t.journal);
    closed = tt;
    saved = λ h. rw g h;
    kept = λ h. rw g h;
    policy = p;
  }

  pub Holds-refl : (t : Tunnel E) → Holds t t
  Holds-refl t = Holds-same t t refl refl refl

  pub Holds-trans : {u v w : Tunnel E} → Holds u v → Holds v w → Holds u w
  Holds-trans {u = u} p q = record {
    ran = p.ran ++ q.ran;
    journal = q.journal ∙ ap (λ j. j ++ q.ran) p.journal ∙ append_assoc u.journal p.ran q.ran;
    closed = All-append _ p.ran q.ran p.closed q.closed;
    saved = λ h. q.saved (p.saved h);
    kept = λ h. q.kept (p.kept h);
    policy = q.policy ∙ p.policy;
  }

module _ {E A : Type 0} where
  -- an action that reads
  pub Closed-reads : (f : Tunnel E → Result A) → Closed {E = E} (λ t. (f t, t))
  Closed-reads f = record { at = λ t. Holds-refl t }

  pub Closed-if :
      (b : Bool) (m n : Exec (Tunnel E) A) → Closed m → Closed n → Closed (if b then m else n)
  Closed-if true m n hm hn = hm
  Closed-if false m n hm hn = hn

  pub Closed-or_raise : (o : Option A) (e : Error) → Closed {E = E} (or_raise o e)
  Closed-or_raise none e = record { at = λ t. Holds-refl t }
  Closed-or_raise (some a) e = record { at = λ t. Holds-refl t }

module _ {E A B : Type 0} where
  pub Closed-on_option :
      (o : Option A) (m : Exec (Tunnel E) B) (f : A → Exec (Tunnel E) B)
      → Closed m
      → ((a : A) → Closed (f a))
      → Closed (on_option o m f)
  Closed-on_option none m f hm hf = hm
  Closed-on_option (some a) m f hm hf = hf a

  continue-Holds :
      (r : Result A) (t : Tunnel E) (f : A → Exec (Tunnel E) B)
      → ((a : A) → Closed (f a))
      → Holds t (continue r t f).1
  continue-Holds (ok a) t f h = (h a).at t
  continue-Holds (err e) t f h = Holds-refl t

  pub Closed-bind :
      (m : Exec (Tunnel E) A) (f : A → Exec (Tunnel E) B)
      → Closed m
      → ((a : A) → Closed (f a))
      → Closed (m >>= f)
  Closed-bind m f hm hf = record {
    at = λ t. Holds-trans (hm.at t) (continue-Holds (m t).0 (m t).1 f hf);
  }

module _ {E A : Type 0} where
  after_result-Holds :
      (r : Result A) (t : Tunnel E) (q : Result (Unit {0}) × Tunnel E)
      → Holds t q.1
      → Holds t (after_result r q).1
  after_result-Holds r t (ok u, s) h = h
  after_result-Holds r t (err e, s) h = h

  pub Closed-finally_do :
      (m : Exec (Tunnel E) A) (c : Exec (Tunnel E) (Unit {0}))
      → Closed m
      → Closed c
      → Closed (finally_do m c)
  Closed-finally_do m c hm hc = record {
    at = λ t. after_result-Holds (m t).0 t (c (m t).1) (Holds-trans (hm.at t) (hc.at (m t).1));
  }

  handled-Holds :
      (r : Result A) (t : Tunnel E) (f : Error → Exec (Tunnel E) A)
      → ((e : Error) → Closed (f e))
      → Holds t (handled r t f).1
  handled-Holds (ok a) t f h = Holds-refl t
  handled-Holds (err e) t f h = (h e).at t

  pub Closed-catch :
      (m : Exec (Tunnel E) A) (f : Error → Exec (Tunnel E) A)
      → Closed m
      → ((e : Error) → Closed (f e))
      → Closed (catch m f)
  Closed-catch m f hm hf = record {
    at = λ t. Holds-trans (hm.at t) (handled-Holds (m t).0 (m t).1 f hf);
  }

module _ {E : Type 0} where
  -- a change of the shared variables that are not the policy, the guard or the journal
  pub Closed-modify :
      (f : Tunnel E → Tunnel E)
      → ((t : Tunnel E) → (f t).journal ≡ t.journal)
      → ((t : Tunnel E) → (f t).saved_guard ≡ t.saved_guard)
      → ((t : Tunnel E) → (f t).policy ≡ t.policy)
      → Closed (modify f)
  Closed-modify f j g p = record { at = λ t. Holds-same t (f t) (j t) (g t) (p t) }
