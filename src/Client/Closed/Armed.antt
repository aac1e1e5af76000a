-- ===== src/Client/Closed/Armed.antt =====
-- What `activate_full` of src/starfive_tunnel.py has done when it returns: a replay of the commands
-- that were run says whether the guard stands.
use evgenium_network_linux.Prelude.{
  ◌>>◌, Bool, Exec, List, Option, String, [], ◌∷◌, ◌≡◌, ◌&&◌, ◌||◌, ◌++◌, ◌>>=◌, refl, true, false,
  if◌then◌else◌, ap, none, some, ok, subst, All, >>=-eq-ok, nat_eq, string_eq, ◌==◌, ◌∙◌,
  Bool-cases, inl, inr, err-ne-ok, continue, Result, sym, err, runtime_error, or_raise, type_error,
}
use evgenium_network_linux.Client.Nft.{Script, after_script, Table, is_guard}
use evgenium_network_linux.Client.Policy.{Addresses}
use evgenium_network_linux.Client.Machine.{
  Ending, Output, ended, checked, is_done, finished, overdue, unstarted, Command, FullState, Tunnel,
  System,
}
use evgenium_network_linux.Client.Machine.Actions.{
  write, run, nft_load, save_guard, write_full, command, try_command,
}
use evgenium_network_linux.Client.Guard.{replacement}
use evgenium_network_linux.Client.Full.{guard_unit, persist_guard, verify_host}
use evgenium_network_linux.Client.Full.Activation.{activate_full, load_guard, enter_device}
use evgenium_network_linux.Client.Closed.{
  Closed, Holds, IsClosed, IsKept, keeps_guard, Closed-reads,
}
use evgenium_network_linux.Client.Closed.Primitives.{closed_rules}
use evgenium_network_linux.Client.Closed.Applying.{Gives, replacement-after_script}
use evgenium_network_linux.Client.Closed.Device.{
  Closed-persist_guard, Gives-full_firewall, Closed-enter_device, Closed-verify_host,
}

-- whether a command gives a script to `nft` that ends with the guard, even if it was not there
abbrev pub loads_guard : List String → Script → Bool
loads_guard (tool ∷ verb ∷ rest) input = tool == "nft" && verb == "-f" && after_script false input
loads_guard _ input = false

-- Whether the guard stands after a command: it may be taken away by one that does not keep it, and
-- is put there by a script that has been loaded with status 0. Before the first such script a table
-- under its name is taken to be there only if the script deletes it.
abbrev pub guard_after : Bool → Command → Bool
guard_after g c =
    if keeps_guard c.args c.input then g || (c.done && loads_guard c.args c.input) else false

-- Whether the guard stands after commands, oldest first.
unfoldable pub is_armed : Bool → List Command → Bool
is_armed g [] = g
is_armed g (c ∷ cs) = is_armed (guard_after g c) cs

is_armed-append :
    (g : Bool) (xs ys : List Command) → is_armed g (xs ++ ys) ≡ is_armed (is_armed g xs) ys
unfolding is_armed
is_armed-append g [] ys = refl
is_armed-append g (x ∷ xs) ys = is_armed-append (guard_after g x) xs ys

is_armed-closed : (cs : List Command) → All IsClosed cs → is_armed true cs ≡ true
unfolding is_armed
is_armed-closed [] h = refl
is_armed-closed (c ∷ cs) h = rw h.0 (is_armed-closed cs h.1)

module _ {E : Type 0} where
  abbrev pub IsArmed : Tunnel E → Type 0
  IsArmed t = is_armed false t.journal ≡ true

  Holds-IsArmed : (t t' : Tunnel E) → Holds t t' → IsArmed t → IsArmed t'
  Holds-IsArmed t t' h armed =
      ap (is_armed false) h.journal
      ∙ is_armed-append false t.journal h.ran
      ∙ ap (λ g. is_armed g h.ran) armed
      ∙ is_armed-closed h.ran h.closed

  abbrev pub IsGuarded : Tunnel E → Type 0
  IsGuarded t = IsKept t.saved_guard

  Holds-IsGuarded : (t t' : Tunnel E) → Holds t t' → IsGuarded t → IsGuarded t'
  Holds-IsGuarded t t' h kept = h.kept kept

abbrev pub is_active : Option FullState → Bool
is_active none = false
is_active (some s) = s.active

guard_after-loads :
    (g active : Bool) (rules : Table)
    → is_guard rules ≡ true
    → guard_after g
        (record { args = "nft" ∷ "-f" ∷ "-" ∷ []; input = replacement active rules; done = true })
      ≡ true
guard_after-loads true active rules good = rw (replacement-after_script true active rules good) refl
guard_after-loads false active rules good =
    rw
      (
        replacement-after_script true active rules good,
        replacement-after_script false active rules good,
      )
      refl

module _ {E : Type 0} where
  guard_after-replacement :
      (t : Tunnel E) (active : Bool) (rules : Table)
      → is_guard rules ≡ true
      → is_armed false (
          t.journal
          ++ record {
            args = "nft" ∷ "-f" ∷ "-" ∷ [];
            input = replacement active rules;
            done = true;
          }
            ∷ [])
        ≡ true
  unfolding is_armed
  guard_after-replacement t active rules good =
      is_armed-append false t.journal _
      ∙ guard_after-loads (is_armed false t.journal) active rules good

-- a command that passes the check of `command` has ended with status 0
checked-is_done :
    {E : Type 0} (e : Ending) (after_run : Bool → Tunnel E) (t' : Tunnel E) (o : Output)
    → ◌≡◌ {A = Result Output × Tunnel E}
        (continue (ended e) (after_run (is_done e)) (λ p t. (checked p, t)))
        (ok o, t')
    → after_run true ≡ t'
checked-is_done (finished p) after_run t' o h = elim (Bool-cases (p.returncode == 0)) [
  | inl zero_status ↦ ap after_run (sym zero_status) ∙ ap (λ q. q.1) h
  | inr other ↦
      let r : (if p.returncode == 0 then ok p else err (runtime_error "command_failed")) ≡ ok o =
        ap (λ q. q.0) h in
      absurd (err-ne-ok (rw other at r))
]
checked-is_done overdue after_run t' o h = absurd (err-ne-ok (ap (λ q. q.0) h))
checked-is_done unstarted after_run t' o h = absurd (err-ne-ok (ap (λ q. q.0) h))

-- wherever the action returns, `P` holds after it
record Ends {E A : Type 0} (P : Tunnel E → Type 0) (m : Exec (Tunnel E) A) : Type 0 where
  at : (t t' : Tunnel E) (a : A) → m t ≡ (ok a, t') → P t'

module _ {E A B : Type 0} {P : Tunnel E → Type 0} where
  Ends-after :
      (m : Exec (Tunnel E) A) (f : A → Exec (Tunnel E) B)
      → ((a : A) → Ends P (f a))
      → Ends P (m >>= f)
  Ends-after m f h = record {
    at = λ t t' b e. let (a, u, e1, e2) = >>=-eq-ok m f t t' b e in (h a).at u t' b e2;
  }

  Ends-then :
      (stays : (t t' : Tunnel E) → Holds t t' → P t → P t') (m : Exec (Tunnel E) A)
      (f : A → Exec (Tunnel E) B)
      → Ends P m
      → ((a : A) → Closed (f a))
      → Ends P (m >>= f)
  Ends-then stays m f h c = record {
    at = λ t t' b e.
        let (a, u, e1, e2) = >>=-eq-ok m f t t' b e in
        let same : (f a u).1 ≡ t' = ap (λ p. p.1) e2 in
        let p : P (f a u).1 = stays u (f a u).1 ((c a).at u) (h.at t u a e1) in subst P same p;
  }

module _ {E B : Type 0} {P : Tunnel E → Type 0} where
  -- the action before has returned a guard
  Ends-given :
      (m : Exec (Tunnel E) Table) (f : Table → Exec (Tunnel E) B)
      → Gives m
      → ((rules : Table) → is_guard rules ≡ true → Ends P (f rules))
      → Ends P (m >>= f)
  Ends-given m f gives h = record {
    at = λ t t' b e.
        let (rules, u, e1, e2) = >>=-eq-ok m f t t' b e in
        (h rules (gives.guard t u rules e1)).at u t' b e2;
  }

module _ {E : Type 0} (system : System E) where
  Ends-command :
      (active : Bool) (rules : Table)
      → is_guard rules ≡ true
      → Ends IsArmed (command system ("nft" ∷ "-f" ∷ "-" ∷ []) (replacement active rules))
  unfolding command try_command
  Ends-command active rules good = record {
    at = λ t t' o e.
        subst IsArmed
          (checked-is_done (system.run ("nft" ∷ "-f" ∷ "-" ∷ []) (replacement active rules) t.env).0
            (λ b. record t {
              env = (system.run ("nft" ∷ "-f" ∷ "-" ∷ []) (replacement active rules) t.env).1;
              journal =
                  t.journal
                  ++ record {
                    args = "nft" ∷ "-f" ∷ "-" ∷ [];
                    input = replacement active rules;
                    done = b;
                  }
                    ∷ [];
            })
            t' o e)
          (guard_after-replacement t active rules good);
  }

  Ends-nft_load :
      (active : Bool) (rules : Table)
      → is_guard rules ≡ true
      → Ends IsArmed (nft_load system (replacement active rules))
  Ends-nft_load active rules good =
      Ends-then Holds-IsArmed _ _ (Ends-command active rules good) (λ o. Closed-reads _)

  Ends-save_guard :
      (rules : Table) → is_guard rules ≡ true → Ends IsGuarded (save_guard system rules)
  unfolding save_guard
  Ends-save_guard rules good = record {
    at = λ t t' a e. elim (Bool-cases (system.save "full-guard.nft" t.env).0) [
      | inl done ↦ subst IsGuarded (ap (λ p. p.1) (rw (save_guard, done) at e)) good
      | inr failed ↦ absurd (err-ne-ok (ap (λ p. p.0) (rw (save_guard, failed) at e)))
    ];
  }

  Ends-write_full :
      (s : FullState) → s.active ≡ true → Ends (λ t. is_active t.full ≡ true) (write_full system s)
  unfolding write_full
  Ends-write_full s h = record {
    at = λ t t' a e. elim (Bool-cases (system.save "full-network.json" t.env).0) [
      | inl done ↦
          subst (λ t. is_active t.full ≡ true) (ap (λ p. p.1) (rw (write_full, done) at e)) h
      | inr failed ↦ absurd (err-ne-ok (ap (λ p. p.0) (rw (write_full, failed) at e)))
    ];
  }

  Ends-persist_guard :
      (rules : Table) → is_guard rules ≡ true → Ends IsGuarded (persist_guard system rules)
  unfolding persist_guard
  Ends-persist_guard rules good =
      Ends-after (λ t. (ok (system.nft_path t.env), t)) _
        (λ found. Ends-after (or_raise found type_error) _ (λ nft.
          Ends-then Holds-IsGuarded (save_guard system rules)
            (λ u. do
              write system "/etc/systemd/system/evgenium-starfive-full-guard.service"
                  (guard_unit nft)
              run system ("systemctl" ∷ "daemon-reload" ∷ [])
              run system ("systemctl" ∷ "enable" ∷ "evgenium-starfive-full-guard.service" ∷ []))
            (Ends-save_guard rules good) (λ u. search closed_rules depth 14)))

  Ends-verify_host : Ends (λ t. is_active t.full ≡ true) (verify_host system)
  unfolding verify_host
  Ends-verify_host = search (Ends-after, Ends-write_full) depth 12

  Ends-load_persist :
      (active : Bool) (rules : Table)
      → is_guard rules ≡ true
      → Ends IsArmed
          (nft_load system (replacement active rules) >>= λ u. persist_guard system rules)
  Ends-load_persist active rules good =
      Ends-then Holds-IsArmed (nft_load system (replacement active rules))
        (λ u. persist_guard system rules) (Ends-nft_load active rules good)
        (λ u. Closed-persist_guard system rules good)

module _ {E N : Type 0} (system : System E) (ip : Addresses N) where
  Ends-load_guard-IsArmed : Ends IsArmed (load_guard system ip)
  unfolding load_guard
  Ends-load_guard-IsArmed =
      search (Ends-given, Gives-full_firewall, Ends-after, Ends-load_persist) depth 12

  Ends-load_guard-IsGuarded : Ends IsGuarded (load_guard system ip)
  unfolding load_guard
  Ends-load_guard-IsGuarded =
      search (Ends-given, Gives-full_firewall, Ends-after, Ends-persist_guard) depth 12

  Ends-load_guard :
      (P : Tunnel E → Type 0) (stays : (t t' : Tunnel E) → Holds t t' → P t → P t')
      → Ends P (load_guard system ip)
      → Ends P (load_guard system ip >>= λ u. enter_device system ip >>= λ v. verify_host system)
  Ends-load_guard P stays h =
      Ends-then stays (load_guard system ip)
        (λ u. enter_device system ip >>= λ v. verify_host system) h
        (λ u. search (closed_rules, Closed-enter_device, Closed-verify_host))

  Ends-activate_full :
      (P : Tunnel E → Type 0) (address : String)
      (stays : (t t' : Tunnel E) → Holds t t' → P t → P t')
      → Ends P (load_guard system ip)
      → Ends P (activate_full system ip address)
  unfolding activate_full
  Ends-activate_full P address stays h =
      let last = Ends-load_guard P stays h in search (Ends-after, last) depth 20

  Ends-active :
      (address : String) → Ends (λ t. is_active t.full ≡ true) (activate_full system ip address)
  unfolding activate_full
  Ends-active address = search (Ends-after, Ends-verify_host) depth 24

  -- Where the tunnel has taken over the whole device without an exception, a replay of the commands
  -- with their exit status says that the guard stands: a script that leaves the table of the guard,
  -- with closed output and forward chains, was loaded with status 0, and no command after it may
  -- have taken it away. The file that is loaded before the network holds such a table, and the device
  -- is marked active.
  pub activate_full-IsArmed :
      (address : String) (t t' : Tunnel E)
      → activate_full system ip address t ≡ (ok tt, t')
      → (is_armed false t'.journal ≡ true) × IsKept t'.saved_guard × (is_active t'.full ≡ true)
  activate_full-IsArmed address t t' h = (
    (Ends-activate_full IsArmed address Holds-IsArmed Ends-load_guard-IsArmed).at t t' tt h,
    (Ends-activate_full IsGuarded address Holds-IsGuarded Ends-load_guard-IsGuarded).at t t' tt h,
    (Ends-active address).at t t' tt h,
  )
