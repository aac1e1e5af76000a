-- ===== src/Client/Worker.antt =====
-- The loop of `worker` of src/starfive_tunnel.py, from the first path on: `watch` is its inner loop
-- over a path that is connected, and `connect_paths` the outer one. Both run for ever, so that each
-- takes the number of rounds to be run, and answers whether it has ended by then.
pub mod Exhaustion
use evgenium_network_linux.Prelude.{
  nat_eq, string_eq, Bool, Error, Exec, List, Option, Result, String, [], err, false, if◌then◌else◌,
  none, not, ok, pure, raise, raise_if, runtime_error, some, suc, zero, true, ℕ, ◌<>◌, ◌&&◌, ◌||◌,
  ◌==◌, ◌>>=◌, ◌>>◌, ◌∷◌, ◌+◌, gets, modify, all_chars, leb, ltb, value_error, lift, or_raise, get,
  key_error, strip, finally_do, timeout_expired,
}
use Prim.Native.String.{count}
use evgenium_network_linux.Issuer.Wireguard.Connections.{is_expected, sample}
use evgenium_network_linux.Ranking.{Ranking, candidates, lose, next_after, keep_usable}
use evgenium_network_linux.Client.Policy.{Addresses}
use evgenium_network_linux.Client.Machine.{Candidate, System, Tunnel, catch, on_option}
use evgenium_network_linux.Client.Machine.Actions.{
  exists, is_running, is_stopping, now, pause, read_text, save_ranking, stage,
}
use evgenium_network_linux.Client.Network.{physical_route}
use evgenium_network_linux.Client.Apply.{ensure_route}
use evgenium_network_linux.Client.Resolver.{recover_rounds, recover_system_dns, start_namespace_dns}
use evgenium_network_linux.Client.Full.Activation.{activate_full}
use evgenium_network_linux.Client.Path.{is_failed_call, speed_degraded}
use evgenium_network_linux.Client.Path.Start.{start_candidate, stop_candidate}
use evgenium_network_linux.Client.Path.Speed.{path_healthy, speed_sample, traffic_total}

-- `str(exc) if re.fullmatch('[a-z_]{1,64}', str(exc)) else 'connection_failed'`; the texts of the
-- exceptions of the system have other characters
abbrev pub is_code : String → Bool
is_code m =
    leb 1 (count m) && leb (count m) 64 && all_chars (λ c. leb b'a' c && leb c b'z' || c == b'_') m

unfoldable pub reason_of : Error → String
reason_of (runtime_error m) = if is_code m then m else "connection_failed"
reason_of (value_error m) = if is_code m then m else "connection_failed"
reason_of _ = "connection_failed"

-- `except (OSError, RuntimeError)`
unfoldable pub is_no_route : Error → Bool
unfolding is_failed_call
is_no_route (runtime_error m) = true
is_no_route timeout_expired = false
is_no_route e = is_failed_call e

abbrev pub head_of : List String → Option String
head_of [] = none
head_of (x ∷ xs) = some x

-- `following or next(iter(rank.candidates()), None)`
abbrev pub following_of : Option String → Result (List String) → Result (Option String)
following_of (some x) others = ok (some x)
following_of none (err e) = err e
following_of none (ok xs) = ok (head_of xs)

-- the path after one that was lost
unfoldable pub choose_next : String → Ranking → Result (Option String)
unfolding next_after keep_usable
choose_next current r = elim (next_after current r) [
  | err e ↦ err e
  | ok following ↦ following_of following (candidates r)
]

-- the local variables of the inner loop
pub record Watch : Type 0 where
  pub failures : ℕ
  pub slow : ℕ
  pub last_traffic : ℕ
  pub next_speed : ℕ

module _ {E : Type 0} (system : System E) where
  -- `for _ in range(n): if STOP: break; time.sleep(.1)`
  unfoldable pub wait : ℕ → Exec (Tunnel E) (Unit {0})
  unfolding is_stopping pause
  wait zero = pure tt
  wait (suc n) = do
    stopping ← is_stopping system
    if stopping then pure tt else (do pause system; wait n)

  abbrev pub connected : Candidate → Exec (Tunnel E) (Unit {0})
  connected c =
      stage system "connected" ("Подключено: " <> (c.label <> ".")) 100
        (λ s. record s { active = true; path = some c.id; error_code = "" })

  -- a random delay is what the clock adds
  unfoldable pub next_check : ℕ → Exec (Tunnel E) ℕ
  unfolding now
  next_check delay = do time ← now system; pure (time + delay)

  unfoldable pub repair_dns : Exec (Tunnel E) (Unit {0})
  unfolding is_running stage start_namespace_dns
  repair_dns = do
    process ← gets (λ t. t.dns_process)
    running ← is_running system process
    if running then pure tt else (do
      stage system "repairing" "Перезапускаю защищённый DNS." 90
          (λ s. record s { active = false; error_code = "private_dns_stopped" })
      start_namespace_dns system)

  unfoldable pub look : ℕ → Exec (Tunnel E) Bool
  unfolding ensure_route repair_dns path_healthy recover_rounds
  look daemon = do
    if system.with_policy then ensure_route system else pure tt
    repair_dns
    healthy ← path_healthy system daemon
    recovered ← if healthy then recover_system_dns system else pure true
    raise_if (healthy && not recovered) (runtime_error "system_dns_failed")
    pure healthy

  -- an exception of a look is a failed look
  unfoldable pub is_healthy : ℕ → Exec (Tunnel E) Bool
  unfolding look is_expected
  is_healthy daemon = catch (look daemon) (λ e. if is_expected e then pure false else raise e)

  -- a sample, and three of them that have dropped
  unfoldable pub take_sample : String → ℕ → Watch → Exec (Tunnel E) Watch
  unfolding speed_sample speed_degraded next_check
  take_sample current traffic v = do
    sample ← speed_sample system
    measured ← gets (λ t. get current t.baselines)
    baseline ← or_raise measured key_error
    let slow = if speed_degraded sample baseline then v.slow + 1 else 0
    time ← next_check (if slow == 0 then 600 else 20)
    raise_if (leb 3 slow) (runtime_error "confirmed_speed_drop")
    pure (record v { slow = slow; last_traffic = traffic; next_speed = time })

  -- without traffic a sample is put off, which leaves the stage as it is
  unfoldable pub check_speed : Candidate → Watch → Exec (Tunnel E) Watch
  unfolding traffic_total next_check take_sample now stage
  check_speed c v = do
    time ← now system
    if ltb time v.next_speed then (do connected c; pure v) else (do
      traffic ← traffic_total system
      if v.slow == 0 && ltb traffic (v.last_traffic + 4194304)
          then (do
            next ← next_check 600
            pure (record v { last_traffic = traffic; next_speed = next }))
          else (do w ← take_sample c.id traffic v; connected c; pure w))

  -- one look at the path, after the wait
  unfoldable pub watch_once : Candidate → ℕ → Watch → Exec (Tunnel E) Watch
  unfolding is_healthy check_speed stage
  watch_once c daemon v = do
    healthy ← is_healthy daemon
    let failures = if healthy then 0 else v.failures + 1
    raise_if (leb 2 failures) (runtime_error "path_health_failed")
    if healthy then check_speed c (record v { failures = failures }) else (do
      stage system "checking" "Ответ задерживается. Проверяю текущий маршрут." 90
          (λ s. record s { active = false })
      pure (record v { failures = failures }))

  -- whether the program was stopped within so many rounds
  unfoldable pub watch : ℕ → Candidate → ℕ → Watch → Exec (Tunnel E) Bool
  unfolding wait is_stopping watch_once
  watch zero c daemon v = pure false
  watch (suc rounds) c daemon v = do
    wait 50
    stopping ← is_stopping system
    if stopping then pure true else (do w ← watch_once c daemon v; watch rounds c daemon w)

  unfoldable pub is_offline : Exec (Tunnel E) Bool
  unfolding physical_route exists read_text is_no_route
  is_offline =
      catch
        (do
          uplink ← physical_route system
          there ← exists system ("/sys/class/net/" <> (uplink.1 <> "/carrier"))
          if there
              then (do
                text ← read_text system ("/sys/class/net/" <> (uplink.1 <> "/carrier"))
                pure (strip system.is_space text == "0"))
              else pure false)
        (λ e. if is_no_route e then pure true else raise e)

  -- a path that failed while the network was there has lost
  unfoldable pub lose_path : String → Exec (Tunnel E) (Option String)
  unfolding lose choose_next save_ranking
  lose_path current = do
    before ← gets (λ t. t.ranking)
    after_loss ← lift (lose current before)
    save_ranking system after_loss
    lift (choose_next current after_loss)

  abbrev pub repair_message : Bool → String
  repair_message offline =
      if offline
      then "Ожидаю восстановления физической сети."
      else "Связь потеряна. Переключаю защищённый маршрут."

  -- the handler of the outer loop: the next path, and whether to go on
  unfoldable pub after_failure : String → Error → Exec (Tunnel E) (Bool × Option String)
  unfolding is_stopping is_expected is_offline lose_path stage wait reason_of
  after_failure current e = do
    if is_expected e then pure tt else raise e
    stopping ← is_stopping system
    if stopping then pure (true, some current) else (do
      offline ← is_offline
      next ← if offline then pure (some current) else lose_path current
      stage system "repairing" (repair_message offline) 65
          (λ s. record s { active = false; error_code = reason_of e })
      wait (if offline then 100 else 30)
      pure (false, next))

module _ {E N : Type 0} (system : System E) (ip : Addresses N) where
  -- the body of the outer `try`
  unfoldable pub use_path : ℕ → Candidate → String → Exec (Tunnel E) (Bool × Option String)
  unfolding stage start_candidate activate_full traffic_total next_check watch
  use_path rounds c identity = do
    stage system "handshake" ("Подключаю: " <> c.label) 75
        (λ s. record s { active = false; path = some c.id })
    daemon ← start_candidate system c identity
    modify (λ t. record t { daemon = some daemon })
    stage system "routing" "Подключаю трафик к проверенному маршруту." 92 (λ s. s)
    activate_full system ip c.address
    connected system c
    traffic ← traffic_total system
    time ← next_check system 600
    stopped ←
        watch system rounds c daemon
          (record { failures = 0; slow = 0; last_traffic = traffic; next_speed = time })
    pure (stopped, some c.id)

  -- `try ... except ... finally: stop_candidate(daemon); daemon = None`
  unfoldable pub try_path : ℕ → Candidate → String → Exec (Tunnel E) (Bool × Option String)
  unfolding use_path after_failure stop_candidate
  try_path rounds c identity =
      finally_do (catch (use_path rounds c identity) (after_failure system c.id))
        (do stop_candidate system; modify (λ t. record t { daemon = none }))

  -- whether the loop has ended within so many paths, each watched for so many rounds
  unfoldable pub connect_paths :
      ℕ → ℕ → List (String × Candidate) → String → Option String → Exec (Tunnel E) Bool
  unfolding is_stopping try_path stage
  connect_paths zero rounds candidates identity current = pure false
  connect_paths (suc paths) rounds candidates identity current = do
    stopping ← is_stopping system
    if stopping
        then pure true
        else on_option current
            (do
              stage system "failed"
                  "Доступные маршруты исчерпали три попытки. Нажмите «Восстановить» для нового рейтинга."
                  0 (λ s. record s { active = false; error_code = "ranking_exhausted" })
              pure true)
            (λ id. do
              c ← or_raise (get id candidates) key_error
              found ← try_path rounds c identity
              if found.0 then pure true else connect_paths paths rounds candidates identity found.1)
