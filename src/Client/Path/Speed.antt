-- ===== src/Client/Path/Speed.antt =====
-- The health and the speed of a path in src/starfive_tunnel.py: `path_healthy`, `speed_sample` and
-- `traffic_total`.
use evgenium_network_linux.Prelude.{
  strip, nat_eq, string_eq, Bool, Exec, List, Option, String, [], false, if◌then◌else◌, none, not,
  pure, raise_if, runtime_error, some, true, ℕ, ◌<>◌, ◌&&◌, ◌==◌, ◌>>=◌, ◌>>◌, ◌∷◌, gets, value_or,
  ◌+◌,
}
use evgenium_network_linux.Issuer.Wireguard.Address.{parse_number}
use evgenium_network_linux.Client.Machine.{System, Tunnel, netns_exec, on_option, set_mode}
use evgenium_network_linux.Client.Machine.Actions.{
  change_file, is_running, is_stopping, try_command, write,
}
use evgenium_network_linux.Client.Egress.{egress_health}
use evgenium_network_linux.Client.Path.{Sample, installed, no_sample, root, sample_of}

module _ {E : Type 0} (system : System E) where
  unfoldable pub path_healthy : ℕ → Exec (Tunnel E) Bool
  unfolding is_running installed egress_health
  path_healthy daemon = do
    running ← is_running system (some daemon)
    if not running then pure false else (do
      up ← installed system
      tls ← gets (λ t. t.tls_process)
      carried ← on_option tls (pure true) (λ p. is_running system (some p))
      if up && carried then egress_health system else pure false)

  abbrev pub speed_args : Bool → List String
  speed_args down = netns_exec (
      "curl"
      ∷ "-4"
      ∷ "--noproxy"
      ∷ "*"
      ∷ "--fail"
      ∷ "--silent"
      ∷ "--show-error"
      ∷ "--connect-timeout"
      ∷ "3"
      ∷ "--max-time"
      ∷ "12"
      ∷ "--output"
      ∷ "/dev/null"
      ∷ "--write-out"
      ∷ "%{http_code} %{size_download} %{size_upload} %{time_total} %{time_connect}"
      ∷ (if down
          then "https://speed.cloudflare.com/__down?bytes=2097152" ∷ []
          else "--data-binary"
            ∷ ("@" <> (root <> "/speed-payload.bin"))
            ∷ "https://speed.cloudflare.com/__up"
            ∷ []))

  -- one direction: the speed, or none
  unfoldable pub sample_one : Bool → Exec (Tunnel E) (Option (ℕ × ℕ))
  unfolding is_stopping
  sample_one down = do
    stopping ← is_stopping system
    raise_if stopping (runtime_error "cancelled")
    o ← try_command system (speed_args down) []
    pure (system.measure down o)

  unfoldable pub speed_sample : Exec (Tunnel E) Sample
  unfolding sample_one
  speed_sample = do
    size ← gets (λ t. system.size (root <> "/speed-payload.bin") t.env)
    if value_or 0 size == 2097152 then pure tt else (do
      write system (root <> "/speed-payload.bin") "random"
      change_file system (set_mode (root <> "/speed-payload.bin") 384))
    down ← sample_one true
    on_option down (pure no_sample) (λ d. do up ← sample_one false; pure (sample_of d up))

  abbrev pub counter : String → Tunnel E → Option ℕ
  counter name t =
      elim (system.read_text ("/sys/class/net/evn-full-host/statistics/" <> name) t.env) [
        | none ↦ none
        | some s ↦ parse_number (strip system.is_space s)
      ]

  abbrev pub sum_of : Option ℕ → Option ℕ → ℕ
  sum_of (some a) (some b) = a + b
  sum_of _ _ = 0

  unfoldable pub traffic_total : Exec (Tunnel E) ℕ
  unfolding parse_number
  traffic_total = gets (λ t. sum_of (counter "rx_bytes" t) (counter "tx_bytes" t))
