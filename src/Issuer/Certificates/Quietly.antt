-- ===== src/Issuer/Certificates/Quietly.antt =====
-- Revoking certificates does not touch accounts.json.
use evgenium_network_linux.Prelude.{nat_eq, string_eq, List, String, [], suc, zero, ℕ, ◌∷◌}
use evgenium_network_linux.Issuer.Host.{Host}
use evgenium_network_linux.Issuer.Quiet.{
  Quiet, quiet_rules, Quiet-bind, Quiet-exec_input, Quiet-lift,
}
use evgenium_network_linux.Issuer.Certificates.{
  revoke_certificates, issued_at, publish, restart_active, revoke_and_stop, revoke_row, revoke_rows,
  stop_sessions, terminate_all,
}

module _ {E : Type 0} (host : Host E) where
  Quiet-revoke_row :
      (identities row seen : List String) → Quiet (revoke_row host identities row seen)
  unfolding revoke_row
  Quiet-revoke_row identities (s ∷ a ∷ b ∷ c ∷ d ∷ e ∷ []) seen = search quiet_rules depth 9
  Quiet-revoke_row identities _ seen = search quiet_rules

  Quiet-revoke_rows :
      (identities rows seen : List String) → Quiet (revoke_rows host identities rows seen)
  unfolding revoke_rows
  Quiet-revoke_rows identities [] seen = search quiet_rules
  Quiet-revoke_rows identities (row ∷ rows) seen =
      search (quiet_rules, Quiet-revoke_row, Quiet-revoke_rows identities rows)

  Quiet-issued_at : (path : String) → Quiet (issued_at host path)
  unfolding issued_at
  Quiet-issued_at path = search quiet_rules

  Quiet-publish : (rounds previous : ℕ) → Quiet (publish host rounds previous)
  unfolding publish
  Quiet-publish zero previous = search quiet_rules
  Quiet-publish (suc rounds) previous =
      let rest = Quiet-publish rounds previous in search (quiet_rules, Quiet-issued_at) depth 9

  Quiet-terminate_all : (numbers : List String) → Quiet (terminate_all host numbers)
  unfolding terminate_all
  Quiet-terminate_all [] = search quiet_rules
  Quiet-terminate_all (n ∷ numbers) =
      let rest = Quiet-terminate_all numbers in
      Quiet-bind _ _ (Quiet-exec_input host _ _) (λ o. Quiet-bind _ _ (Quiet-lift _) (λ u. rest))

  Quiet-stop_sessions :
      (rounds : ℕ) (identities : List String) → Quiet (stop_sessions host rounds identities)
  unfolding stop_sessions
  Quiet-stop_sessions zero identities = search quiet_rules
  Quiet-stop_sessions (suc rounds) identities =
      let rest = Quiet-stop_sessions rounds identities in
      search (quiet_rules, Quiet-terminate_all) depth 9

  Quiet-restart_active : (unit : String) → Quiet (restart_active host unit)
  unfolding restart_active
  Quiet-restart_active unit = search quiet_rules depth 9

  Quiet-revoke_and_stop : (identities : List String) → Quiet (revoke_and_stop host identities)
  unfolding revoke_and_stop
  Quiet-revoke_and_stop identities =
      search
        (
          quiet_rules, Quiet-revoke_rows, Quiet-issued_at, Quiet-publish, Quiet-stop_sessions,
          Quiet-restart_active,
        )
        depth 14

  pub Quiet-revoke_certificates :
      (identities : List String) → Quiet (revoke_certificates host identities)
  unfolding revoke_certificates
  Quiet-revoke_certificates identities = search (quiet_rules, Quiet-revoke_and_stop)
