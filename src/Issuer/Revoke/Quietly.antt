-- ===== src/Issuer/Revoke/Quietly.antt =====
-- Between the two writes, revoking does not touch accounts.json.
use evgenium_network_linux.Prelude.{nat_eq, string_eq, Dict, List, String, [], ◌∷◌}
use evgenium_network_linux.Issuer.Model.{Device, Account}
use evgenium_network_linux.Issuer.Host.{Host}
use evgenium_network_linux.Issuer.Quiet.{Quiet, quiet_rules}
use evgenium_network_linux.Issuer.Wireguard.Peers.{remove_peer}
use evgenium_network_linux.Issuer.Certificates.Quietly.{Quiet-revoke_certificates}
use evgenium_network_linux.Issuer.Revoke.{
  revoke_records, remove_peers, retire_account, retire_all, retire_device,
}

module _ {E : Type 0} (host : Host E) where
  Quiet-remove_peer : (d : Device) → Quiet (remove_peer host d)
  unfolding remove_peer
  Quiet-remove_peer d = search quiet_rules depth 9

  Quiet-remove_peers : (ds : List Device) → Quiet (remove_peers host ds)
  unfolding remove_peers
  Quiet-remove_peers [] = search quiet_rules
  Quiet-remove_peers (d ∷ ds) =
      let rest = Quiet-remove_peers ds in search (quiet_rules, Quiet-remove_peer) depth 9

  Quiet-revoke_records : (ds : List Device) → Quiet (revoke_records host ds)
  unfolding revoke_records
  Quiet-revoke_records ds = search (quiet_rules, Quiet-remove_peers, Quiet-revoke_certificates)

  Quiet-retire_all : (ds : Dict String Device) → Quiet (retire_all host ds)
  unfolding retire_all
  Quiet-retire_all [] = search quiet_rules
  Quiet-retire_all ((k, d) ∷ ds) = let rest = Quiet-retire_all ds in search quiet_rules depth 9

  pub Quiet-retire_account : (a : Account) → Quiet (retire_account host a)
  unfolding retire_account
  Quiet-retire_account a = search (quiet_rules, Quiet-revoke_records, Quiet-retire_all) depth 9

  pub Quiet-retire_device : (d : Device) → Quiet (retire_device host d)
  unfolding retire_device
  Quiet-retire_device d = search (quiet_rules, Quiet-revoke_records) depth 9
