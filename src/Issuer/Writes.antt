-- ===== src/Issuer/Writes.antt =====
-- What a write of accounts.json that returns has done (server/token_issuer.py).
use evgenium_network_linux.Prelude.{
  Result, ap, err, ok, os_error, some, sym, ◌≡◌, nat_eq, string_eq,
}
use evgenium_network_linux.Issuer.Model.{Accounts}
use evgenium_network_linux.Issuer.Host.{
  Host, World, WriteOutcome, not_replaced, not_synced, store, write_json, written,
}

module _ {E : Type 0} (host : Host E) where
  store-eq-ok :
      (outcome : WriteOutcome) (env : E) (data_ : Accounts) (w w' : World E) (u : Unit {0})
      → ◌≡◌ {A = Result (Unit {0}) × World E} (store outcome data_ env w) (ok u, w')
      → (w'.stored ≡ some data_) × (w'.journal ≡ w.journal)
  unfolding store
  store-eq-ok written env data_ w w' u h =
      (sym (ap (λ r. r.1.stored) h), sym (ap (λ r. r.1.journal) h))
  store-eq-ok not_replaced env data_ w w' u h =
      let e : ◌≡◌ {A = Result (Unit {0})} (err os_error) (ok u) = ap (λ r. r.0) h in cc
  store-eq-ok not_synced env data_ w w' u h =
      let e : ◌≡◌ {A = Result (Unit {0})} (err os_error) (ok u) = ap (λ r. r.0) h in cc

  pub write_json-eq-ok :
      (data_ : Accounts) (w w' : World E) (u : Unit {0})
      → write_json host data_ w ≡ (ok u, w')
      → (w'.stored ≡ some data_) × (w'.journal ≡ w.journal)
  unfolding write_json
  write_json-eq-ok data_ w w' u h =
      let (outcome, env) = host.write_file w.env in store-eq-ok outcome env data_ w w' u h
