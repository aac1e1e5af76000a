-- ===== src/Issuer/Certify/Issued.antt =====
-- What a call of `enroll` that returns has done (server/token_issuer.py).
use evgenium_network_linux.Prelude.{
  nat_eq, string_eq, option_eq, String, >>=-eq-ok, Error, Option, Option-cases, Result, ap, arith,
  continue-eq-ok, err, if◌then◌else◌, inl, inr, none, ok, permission_error, pure_inj, refl, some,
  subst, sym, ◌==◌, ◌∙◌, ◌≡◌, All, List, get, put, ◌++◌, ◌<>◌,
}
use evgenium_network_linux.Prelude.Json.{Json}
use evgenium_network_linux.Issuer.Model.{Device, Account, DeviceName}
use evgenium_network_linux.Issuer.Names.{reserve_device_name}
use evgenium_network_linux.Issuer.Host.{Host, World, now, Event, accounts, read_text, write_json}
use evgenium_network_linux.Issuer.Accounts.{authenticate, device_id, text_field}
use evgenium_network_linux.Issuer.Quiet.{Quiet, quiet_rules, Quiet-token_hex, Sees, Sees-result}
use evgenium_network_linux.Issuer.Certificates.{ca_folder}
use evgenium_network_linux.Issuer.Revoke.{with_device}
use evgenium_network_linux.Issuer.Certify.Keyed.{Keyed, key_hash_of_lem}
use evgenium_network_linux.Issuer.Writes.{write_json-eq-ok}
use evgenium_network_linux.Issuer.Certify.{
  ensure_certificate, is_valid, key_hash_of, sign, sign_pending, certified, identity_for, prepare,
  same_key, Certificate, admit_certificate, certify, checked_csr, enroll, folder_of,
}
use mathlib.Core.Option.{some-injective, none-ne-some}

module _ {E : Type 0} (host : Host E) where
  Quiet-key_hash_of : (identity csr : String) → Quiet (key_hash_of host identity csr)
  unfolding key_hash_of
  Quiet-key_hash_of identity csr = search quiet_rules depth 12

  Quiet-is_valid : (certificate : String) → Quiet (is_valid host certificate)
  unfolding is_valid
  Quiet-is_valid certificate = search quiet_rules depth 9

  Quiet-sign_pending : (identity : String) → Quiet (sign_pending host identity)
  unfolding sign_pending
  Quiet-sign_pending identity = search quiet_rules depth 12

  Quiet-sign : (identity : String) → Quiet (sign host identity)
  unfolding sign
  Quiet-sign identity = search (quiet_rules, Quiet-sign_pending) depth 9

  Quiet-ensure_certificate : (identity : String) → Quiet (ensure_certificate host identity)
  unfolding ensure_certificate
  Quiet-ensure_certificate identity = search (quiet_rules, Quiet-is_valid, Quiet-sign) depth 9

  Quiet-identity_for : (previous : Option Device) → Quiet (identity_for host previous)
  unfolding identity_for
  Quiet-identity_for none = search (quiet_rules, Quiet-token_hex)
  Quiet-identity_for (some d) = search quiet_rules

  Quiet-prepare : (previous : Option Device) (csr : String) → Quiet (prepare host previous csr)
  unfolding prepare
  Quiet-prepare previous csr =
      search (quiet_rules, Quiet-identity_for, Quiet-key_hash_of, Quiet-ensure_certificate) depth 12

  -- the record carries the hash of the key in the request, and an earlier record keeps its identity
  -- and its key
  abbrev pub Keeps : Option Device → String → World E → Device → Type 0
  Keeps previous csr w d =
      (h : String) × (u : World E) × (d.key_hash ≡ some h)
      × (identity_for host previous w ≡ (ok d.identity, u))
      × Keyed host d.identity csr u h
      × ((old : Device)
          → previous ≡ some old
          → (old.key_hash ≡ some h) × (d.identity ≡ old.identity) × (d.disabled ≡ old.disabled))

  same_key_lem :
      (previous : Option Device) (h : String) (u : Unit {0})
      → same_key previous h ≡ ok u
      → (old : Device) → previous ≡ some old
      → old.key_hash ≡ some h
  unfolding same_key
  same_key_lem none h u e old p = absurd (none-ne-some old p)
  same_key_lem (some d) h u e old p =
      let same : d ≡ old = some-injective d old p in
      rw (← same) (elim (Option-cases d.key_hash) [
        | inl missing ↦ absurd (err_ne_ok (rw (same_key, missing) at e))
        | inr (k, known) ↦ known ∙ ap some (same_hash k h u (rw (same_key, known) at e))
      ])
    where
      err_ne_ok : {x : Error} → ¬ ◌≡◌ {A = Result (Unit {0})} (err x) (ok u)
      err_ne_ok q = cc

      same_hash :
          (k h : String) (u : Unit {0})
          → ◌≡◌ {A = Result (Unit {0})}
              (if k == h then ok tt else err (permission_error "device_key_changed"))
              (ok u)
          → k ≡ h
      same_hash k h u q = ground (arith, q, string_eq.beq_iff k h)

  identity_for_lem :
      (old : Device) (w w' : World E) (identity : String)
      → identity_for host (some old) w ≡ (ok identity, w')
      → identity ≡ old.identity
  unfolding identity_for
  identity_for_lem old w w' identity h = sym (pure_inj h)

  prepare_lem :
      (previous : Option Device) (csr : String) (w w' : World E) (d : Device)
      → prepare host previous csr w ≡ (ok d, w')
      → Sees w w' × Keeps previous csr w d
  unfolding prepare
  prepare_lem previous csr w w' d h =
      let (identity, w1, e1, r1) = >>=-eq-ok (identity_for host previous) _ w w' d h in
      let (key_hash, w2, e2, r2) = >>=-eq-ok (key_hash_of host identity csr) _ w1 w' d r1 in
      let (u, e3, r3) = continue-eq-ok (same_key previous key_hash) w2 w' _ d r2 in
      let (v, w4, e4, r4) = >>=-eq-ok (ensure_certificate host identity) _ w2 w' d r3 in
      let (t, w5, e5, r5) = >>=-eq-ok (now host) _ w4 w' d r4 in
      let same : certified previous identity key_hash t ≡ d = pure_inj r5 in
      (
        Sees-result (prepare host previous csr) w w' (ok d) (Quiet-prepare previous csr) h,
        subst (Keeps previous csr w) same (
          key_hash,
          w1,
          refl,
          e1,
          key_hash_of_lem host identity csr w1 w2 key_hash e2,
          λ old p. (
            same_key_lem previous key_hash u e3 old p,
            identity_for_lem old w w1 identity
                (subst (λ q. identity_for host q w ≡ (ok identity, w1)) p e1),
            ap (λ q. (certified q identity key_hash t).disabled) p,
          ),
        ),
      )

  read_text-keeps :
      (path text : String) (w w' : World E) → read_text host path w ≡ (ok text, w') → w' ≡ w
  unfolding read_text
  read_text-keeps path text w w' h = sym (ap (λ r. r.1) h)

  -- the outcome of an `enroll` that returns
  pub record Issued (body : Json) (w w' : World E) (c : Certificate) : Type 0 where
    pub device : String
    pub before : Account
    pub named : Account
    pub record_ : Device
    pub asked : device_id body ≡ ok device
    pub opened : authenticate host (accounts w) (text_field "token" body) ≡ ok (c.account, before)
    pub admitted : admit_certificate device before ≡ ok tt
    pub csr : String
    pub sent : checked_csr (text_field "csr" body) ≡ ok csr
    pub keeps : Keeps (get device before.devices) csr w record_
    pub reserved :
        reserve_device_name device (with_device device record_ before) ≡ ok (named, c.device_name)
    pub identity : c.identity ≡ record_.identity
    pub on_disk : w'.stored ≡ some (put c.account named (accounts w))
    pub ran :
        (ran : List Event) × (w'.journal ≡ w.journal ++ ran)
        × All (λ (e : Event). e.on_disk ≡ w.stored) ran

  -- from the lock on
  certify-Issued :
      (body : Json) (device csr id : String) (before : Account) (w w' : World E) (c : Certificate)
      → device_id body ≡ ok device
      → checked_csr (text_field "csr" body) ≡ ok csr
      → authenticate host (accounts w) (text_field "token" body) ≡ ok (id, before)
      → admit_certificate device before ≡ ok tt
      → certify host device csr id before (accounts w) w ≡ (ok c, w')
      → Issued body w w' c
  unfolding certify
  certify-Issued body device csr id before w w' c asked sent opened admitted h =
      let (d, w1, e1, r1) = >>=-eq-ok (prepare host (get device before.devices) csr) _ w w' c h in
      let ((named, n), e2, r2) =
        continue-eq-ok (reserve_device_name device (with_device device d before)) w1 w' _ c r1 in
      let (u, w3, e3, r3) = >>=-eq-ok (write_json host (put id named (accounts w))) _ w1 w' c r2 in
      let (cert, w4, e4, r4) =
        >>=-eq-ok (read_text host (folder_of d.identity <> "/cert.pem")) _ w3 w' c r3 in
      let (ca, w5, e5, r5) = >>=-eq-ok (read_text host (ca_folder <> "/ca.pem")) _ w4 w' c r4 in
      let (sees, keeps) = prepare_lem (get device before.devices) csr w w1 d e1 in
      let (stored, journal) = write_json-eq-ok host (put id named (accounts w)) w1 w3 u e3 in
      let end : w' ≡ w3 =
        sym (ap (λ r. r.1) r5)
        ∙ read_text-keeps (ca_folder <> "/ca.pem") ca w4 w5 e5
        ∙ read_text-keeps (folder_of d.identity <> "/cert.pem") cert w3 w4 e4 in
      answer_of body device csr id before named d n cert ca w w' c asked sent opened admitted keeps
        e2 (ap (λ (t : World E). t.stored) end ∙ stored)
        (sees.ran, ap (λ (t : World E). t.journal) end ∙ journal ∙ sees.journal, sees.saw)
        (pure_inj r5)
    where
      answer_of :
          (body : Json) (device csr id : String) (before named : Account) (d : Device)
          (n : DeviceName) (cert ca : String) (w w' : World E) (c : Certificate)
          → device_id body ≡ ok device
          → checked_csr (text_field "csr" body) ≡ ok csr
          → authenticate host (accounts w) (text_field "token" body) ≡ ok (id, before)
          → admit_certificate device before ≡ ok tt
          → Keeps (get device before.devices) csr w d
          → reserve_device_name device (with_device device d before) ≡ ok (named, n)
          → w'.stored ≡ some (put id named (accounts w))
          → (ran : List Event) × (w'.journal ≡ w.journal ++ ran)
            × All (λ (e : Event). e.on_disk ≡ w.stored) ran
          → record {
            identity = d.identity;
            account = id;
            device_name = n;
            certificate = cert;
            ca = ca;
          }
            ≡ c
          → Issued body w w' c
      answer_of body device csr id before named d n cert ca w w' c asked sent opened admitted keeps
            reserved on_disk ran same =
          subst (Issued body w w') same (record {
            device = device;
            before = before;
            named = named;
            record_ = d;
            asked = asked;
            csr = csr;
            sent = sent;
            opened = opened;
            admitted = admitted;
            keeps = keeps;
            reserved = reserved;
            identity = refl;
            on_disk = on_disk;
            ran = ran;
          })

  pub enroll-Issued :
      (body : Json) (w w' : World E) (c : Certificate)
      → enroll host body w ≡ (ok c, w')
      → Issued body w w' c
  unfolding enroll
  enroll-Issued body w w' c h =
      let (device, asked, r1) = continue-eq-ok (device_id body) w w' _ c h in
      let (csr, e2, r2) = continue-eq-ok (checked_csr (text_field "csr" body)) w w' _ c r1 in
      let ((id, before), opened, r3) =
        continue-eq-ok (authenticate host (accounts w) (text_field "token" body)) w w' _ c r2 in
      let (u, admitted, r4) = continue-eq-ok (admit_certificate device before) w w' _ c r3 in
      certify-Issued body device csr id before w w' c asked e2 opened admitted r4
