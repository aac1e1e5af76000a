-- ===== src/Issuer/Enrollment/Outcome.antt =====
-- What an enrollment that returns has done (`enroll_wireguard` of server/token_issuer.py).
use evgenium_network_linux.Prelude.{
  ◌<>◌, nat_eq, string_eq, option_eq, Option, String, ok, none, some, ◌≡◌, ap, arith,
  continue-eq-ok, err, false, get, if◌then◌else◌, not, permission_error, pure_inj, put, refl, subst,
  sym, true, value_or, ◌==◌, ◌||◌, ◌∙◌, >>=-eq-ok, ◌+◌, ◌≤◌, ◌⊎◌, raise_if-eq-ok, pure, ◌>>◌,
}
use evgenium_network_linux.Prelude.Json.{Json}
use evgenium_network_linux.Issuer.Model.{Device, Account, Accounts, DeviceName}
use evgenium_network_linux.Issuer.Names.{reserve_device_name, active_device_count, device_limit}
use evgenium_network_linux.Issuer.Host.{Host, World, now, accounts}
use evgenium_network_linux.Issuer.Accounts.{authenticate, rename, text_field}
use evgenium_network_linux.Issuer.Accounts.Laws.{rename_lem}
use evgenium_network_linux.Issuer.Names.Limit.{reserve_device_name-active_device_count}
use evgenium_network_linux.Issuer.Enrollment.Named.{
  rename-Frame, named-Frame, named-active_device_count,
}
use evgenium_network_linux.Issuer.Enrollment.Committed.{Committed, Committed-from, commit_lem}
use evgenium_network_linux.Issuer.Revoke.{with_device}
use evgenium_network_linux.Issuer.Names.Frame.{Frame, reserve_device_name-Frame}
use evgenium_network_linux.Issuer.Names.Recorded.{IsEnabled}
use evgenium_network_linux.Issuer.Wireguard.Peers.{config}
use evgenium_network_linux.Issuer.Wireguard.Peers.Runs.{config_keeps}
use evgenium_network_linux.Issuer.Wireguard.Address.{is_wireguard, allocate_address}
use evgenium_network_linux.Issuer.Enrollment.{
  admit, commit, completed_record, pending, record_for, Profile, Request, checked_request,
  enroll_checked, enroll_wireguard, key_used, enroll_admitted,
}

-- a record that may be enrolled under the key
pub record Suits (key : String) (d : Device) : Type 0 where
  pub wireguard : is_wireguard d ≡ true
  pub same_key : value_or "" d.public_key ≡ key
  pub not_disabled : d.disabled ≡ false

admit-Suits :
    (device key : String) (a : Account) (d : Device)
    → admit device key a ≡ ok tt
    → get device a.devices ≡ some d
    → Suits key d
unfolding admit
admit-Suits device key a d h found =
    let g : (if d.disabled
          then err (permission_error "device_disabled")
          else (if not (is_wireguard d) || not (value_or "" d.public_key == key)
              then err (permission_error "device_key_changed")
              else ok tt))
        ≡ ok tt =
      rw (admit, found) at h in
    record {
      wireguard = ground (arith, g);
      same_key = ground (arith, g, string_eq.beq_iff (value_or "" d.public_key) key);
      not_disabled = ground (arith, g);
    }

module _ {E : Type 0} (host : Host E) where
  -- the record of a device: the one it had, or a new one at a free address
  abbrev pub IsRecordFor : Option Device → String → Accounts → Device → Type 0
  IsRecordFor (some old) key data_ d = d ≡ old
  IsRecordFor none key data_ d =
      (a : String) × (allocate_address data_ ≡ ok a)
      × (d.address ≡ some a)
      × (d.identity ≡ "wg:" <> key)

  record_for_lem :
      (device key : String) (a : Account) (data_ : Accounts) (previous : Option Device)
      (w w' : World E) (d : Device)
      → admit device key a ≡ ok tt
      → get device a.devices ≡ previous
      → record_for host key data_ previous w ≡ (ok d, w')
      → Suits key d × (w'.journal ≡ w.journal) × IsRecordFor previous key data_ d
  unfolding record_for now
  record_for_lem device key a data_ (some old) w w' d allowed found h = (
    subst (Suits key) (pure_inj h) (admit-Suits device key a old allowed found),
    sym (ap (λ r. r.1.journal) h),
    sym (pure_inj h),
  )
  record_for_lem device key a data_ none w w' d allowed found h =
      let (free, e, h') = continue-eq-ok (allocate_address data_) w w' _ d h in
      (
        subst (Suits key) (pure_inj h')
            (record { wireguard = refl; same_key = refl; not_disabled = refl }),
        sym (ap (λ r. r.1.journal) h'),
        subst (IsRecordFor none key data_) (pure_inj h') (free, e, refl, refl),
      )

  -- The outcome of an enrollment that returns: the request, the account that its token opened, the
  -- record, the account as it stood on the disk while the commands ran, and as it stands at the end.
  pub record Enrolled (body : Json) (w w' : World E) (p : Profile) : Type 0 where
    pub request : Request
    pub id : String
    pub before : Account
    pub device : Device
    pub during : Account
    pub stored : Account
    pub asked : checked_request host body ≡ ok request
    pub opened : authenticate host (accounts w) (text_field "token" body) ≡ ok (id, before)
    pub unique : key_used request.key id request.device (accounts w) ≡ false
    pub suits : Suits request.key device
    pub origin : IsRecordFor (get request.device before.devices) request.key (accounts w) device
    pub committed :
        Committed host
          (put id during (accounts w))
          (put id stored (accounts w))
          (pending device)
          w
          w'
    pub held :
        during ≡ record stored { devices = put request.device (pending device) before.devices }
    pub frame :
        Frame request.device
          (record before { devices = put request.device (completed_record device) before.devices })
          stored
    pub limited :
        (active_device_count stored ≤ active_device_count before)
        ⊎ ((active_device_count stored ≤ active_device_count before + 1)
            × (active_device_count stored ≤ device_limit))
    pub named : get request.device stored.device_names ≡ some p.device_name
    pub answered : (p.account ≡ id) × (p.device ≡ request.device) × (p.address ≡ device.address)

  -- from the `commit` on
  commit-Enrolled :
      (body : Json) (request : Request) (id : String) (before reserved : Account) (n : DeviceName)
      (d : Device) (w u w' : World E) (a p : Profile)
      → checked_request host body ≡ ok request
      → authenticate host (accounts w) (text_field "token" body) ≡ ok (id, before)
      → key_used request.key id request.device (accounts w) ≡ false
      → Suits request.key d
      → IsRecordFor (get request.device before.devices) request.key (accounts w) d
      → IsEnabled (get request.device before.devices)
      → u.journal ≡ w.journal
      → reserve_device_name request.device before ≡ ok (reserved, n)
      → (a.account ≡ id)
        × (a.device ≡ request.device)
        × (a.address ≡ d.address)
        × (a.device_name ≡ (rename host request.device request.name (reserved, n)).1)
      → (commit host id
              (rename host request.device request.name (reserved, n)).0
              (accounts w)
              request.device
              d
            >> pure a)
          u
        ≡ (ok p, w')
      → Enrolled body w w' p
  commit-Enrolled body request id before reserved n d w u w' a p asked opened unique suits origin
        earlier quiet reserving answer h =
      let named : Account = (rename host request.device request.name (reserved, n)).0 in
      let (v, t, e, r) =
        >>=-eq-ok (commit host id named (accounts w) request.device d) _ u w' p h in
      let c = commit_lem host id request.device named (accounts w) d u t e in
      let end : t ≡ w' = ap (λ q. q.1) r in
      let same : a ≡ p = pure_inj r in
      let (_, recorded) =
        reserve_device_name-active_device_count request.device before reserved n reserving in
      let (there, _) = rename_lem host request.device request.name reserved n recorded in
      let frame =
        rename-Frame host request.device request.name before reserved n
          (reserve_device_name-Frame request.device before reserved n reserving) in
      record {
        request = request;
        id = id;
        before = before;
        device = d;
        during = with_device request.device (pending d) named;
        stored = with_device request.device (completed_record d) named;
        asked = asked;
        opened = opened;
        unique = unique;
        suits = suits;
        origin = origin;
        committed =
            subst (Committed host _ _ (pending d) w) end (Committed-from host _ _ _ w u t quiet c);
        held =
            ap
              (λ (x : Account). record named { devices = put request.device (pending d) x.devices })
              frame.same;
        frame = named-Frame host request before reserved n (completed_record d) reserving;
        limited =
            named-active_device_count host request before reserved n (completed_record d) reserving
              suits.not_disabled earlier;
        named = there ∙ ap some (sym (answer.3) ∙ ap (λ q. q.device_name) same);
        answered =
            subst (λ q. (q.account ≡ id) × (q.device ≡ request.device) × (q.address ≡ d.address))
              same (answer.0, answer.1, answer.2);
      }

  -- from the reading of the configuration on
  record_for-Enrolled :
      (body : Json) (request : Request) (id : String) (before : Account) (w w' : World E)
      (p : Profile)
      → checked_request host body ≡ ok request
      → authenticate host (accounts w) (text_field "token" body) ≡ ok (id, before)
      → admit request.device request.key before ≡ ok tt
      → key_used request.key id request.device (accounts w) ≡ false
      → enroll_admitted host request id before (accounts w) w ≡ (ok p, w')
      → Enrolled body w w' p
  unfolding enroll_admitted
  record_for-Enrolled body request id before w w' p asked opened allowed unique h =
      let (cfg, w1, e1, r1) = >>=-eq-ok (config host) _ w w' p h in
      let (d, w2, e2, r2) =
        >>=-eq-ok (record_for host request.key (accounts w) (get request.device before.devices)) _
          w1 w' p r1 in
      let ((reserved, n), e3, r3) =
        continue-eq-ok (reserve_device_name request.device before) w2 w' _ p r2 in
      let (suits, quiet, origin) =
        record_for_lem request.device request.key before (accounts w)
          (get request.device before.devices) w1 w2 d allowed refl e2 in
      let journal : w2.journal ≡ w.journal =
        quiet ∙ ap (λ (t : World E). t.journal) (config_keeps host w w1 (ok cfg) e1) in
      commit-Enrolled body request id before reserved n d w w2 w' _ p asked opened unique suits
        origin (λ old q. (admit-Suits request.device request.key before old allowed q).not_disabled)
        journal e3 (refl, refl, refl, refl) r3

  enroll_checked-Enrolled :
      (body : Json) (request : Request) (w w' : World E) (p : Profile)
      → checked_request host body ≡ ok request
      → enroll_checked host request (text_field "token" body) w ≡ (ok p, w')
      → Enrolled body w w' p
  unfolding enroll_checked
  enroll_checked-Enrolled body request w w' p asked h =
      let ((id, before), e1, r1) =
        continue-eq-ok (authenticate host (accounts w) (text_field "token" body)) w w' _ p h in
      let (u, e2, r2) = continue-eq-ok (admit request.device request.key before) w w' _ p r1 in
      let (unused, r3) =
        raise_if-eq-ok (key_used request.key id request.device (accounts w))
          (permission_error "device_key_used") _ w w' p r2 in
      record_for-Enrolled body request id before w w' p asked e1 e2 unused r3

  -- An enrollment that returns was asked for in a valid request, with a token that opens an account
  -- on the disk and a key that no other WireGuard device uses. The disk has changed in that account
  -- only, and in it only by the device's record, the names and their counter: the record is the one
  -- that the device had, or a new one at the address that `allocate_address` gives, not disabled,
  -- under the request's key and no longer pending; the names of other devices are as before, and
  -- the device's is the answer's. That account counts no more devices than before, or at most one
  -- more and at most twelve. `apply_peer` of the record has returned between the two writes, and
  -- each command it ran saw the device on the disk as pending.
  pub enroll_wireguard-Enrolled :
      (body : Json) (w w' : World E) (p : Profile)
      → enroll_wireguard host body w ≡ (ok p, w')
      → Enrolled body w w' p
  unfolding enroll_wireguard
  enroll_wireguard-Enrolled body w w' p h =
      let (request, asked, h') = continue-eq-ok (checked_request host body) w w' _ p h in
      enroll_checked-Enrolled body request w w' p asked h'
