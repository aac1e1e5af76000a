-- ===== src/Issuer/Enrollment/Named.antt =====
-- The account with the names and the record of an enrollment (server/token_issuer.py).
use evgenium_network_linux.Prelude.{
  get-put, has, nat_eq, string_eq, option_eq, Option, String, ok, none, some, ◌≡◌, ap, arith, false,
  get, inl, inr, put, refl, subst, sym, ◌+◌, ◌≤◌, ◌⊎◌,
}
use evgenium_network_linux.Issuer.Model.{Device, Account, DeviceName}
use evgenium_network_linux.Issuer.Names.{reserve_device_name, active_device_count, device_limit}
use evgenium_network_linux.Issuer.Host.{Host}
use evgenium_network_linux.Issuer.Accounts.{rename}
use evgenium_network_linux.Issuer.Accounts.Laws.{rename_lem}
use evgenium_network_linux.Issuer.Names.Limit.{reserve_device_name-active_device_count}
use evgenium_network_linux.Issuer.Revoke.{with_device}
use evgenium_network_linux.Issuer.Names.Frame.{Frame, reserve_device_name-Frame}
use evgenium_network_linux.Issuer.Names.Recorded.{IsEnabled, active_device_count-put}
use evgenium_network_linux.Issuer.Enrollment.{Request}

-- a record changes the devices, and a name the names
with_device-Frame :
    (k : String) (d : Device) (a a' : Account)
    → Frame k a a'
    → Frame k (record a { devices = put k d a.devices }) (with_device k d a')
with_device-Frame k d a a' f = record {
  same = ap (λ (x : Account). record x { devices = put k d x.devices }) f.same;
  kept = f.kept;
}

module _ {E : Type 0} (host : Host E) where
  pub rename-Frame :
      (k : String) (name : Option String) (a a' : Account) (n : DeviceName)
      → Frame k a a'
      → Frame k a (rename host k name (a', n)).0
  unfolding rename
  rename-Frame k none a a' n f = f
  rename-Frame k (some name) a a' n f = record {
    same =
        ap
          (λ (x : Account). record x {
            device_names = put k (record n { name = name }) a'.device_names;
            next_device_number = a'.next_device_number;
          })
          f.same;
    kept = λ i b other h.
        let before = f.kept i b other h in
        ground (arith, get-put i k (record n { name = name }) a'.device_names, other, before);
  }

  -- the account with the names, and then with the record
  pub named-Frame :
      (request : Request) (before reserved : Account) (n : DeviceName) (d : Device)
      → reserve_device_name request.device before ≡ ok (reserved, n)
      → Frame request.device
          (record before { devices = put request.device d before.devices })
          (with_device request.device d (rename host request.device request.name (reserved, n)).0)
  named-Frame request before reserved n d h = with_device-Frame request.device d before _ (
      rename-Frame request.device request.name before reserved n
        (reserve_device_name-Frame request.device before reserved n h))

  -- the devices that the new account counts
  pub named-active_device_count :
      (request : Request) (before reserved : Account) (n : DeviceName) (d : Device)
      → reserve_device_name request.device before ≡ ok (reserved, n)
      → d.disabled ≡ false
      → IsEnabled (get request.device before.devices)
      → (active_device_count
            (with_device request.device d (rename host request.device request.name (reserved, n)).0)
          ≤ active_device_count before)
        ⊎ ((active_device_count (
                with_device request.device d
                  (rename host request.device request.name (reserved, n)).0)
              ≤ active_device_count before + 1)
            × (active_device_count (
                  with_device request.device d
                    (rename host request.device request.name (reserved, n)).0)
                ≤ device_limit))
  named-active_device_count request before reserved n d h enabled earlier =
      let named = (rename host request.device request.name (reserved, n)).0 in
      let (counted, recorded) =
        reserve_device_name-active_device_count request.device before reserved n h in
      let (there, recount) = rename_lem host request.device request.name reserved n recorded in
      let frame =
        rename-Frame request.device request.name before reserved n
          (reserve_device_name-Frame request.device before reserved n h) in
      let devices : named.devices ≡ before.devices = ap (λ (a : Account). a.devices) frame.same in
      let less =
        active_device_count-put request.device d named enabled
          (subst (λ r. IsEnabled (get request.device r)) (sym devices) earlier)
          (rw (there, has) refl) in
      elim counted [
        | inl kept ↦ inl (omega (arith, recount, kept, less))
        | inr (room, grown) ↦
            inr (omega (arith, recount, grown, less), omega (arith, recount, grown, room, less))
      ]
