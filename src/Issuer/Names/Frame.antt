-- ===== src/Issuer/Names/Frame.antt =====
-- What naming a device leaves alone (server/token_issuer.py).
use evgenium_network_linux.Prelude.{
  nat_eq, string_eq, Bool-cases, Option-cases, String, suc, ap, arith, false, get, get-put, inl,
  inr, leb, ok, put, refl, some, sorted, subst, sym, value_or, values, ◌==◌, ◌∙◌, ◌≡◌,
}
use evgenium_network_linux.Issuer.Model.{Account, DeviceName}
use evgenium_network_linux.Issuer.Names.{
  active_device_count, add_name, default_name, device_limit, enrolled_before, ensure_device_names,
  next_number, reserve_device_name, reserve_new,
}
use evgenium_network_linux.Issuer.Names.Numbers.{get-name_devices}
use evgenium_network_linux.Issuer.Names.Limit.{reserve_absent, reserve_known}

-- only the names and the counter differ, and the names of other devices stay
pub record Frame (d : String) (a a' : Account) : Type 0 where
  pub same :
      a' ≡ record a { device_names = a'.device_names; next_device_number = a'.next_device_number }
  pub kept :
      (i : String) (n : DeviceName)
      → (i == d) ≡ false
      → get i a.device_names ≡ some n
      → get i a'.device_names ≡ some n

ensure_device_names-Frame : (d : String) (a : Account) → Frame d a (ensure_device_names a)
unfolding ensure_device_names
ensure_device_names-Frame d a = record {
  same = refl;
  kept = λ i n other named.
      get-name_devices (sorted enrolled_before a.devices) a.device_names
        (next_number a.next_device_number (values a.device_names)) i n named;
}

add_name-Frame : (d : String) (a b : Account) → Frame d a b → Frame d a (add_name d b)
unfolding add_name
add_name-Frame d a b f = record {
  same =
      ap
        (λ (x : Account). record x {
          device_names = put d (default_name (value_or 1 b.next_device_number)) b.device_names;
          next_device_number = some (suc (value_or 1 b.next_device_number));
        })
        f.same;
  kept = λ i n other named.
      let before = f.kept i n other named in
      ground (
        arith,
        get-put i d (default_name (value_or 1 b.next_device_number)) b.device_names,
        other,
        before,
      );
}

reserve_new-add_name :
    (d : String) (a a' : Account) (n : DeviceName)
    → reserve_new d a ≡ ok (a', n)
    → add_name d a ≡ a'
unfolding reserve_new
reserve_new-add_name d a a' n h = elim (Bool-cases (leb device_limit (active_device_count a))) [
  | inl full ↦ absurd (ground arith)
  | inr room ↦ ground arith
]

-- Reserving a name for a device changes the names and the counter only, and no other device's name.
pub reserve_device_name-Frame :
    (d : String) (a a' : Account) (n : DeviceName)
    → reserve_device_name d a ≡ ok (a', n)
    → Frame d a a'
reserve_device_name-Frame d a a' n h =
    elim (Option-cases (get d (ensure_device_names a).device_names)) [
      | inr (old, known) ↦
          let found = reserve_known d a old known in
          let same : ensure_device_names a ≡ a' = cc in
          subst (Frame d a) same (ensure_device_names-Frame d a)
      | inl absent ↦
          subst (Frame d a)
            (reserve_new-add_name d (ensure_device_names a) a' n
              (sym (reserve_absent d a absent) ∙ h))
            (add_name-Frame d a (ensure_device_names a) (ensure_device_names-Frame d a))
    ]
