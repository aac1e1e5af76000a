-- ===== src/Issuer/Server/Refusals.antt =====
-- What the issuer's handler refuses (server/token_issuer.py).
use Prim.Native.String.{count}
use evgenium_network_linux.Prelude.{
  nat_eq, string_eq, option_eq, Bool, Result, String, err, ok, some, ◌==◌, false, if◌then◌else◌,
  inl, inr, not, permission_error, ◌||◌, ◌≡◌, Bool-cases, arith, ltb, refl, true,
}
use evgenium_network_linux.Prelude.Json.{Json}
use evgenium_network_linux.Issuer.Host.{Host, World}
use evgenium_network_linux.Issuer.Server.{
  Peer, answer_of, dispatch, is_admin, operation_of, ends_line, handle, invalid_token_or_device,
  max_request, serve,
}

-- what a peer may ask for
abbrev pub is_allowed : Peer → Json → Bool
is_allowed peer body =
    if peer.wireguard_only
    then operation_of body == some "wireguard-enroll"
    else not (is_admin (operation_of body)) || peer.uid == 0

module _ {E : Type 0} (host : Host E) (loads : String → Result Json) where
  refused :
      (peer : Peer) (body : Json) (w : World E)
      → is_allowed peer body ≡ false
      → (m : String) × (dispatch host loads peer body w ≡ (err (permission_error m), w))
  unfolding dispatch
  refused peer body w h = elim (Bool-cases peer.wireguard_only) [
    | inl only ↦
        let other : (operation_of body == some "wireguard-enroll") ≡ false =
          rw (is_allowed, only) at h in
        ("operation_not_allowed", rw (dispatch, only) (rw other refl))
    | inr free ↦
        let both : (not (is_admin (operation_of body)) || peer.uid == 0) ≡ false =
          rw (is_allowed, free) at h in
        let admin_op : is_admin (operation_of body) ≡ true =
          admin_of (is_admin (operation_of body)) (peer.uid == 0) both in
        let not_root : (peer.uid == 0) ≡ false =
          root_of (is_admin (operation_of body)) (peer.uid == 0) both in
        ("root_required", rw (dispatch, free) (rw admin_op (rw not_root refl)))
  ]
    where
      admin_of : (a b : Bool) → (not a || b) ≡ false → a ≡ true
      admin_of a b e = ground (arith, e)

      root_of : (a b : Bool) → (not a || b) ≡ false → b ≡ false
      root_of a b e = ground (arith, e)

  -- A request of a valid line that its peer may not make (anything but an enrollment on the
  -- WireGuard socket, an administrative operation of a user that is not root elsewhere) gets the
  -- answer of a wrong token, and changes nothing: no command runs and no file is written.
  pub handle-refused :
      (peer : Peer) (raw : String) (body : Json) (w : World E)
      → (ltb max_request (count raw) || not (ends_line raw)) ≡ false
      → loads raw ≡ ok body
      → is_allowed peer body ≡ false
      → handle host loads peer raw w ≡ (ok invalid_token_or_device, w)
  unfolding handle serve answer_of
  handle-refused peer raw body w line parsed h =
      let (m, e) = refused peer body w h in rw (handle, serve, line, parsed, e) refl
