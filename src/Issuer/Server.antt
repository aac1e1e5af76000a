-- ===== src/Issuer/Server.antt =====
-- `Handler.handle` of server/token_issuer.py: one request of one connection. The line is given as
-- it was read; `json.loads` is a parameter.
pub mod Refusals
use Prim.Native.Char.{code}
use Prim.Native.String.{count}
use evgenium_network_linux.Prelude.{
  nat_eq, string_eq, option_eq, Bool, Exec, Option, Result, String, err, ok, some, ◌==◌, ℕ,
  eof_error, false, if◌then◌else◌, key_error, lift, ltb, not, os_error, permission_error, pure,
  raise, raise_if, runtime_error, timeout_expired, type_error, value_error, ◌>>=◌, ◌>>◌, ◌||◌,
  timeout_error,
}
use evgenium_network_linux.Prelude.Json.{Json}
use evgenium_network_linux.Issuer.Model.{DeviceName}
use evgenium_network_linux.Issuer.Host.{Host, World}
use evgenium_network_linux.Issuer.Accounts.{device_info, text_field}
use evgenium_network_linux.Issuer.Revoke.{delete_account, revoke_device}
use evgenium_network_linux.Issuer.Enrollment.{Profile, enroll_wireguard}
use evgenium_network_linux.Issuer.Certify.{Certificate, enroll}

-- the line that is written back
pub data Answer : Type 0 where
  profile : Profile → Answer
  certificate : Certificate → Answer
  device : DeviceName → Answer
  deleted revoked : Answer
  invalid_token_or_device enrollment_failed : Answer

-- how the connection came: on which socket, and the user at its other end
pub record Peer : Type 0 where
  pub wireguard_only : Bool
  pub uid : ℕ

abbrev pub max_request : ℕ
max_request = 20000

abbrev pub ends_line : String → Bool
ends_line String.[] = false
ends_line (String.◌∷◌ c String.[]) = code c == 10
ends_line (String.◌∷◌ c s) = ends_line s

-- `body.get('operation')` of a dict
abbrev pub operation_of : Json → Option String
operation_of body = text_field "operation" body

abbrev pub is_admin : Option String → Bool
is_admin op = op == some "admin-delete-account" || op == some "admin-revoke-device"

-- the `except` clauses; the other exceptions of the model end the connection
unfoldable pub answer_of : Result Answer → Result Answer
answer_of (ok a) = ok a
answer_of (err (permission_error message)) = ok invalid_token_or_device
answer_of (err (value_error message)) = ok enrollment_failed
answer_of (err (runtime_error message)) = ok enrollment_failed
answer_of (err os_error) = ok enrollment_failed
answer_of (err timeout_expired) = ok enrollment_failed
answer_of (err timeout_error) = ok enrollment_failed
answer_of (err key_error) = err key_error
answer_of (err type_error) = err type_error
answer_of (err eof_error) = err eof_error

module _ {E : Type 0} (host : Host E) (loads : String → Result Json) where
  unfoldable pub admin : Json → Exec (World E) Answer
  admin body =
      if operation_of body == some "admin-delete-account"
      then (do delete_account host (text_field "id" body); pure deleted)
      else (do revoke_device host (text_field "id" body) (text_field "device" body); pure revoked)

  -- the ladder on the operation
  unfoldable pub dispatch : Peer → Json → Exec (World E) Answer
  unfolding admin
  dispatch peer body =
      if peer.wireguard_only
      then (if not (operation_of body == some "wireguard-enroll")
          then raise (permission_error "operation_not_allowed")
          else (do p ← enroll_wireguard host body; pure (profile p)))
      else (if is_admin (operation_of body)
          then (do raise_if (not (peer.uid == 0)) (permission_error "root_required"); admin body)
          else (if operation_of body == some "device"
              then (do n ← device_info host body; pure (device n))
              else (do c ← enroll host body; pure (certificate c))))

  unfoldable pub serve : Peer → String → Exec (World E) Answer
  unfolding dispatch
  serve peer raw = do
    raise_if (ltb max_request (count raw) || not (ends_line raw)) (value_error "request_size")
    body ← lift (loads raw)
    dispatch peer body

  -- The `try` of `Handler.handle` and its answer. The writing of the answer to the socket comes after
  -- it, outside of the `try`, and is not part of the model.
  unfoldable pub handle : Peer → String → Exec (World E) Answer
  unfolding serve answer_of
  handle peer raw w = let (r, w') = serve peer raw w in (answer_of r, w')
