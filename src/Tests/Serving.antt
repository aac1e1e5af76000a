-- ===== src/Tests/Serving.antt =====
-- A certificate, and two requests that the issuer does not serve.
use evgenium_network_linux.Prelude.{
  nat_eq, string_eq, Bool, [], String, false, ok, refl, some, ◌<>◌, ◌∷◌, ◌≡◌, includes,
  matches_class, sorted, str,
}
use evgenium_network_linux.Prelude.Json.{Json, Fields, find_field}
use evgenium_network_linux.Issuer.Host.{
  Host, World, exited, change, exists, now, returned_zero, run_or, token_hex, write_json, read_text,
}
use evgenium_network_linux.Issuer.Certify.{Certificate, enroll}
use evgenium_network_linux.Issuer.Certify.Issued.{Issued, enroll-Issued}
use evgenium_network_linux.Issuer.Server.{Peer, handle, Answer}
use evgenium_network_linux.Issuer.Server.Refusals.{handle-refused}
use evgenium_network_linux.Issuer.Names.{
  default_name, active_device_count, ensure_device_names, reserve_device_name,
}
use evgenium_network_linux.Issuer.Accounts.{device_id, authenticate}
use evgenium_network_linux.Tests.Machine.{
  machine, world, demo_token, demo_device_id, demo_id, empty_account,
}

-- its openssl accepts every request, as an RSA key of 3072 bits
abbrev ca_machine : Host Bool
ca_machine = record machine {
  exec = λ args input peer. (exited 0 "Public-Key: (3072 bit) Modulus: 00", peer);
  read_file = λ path peer. some "pem";
}

abbrev padding : String
padding = "AAAAAAAAAAAAAAAAAAAAAAAAAAAAAAAAAAAAAAAAAAAAAAAAAAAAAAAAAAAAAAAAAAAAAAAAAAAAAAAA"

abbrev enroll_body : Json
enroll_body = Json.object (
    Fields.field "token" (Json.string demo_token) (
      Fields.field "device" (Json.string demo_device_id) (
        Fields.field "csr" (Json.string ("-----BEGIN CERTIFICATE REQUEST-----" <> padding))
          Fields.no_fields)))

abbrev before : World Bool
before = world ((demo_id, empty_account) ∷ [])

abbrev the_certificate : Certificate
the_certificate = record {
  identity = "device-" <> demo_id;
  account = demo_id;
  device_name = default_name 1;
  certificate = "pem";
  ca = "pem";
}

enroll-Issued_example :
    Issued ca_machine enroll_body before (enroll ca_machine enroll_body before).1 the_certificate
unfolding enroll device_id find_field matches_class includes authenticate active_device_count
    token_hex change run_or exists returned_zero now reserve_device_name ensure_device_names sorted
    write_json str read_text
enroll-Issued_example =
    enroll-Issued ca_machine enroll_body before (enroll ca_machine enroll_body before).1
      the_certificate refl

abbrev delete_body : Json
delete_body = Json.object (
    Fields.field "operation" (Json.string "admin-delete-account")
      (Fields.field "id" (Json.string demo_id) Fields.no_fields))

abbrev as_user : Peer
as_user = record { wireguard_only = false; uid = 1000 }

abbrev line : String
line = "{}\n"

handle-refused_example :
    handle machine (λ s. ok delete_body) as_user line before
    ≡ (ok Answer.invalid_token_or_device, before)
unfolding find_field
handle-refused_example =
    handle-refused machine (λ s. ok delete_body) as_user line delete_body before refl refl refl
