-- ===== src/Tests/Machine.antt =====
-- A machine whose kernel knows one WireGuard peer at most, and accounts for the tests.
use evgenium_network_linux.Prelude.{
  nat_eq, string_eq, Bool, List, String, some, none, true, false, [], if◌then◌else◌, ltb, ok, ◌&&◌,
  ◌<>◌, ◌==◌, ◌∷◌,
}
use evgenium_network_linux.Issuer.Model.{Device, Account, Accounts}
use evgenium_network_linux.Issuer.Host.{Host, World, Outcome, exited, written}

abbrev pub demo_key : String
demo_key = "AQAAAAAAAAAAAAAAAAAAAAAAAAAAAAAAAAAAAAAAAAA="

abbrev pub demo_address : String
demo_address = "10.78.0.2/32"

abbrev pub demo_id : String
demo_id = "0123456789abcdef01234567"

abbrev pub demo_device_id : String
demo_device_id = "0123456789abcdef0123456789abcdef"

abbrev pub secret : String
secret = "abcdefghijklmnopqrstuvwxyzABCDEFGHIJKLMN_-0"

abbrev pub demo_token : String
demo_token = "EVN1-abcdefghijklmnopqrstuvwxyzABCDEFGHIJKLMN_-0"

-- whether the one peer is set; the commands for another key or address fail
abbrev pub wg_run : List String → Bool → Outcome × Bool
wg_run (a ∷ b ∷ c ∷ d ∷ k ∷ e ∷ allowed ∷ []) peer =
    if k == demo_key && allowed == demo_address then (exited 0 "", true) else (exited 1 "", peer)
wg_run (a ∷ b ∷ c ∷ d ∷ k ∷ e ∷ []) peer =
    if k == demo_key then (exited 0 "", false) else (exited 0 "", peer)
wg_run (a ∷ b ∷ c ∷ d ∷ []) peer = (exited 0 (if peer then demo_key else ""), peer)
wg_run _ peer = (exited 1 "", peer)

abbrev pub machine : Host Bool
machine = record {
  exec = λ args input peer. wg_run args peer;
  time = λ peer. (1000, peer);
  token_hex = λ n peer. (demo_id, peer);
  token_urlsafe = λ n peer. (secret, peer);
  sha256 = λ s. s;
  write_file = λ peer. (written, peer);
  replace_file = λ from to peer. (true, peer);
  change_file = λ c peer. (true, peer);
  read_file = λ path peer. none;
  read_wg_config = λ peer. ok (record {
    interface = some "evg-clients";
    public_key = some demo_key;
    endpoint = some "198.51.100.7:51820";
    subnet = some "10.78.0.0/24";
  });
  cert_time = λ s. ok 0;
  nfc = λ s. s;
  is_space = λ c. c == 32;
  is_control = λ c. ltb c 32;
}

abbrev pub demo_device : Device
demo_device = record {
  device_type = some "wireguard";
  identity = "wg:" <> demo_key;
  key_hash = none;
  public_key = some demo_key;
  address = some demo_address;
  enrolled = some 500;
  disabled = false;
  revoke_pending = false;
  revoked = none;
  enroll_pending = false;
}

abbrev pub empty_account : Account
empty_account = record {
  name = "Anna";
  token_hash = demo_token;
  enabled = true;
  created = 400;
  devices = [];
  device_names = [];
  next_device_number = none;
  deleted = none;
  delete_pending = false;
}

abbrev pub demo_account : Account
demo_account = record empty_account {
  devices = (demo_device_id, demo_device) ∷ [];
  device_names = (demo_device_id, record { number = 3; name = "laptop" }) ∷ [];
}

abbrev pub demo_accounts : Accounts
demo_accounts = (demo_id, demo_account) ∷ []

abbrev pub world : Accounts → World Bool
world data_ = record { env = false; stored = some data_; journal = [] }
