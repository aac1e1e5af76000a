-- ===== src/Issuer/Model.antt =====
-- The data of accounts.json, as server/token_issuer.py writes and reads it. A key that may be
-- absent is an `Option`, or a flag that is false when absent where only its truth is read.
use evgenium_network_linux.Prelude.{
  ℕ, String, Bool, false, Option, none, some, [], ◌==◌, not, Dict, nat_eq,
}

-- one entry of an account's 'devices'
pub record Device : Type 0 where
  pub device_type : Option String
  pub identity : String
  pub key_hash : Option String
  pub public_key : Option String
  pub address : Option String
  pub enrolled : Option ℕ
  pub disabled : Bool
  pub revoke_pending : Bool
  pub revoked : Option ℕ
  pub enroll_pending : Bool

-- one entry of an account's 'device_names'
pub record DeviceName : Type 0 where
  pub number : ℕ
  pub name : String

pub record Account : Type 0 where
  pub name : String
  pub token_hash : String
  pub enabled : Bool
  pub created : ℕ
  pub devices : Dict String Device
  pub device_names : Dict String DeviceName
  pub next_device_number : Option ℕ
  pub deleted : Option ℕ
  pub delete_pending : Bool

abbrev pub Accounts : Type 0
Accounts = Dict String Account

-- Python's truth of an optional time stamp
abbrev pub truthy : Option ℕ → Bool
truthy none = false
truthy (some n) = not (n == 0)

-- `data[account_id] = {...}` of `issue`
abbrev pub new_account : String → String → ℕ → Account
new_account name token_hash now = record {
  name = name;
  token_hash = token_hash;
  enabled = Bool.true;
  created = now;
  devices = [];
  device_names = [];
  next_device_number = none;
  deleted = none;
  delete_pending = false;
}
