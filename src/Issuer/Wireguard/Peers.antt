-- ===== src/Issuer/Wireguard/Peers.antt =====
-- The kernel's peers: `config`, `apply_peer`, `remove_peer` and `sync` of
-- server/wireguard_backend.py.
pub mod Laws
pub mod Gather
pub mod Runs
pub mod Sync
use Prim.Native.String.{count}
use evgenium_network_linux.Prelude.{
  nat_eq, string_eq, option_eq, Bool, Dict, Error, Exec, List, Result, String, [], all_chars,
  contains, err, false, has, if◌then◌else◌, is_digit, is_letter, key_error, leb, length, lift, ltb,
  map, none, not, ok, pure, put, runtime_error, some, split, value_or, values, words, ℕ, ◌&&◌, ◌++◌,
  ◌==◌, ◌||◌, ◌∷◌, true, ◌>>=◌, ◌>>◌,
}
use evgenium_network_linux.Issuer.Model.{Accounts, Account, Device, truthy}
use evgenium_network_linux.Issuer.Host.{Host, WgConfig, World, run_or}
use evgenium_network_linux.Issuer.Wireguard.Key.{public_key}
use evgenium_network_linux.Issuer.Wireguard.Address.{address, is_wireguard, parse_number}

-- what the callers use of the configuration
pub record Config : Type 0 where
  pub interface : String
  pub key : String
  pub endpoint : String

-- `[A-Za-z0-9.-]`
is_host_char : ℕ → Bool
is_host_char c = is_letter c || is_digit c || c == b'.' || c == b'-'

-- `[A-Za-z0-9.-]+:[0-9]{1,5}`, with a port from 1 to 65535
is_endpoint : List String → Bool
is_endpoint (host ∷ port ∷ []) =
    ltb 0 (count host)
    && all_chars is_host_char host
    && leb (count port) 5
    && (elim (parse_number port) [ none ↦ false | some n ↦ leb 1 n && leb n 65535 ])
is_endpoint _ = false

abbrev wrong_config : Error
wrong_config = runtime_error "wireguard_configuration"

-- the checks of `config`, in their order
unfoldable pub check_config : WgConfig → Result Config
unfolding is_host_char is_endpoint
check_config value =
    if not (value.interface == some "evg-clients")
    then err wrong_config
    else elim (public_key value.public_key) [
      | err e ↦ err e
      | ok key ↦
          let endpoint = value_or "" value.endpoint in
          if not (is_endpoint (split b':' endpoint)) || not (value.subnet == some "10.78.0.0/24")
          then err wrong_config
          else ok (record { interface = "evg-clients"; key = key; endpoint = endpoint })
    ]

-- `record['public_key']`
unfoldable pub key_of : Device → Result String
key_of device = elim device.public_key [ none ↦ err key_error | some k ↦ public_key (some k) ]

-- `address(record['address'])`
unfoldable pub address_of : Device → Result String
address_of device = elim device.address [ none ↦ err key_error | some a ↦ address (some a) ]

abbrev pub set_peer : String → String → String → List String
set_peer interface key allowed =
    "wg" ∷ "set" ∷ interface ∷ "peer" ∷ key ∷ "allowed-ips" ∷ allowed ∷ []

abbrev pub unset_peer : String → String → List String
unset_peer interface key = "wg" ∷ "set" ∷ interface ∷ "peer" ∷ key ∷ "remove" ∷ []

abbrev pub show_peers : String → List String
show_peers interface = "wg" ∷ "show" ∷ interface ∷ "peers" ∷ []

-- `account.get('enabled') and not account.get('deleted') and not account.get('delete_pending')`
unfoldable pub is_live : Account → Bool
is_live account = account.enabled && not (truthy account.deleted) && not account.delete_pending

-- each record with the account that holds it, in the order of the two loops
abbrev pub owned_devices : Accounts → List (Bool × Device)
owned_devices [] = []
owned_devices ((_, account) ∷ data_) =
    map (λ d. (is_live account, d)) (values account.devices) ++ owned_devices data_

-- the local variables of the first loop of `sync`
abbrev pub Wanted : Type 0
Wanted = Dict String Device × List String

-- one round of that loop, at a record that is not skipped by its type
unfoldable pub want : Bool → Device → String → Wanted → Result Wanted
want live d key (wanted, addresses) =
    if live && not d.disabled
    then (if has key wanted then err (runtime_error "duplicate_peer_key") else elim (address_of d) [
      | err e ↦ err e
      | ok peer_address ↦
          if contains addresses peer_address
          then err (runtime_error "duplicate_peer_address")
          else ok (put key d wanted, peer_address ∷ addresses)
    ])
    else ok (wanted, addresses)

unfoldable pub gather : List (Bool × Device) → Wanted → Result Wanted
gather [] st = ok st
gather ((live, d) ∷ rest) st = elim (is_wireguard d) [
  | false ↦ gather rest st
  | true ↦ elim (key_of d) [
    | err e ↦ err e
    | ok key ↦ elim (want live d key st) [ err e ↦ err e | ok st' ↦ gather rest st' ]
  ]
]

module _ {E : Type 0} (host : Host E) where
  -- the file is read anew at each call
  unfoldable pub config : Exec (World E) Config
  config w = elim (host.read_wg_config w.env) [ err e ↦ (err e, w) | ok c ↦ (check_config c, w) ]

  abbrev pub command : List String → Exec (World E) String
  command args = run_or host "wireguard_unavailable" args

  unfoldable pub apply_peer : Device → Exec (World E) (Unit {0})
  apply_peer d = do
    cfg ← config
    key ← lift (key_of d)
    allowed ← lift (address_of d)
    command (set_peer cfg.interface key allowed)
    pure tt

  unfoldable pub remove_peer : Device → Exec (World E) (Unit {0})
  remove_peer d = do
    cfg ← config
    key ← lift (key_of d)
    command (unset_peer cfg.interface key)
    pure tt

  -- one round of the second loop: a peer of the kernel that is not wanted is removed
  unfoldable pub remove_unless_wanted :
      String → Dict String Device → String → Exec (World E) (Unit {0})
  remove_unless_wanted interface wanted key =
      if has key wanted
      then pure tt
      else do k ← lift (public_key (some key)); command (unset_peer interface k); pure tt

  unfoldable pub remove_unknown :
      String → Dict String Device → List String → Exec (World E) (Unit {0})
  remove_unknown interface wanted [] = pure tt
  remove_unknown interface wanted (key ∷ others) = do
    remove_unless_wanted interface wanted key
    remove_unknown interface wanted others

  -- the third loop
  unfoldable pub apply_all : List Device → Exec (World E) (Unit {0})
  apply_all [] = pure tt
  apply_all (d ∷ rest) = do apply_peer d; apply_all rest

  unfoldable pub sync : Accounts → Exec (World E) ℕ
  sync data_ = do
    cfg ← config
    st ← lift (gather (owned_devices data_) ([], []))
    output ← command (show_peers cfg.interface)
    remove_unknown cfg.interface st.0 (words output)
    apply_all (values st.0)
    pure (length st.0)
