-- ===== src/Tests/Listing.antt =====
-- A peer that the kernel lists, with a handshake 100 seconds ago.
use evgenium_network_linux.Prelude.{
  nat_eq, string_eq, Bool, [], ok, some, true, ◌∷◌, ◌≡◌, refl, contains, if◌then◌else◌, ◌<>◌, ◌==◌,
  split, words,
}
use evgenium_network_linux.Issuer.Host.{Host, exited, run_or}
use evgenium_network_linux.Issuer.Wireguard.Address.{parse_number}
use evgenium_network_linux.Issuer.Wireguard.Key.{public_key}
use evgenium_network_linux.Issuer.Wireguard.Peers.{config, check_config}
use evgenium_network_linux.Issuer.Wireguard.Connections.{Texts, connections}
use evgenium_network_linux.Issuer.Wireguard.Connections.Listed.{IsAnswer, connections-IsAnswer}
use evgenium_network_linux.Tests.Machine.{machine, demo_key, demo_accounts, world}

abbrev texts : Texts
texts = record { lines = λ s. s ∷ []; int_of = λ s. ok (if s == "900" then 900 else 5) }

abbrev reporting : Host Bool
reporting = record machine {
  exec = λ args input peer. (
    exited 0 (if contains args "transfer" then demo_key <> " 5 5" else demo_key <> " 900"),
    peer,
  );
}

connections-IsAnswer_example : IsAnswer (connections texts reporting (world demo_accounts)).0
connections-IsAnswer_example = connections-IsAnswer texts reporting (world demo_accounts)

-- the listing has that peer
listed_peer :
    (connections texts reporting (world demo_accounts)).0
    ≡ ok (record {
      available = true;
      items =
          record {
            identity = "wg:" <> demo_key;
            state = "ESTABLISHED";
            handshake_at = some 900;
            bytes_in = 5;
            bytes_out = 5;
          }
          ∷ [];
      sampled_at = 1000;
    })
unfolding connections config check_config run_or public_key split words parse_number
listed_peer = refl
