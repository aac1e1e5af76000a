-- ===== src/Tests/Panels.antt =====
-- The panel with one person: two persons of one name, a token that is shown, a deletion.
use mathlib.Core.Option.{none-ne-some}
use evgenium_network_linux.Prelude.{
  nat_eq, string_eq, Bool, none, err, [], String, get, ok, refl, some, true, value_error, ℕ, ◌∷◌,
  ◌≡◌, strip, matches_class,
}
use evgenium_network_linux.Prelude.Json.{Json, find_field}
use evgenium_network_linux.Issuer.Model.{Account, truthy, new_account}
use evgenium_network_linux.Issuer.Accounts.{authenticate, is_token, token_urlsafe}
use evgenium_network_linux.Panel.Names.{name_key, name_taken}
use evgenium_network_linux.Issuer.Server.{answer_of, dispatch}
use evgenium_network_linux.Issuer.Revoke.{delete_account}
use evgenium_network_linux.Issuer.Host.{written, accounts, now, token_hex, write_json}
use evgenium_network_linux.Panel.Vault.{VaultHost, Panel, delivered, encrypt, tokens, write_tokens}
use evgenium_network_linux.Panel.Accounts.{issue, delete, reveal, rename_person, checked_id}
use evgenium_network_linux.Panel.Accounts.Distinct.{issue-rename_person-Distinct, Distinct}
use evgenium_network_linux.Panel.Accounts.Reveal.{issue-reveal}
use evgenium_network_linux.Panel.Accounts.Deletion.{delete-reveal}
use evgenium_network_linux.Tests.Machine.{machine, world, demo_id, demo_token, empty_account}

abbrev open_vault : VaultHost Bool
open_vault = record {
  encrypt = λ s peer. (s, peer);
  decrypt = λ s. some s;
  write_tokens = λ peer. (written, peer);
  call = λ peer. (delivered, peer);
  nfkc = λ s. s;
  casefold = λ s. s;
}

abbrev panel : Panel Bool
panel = record { world = world []; stored_tokens = none }

-- deleted on the disk, with her token still in the vault
abbrev with_anna : Panel Bool
with_anna = record {
  world = world ((demo_id, record empty_account { deleted = some 900 }) ∷ []);
  stored_tokens = some ((demo_id, demo_token) ∷ []);
}

issue-reveal_example :
    (token name key : String) × (t : ℕ) × (name_key machine open_vault (some "Anna")
      ≡ ok (name, key))
    × (reveal machine open_vault (some demo_id) (issue machine open_vault (some "Anna") panel).1
        ≡ (ok token, (issue machine open_vault (some "Anna") panel).1))
    × (authenticate machine
          (accounts (issue machine open_vault (some "Anna") panel).1.world)
          (some token)
        ≡ ok (demo_id, new_account name (machine.sha256 token) t))
unfolding is_token issue name_key strip name_taken token_urlsafe token_hex encrypt write_tokens now
    write_json
issue-reveal_example =
    issue-reveal machine open_vault (some "Anna") demo_id panel
      (issue machine open_vault (some "Anna") panel).1 (λ s e. refl) (λ e. refl) (λ e. refl) tt refl

delete-reveal_example :
    (id : String) × (a : Account) × (some demo_id ≡ some id)
    × (get id (
          accounts (delete machine open_vault (λ s. ok Json.null) (some demo_id) with_anna).1.world)
        ≡ some a)
    × (truthy a.deleted ≡ true)
    × (get id (tokens (delete machine open_vault (λ s. ok Json.null) (some demo_id) with_anna).1)
        ≡ none)
    × (reveal machine open_vault
          (some demo_id)
          (delete machine open_vault (λ s. ok Json.null) (some demo_id) with_anna).1
        ≡ (
          err (value_error "account_missing"),
          (delete machine open_vault (λ s. ok Json.null) (some demo_id) with_anna).1,
        ))
unfolding delete checked_id matches_class answer_of dispatch find_field delete_account write_tokens
delete-reveal_example =
    delete-reveal machine open_vault (λ s. ok Json.null) (some demo_id) with_anna
      (delete machine open_vault (λ s. ok Json.null) (some demo_id) with_anna).1 tt refl

-- every name becomes the same one
abbrev flat_vault : VaultHost Bool
flat_vault = record open_vault { nfkc = λ s. "Anna " }

issue-rename_person-Distinct_example :
    Distinct machine flat_vault (accounts (issue machine flat_vault (some "Anna") panel).1.world)
    × Distinct machine flat_vault
        (accounts (rename_person machine flat_vault (some demo_id) (some "Anna") panel).1.world)
unfolding strip
issue-rename_person-Distinct_example =
    issue-rename_person-Distinct machine flat_vault (λ v. refl) (some demo_id) (some "Anna") panel
      (record { apply = λ i j key a b ea eb ka kb. absurd (none-ne-some a ea) })
