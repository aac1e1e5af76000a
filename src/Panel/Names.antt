-- ===== src/Panel/Names.antt =====
-- `name_key` of server/panel/broker.py, and the test for a name that another person has.
use Prim.Native.Char.{code}
use Prim.Native.String.{count}
use evgenium_network_linux.Prelude.{
  nat_eq, string_eq, Bool, Option, Result, String, List, err, ok, none, some, ◌==◌, [], all_chars,
  false, if◌then◌else◌, leb, not, strip, true, value_error, ℕ, ◌&&◌, ◌<>◌, ◌||◌, ◌∷◌,
}
use evgenium_network_linux.Issuer.Model.{Accounts, truthy}
use evgenium_network_linux.Issuer.Host.{Host}
use evgenium_network_linux.Panel.Vault.{VaultHost}

-- `s.split()` over the white space `p`; `word` is the word so far
pub split_space : (ℕ → Bool) → String → String → List String
split_space p word String.[] = if word == "" then [] else word ∷ []
split_space p word (String.◌∷◌ c s) =
    let inside = split_space p (word <> String.◌∷◌ c String.[]) s in
    let outside = split_space p "" s in
    if p (code c) then (if word == "" then outside else word ∷ outside) else inside

-- `' '.join(words)`
pub join_space : List String → String
join_space [] = ""
join_space (w ∷ []) = w
join_space (w ∷ ws) = w <> " " <> join_space ws

module _ {E : Type 0} (host : Host E) (vault : VaultHost E) where
  -- the name as it is stored, and the key by which names are compared
  unfoldable pub name_key : Option String → Result (String × String)
  unfolding split_space join_space
  name_key none = err (value_error "invalid_name")
  name_key (some value) =
      let name = strip host.is_space (vault.nfkc value) in
      if leb 1 (count name) && leb (count name) 80 && all_chars (λ c. not (host.is_control c)) name
      then ok (name, join_space (split_space host.is_space "" (vault.casefold name)))
      else err (value_error "invalid_name")

  -- `any(... not a.get('deleted') and name_key(a['name'])[1]==key for i,a in data.items())`, where
  -- `skip` says which entries are passed over
  unfoldable pub name_taken : (String → Bool) → String → Accounts → Result Bool
  name_taken skip key [] = ok false
  name_taken skip key ((i, a) ∷ rest) =
      let later = name_taken skip key rest in
      if skip i || truthy a.deleted then later else elim (name_key (some a.name)) [
        | err e ↦ err e
        | ok (name, k) ↦ if k == key then ok true else later
      ]
