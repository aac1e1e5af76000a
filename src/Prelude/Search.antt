-- ===== src/Prelude/Search.antt =====
-- Searching in texts: prefixes, substrings, `str.strip`, and the regular expressions of the form
-- `(?<![\w-])name=(class+)`. `\w` and `\d` are read over ASCII.
use Prim.Native.Char.{code, Char}
use text.Mathlib.TextLemmas.{nil-append, cons-append}
use mathlib.Core.Logic.{inl, inr}
use Prim.Native.String.{String, ◌++◌, count}
use Prim.Native.Nat.{ℕ, zero, suc, ◌-◌}
use mathlib.Core.Bool.{Bool, true, false, not, ◌||◌}
use mathlib.Core.Path.{◌≡◌, refl}
use mathlib.Core.List.{List}
use mathlib.Core.Option.{Option, none, some}
use evgenium_network_linux.Prelude.Tests.{nat_beq, Option-cases, if◌then◌else◌}
use evgenium_network_linux.Prelude.Text.{is_letter, is_digit}

-- `s` without the prefix `p`, if it begins with it
unfoldable pub strip_prefix : String → String → Option String
strip_prefix String.[] s = some s
strip_prefix (String.◌∷◌ c p) String.[] = none
strip_prefix (String.◌∷◌ c p) (String.◌∷◌ d s) =
    let rest = strip_prefix p s in if nat_beq (code c) (code d) then rest else none

-- `s.removeprefix(p)`
unfoldable pub remove_prefix : String → String → String
unfolding strip_prefix
remove_prefix p s = elim (strip_prefix p s) [ none ↦ s | some rest ↦ rest ]

-- `p in s`
unfoldable pub includes : String → String → Bool
unfolding strip_prefix
includes p String.[] = elim (strip_prefix p String.[]) [ none ↦ false | some rest ↦ true ]
includes p (String.◌∷◌ c s) = elim (strip_prefix p (String.◌∷◌ c s)) [
  | some rest ↦ true
  | none ↦ includes p s
]

includes-cons :
    (p : String) (c : Char) (s : String) → includes p s ≡ true → includes p (String.◌∷◌ c s) ≡ true
unfolding includes
includes-cons p c s h = elim (Option-cases (strip_prefix p (String.◌∷◌ c s))) [
  | inl missing ↦ rw (includes, missing) h
  | inr (rest, found) ↦ rw (includes, found) refl
]

-- what a text includes, it includes after more text
pub includes-append : (p x y : String) → includes p y ≡ true → includes p (x ++ y) ≡ true
includes-append p String.[] y h = rw (nil-append y) h
includes-append p (String.◌∷◌ c x) y h =
    rw (cons-append c x y) (includes-cons p c (x ++ y) (includes-append p x y h))

-- `skip` characters of a separator that was found are still to be passed over
split_on_from : String → ℕ → String → String → List String
split_on_from sep skip word String.[] = List.◌∷◌ word List.[]
split_on_from sep (suc skip) word (String.◌∷◌ c s) = split_on_from sep skip word s
split_on_from sep zero word (String.◌∷◌ c s) = elim (strip_prefix sep (String.◌∷◌ c s)) [
  | some rest ↦ List.◌∷◌ word (split_on_from sep (count sep - 1) "" s)
  | none ↦ split_on_from sep zero (word ++ String.◌∷◌ c String.[]) s
]

-- `s.split(sep)` for a separator of one or more characters
unfoldable pub split_on : String → String → List String
unfolding split_on_from strip_prefix
split_on sep s = split_on_from sep 0 "" s

split_on_example : split_on "ab" "1ab22ab" ≡ List.◌∷◌ "1" (List.◌∷◌ "22" (List.◌∷◌ "" List.[]))
unfolding split_on
split_on_example = refl

unfoldable pub take_while : (ℕ → Bool) → String → String
take_while p String.[] = String.[]
take_while p (String.◌∷◌ c s) =
    let rest = take_while p s in if p (code c) then String.◌∷◌ c rest else String.[]

unfoldable pub drop_while : (ℕ → Bool) → String → String
drop_while p String.[] = String.[]
drop_while p (String.◌∷◌ c s) =
    let rest = drop_while p s in if p (code c) then rest else String.◌∷◌ c s

reverse_onto : String → String → String
reverse_onto out String.[] = out
reverse_onto out (String.◌∷◌ c s) = reverse_onto (String.◌∷◌ c out) s

-- `s.strip()`, over the white space `p`
unfoldable pub strip : (ℕ → Bool) → String → String
unfolding drop_while reverse_onto
strip p s = reverse_onto "" (drop_while p (reverse_onto "" (drop_while p s)))

-- `[\w-]`
unfoldable pub is_name_char : ℕ → Bool
is_name_char c = is_letter c || is_digit c || nat_beq c b'_' || nat_beq c b'-'

-- the first `name=value` that no name character precedes and whose value, the longest run of the
-- class, is not empty and is followed as required
find_value : (ℕ → Bool) → (String → Bool) → String → Bool → String → Option String
find_value p follows name after String.[] = none
find_value p follows name after (String.◌∷◌ c s) =
    let rest = find_value p follows name (is_name_char (code c)) s in
    elim (strip_prefix name (String.◌∷◌ c s)) [
      | none ↦ rest
      | some tail ↦
          let value = take_while p tail in
          if after || nat_beq (count value) 0 || not (follows (drop_while p tail))
          then rest
          else some value
    ]

unfoldable pub search_value : (ℕ → Bool) → (String → Bool) → String → String → Option String
unfolding find_value strip_prefix take_while drop_while is_name_char
search_value p follows name s = find_value p follows name false s

search_value_example : search_value is_digit (λ rest. true) "id=" "sid=1 id=x id=23}" ≡ some "23"
unfolding search_value
search_value_example = refl
