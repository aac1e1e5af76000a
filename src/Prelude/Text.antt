-- ===== src/Prelude/Text.antt =====
-- The text operations that the program uses: `re.fullmatch` over a class of characters with a
-- count, `str` of a natural number, and splitting.
use Prim.Native.Char.{code}
use Prim.Native.String.{String, ◌++◌, count}
use Prim.Native.Nat.{ℕ, zero, suc, ◌/◌, ◌%◌}
use mathlib.Core.Bool.{Bool, true, false, ◌&&◌, ◌||◌}
use mathlib.Core.Path.{◌≡◌, refl}
use mathlib.Core.List.{List}
use evgenium_network_linux.Prelude.Tests.{leb, nat_beq, if◌then◌else◌}

-- `all(p(ord(c)) for c in s)`
abbrev pub all_chars : (ℕ → Bool) → String → Bool
all_chars p String.[] = true
all_chars p (String.◌∷◌ c s) = p (code c) && all_chars p s

abbrev pub is_digit : ℕ → Bool
is_digit c = leb b'0' c && leb c b'9'

-- `[a-f0-9]`
abbrev pub is_hex : ℕ → Bool
is_hex c = is_digit c || (leb b'a' c && leb c b'f')

-- `[A-Za-z]`
abbrev pub is_letter : ℕ → Bool
is_letter c = (leb b'A' c && leb c b'Z') || (leb b'a' c && leb c b'z')

-- `re.fullmatch(r'[class]{n}', s)`
unfoldable pub matches_class : (ℕ → Bool) → ℕ → String → Bool
matches_class p n s = nat_beq (count s) n && all_chars p s

digit : ℕ → String
digit zero = "0"
digit (suc zero) = "1"
digit (suc (suc zero)) = "2"
digit (suc (suc (suc zero))) = "3"
digit (suc (suc (suc (suc zero)))) = "4"
digit (suc (suc (suc (suc (suc zero))))) = "5"
digit (suc (suc (suc (suc (suc (suc zero)))))) = "6"
digit (suc (suc (suc (suc (suc (suc (suc zero))))))) = "7"
digit (suc (suc (suc (suc (suc (suc (suc (suc zero)))))))) = "8"
digit _ = "9"

-- each round drops the last digit, so `n + 1` rounds are enough
str_from : ℕ → ℕ → String → String
str_from zero n out = out
str_from (suc fuel) n out =
    let rest = str_from fuel (n / 10) (digit (n % 10) ++ out) in
    if nat_beq (n / 10) 0 then digit (n % 10) ++ out else rest

-- `str(n)`
unfoldable pub str : ℕ → String
unfolding str_from digit
str n = str_from (suc n) n ""

str_example : str 2048 ≡ "2048"
unfolding str
str_example = refl

split_from : ℕ → String → String → List String
split_from sep word String.[] = List.◌∷◌ word List.[]
split_from sep word (String.◌∷◌ c s) = elim (nat_beq (code c) sep) [
  | true ↦ List.◌∷◌ word (split_from sep "" s)
  | false ↦ split_from sep (word ++ String.◌∷◌ c String.[]) s
]

-- `s.split(sep)` for a separator of one character
unfoldable pub split : ℕ → String → List String
unfolding split_from
split sep s = split_from sep "" s

split_example : split b'.' "a.bc" ≡ List.◌∷◌ "a" (List.◌∷◌ "bc" List.[])
unfolding split
split_example = refl

-- the white space of `str.split()`, as far as the tools that are called print it
abbrev is_space : ℕ → Bool
is_space c = nat_beq c 32 || (leb 9 c && leb c 13)

-- the word so far is put in front of the words that follow, unless it is empty
words_from : String → String → List String
words_from word String.[] = if nat_beq (count word) 0 then List.[] else List.◌∷◌ word List.[]
words_from word (String.◌∷◌ c s) = elim (is_space (code c)) [
  | true ↦ let rest = words_from "" s in if nat_beq (count word) 0 then rest else List.◌∷◌ word rest
  | false ↦ words_from (word ++ String.◌∷◌ c String.[]) s
]

-- `s.split()`
unfoldable pub words : String → List String
unfolding words_from
words s = words_from "" s

words_example : words " a  bc " ≡ List.◌∷◌ "a" (List.◌∷◌ "bc" List.[])
unfolding words
words_example = refl

drop_last_empty : List String → List String
drop_last_empty List.[] = List.[]
drop_last_empty (List.◌∷◌ w rest) = elim rest [
  | List.[] ↦ if nat_beq (count w) 0 then List.[] else List.◌∷◌ w List.[]
  | List.◌∷◌ v more ↦ List.◌∷◌ w (drop_last_empty rest)
]

-- `s.splitlines()` of a text whose lines end in line feeds
unfoldable pub split_lines : String → List String
unfolding drop_last_empty
split_lines s = drop_last_empty (split 10 s)
