-- ===== src/Issuer/Wireguard/Key.antt =====
-- `public_key` of server/wireguard_backend.py: the standard base64 of 32 bytes, in its one
-- canonical spelling. `decode` and `encode` are Python's `base64` on whole groups.
pub mod RoundTrip
pub mod Bytes
use Prim.Native.Char.{code}
use Prim.Native.String.{String, count}
use evgenium_network_linux.Prelude.{
  nat_eq, bytes_eq, Bool, List, Option, Result, [], any, err, if◌then◌else◌, leb, length, ltb, none,
  not, ok, some, value_error, ℕ, ◌%◌, ◌&&◌, ◌*◌, ◌+◌, ◌-◌, ◌/◌, ◌==◌, ◌∷◌,
}

abbrev pub codes : String → List ℕ
codes String.[] = []
codes (String.◌∷◌ c s) = code c ∷ codes s

unfoldable pub sextet : ℕ → Option ℕ
sextet c =
    if leb b'A' c && leb c b'Z'
    then some (c - 65)
    else if leb b'a' c && leb c b'z'
    then some (c - 71)
    else if leb b'0' c && leb c b'9'
    then some (c + 4)
    else if c == b'+'
    then some 62
    else if c == b'/'
    then some 63
    else none

unfoldable pub letter : ℕ → ℕ
letter n =
    if ltb n 26
    then n + 65
    else if ltb n 52
    then n + 71
    else if ltb n 62
    then n - 4
    else if n == 62
    then b'+'
    else b'/'

unfoldable pub decode_two : Option ℕ → Option ℕ → Option (List ℕ)
decode_two (some a) (some b) = some ((a * 4 + b / 16) ∷ [])
decode_two _ _ = none

unfoldable pub decode_three : Option ℕ → Option ℕ → Option ℕ → Option (List ℕ)
decode_three (some a) (some b) (some c) = some ((a * 4 + b / 16) ∷ (b % 16 * 16 + c / 4) ∷ [])
decode_three _ _ _ = none

unfoldable pub decode_four :
    Option ℕ → Option ℕ → Option ℕ → Option ℕ → Option (List ℕ) → Option (List ℕ)
decode_four (some a) (some b) (some c) (some d) (some rest) =
    some ((a * 4 + b / 16) ∷ (b % 16 * 16 + c / 4) ∷ (c % 4 * 64 + d) ∷ rest)
decode_four _ _ _ _ _ = none

unfoldable pub decode_last : ℕ → ℕ → ℕ → Option (List ℕ)
decode_last a b c =
    if c == b'='
    then decode_two (sextet a) (sextet b)
    else decode_three (sextet a) (sextet b) (sextet c)

-- padding is accepted in the last group only
unfoldable pub decode : List ℕ → Option (List ℕ)
unfolding sextet decode_two decode_three decode_four decode_last
decode [] = some []
decode (a ∷ b ∷ c ∷ d ∷ rest) =
    let more = decode rest in
    if d == b'='
    then (elim rest [ [] ↦ decode_last a b c | _ ∷ _ ↦ none ])
    else decode_four (sextet a) (sextet b) (sextet c) (sextet d) more
decode _ = none

unfoldable pub encode : List ℕ → List ℕ
unfolding letter
encode (x ∷ y ∷ z ∷ rest) =
    letter (x / 4)
    ∷ letter (x % 4 * 16 + y / 16)
    ∷ letter (y % 16 * 4 + z / 64)
    ∷ letter (z % 64)
    ∷ encode rest
encode (x ∷ y ∷ []) =
    letter (x / 4) ∷ letter (x % 4 * 16 + y / 16) ∷ letter (y % 16 * 4) ∷ b'=' ∷ []
encode (x ∷ []) = letter (x / 4) ∷ letter (x % 4 * 16) ∷ b'=' ∷ b'=' ∷ []
encode [] = []

-- 32 bytes, not all zero, whose encoding is the text itself
unfoldable pub is_key : String → List ℕ → Bool
is_key value raw = length raw == 32 && any (λ b. not (b == 0)) raw && encode raw == codes value

unfoldable pub public_key : Option String → Result String
unfolding decode encode is_key
public_key none = err (value_error "invalid_public_key")
public_key (some value) =
    if not (count value == 44)
    then err (value_error "invalid_public_key")
    else elim (decode (codes value)) [
      | none ↦ err (value_error "invalid_public_key")
      | some raw ↦ if is_key value raw then ok value else err (value_error "invalid_public_key")
    ]
