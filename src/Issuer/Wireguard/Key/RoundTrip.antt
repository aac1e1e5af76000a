-- ===== src/Issuer/Wireguard/Key/RoundTrip.antt =====
-- Which texts are public keys.
use Prim.Native.String.{String, count}
use Prim.Native.String.count as Count
use evgenium_network_linux.Prelude.{
  Option-cases, inl, inr, Bool-cases, ◌↔◌, nat_eq, bytes_eq, All, List, [], arith, false, refl,
  some, ℕ, ◌%◌, ◌*◌, ◌+◌, ◌/◌, ◌<◌, ◌==◌, ◌∷◌, ◌≡◌, any, ap, length, not, ok, true, ◌∙◌, Option,
  list_beq_iff, none, sym,
}
use evgenium_network_linux.Issuer.Wireguard.Key.Bytes.{IsByte, decode-IsByte}
use evgenium_network_linux.Issuer.Wireguard.Key.{
  is_key, decode, encode, letter, sextet, codes, public_key,
}

sextet-letter : (n : ℕ) → n < 64 → sextet (letter n) ≡ some n
unfolding sextet letter
sextet-letter n h = ground arith

letter-ne-pad : (n : ℕ) → n < 64 → (letter n == b'=') ≡ false
unfolding letter
letter-ne-pad n h = ground arith

decode-four-letters :
    (a b c d : ℕ) (rest : List ℕ) (out : List ℕ)
    → a < 64
    → b < 64
    → c < 64
    → d < 64
    → decode rest ≡ some out
    → decode (letter a ∷ letter b ∷ letter c ∷ letter d ∷ rest)
      ≡ some ((a * 4 + b / 16) ∷ (b % 16 * 16 + c / 4) ∷ (c % 4 * 64 + d) ∷ out)
unfolding decode
decode-four-letters a b c d rest out ha hb hc hd h = rw (
  letter-ne-pad d hd,
  sextet-letter a ha,
  sextet-letter b hb,
  sextet-letter c hc,
  sextet-letter d hd,
  h,
)

decode-three-letters :
    (a b c : ℕ)
    → a < 64
    → b < 64
    → c < 64
    → decode (letter a ∷ letter b ∷ letter c ∷ b'=' ∷ [])
      ≡ some ((a * 4 + b / 16) ∷ (b % 16 * 16 + c / 4) ∷ [])
unfolding decode
decode-three-letters a b c ha hb hc =
    rw (letter-ne-pad c hc, sextet-letter a ha, sextet-letter b hb, sextet-letter c hc)

decode-two-letters :
    (a b : ℕ)
    → a < 64
    → b < 64
    → decode (letter a ∷ letter b ∷ b'=' ∷ b'=' ∷ []) ≡ some ((a * 4 + b / 16) ∷ [])
unfolding decode
decode-two-letters a b ha hb = rw (sextet-letter a ha, sextet-letter b hb)

-- Decoding undoes encoding.
decode-encode : (bytes : List ℕ) → All IsByte bytes → decode (encode bytes) ≡ some bytes
unfolding encode
decode-encode [] h = unfold decode in refl
decode-encode (x ∷ []) h =
    let p : x / 4 * 4 + x % 4 * 16 / 16 ≡ x = omega arith in
    decode-two-letters (x / 4) (x % 4 * 16) (omega arith) (omega arith) ∙ cc
decode-encode (x ∷ y ∷ []) h =
    let p : x / 4 * 4 + (x % 4 * 16 + y / 16) / 16 ≡ x = omega arith in
    let q : (x % 4 * 16 + y / 16) % 16 * 16 + y % 16 * 4 / 4 ≡ y = omega arith in
    decode-three-letters (x / 4) (x % 4 * 16 + y / 16) (y % 16 * 4) (omega arith) (omega arith)
      (omega arith)
    ∙ cc
decode-encode (x ∷ y ∷ z ∷ rest) h =
    let p : x / 4 * 4 + (x % 4 * 16 + y / 16) / 16 ≡ x = omega arith in
    let q : (x % 4 * 16 + y / 16) % 16 * 16 + (y % 16 * 4 + z / 64) / 4 ≡ y = omega arith in
    let r : (y % 16 * 4 + z / 64) % 4 * 64 + z % 64 ≡ z = omega arith in
    decode-four-letters (x / 4) (x % 4 * 16 + y / 16) (y % 16 * 4 + z / 64) (z % 64) (encode rest)
      rest (omega arith) (omega arith) (omega arith) (omega arith) (decode-encode rest h.1.1.1)
    ∙ cc

length-encode : (bytes : List ℕ) → length (encode bytes) ≡ 4 * ((length bytes + 2) / 3)
unfolding encode
length-encode [] = omega arith
length-encode (x ∷ []) = omega arith
length-encode (x ∷ y ∷ []) = omega arith
length-encode (x ∷ y ∷ z ∷ rest) = omega (arith, length-encode rest)

length-codes : (s : String) → length (codes s) ≡ count s
length-codes String.[] = refl
length-codes (String.◌∷◌ c s) = rw (Count.cons c s, length-codes s)

-- A text that is the encoding of 32 bytes, not all of them zero.
abbrev pub EncodesKey : String → Type 0
EncodesKey value =
    (raw : List ℕ) × All IsByte raw
    × (length raw ≡ 32)
    × (any (λ b. not (b == 0)) raw ≡ true)
    × (codes value ≡ encode raw)

public_key-encode :
    (value : String) (raw : List ℕ)
    → All IsByte raw
    → length raw ≡ 32
    → any (λ b. not (b == 0)) raw ≡ true
    → codes value ≡ encode raw
    → public_key (some value) ≡ ok value
unfolding public_key
public_key-encode value raw h len nonzero same =
    let size : count value ≡ 44 =
      omega (arith, length-codes value, ap length same, length-encode raw) in
    let decoded : decode (codes value) ≡ some raw = ap decode same ∙ decode-encode raw h in
    rw (size, decoded, nonzero, len, (list_beq_iff (encode raw) (codes value)).1 (sym same))

-- What is accepted is the text itself.
pub public_key-eq-ok :
    (value : Option String) (key : String) → public_key value ≡ ok key → value ≡ some key
unfolding public_key
public_key-eq-ok none key h = cc
public_key-eq-ok (some value) key h = ground arith

EncodesKey-of-is_key :
    (value : String) (raw : List ℕ)
    → decode (codes value) ≡ some raw
    → is_key value raw ≡ true
    → EncodesKey value
unfolding is_key
EncodesKey-of-is_key value raw d h = (
  raw,
  decode-IsByte (codes value) raw d,
  ground arith,
  ground arith,
  sym ((list_beq_iff (encode raw) (codes value)).0 (ground arith)),
)

accepted-EncodesKey : (value key : String) → public_key (some value) ≡ ok key → EncodesKey value
unfolding public_key
accepted-EncodesKey value key h = elim (Option-cases (decode (codes value))) [
  | inl undecoded ↦ absurd (ground arith)
  | inr (raw, decoded) ↦ elim (Bool-cases (is_key value raw)) [
    | inl good ↦ EncodesKey-of-is_key value raw decoded good
    | inr bad ↦ absurd (ground arith)
  ]
]

-- A text is accepted as a public key exactly where it is the encoding of 32 bytes that are not all
-- zero.
pub public_key_iff : (value : String) → (public_key (some value) ≡ ok value) ↔ EncodesKey value
public_key_iff value = (
  accepted-EncodesKey value value,
  λ (raw, bytes, len, nonzero, same). public_key-encode value raw bytes len nonzero same,
)
