-- ===== src/Issuer/Wireguard/Key/Bytes.antt =====
-- What base64 decodes to (`public_key` of server/wireguard_backend.py).
use evgenium_network_linux.Prelude.{
  nat_eq, All, Bool-cases, List, Option, [], arith, inl, inr, none, refl, some, subst, ℕ, ◌<◌, ◌==◌,
  ◌∷◌, ◌≡◌,
}
use evgenium_network_linux.Issuer.Wireguard.Key.{
  decode, decode_four, decode_last, decode_three, decode_two, sextet,
}
use mathlib.Core.Option.{some-injective}

abbrev pub IsByte : ℕ → Type 0
IsByte b = b < 256

-- what a character stands for, if anything, is below 64
abbrev IsSmall : Option ℕ → Type 0
IsSmall o = (n : ℕ) → o ≡ some n → n < 64

sextet-IsSmall : (c : ℕ) → IsSmall (sextet c)
unfolding sextet
sextet-IsSmall c n h = ground arith

two-IsByte :
    (a b : Option ℕ) (raw : List ℕ)
    → IsSmall a
    → IsSmall b
    → decode_two a b ≡ some raw
    → All IsByte raw
unfolding decode_two
two-IsByte none b raw ha hb h = absurd (cc)
two-IsByte (some a) none raw ha hb h = absurd (cc)
two-IsByte (some a) (some b) raw ha hb h =
    let la = ha a refl in
    let lb = hb b refl in subst (All IsByte) (some-injective _ raw h) (omega arith, tt)

three-IsByte :
    (a b c : Option ℕ) (raw : List ℕ)
    → IsSmall a
    → IsSmall b
    → IsSmall c
    → decode_three a b c ≡ some raw
    → All IsByte raw
unfolding decode_three
three-IsByte none b c raw ha hb hc h = absurd (cc)
three-IsByte (some a) none c raw ha hb hc h = absurd (cc)
three-IsByte (some a) (some b) none raw ha hb hc h = absurd (cc)
three-IsByte (some a) (some b) (some c) raw ha hb hc h =
    let la = ha a refl in
    let lb = hb b refl in
    let lc = hc c refl in
    subst (All IsByte) (some-injective _ raw h) (omega arith, (omega arith, tt))

four-IsByte :
    (a b c d : Option ℕ) (more : Option (List ℕ)) (raw : List ℕ)
    → IsSmall a
    → IsSmall b
    → IsSmall c
    → IsSmall d
    → ((r : List ℕ) → more ≡ some r → All IsByte r)
    → decode_four a b c d more ≡ some raw
    → All IsByte raw
unfolding decode_four
four-IsByte none b c d m raw ha hb hc hd hm h = absurd (cc)
four-IsByte (some a) none c d m raw ha hb hc hd hm h = absurd (cc)
four-IsByte (some a) (some b) none d m raw ha hb hc hd hm h = absurd (cc)
four-IsByte (some a) (some b) (some c) none m raw ha hb hc hd hm h = absurd (cc)
four-IsByte (some a) (some b) (some c) (some d) none raw ha hb hc hd hm h = absurd (cc)
four-IsByte (some a) (some b) (some c) (some d) (some m) raw ha hb hc hd hm h =
    let la = ha a refl in
    let lb = hb b refl in
    let lc = hc c refl in
    let ld = hd d refl in
    subst (All IsByte) (some-injective _ raw h)
      (omega arith, (omega arith, (omega arith, hm m refl)))

last-IsByte : (a b c : ℕ) (raw : List ℕ) → decode_last a b c ≡ some raw → All IsByte raw
unfolding decode_last
last-IsByte a b c raw h = elim (Bool-cases (c == b'=')) [
  | inl pad ↦
      two-IsByte (sextet a) (sextet b) raw (sextet-IsSmall a) (sextet-IsSmall b)
        (rw (pad, decode_last) at h)
  | inr other ↦
      three-IsByte (sextet a) (sextet b) (sextet c) raw (sextet-IsSmall a) (sextet-IsSmall b)
        (sextet-IsSmall c) (rw (other, decode_last) at h)
]

-- What is decoded is a list of bytes.
pub decode-IsByte : (cs raw : List ℕ) → decode cs ≡ some raw → All IsByte raw
unfolding decode
decode-IsByte [] raw h = subst (All IsByte) (some-injective _ raw h) tt
decode-IsByte (a ∷ []) raw h = absurd (cc)
decode-IsByte (a ∷ b ∷ []) raw h = absurd (cc)
decode-IsByte (a ∷ b ∷ c ∷ []) raw h = absurd (cc)
decode-IsByte (a ∷ b ∷ c ∷ d ∷ []) raw h = elim (Bool-cases (d == b'=')) [
  | inl pad ↦ last-IsByte a b c raw (rw pad at h)
  | inr other ↦
      four-IsByte (sextet a) (sextet b) (sextet c) (sextet d) (some []) raw (sextet-IsSmall a)
        (sextet-IsSmall b) (sextet-IsSmall c) (sextet-IsSmall d) (λ r e. decode-IsByte [] r e)
        (rw other at h)
]
decode-IsByte (a ∷ b ∷ c ∷ d ∷ x ∷ rest) raw h = elim (Bool-cases (d == b'=')) [
  | inl pad ↦ absurd (let e : ◌≡◌ {A = Option (List ℕ)} none (some raw) = rw pad at h in cc)
  | inr other ↦
      four-IsByte (sextet a) (sextet b) (sextet c) (sextet d) (decode (x ∷ rest)) raw
        (sextet-IsSmall a) (sextet-IsSmall b) (sextet-IsSmall c) (sextet-IsSmall d)
        (λ r e. decode-IsByte (x ∷ rest) r e) (rw other at h)
]
