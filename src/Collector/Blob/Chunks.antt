-- ===== src/Collector/Blob/Chunks.antt =====
-- The bytes of the blob, as server/diagnostic_collector.py serves them.
use evgenium_network_linux.Prelude.{
  nat_eq, List, [], drop, length, refl, suc, take, zero, ℕ, ◌%◌, ◌++◌, ◌+◌, ◌<◌, ◌∷◌, ◌≡◌, ◌≤◌, ap,
  ap₂, arith, sym, ◌∙◌, some, false, min, ◌-◌, ◌==◌,
}
use native.Mathlib.Nat.{mod-add-mod, mod-eq_of_lt}
use evgenium_network_linux.Collector.Blob.{blob_chunks}

abbrev pub byte_at : List ℕ → ℕ → ℕ
byte_at [] n = 0
byte_at (x ∷ xs) zero = x
byte_at (x ∷ xs) (suc n) = byte_at xs n

-- the blob without chunks: byte `i` is the block's byte at `i` modulo its length
pub blob : List ℕ → ℕ → ℕ → List ℕ
blob block zero offset = []
blob block (suc n) offset = byte_at block (offset % length block) ∷ blob block n (offset + 1)

abbrev pub concat : List (List ℕ) → List ℕ
concat [] = []
concat (x ∷ xs) = x ++ concat xs

pub blob-append :
    (block : List ℕ) (n m offset : ℕ)
    → blob block (n + m) offset ≡ blob block n offset ++ blob block m (offset + n)
unfolding blob
blob-append block zero m offset =
    ap₂ (blob block) (let e : 0 + m ≡ m = omega arith in e) (omega arith)
blob-append block (suc n) m offset =
    let shift : suc n + m ≡ suc (n + m) = omega arith in
    let from : offset + 1 + n ≡ offset + suc n = omega arith in
    ap (λ k. blob block k offset) shift
    ∙ ap (λ l. byte_at block (offset % length block) ∷ l)
        (blob-append block n m (offset + 1)
          ∙ ap (λ k. blob block n (offset + 1) ++ blob block m k) from)

take-drop :
    (xs : List ℕ) (i n : ℕ)
    → i < length xs
    → take (suc n) (drop i xs) ≡ byte_at xs i ∷ take n (drop (suc i) xs)
take-drop [] i n h = absurd (omega arith)
take-drop (x ∷ xs) zero n h = refl
take-drop (x ∷ xs) (suc i) n h = take-drop xs i n (omega arith)

length-take-drop : (xs : List ℕ) (i n : ℕ) → i + n ≤ length xs → length (take n (drop i xs)) ≡ n
length-take-drop xs i zero h = refl
length-take-drop [] i (suc n) h = absurd (omega arith)
length-take-drop (x ∷ xs) zero (suc n) h = ap suc (length-take-drop xs zero n (omega arith))
length-take-drop (x ∷ xs) (suc i) (suc n) h = length-take-drop xs i (suc n) (omega arith)

mod_suc : (a l : ℕ) → suc (a % l) < l → (a + 1) % l ≡ suc (a % l)
mod_suc a l h = sym (mod-add-mod a l 1) ∙ mod-eq_of_lt (omega arith) ∙ omega arith

-- The blob inside one block.
blob-within :
    (block : List ℕ) (n offset : ℕ)
    → 0 < length block
    → offset % length block + n ≤ length block
    → blob block n offset ≡ take n (drop (offset % length block) block)
unfolding blob
blob-within block zero offset pos h = refl
blob-within block (suc zero) offset pos h =
    sym (take-drop block (offset % length block) 0 (omega arith))
blob-within block (suc (suc n)) offset pos h =
    let next : (offset + 1) % length block ≡ suc (offset % length block) =
      mod_suc offset (length block) (omega arith) in
    let rest = blob-within block (suc n) (offset + 1) pos (omega (arith, next)) in
    ap (λ l. byte_at block (offset % length block) ∷ l)
      (rest ∙ ap (λ k. take (suc n) (drop k block)) next)
    ∙ sym (take-drop block (offset % length block) (suc n) (omega arith))

-- Where the block is not empty the loop ends after at most one round for each byte, and its chunks
-- together are the blob: the bytes of the block, from the offset on, over and over.
pub blob_chunks-concat :
    (block : List ℕ) (fuel size offset : ℕ)
    → 0 < length block
    → size < fuel
    → (chunks : List (List ℕ)) × (blob_chunks block fuel size offset ≡ some chunks)
      × (concat chunks ≡ blob block size offset)
unfolding blob_chunks blob
blob_chunks-concat block zero size offset pos h = absurd (omega arith)
blob_chunks-concat block (suc fuel) zero offset pos h = ([], refl, refl)
blob_chunks-concat block (suc fuel) (suc n) offset pos h =
    let at = offset % length block in
    let c = min (suc n) (length block - at) in
    let chunk = take c (drop at block) in
    let inside : at < length block = omega arith in
    let fits : at + c ≤ length block = omega arith in
    let len : length chunk ≡ c = length-take-drop block at c fits in
    let more : (suc n == 0) ≡ false = ground arith in
    let (chunks, run, joined) =
      blob_chunks-concat block fuel (suc n - length chunk) (offset + length chunk) pos
        (omega (arith, len, inside)) in
    (
      chunk ∷ chunks,
      rw (blob_chunks, more, run) refl,
      ap₂ ◌++◌ (sym (blob-within block c offset pos fits))
            (joined ∙ ap (λ k. blob block (suc n - k) (offset + k)) len)
          ∙ sym (blob-append block c (suc n - c) offset)
          ∙ ap (λ k. blob block k offset) (let e : c + (suc n - c) ≡ suc n = omega arith in e),
    )

pub length-blob : (block : List ℕ) (n offset : ℕ) → length (blob block n offset) ≡ n
unfolding blob
length-blob block zero offset = refl
length-blob block (suc n) offset = ap suc (length-blob block n (offset + 1))
