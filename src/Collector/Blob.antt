-- ===== src/Collector/Blob.antt =====
-- The synthetic blob of server/diagnostic_collector.py: `blob_chunks`, and the range that
-- `do_GET` serves of it. The block, a list of bytes that repeats, is a parameter.
pub mod Chunks
pub mod Range
use Prim.Native.Char.{code}
use evgenium_network_linux.Prelude.{
  nat_eq, string_eq, none, err, zero, [], List, Option, Result, String, drop, drop_while, false,
  first, if◌then◌else◌, is_digit, leb, length, ltb, min, not, ok, some, strip_prefix, suc, take,
  take_while, true, value_error, ℕ, ◌%◌, ◌&&◌, ◌*◌, ◌+◌, ◌-◌, ◌==◌, ◌∷◌,
}

abbrev pub max_blob : ℕ
max_blob = 64 * 1024 * 1024

module _ (block : List ℕ) where
  -- the loop; `none` means that the fuel ran out
  pub blob_chunks : ℕ → ℕ → ℕ → Option (List (List ℕ))
  blob_chunks zero size offset = none
  blob_chunks (suc fuel) size offset = elim (size == 0) [
    | true ↦ some []
    | false ↦
        let at = offset % length block in
        let chunk = take (min size (length block - at)) (drop at block) in
        elim (blob_chunks fuel (size - length chunk) (offset + length chunk)) [
          | none ↦ none
          | some chunks ↦ some (chunk ∷ chunks)
        ]
  ]

-- `re.fullmatch(r'bytes=(\d+)-(\d*)', header)`
range_texts : String → Option (String × String)
range_texts header = elim (strip_prefix "bytes=" header) [
  | none ↦ none
  | some rest ↦
      let first = take_while is_digit rest in
      elim (strip_prefix "-" (drop_while is_digit rest)) [
        | none ↦ none
        | some last ↦
            if not (first == "") && drop_while is_digit last == "" then some (first, last) else none
      ]
]

-- the value of a text of digits
number_of : ℕ → String → ℕ
number_of n String.[] = n
number_of n (String.◌∷◌ c s) = number_of (n * 10 + (code c - b'0')) s

-- offset and count of the reply to a request for a blob of `size` bytes; an empty header is none
unfoldable pub blob_range : ℕ → String → Result (ℕ × ℕ)
unfolding range_texts number_of
blob_range size header =
    if not (leb 1 size && leb size max_blob)
    then err (value_error "size")
    else if header == ""
    then ok (0, size)
    else elim (range_texts header) [
      | none ↦ err (value_error "range")
      | some (first, last) ↦
          let offset = number_of 0 first in
          let end = if last == "" then size - 1 else number_of 0 last in
          if leb offset end && ltb end size
          then ok (offset, end - offset + 1)
          else err (value_error "range")
    ]
