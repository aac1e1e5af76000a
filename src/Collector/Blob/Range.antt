-- ===== src/Collector/Blob/Range.antt =====
-- The part of the blob that a reply of server/diagnostic_collector.py holds.
use evgenium_network_linux.Prelude.{
  nat_eq, string_eq, String, ok, ℕ, ◌+◌, ◌-◌, ◌≡◌, ◌≤◌, List, ap, arith, length, some, suc, sym,
  ◌++◌, ◌<◌, ◌∙◌,
}
use evgenium_network_linux.Collector.Blob.{blob_range, max_blob, blob_chunks}
use evgenium_network_linux.Collector.Blob.Chunks.{
  blob, blob-append, blob_chunks-concat, concat, length-blob,
}

-- A range that is served is not empty and lies in the blob, which has at most 64 MiB.
blob_range_bounds :
    (size : ℕ) (header : String) (offset count : ℕ)
    → blob_range size header ≡ ok (offset, count)
    → (1 ≤ count) × (offset + count ≤ size) × (size ≤ max_blob)
unfolding blob_range
blob_range_bounds size header offset count h = ground arith

-- The bytes that a served request gets, in chunks and however many, are those of the whole blob
-- from the offset on, and there is at least one. The request is for at most 64 MiB and the range
-- does not pass its end; the loop that writes the chunks ends.
pub blob_range-slice :
    (block : List ℕ) (size : ℕ) (header : String) (offset count : ℕ)
    → 0 < length block
    → blob_range size header ≡ ok (offset, count)
    → (chunks : List (List ℕ)) × (before after : List ℕ) × (blob_chunks block
          (suc count)
          count
          offset
        ≡ some chunks)
      × (blob block size 0 ≡ before ++ (concat chunks ++ after))
      × (length before ≡ offset)
      × (length (concat chunks) ≡ count)
      × (1 ≤ count)
      × (offset + count ≤ size)
      × (size ≤ max_blob)
blob_range-slice block size header offset count pos h =
    let (some_byte, within, allowed) = blob_range_bounds size header offset count h in
    let (chunks, run, joined) =
      blob_chunks-concat block (suc count) count offset pos (omega arith) in
    let rest = size - (offset + count) in
    let after = blob block rest (offset + count) in
    let whole : size ≡ offset + (count + rest) = omega arith in
    (
      chunks,
      blob block offset 0,
      after,
      run,
      ap (λ k. blob block k 0) whole
          ∙ blob-append block offset (count + rest) 0
          ∙ ap (λ l. blob block offset 0 ++ l)
              (ap (blob block (count + rest)) (let e : 0 + offset ≡ offset = omega arith in e)
                ∙ blob-append block count rest offset
                ∙ ap (λ l. l ++ after) (sym joined)),
      length-blob block offset 0,
      ap length joined ∙ length-blob block count offset,
      some_byte,
      within,
      allowed,
    )
