-- ===== src/Stream/Ndjson/Bounds.antt =====
-- How long a record's text is, over every reader, and how records are numbered.
use stat_guardian.Base.{
  ℕ, zero, suc, ◌+◌, ◌<◌, ◌≤◌, ◌≡◌, Bool, true, false, none, some, List, [], ◌∷◌, length,
  length-from_utf8, length-trim_end, arith, Option-cases, inl, inr, from_utf8,
}
use stat_guardian.Stream.Reader.{u64, u64_mod, IoResult-cases, ok, read_line_capped}
use stat_guardian.Stream.Reader.Bounds.{read_line_capped-le}
use stat_guardian.Stream.Ndjson.{
  RawLine, NdjsonSource, classify, is_line_end, next_line_loop, next_line,
}
use stat_guardian.Stream.Ndjson.Lines.{record_of, records_of}

length-content :
    (index bytes : ℕ) (exceeded : Bool) (buf : List ℕ) (raw : RawLine)
    → classify index bytes exceeded buf ≡ some raw
    → length raw.content ≤ length buf
unfolding classify
length-content index bytes true buf raw e = ground arith
length-content index bytes false buf raw e = elim (Option-cases (from_utf8 buf)) [
  | inl bad ↦ ground arith
  | inr (s, good) ↦ ground (arith, length-from_utf8 buf s good, length-trim_end is_line_end s)
]

next_line_loop-le :
    (fuel : ℕ) (src src' : NdjsonSource) (raw : RawLine)
    → next_line_loop fuel src ≡ some (ok (some raw, src'))
    → length raw.content ≤ src.max_record_bytes
unfolding next_line_loop
next_line_loop-le zero src src' raw e = cc
next_line_loop-le (suc fuel) src src' raw e =
    let limit = src.max_record_bytes in
    elim (IoResult-cases (read_line_capped limit src.reader)) [
      | inl failed ↦ ground arith
      | inr ((none, buf, rest), o) ↦ ground arith
      | inr ((some (bytes, exceeded), buf, rest), o) ↦
          let src'' = record src {
            reader = rest;
            bytes_consumed = u64 (src.bytes_consumed + bytes);
          } in
          ground (
            arith,
            read_line_capped-le limit src.reader (some (bytes, exceeded), buf, rest) o,
            length-content src.record_index bytes exceeded buf raw,
            next_line_loop-le fuel src'' src' raw,
          )
    ]

-- The text of a record that next_line gives has at most max_record_bytes characters, over every
-- reader.
next_line-content-le :
    (src src' : NdjsonSource) (raw : RawLine)
    → next_line src ≡ some (ok (some raw, src'))
    → length raw.content ≤ src.max_record_bytes
unfolding next_line
next_line-content-le src src' raw e = next_line_loop-le _ src src' raw e

-- Numbered one by one from `index`.
abbrev pub IsNumbered : ℕ → List RawLine → Type 0
IsNumbered index [] = Unit
IsNumbered index (raw ∷ raws) = (raw.record_index ≡ index) × IsNumbered (index + 1) raws

record_of-index :
    (limit index : ℕ) (l : List ℕ) (raw : RawLine)
    → record_of limit index l ≡ some raw
    → raw.record_index ≡ index
unfolding classify
record_of-index limit index l raw e = ground arith

-- As long as the index stays below 2^64, the records of some lines are numbered one by one from
-- the first index, with no gap where a line is blank.
records_of-IsNumbered :
    (limit index : ℕ) (ls : List (List ℕ))
    → index + length ls < u64_mod
    → IsNumbered index (records_of limit index ls)
unfolding records_of
records_of-IsNumbered limit index [] h = tt
records_of-IsNumbered limit index (l ∷ ls) h = elim (Option-cases (record_of limit index l)) [
  | inl blank ↦ rw (blank, records_of) (records_of-IsNumbered limit index ls (omega arith))
  | inr (raw, found) ↦
      let next : u64 (index + 1) ≡ index + 1 = omega arith in
      rw (found, records_of)
        (
          record_of-index limit index l raw found,
          rw next (records_of-IsNumbered limit (index + 1) ls (omega arith)),
        )
]
