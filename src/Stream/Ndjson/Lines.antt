-- ===== src/Stream/Ndjson/Lines.antt =====
-- What `next_line` and the loop over it give, said of the lines of the input alone.
use stat_guardian.Base.{
  ℕ, zero, suc, ◌+◌, ◌<◌, ◌≡◌, refl, sym, ap, ◌∙◌, Option, none, some, List, [], ◌∷◌, length, take,
  take_all, ltb, ltb-false, arith, Bool-cases, Option-cases, inl, inr,
}
use mathlib.Core.Path.{subst}
use Prim.Native.Nat.{max}
use stat_guardian.Stream.Reader.{Reader, bytes_of, u64, u64_mod, IoResult, ok, read_line_capped}
use stat_guardian.Stream.Reader.Lines.{IsClean, lines_of, total, total-lines_of, length-lines_of}
use stat_guardian.Stream.Reader.Line.{Delivers, read_line_capped-Delivers}
use stat_guardian.Stream.Ndjson.{
  RawLine, NdjsonSource, new, classify, Answer, next_line_loop, next_line, collect,
}

-- The record of a whole line, if it is not blank.
abbrev pub record_of : ℕ → ℕ → List ℕ → Option RawLine
record_of limit index line = classify index (length line) (ltb limit (length line)) line

-- Cutting the line at the cap changes no record: past the cap the text is not looked at.
classify-take :
    (limit index : ℕ) (line : List ℕ)
    → classify index (length line) (ltb limit (length line)) (take limit line)
      ≡ record_of limit index line
unfolding classify
classify-take limit index line = elim (Bool-cases (ltb limit (length line))) [
  | inl cut ↦ rw cut
  | inr whole ↦ rw (take_all limit line (ltb-false limit (length line) whole))
]

-- The first line that is not blank, with the lines behind it.
unfoldable pub first_record : ℕ → ℕ → List (List ℕ) → Option RawLine × List (List ℕ)
first_record limit index [] = (none, [])
first_record limit index (l ∷ ls) = elim (record_of limit index l) [
  | some raw ↦ (some raw, ls)
  | none ↦ first_record limit index ls
]

abbrev pub counted : Option RawLine → ℕ → ℕ
counted none index = index
counted (some _) index = u64 (index + 1)

-- A source in use: no error ahead, and all byte counts below 2 ^ 64.
pub record IsReady (src : NdjsonSource) : Type 0 where
  pub clean : IsClean src.reader
  pub small : src.bytes_consumed + length (bytes_of src.reader) < u64_mod

-- What `src'` is after a call on `src` that gave `raw` and left the lines `ls`.
pub record Advanced (src src' : NdjsonSource) (raw : Option RawLine) (ls : List (List ℕ))
    : Type 0 where
  pub ready : IsReady src'
  pub lines : lines_of (bytes_of src'.reader) ≡ ls
  pub same_cap : src'.max_record_bytes ≡ src.max_record_bytes
  pub index : src'.record_index ≡ counted raw src.record_index
  pub bytes :
      src'.bytes_consumed + length (bytes_of src'.reader)
      ≡ src.bytes_consumed + length (bytes_of src.reader)

abbrev pub Meets : NdjsonSource → Option RawLine × List (List ℕ) → Answer → Type 0
Meets src (raw, ls) answer =
    (src' : NdjsonSource) × (answer ≡ some (ok (raw, src'))) × Advanced src src' raw ls

delivered :
    (src : NdjsonSource) (ls : List (List ℕ))
    → IsReady src
    → lines_of (bytes_of src.reader) ≡ ls
    → Delivers src.max_record_bytes ls (read_line_capped src.max_record_bytes src.reader)
delivered src ls ready e =
    let answer = read_line_capped src.max_record_bytes src.reader in
    subst (λ ls. Delivers src.max_record_bytes ls answer) e
      (read_line_capped-Delivers src.max_record_bytes src.reader ready.clean
        (omega (arith, ready.small)))

total_left :
    (src : NdjsonSource) (ls : List (List ℕ))
    → lines_of (bytes_of src.reader) ≡ ls
    → total ls ≡ length (bytes_of src.reader)
total_left src ls e = ap total (sym e) ∙ total-lines_of (bytes_of src.reader)

-- the source once the line `l` is read
abbrev past : NdjsonSource → List ℕ → Reader → NdjsonSource
past src l rest = record src { reader = rest; bytes_consumed = u64 (src.bytes_consumed + length l) }

bytes-past :
    (src : NdjsonSource) (l : List ℕ) (ls : List (List ℕ)) (rest : Reader)
    → IsReady src
    → lines_of (bytes_of src.reader) ≡ l ∷ ls
    → lines_of (bytes_of rest) ≡ ls
    → (past src l rest).bytes_consumed + length (bytes_of rest)
      ≡ src.bytes_consumed + length (bytes_of src.reader)
unfolding total
bytes-past src l ls rest ready e left = omega (
  arith,
  ready.small,
  total_left src (l ∷ ls) e,
  ap total (sym left) ∙ total-lines_of (bytes_of rest),
)

next_line_loop-Meets :
    (fuel : ℕ) (src : NdjsonSource) (ls : List (List ℕ))
    → IsReady src
    → lines_of (bytes_of src.reader) ≡ ls
    → length ls < fuel
    → Meets src (first_record src.max_record_bytes src.record_index ls) (next_line_loop fuel src)
unfolding first_record next_line_loop
next_line_loop-Meets zero src ls ready e h = absurd (omega arith)
next_line_loop-Meets (suc fuel) src [] ready e h =
    let (out, o) = delivered src [] ready e in
    let none_left = total_left src [] e in
    (
      record src { reader = [] },
      rw (o, next_line_loop),
      unfold total bytes_of lines_of in
          record {
            ready = record { clean = tt; small = omega (arith, ready.small) };
            lines = refl;
            same_cap = refl;
            index = refl;
            bytes = omega arith;
          },
    )
next_line_loop-Meets (suc fuel) src (l ∷ ls) ready e h =
    let (rest, o, left, clean) = delivered src (l ∷ ls) ready e in
    let src' = past src l rest in
    let kept = bytes-past src l ls rest ready e left in
    let ready' : IsReady src' = record { clean = clean; small = omega (arith, ready.small) } in
    let same = classify-take src.max_record_bytes src.record_index l in
    elim (Option-cases (record_of src.max_record_bytes src.record_index l)) [
      | inl blank ↦
          let (src'', answer, adv) = next_line_loop-Meets fuel src' ls ready' left (omega arith) in
          rw (blank, first_record)
            (
              src'',
              rw (o, next_line_loop) (rw (same, blank) answer),
              record {
                ready = adv.ready;
                lines = adv.lines;
                same_cap = adv.same_cap;
                index = adv.index;
                bytes = adv.bytes ∙ kept;
              },
            )
      | inr (raw, found) ↦
          rw (found, first_record)
            (
              record src' { record_index = u64 (src.record_index + 1) },
              rw (o, next_line_loop) (rw (same, found) refl),
              record {
                ready = record { clean = clean; small = omega (arith, ready'.small) };
                lines = left;
                same_cap = refl;
                index = refl;
                bytes = kept;
              },
            )
    ]

-- On a source with no error ahead and byte counts below 2^64, next_line ends and gives the first
-- record of the lines that are left, skipping blank lines, and a source for the lines behind it
-- with the index and the byte count moved on.
pub next_line-Meets :
    (src : NdjsonSource)
    → IsReady src
    → Meets src
        (first_record src.max_record_bytes src.record_index (lines_of (bytes_of src.reader)))
        (next_line src)
unfolding next_line
next_line-Meets src ready =
    next_line_loop-Meets (suc (length (bytes_of src.reader))) src (lines_of (bytes_of src.reader))
      ready refl (omega (arith, length-lines_of (bytes_of src.reader)))

-- The records of some lines, numbered from `index`.
unfoldable pub records_of : ℕ → ℕ → List (List ℕ) → List RawLine
records_of limit index [] = []
records_of limit index (l ∷ ls) = elim (record_of limit index l) [
  | some raw ↦ raw ∷ records_of limit (u64 (index + 1)) ls
  | none ↦ records_of limit index ls
]

abbrev from_first : ℕ → ℕ → Option RawLine × List (List ℕ) → List RawLine
from_first limit index (none, ls) = []
from_first limit index (some raw, ls) = raw ∷ records_of limit (u64 (index + 1)) ls

-- The loop gives the first record and goes on behind it.
records_of-first_record :
    (limit index : ℕ) (ls : List (List ℕ))
    → records_of limit index ls ≡ from_first limit index (first_record limit index ls)
unfolding records_of first_record
records_of-first_record limit index [] = refl
records_of-first_record limit index (l ∷ ls) = elim (Option-cases (record_of limit index l)) [
  | inl blank ↦ rw (blank, records_of, first_record) (records_of-first_record limit index ls)
  | inr (raw, found) ↦ rw (found, records_of, first_record)
]

pub first_record-length :
    (limit index : ℕ) (ls : List (List ℕ)) (raw : RawLine)
    → (first_record limit index ls).0 ≡ some raw
    → length (first_record limit index ls).1 < length ls
unfolding first_record
first_record-length limit index [] raw h = cc
first_record-length limit index (l ∷ ls) raw h =
    ground (arith, first_record-length limit index ls raw)

-- With no record ahead all lines are read.
pub first_record-none :
    (limit index : ℕ) (ls : List (List ℕ))
    → (first_record limit index ls).0 ≡ none
    → (first_record limit index ls).1 ≡ []
unfolding first_record
first_record-none limit index [] h = refl
first_record-none limit index (l ∷ ls) h = ground (arith, first_record-none limit index ls)

-- What the loop over a source gives.
abbrev pub Collected :
    NdjsonSource → List RawLine → Option (IoResult (List RawLine × NdjsonSource)) → Type 0
Collected src raws answer =
    (src' : NdjsonSource) × (answer ≡ some (ok (raws, src')))
    × (src'.bytes_consumed ≡ src.bytes_consumed + length (bytes_of src.reader))

collect-Collected :
    (fuel : ℕ) (src : NdjsonSource)
    → IsReady src
    → length (lines_of (bytes_of src.reader)) < fuel
    → Collected src
        (records_of src.max_record_bytes src.record_index (lines_of (bytes_of src.reader)))
        (collect fuel src)
unfolding collect
collect-Collected zero src ready h = absurd (omega arith)
collect-Collected (suc fuel) src ready h =
    let ls = lines_of (bytes_of src.reader) in
    let (src', answer, adv) = next_line-Meets src ready in
    let first = first_record src.max_record_bytes src.record_index ls in
    elim (Option-cases first.0) [
      | inl ended ↦
          let empty = total_left src' [] (adv.lines ∙ first_record-none _ _ ls ended) in
          rw (records_of-first_record, ended)
            (src', rw (answer, ended, collect), unfold total in omega (arith, adv.bytes, empty))
      | inr (raw, found) ↦
          let shorter = first_record-length src.max_record_bytes src.record_index ls raw found in
          let (src'', rest, bytes) =
            collect-Collected fuel src' adv.ready (omega (arith, ap length adv.lines)) in
          let raws : records_of src'.max_record_bytes src'.record_index
                (lines_of (bytes_of src'.reader))
              ≡ records_of src.max_record_bytes (u64 (src.record_index + 1)) first.1 =
            rw (adv.lines, adv.same_cap, adv.index, found) in
          rw (records_of-first_record, found)
            (src'', rw (answer, found, collect) (rw (rest, raws)), bytes ∙ adv.bytes)
    ]

-- For every reader with no error and fewer than 2^64 bytes, in whatever buffers, the loop over
-- next_line ends and gives the records of the lines of the bytes, numbered from 0, having counted
-- every byte. The length of a line that is compared with the cap counts its newline, and a line
-- over the cap is a record, blank or not.
pub collect-eq-records_of :
    (r : Reader) (max_record_bytes : ℕ)
    → IsClean r
    → length (bytes_of r) < u64_mod
    → Collected
        (new r max_record_bytes)
        (records_of (max max_record_bytes 1) 0 (lines_of (bytes_of r)))
        (collect (suc (length (bytes_of r))) (new r max_record_bytes))
unfolding new
collect-eq-records_of r max_record_bytes clean h =
    collect-Collected (suc (length (bytes_of r))) (new r max_record_bytes)
      (record { clean = clean; small = omega arith }) (omega (arith, length-lines_of (bytes_of r)))
