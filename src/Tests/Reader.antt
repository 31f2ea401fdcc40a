-- ===== src/Tests/Reader.antt =====
-- Readers and sources of crates/statguardian-stream/src/ndjson.rs on concrete bytes.
use stat_guardian.Base.{
  ◌+◌, ◌≡◌, refl, true, false, some, [], ◌∷◌, length, from_utf8, trim_end, trim, arith,
}
use Prim.Native.Nat.{max}
use stat_guardian.Stream.Reader.{
  Reader, chunk, interrupted, bytes_of, ok, LineRead, read_line_capped,
}
use stat_guardian.Stream.Reader.Lines.{lines_of}
use stat_guardian.Stream.Reader.Line.{Delivers, read_line_capped-Delivers}
use stat_guardian.Stream.Ndjson.{
  RawLine, NdjsonSource, new, classify, next_line_loop, next_line, collect,
}
use stat_guardian.Stream.Ndjson.Lines.{IsReady, records_of, Collected, collect-eq-records_of}

-- `abcd`, a blank line and `e`, in three buffers and with an interrupted read.
abbrev input : Reader
input = chunk 97 (98 ∷ []) ∷ interrupted ∷ chunk 99 (100 ∷ 10 ∷ 10 ∷ []) ∷ chunk 101 [] ∷ []

abbrev input_left : Reader
input_left = chunk 10 [] ∷ chunk 101 [] ∷ []

abbrev first_line : LineRead
first_line = (some (5, true), 97 ∷ 98 ∷ 99 ∷ [], input_left)

read_first_line : read_line_capped 3 input ≡ ok first_line
unfolding read_line_capped
read_first_line = refl

read_line_capped-Delivers_example :
    Delivers 3 (lines_of (bytes_of input)) (read_line_capped 3 input)
unfolding bytes_of
read_line_capped-Delivers_example = read_line_capped-Delivers 3 input tt (omega arith)

abbrev source : NdjsonSource
source = record { reader = input; max_record_bytes = 8; record_index = 0; bytes_consumed = 0 }

abbrev abcd : RawLine
abcd = record {
  record_index = 0;
  bytes = 5;
  exceeded = false;
  utf8 = true;
  content = 97 ∷ 98 ∷ 99 ∷ 100 ∷ [];
}

abbrev source_left : NdjsonSource
source_left = record {
  reader = input_left;
  max_record_bytes = 8;
  record_index = 1;
  bytes_consumed = 5;
}

next_record : next_line source ≡ some (ok (some abcd, source_left))
unfolding next_line bytes_of next_line_loop read_line_capped classify from_utf8 trim_end trim
next_record = refl

source-IsReady : IsReady source
unfolding bytes_of
source-IsReady = record { clean = tt; small = omega arith }

collect-eq-records_of_example :
    Collected
      (new input 3)
      (records_of (max 3 1) 0 (lines_of (bytes_of input)))
      (collect (1 + length (bytes_of input)) (new input 3))
unfolding bytes_of
collect-eq-records_of_example = collect-eq-records_of input 3 tt (omega arith)
