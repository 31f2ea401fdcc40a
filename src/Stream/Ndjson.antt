-- ===== src/Stream/Ndjson.antt =====
-- `NdjsonSource` of crates/statguardian-stream/src/ndjson.rs: the non-blank lines of a reader.
pub mod Lines
pub mod Bounds
use stat_guardian.Base.{
  ℕ, zero, suc, ◌+◌, ◌==◌, nat_eq, Bool, true, false, ◌||◌, Option, none, some, List, [], ◌∷◌,
  length, if◌then◌else◌, from_utf8, is_whitespace, trim_end, trim,
}
use Prim.Native.Nat.{max}
use stat_guardian.Stream.Reader.{Reader, bytes_of, u64, IoResult, ok, err, read_line_capped}

-- The field `record` of the source. `content` holds code points.
pub record RawLine : Type 0 where
  pub record_index : ℕ
  pub bytes : ℕ
  pub exceeded : Bool
  pub utf8 : Bool
  pub content : List ℕ

pub record NdjsonSource : Type 0 where
  pub reader : Reader
  pub max_record_bytes : ℕ
  pub record_index : ℕ
  pub bytes_consumed : ℕ

unfoldable pub new : Reader → ℕ → NdjsonSource
new reader max_record_bytes = record {
  reader = reader;
  max_record_bytes = max max_record_bytes 1;
  record_index = 0;
  bytes_consumed = 0;
}

abbrev pub records_read : NdjsonSource → ℕ
records_read src = src.record_index

abbrev pub is_line_end : ℕ → Bool
is_line_end c = c == b'\n' || c == 13

-- The arm for decoded text: a blank line gives no record.
unfoldable pub text_line : ℕ → ℕ → List ℕ → Option RawLine
text_line index bytes s =
    let trimmed = trim_end is_line_end s in
    elim (trim trimmed) [
      | [] ↦ none
      | _ ∷ _ ↦ some (record {
        record_index = index;
        bytes = bytes;
        exceeded = false;
        utf8 = true;
        content = trimmed;
      })
    ]

-- The body of the loop once a line is read, without its effect on the source.
unfoldable pub classify : ℕ → ℕ → Bool → List ℕ → Option RawLine
unfolding text_line
classify index bytes true buf =
    some
      (record { record_index = index; bytes = bytes; exceeded = true; utf8 = false; content = [] })
classify index bytes false buf = elim (from_utf8 buf) [
  | none ↦
      some (record {
        record_index = index;
        bytes = bytes;
        exceeded = false;
        utf8 = false;
        content = [];
      })
  | some s ↦ text_line index bytes s
]

abbrev pub Answer : Type 0
Answer = Option (IoResult (Option RawLine × NdjsonSource))

-- `none` means that the fuel ran out. After an I/O error the source is not used again.
unfoldable pub next_line_loop : ℕ → NdjsonSource → Answer
next_line_loop zero src = none
next_line_loop (suc fuel) src = elim (read_line_capped src.max_record_bytes src.reader) [
  | err ↦ some err
  | ok (none, buf, rest) ↦ some (ok (none, record src { reader = rest }))
  | ok (some (bytes, exceeded), buf, rest) ↦
      let src' = record src { reader = rest; bytes_consumed = u64 (src.bytes_consumed + bytes) } in
      elim (classify src.record_index bytes exceeded buf) [
        | none ↦ next_line_loop fuel src'
        | some raw ↦ some (ok (some raw, record src' { record_index = u64 (src.record_index + 1) }))
      ]
]

-- Every round but the last consumes a byte.
unfoldable pub next_line : NdjsonSource → Answer
next_line src = next_line_loop (suc (length (bytes_of src.reader))) src

-- `while let Some(line) = src.next_line()? { out.push(line) }`
unfoldable pub collect : ℕ → NdjsonSource → Option (IoResult (List RawLine × NdjsonSource))
collect zero src = none
collect (suc fuel) src = elim (next_line src) [
  | none ↦ none
  | some err ↦ some err
  | some (ok (none, src')) ↦ some (ok ([], src'))
  | some (ok (some raw, src')) ↦ elim (collect fuel src') [
    | none ↦ none
    | some err ↦ some err
    | some (ok (rest, src'')) ↦ some (ok (raw ∷ rest, src''))
  ]
]
