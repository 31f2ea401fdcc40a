-- ===== src/Io/Rows.antt =====
-- `RowBuffer` of crates/statguardian-io/src/lib.rs: rows that come one by one, in frames.
pub mod Windows
use Prim.Native.String.{compare}
use stat_guardian.Base.{
  ℕ, String, Bool, true, false, Option, none, some, List, [], ◌∷◌, ◌++◌, length, map, leb,
  if◌then◌else◌, string_eq,
}
use stat_guardian.Base.Assoc.{get}
use stat_guardian.Base.Sort.{sort_by}
use stat_guardian.Io.Errors.{IoResult, ok, err}
use stat_guardian.Io.System.{System, of_polars}

-- A `HashMap` from columns to texts.
abbrev pub StreamRow : Type 0
StreamRow = List (String × String)

pub record RowBuffer : Type 0 where
  pub window_size : ℕ
  pub buffer : List StreamRow
  pub schema : Option (List String)

unfoldable pub new_buffer : ℕ → RowBuffer
new_buffer window_size = record { window_size = window_size; buffer = []; schema = none }

abbrev pub buffered_count : RowBuffer → ℕ
buffered_count b = length b.buffer

-- `row.keys()`, sorted
abbrev pub sorted_keys : StreamRow → List String
sorted_keys row = sort_by compare (map (λ (k, v). k) row)

-- The schema is that of the first row.
abbrev pub schema_or : Option (List String) → StreamRow → List String
schema_or none row = sorted_keys row
schema_or (some schema) row = schema

abbrev pub unwrap_or_default : Option (List String) → List String
unwrap_or_default none = []
unwrap_or_default (some schema) = schema

-- The values of each column of the schema, in the order of the rows.
unfoldable pub columns_of : List String → List StreamRow → List (String × List (Option String))
unfolding get
columns_of schema rows = map (λ col. (col, map (λ row. get col row) rows)) schema

module _ (sys : System) where
  abbrev pub frame_of : List String → List StreamRow → IoResult sys.Polars sys.Frame
  frame_of schema rows = of_polars sys (sys.new_frame (length rows) (columns_of schema rows))

  -- The buffer is empty afterwards, whether or not there is a frame.
  unfoldable pub flush : RowBuffer → IoResult sys.Polars sys.Frame × RowBuffer
  unfolding columns_of
  flush b = (frame_of (unwrap_or_default b.schema) b.buffer, record b { buffer = [] })

  abbrev pub optional :
      IoResult sys.Polars sys.Frame × RowBuffer → IoResult sys.Polars (Option sys.Frame) × RowBuffer
  optional (ok df, b) = (ok (some df), b)
  optional (err e, b) = (err e, b)

  unfoldable pub push : StreamRow → RowBuffer → IoResult sys.Polars (Option sys.Frame) × RowBuffer
  unfolding flush
  push row b =
      let b' = record b { schema = some (schema_or b.schema row); buffer = b.buffer ++ row ∷ [] } in
      if leb b.window_size (length b'.buffer) then optional (flush b') else (ok none, b')
