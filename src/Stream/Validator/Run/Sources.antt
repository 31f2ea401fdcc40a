-- ===== src/Stream/Validator/Run/Sources.antt =====
-- `validate_path` and `validate_bytes` of crates/statguardian-stream/src/validator.rs.
use stat_guardian.Base.{ℕ, String, Option, none, some, List, [], ◌∷◌}
use stat_guardian.Stream.Reader.{Reader, chunk}
use stat_guardian.Stream.Report.{StreamError, StreamResult, failed, StreamReport}
use stat_guardian.Stream.Validator.{StreamOptions}
use stat_guardian.Stream.Validator.Run.{Calls, validate_reader}

-- `Cursor::new(bytes)` has all bytes in its buffer.
abbrev pub cursor : List ℕ → Reader
cursor [] = []
cursor (b ∷ bs) = chunk b bs ∷ []

module _ {Number Frame F64 : Type 0} (calls : Calls Number Frame F64)
    (options : StreamOptions) where
  -- `opened` is what `File::open` and `BufReader::new` give for the path: nothing on an error.
  unfoldable pub validate_path :
      (dataset : String)
      → (duration_ms : ℕ) → (opened : Option Reader) → Option (StreamResult StreamReport)
  unfolding validate_reader
  validate_path dataset duration_ms none = some (failed StreamError.io)
  validate_path dataset duration_ms (some reader) =
      validate_reader calls options dataset duration_ms reader

  unfoldable pub validate_bytes :
      (dataset : String) → (duration_ms : ℕ) → List ℕ → Option (StreamResult StreamReport)
  unfolding validate_reader
  validate_bytes dataset duration_ms bytes =
      validate_reader calls options dataset duration_ms (cursor bytes)
