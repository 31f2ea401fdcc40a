-- ===== src/Io/Iceberg/Steps.antt =====
-- How code of crates/statguardian-io/src/iceberg.rs may end, and its paths.
use Prim.Native.Char.{Char, code}
use Prim.Native.String.{◌++◌ as ◌<>◌}
use stat_guardian.Base.{String, Bool, false, ◌||◌, ltb, ◌==◌, nat_eq, string_eq, if◌then◌else◌}
use stat_guardian.Base.Affix.{starts_with, trim_start_matches, trim_end_matches}
use stat_guardian.Io.Errors.{IoError, IoResult, ok, err}

-- A result, or a panic, or no end.
pub data Steps (Polars : Type 0) (A : Type 0) : Type 0 where
  gives : A → Steps Polars A
  fails : IoError Polars → Steps Polars A
  panics hangs : Steps Polars A

infixl 5 ◌>>=◌
abbrev pub ◌>>=◌ : {Polars A B : Type 0} → Steps Polars A → (A → Steps Polars B) → Steps Polars B
gives a >>= f = f a
fails e >>= f = fails e
panics >>= f = panics
hangs >>= f = hangs

abbrev pub lift : {Polars A : Type 0} → IoResult Polars A → Steps Polars A
lift (ok a) = gives a
lift (err e) = fails e

abbrev pub is_ascii : Char → Bool
is_ascii c = ltb (code c) 128

-- `path.len() > 1 && &path[1..2] == ":"`, which panics where a character is not one byte.
unfoldable pub has_drive : {Polars : Type 0} → String → Steps Polars Bool
has_drive String.[] = gives false
has_drive (String.◌∷◌ c String.[]) = if is_ascii c then gives false else panics
has_drive (String.◌∷◌ c (String.◌∷◌ d s)) =
    if is_ascii c then (if is_ascii d then gives (code d == 58) else panics) else panics

-- An address of a cloud is left as it is, and another text is below the root of the table.
abbrev pub below_root : String → String → String
below_root path table_root =
    if starts_with path "s3://" || (starts_with path "gs://" || starts_with path "abfss://")
    then path
    else trim_end_matches table_root "/" <> ("/" <> path)

unfoldable pub resolve_path : {Polars : Type 0} → (path table_root : String) → Steps Polars String
unfolding starts_with trim_start_matches trim_end_matches has_drive
resolve_path path table_root =
    if starts_with path "file://"
    then gives (trim_start_matches path "file://")
    else if starts_with path "/"
    then gives path
    else (has_drive path >>= λ drive. gives (if drive then path else below_root path table_root))
