-- ===== src/Io/Iceberg/Reader.antt =====
-- `IcebergReader` of crates/statguardian-io/src/iceberg.rs.
use Prim.Native.String.{◌++◌ as ◌<>◌}
use stat_guardian.Base.{
  ℤ, ℕ, String, ◌⊎◌, Option, none, some, List, [], ◌∷◌, filter, map, ◌==◌, string_eq,
}
use stat_guardian.Base.Assoc.{get}
use stat_guardian.Stream.Json.{Value}
use stat_guardian.Io.Errors.{IoError, err}
use stat_guardian.Io.System.{System}
use stat_guardian.Io.Formats.{Read, read_and_concat}
use stat_guardian.Io.Iceberg.Steps.{Steps, gives, ◌>>=◌, lift}
use stat_guardian.Io.Iceberg.Metadata.{
  IcebergMetadata, IcebergRef, IcebergSnapshot, or_error, load_metadata, resolve_snapshot,
  find_snapshot_at_timestamp,
}
use stat_guardian.Io.Iceberg.Files.{IcebergDataFile, collect_data_files}

-- What the reader uses of serde_json and of `str`.
pub record Texts (Number : Type 0) : Type 0 where
  pub parse_metadata : String → String ⊎ IcebergMetadata
  pub parse_values : String → String ⊎ List (Value Number)
  pub number_i64 : Number → Option ℤ
  pub show_int : ℤ → String
  pub to_uppercase : String → String

module _ (sys : System) {Number : Type 0} (texts : Texts Number) (depth : ℕ) where
  open texts use {parse_metadata, parse_values, number_i64, show_int, to_uppercase}

  abbrev pub read_paths : String → List String → Read sys
  read_paths table_path [] =
      err (IoError.read_error table_path "Iceberg snapshot contains no PARQUET data files")
  read_paths table_path (p ∷ paths) = read_and_concat sys (p ∷ paths)

  unfoldable pub load_data_files : List IcebergDataFile → (table_path : String) → Read sys
  unfolding read_and_concat
  load_data_files files table_path =
      read_paths table_path
        (map (λ f. f.file_path) (filter (λ f. to_uppercase f.file_format == "PARQUET") files))

  unfoldable pub load_snapshot :
      (table_path : String) → IcebergSnapshot → Steps sys.Polars sys.Frame
  unfolding collect_data_files load_data_files
  load_snapshot table_path snapshot = do
    files ← collect_data_files sys parse_values number_i64 depth snapshot table_path
    lift (load_data_files files table_path)

  unfoldable pub read_snapshot :
      (table_path : String) → (snapshot_id : Option ℤ) → Steps sys.Polars sys.Frame
  unfolding load_metadata resolve_snapshot load_snapshot
  read_snapshot table_path snapshot_id = do
    metadata ← lift (load_metadata sys parse_metadata table_path)
    snapshot ← lift (resolve_snapshot sys show_int metadata snapshot_id table_path)
    load_snapshot table_path snapshot

  unfoldable pub read_iceberg : (table_path : String) → Steps sys.Polars sys.Frame
  unfolding read_snapshot
  read_iceberg table_path = read_snapshot table_path none

  unfoldable pub read_snapshot_as_of :
      (table_path : String) → (timestamp_ms : ℤ) → Steps sys.Polars sys.Frame
  unfolding load_metadata find_snapshot_at_timestamp load_snapshot
  read_snapshot_as_of table_path timestamp_ms = do
    metadata ← lift (load_metadata sys parse_metadata table_path)
    snapshot ← lift (find_snapshot_at_timestamp sys show_int metadata timestamp_ms table_path)
    load_snapshot table_path snapshot

  abbrev pub ref_in : Option (List (String × IcebergRef)) → String → Option IcebergRef
  ref_in none ref_name = none
  ref_in (some refs) ref_name = get ref_name refs

  unfoldable pub read_ref : (table_path ref_name : String) → Steps sys.Polars sys.Frame
  unfolding load_metadata read_snapshot get
  read_ref table_path ref_name = do
    metadata ← lift (load_metadata sys parse_metadata table_path)
    ref ← lift (
        or_error sys table_path ("Iceberg ref '" <> (ref_name <> "' not found"))
          (ref_in metadata.refs ref_name))
    read_snapshot table_path (some ref.snapshot_id)

  unfoldable pub read_two_snapshots :
      (table_path : String)
      → (reference_snapshot_id current_snapshot_id : ℤ) → Steps sys.Polars (sys.Frame × sys.Frame)
  unfolding read_snapshot
  read_two_snapshots table_path reference_snapshot_id current_snapshot_id = do
    old ← read_snapshot table_path (some reference_snapshot_id)
    new ← read_snapshot table_path (some current_snapshot_id)
    gives (old, new)
