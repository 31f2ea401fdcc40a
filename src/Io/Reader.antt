-- ===== src/Io/Reader.antt =====
-- `DataReader::read_file` of crates/statguardian-io/src/lib.rs: the format of a path.
use stat_guardian.Base.{
  ℕ, String, Option, none, some, [], ◌∷◌, contains, ◌==◌, string_eq, if◌then◌else◌,
}
use stat_guardian.Io.Errors.{IoError, err}
use stat_guardian.Io.System.{System}
use stat_guardian.Io.Paths.{join, extension}
use stat_guardian.Io.Formats.{
  Read, read_parquet, read_csv, read_json, read_ipc, read_avro, read_orc,
}
use stat_guardian.Io.Cloud.{is_cloud_uri, read_cloud}
use stat_guardian.Io.Delta.{DeltaAction, read_latest}
use stat_guardian.Io.Iceberg.Steps.{Steps, lift}
use stat_guardian.Io.Iceberg.Reader.{Texts, read_iceberg}

module _ (sys : System) {Number : Type 0} (parse_action : String → Option DeltaAction)
    (texts : Texts Number) (depth : ℕ) where
  unfoldable pub read_extension : String → Option String → Read sys
  unfolding read_parquet read_csv read_json read_ipc read_avro read_orc
  read_extension path none = err (IoError.unsupported_format "(no extension)")
  read_extension path (some ext) =
      if ext == "parquet"
      then read_parquet sys path
      else if contains ("csv" ∷ "tsv" ∷ []) ext
      then read_csv sys path
      else if contains ("json" ∷ "ndjson" ∷ []) ext
      then read_json sys path
      else if contains ("ipc" ∷ "arrow" ∷ []) ext
      then read_ipc sys path
      else if ext == "avro"
      then read_avro sys path
      else if ext == "orc"
      then read_orc sys path
      else err (IoError.unsupported_format ext)

  -- A directory is a table if it has the folder of one; else its name decides, as that of a file.
  unfoldable pub read_file : (path : String) → Steps sys.Polars sys.Frame
  unfolding is_cloud_uri read_cloud join read_latest read_iceberg read_extension extension
  read_file path =
      let by_name = lift (read_extension path (extension path)) in
      if is_cloud_uri path
      then lift (read_cloud sys path)
      else if sys.is_dir path
      then (if sys.exists (join path "_delta_log")
          then lift (read_latest sys parse_action path)
          else if sys.exists (join path "metadata")
          then read_iceberg sys texts depth path
          else by_name)
      else by_name
