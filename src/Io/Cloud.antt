-- ===== src/Io/Cloud.antt =====
-- crates/statguardian-io/src/cloud.rs: the schemes of clouds, and the format of what they hold.
use Prim.Native.String.{◌++◌ as ◌<>◌}
use stat_guardian.Base.{
  String, ◌⊎◌, Bool, ◌||◌, Option, none, some, [], ◌∷◌, contains, ◌==◌, string_eq, if◌then◌else◌,
}
use stat_guardian.Base.Affix.{
  starts_with, ends_with, has_text, trim_start_matches, trim_end_matches, before_text, split_last,
}
use stat_guardian.Io.Errors.{IoError, err, ◌>>=◌}
use stat_guardian.Io.System.{System, of_polars, of_read}
use stat_guardian.Io.Formats.{Read}

unfoldable pub is_cloud_uri : String → Bool
unfolding starts_with
is_cloud_uri path =
    starts_with path "s3://"
    || starts_with path "s3a://"
    || starts_with path "s3n://"
    || starts_with path "gs://"
    || starts_with path "gcs://"
    || starts_with path "az://"
    || starts_with path "abfss://"
    || starts_with path "adl://"
    || starts_with path "wasbs://"

-- `s.rsplit(d).next()`
abbrev pub after_last : Option (String × String) → String → String
after_last none s = s
after_last (some (front, back)) s = back

-- Behind the last slash of the path, without the query, stars and points in front: behind its last
-- point.
unfoldable pub cloud_extension : String → String
unfolding trim_start_matches trim_end_matches before_text split_last
cloud_extension uri =
    let path = trim_end_matches (before_text uri "?") "/" in
    let seg = after_last (split_last 47 path) path in
    let name = trim_start_matches (trim_start_matches seg "*") "." in
    after_last (split_last 46 name) name

module _ (sys : System) where
  -- A lazy reader of the address, run.
  abbrev pub run_plan : String → (String ⊎ sys.Plan) → Read sys
  run_plan uri scanned = do plan ← of_read sys uri scanned; of_polars sys (sys.collect_plan plan)

  unfoldable pub read_cloud_parquet : String → Read sys
  read_cloud_parquet uri = run_plan uri (sys.scan_parquet uri)

  unfoldable pub read_cloud_csv : String → Read sys
  read_cloud_csv uri = run_plan uri (sys.scan_csv uri)

  unfoldable pub read_cloud_ndjson : String → Read sys
  read_cloud_ndjson uri = run_plan uri (sys.scan_ndjson uri)

  unfoldable pub read_cloud_ipc : String → Read sys
  read_cloud_ipc uri = run_plan uri (sys.scan_ipc uri)

  unfoldable pub read_as : String → String → Read sys
  unfolding read_cloud_parquet read_cloud_csv read_cloud_ndjson read_cloud_ipc ends_with has_text
  read_as ext uri =
      if ext == "parquet"
      then read_cloud_parquet uri
      else if contains ("csv" ∷ "tsv" ∷ []) ext
      then read_cloud_csv uri
      else if contains ("json" ∷ "ndjson" ∷ []) ext
      then read_cloud_ndjson uri
      else if contains ("ipc" ∷ "arrow" ∷ []) ext
      then read_cloud_ipc uri
      else if ends_with uri "/" || has_text uri "*"
      then read_cloud_parquet uri
      else err (
          IoError.unsupported_format (
            "cannot infer format from cloud URI '"
            <> (uri <> "' — use read_cloud_parquet/csv/json explicitly")))

  unfoldable pub read_cloud : String → Read sys
  unfolding cloud_extension read_as
  read_cloud uri = read_as (cloud_extension uri) uri
