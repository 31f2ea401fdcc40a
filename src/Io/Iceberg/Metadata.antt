-- ===== src/Io/Iceberg/Metadata.antt =====
-- crates/statguardian-io/src/iceberg.rs: the metadata of a table and its snapshots.
use Prim.Native.Nat.{compare}
use Prim.Native.String.{◌++◌ as ◌<>◌}
use stat_guardian.Base.{
  ℤ, leb_int, same_int, ℕ, String, ◌⊎◌, inl, inr, Option, none, some, List, [], ◌∷◌, filter, map,
  decimal, string_eq, if◌then◌else◌,
}
use stat_guardian.Base.Assoc.{get}
use stat_guardian.Base.Chars.{trim_text}
use stat_guardian.Base.Affix.{ends_with, trim_start_matches, trim_end_matches, parse_u64}
use stat_guardian.Base.Sort.{sort_by}
use stat_guardian.Io.Errors.{IoError, IoResult, ok, err, ◌>>=◌}
use stat_guardian.Io.System.{System, of_read, of_io}
use stat_guardian.Io.Paths.{join}

pub record IcebergSnapshot : Type 0 where
  pub snapshot_id : ℤ
  pub manifest_list : Option String
  pub manifests : Option (List String)
  pub parent_snapshot_id : Option ℤ
  pub timestamp_ms : ℤ
  pub summary : List (String × String)

pub record IcebergRef : Type 0 where
  pub snapshot_id : ℤ
  pub ref_type : Option String

pub record IcebergMetadata : Type 0 where
  pub format_version : ℕ
  pub current_snapshot_id : Option ℤ
  pub snapshots : Option (List IcebergSnapshot)
  pub refs : Option (List (String × IcebergRef))

pub record SnapshotInfo : Type 0 where
  pub snapshot_id : ℤ
  pub timestamp_ms : ℤ
  pub parent_snapshot_id : Option ℤ
  pub operation : Option String

abbrev pub unwrap_or_empty {ℓ} : {A : Type ℓ} → Option (List A) → List A
unwrap_or_empty none = []
unwrap_or_empty (some xs) = xs

abbrev pub number_or_zero : Option ℕ → ℕ
number_or_zero none = 0
number_or_zero (some n) = n

-- A name without a number counts as 0.
unfoldable pub candidates_in : (metadata_dir : String) → List String → List (ℕ × String)
unfolding ends_with trim_start_matches trim_end_matches parse_u64 join
candidates_in metadata_dir [] = []
candidates_in metadata_dir (name ∷ names) =
    let rest = candidates_in metadata_dir names in
    let number = trim_end_matches (trim_start_matches name "v") ".metadata.json" in
    if ends_with name ".metadata.json"
    then (number_or_zero (parse_u64 number), join metadata_dir name) ∷ rest
    else rest

unfoldable pub with_id : ℤ → List IcebergSnapshot → Option IcebergSnapshot
with_id target [] = none
with_id target (s ∷ ss) = if same_int s.snapshot_id target then some s else with_id target ss

-- `max_by_key` gives the last one of those with the greatest key.
unfoldable pub max_by_time : Option IcebergSnapshot → List IcebergSnapshot → Option IcebergSnapshot
max_by_time best [] = best
max_by_time none (s ∷ ss) = max_by_time (some s) ss
max_by_time (some b) (s ∷ ss) =
    max_by_time (some (if leb_int b.timestamp_ms s.timestamp_ms then s else b)) ss

abbrev pub or_id : Option ℤ → Option ℤ → Option ℤ
or_id none current = current
or_id (some id) current = some id

abbrev pub info_of : IcebergSnapshot → SnapshotInfo
info_of s = record {
  snapshot_id = s.snapshot_id;
  timestamp_ms = s.timestamp_ms;
  parent_snapshot_id = s.parent_snapshot_id;
  operation = get "operation" s.summary;
}

module _ (sys : System) where
  -- `ok_or_else` with an error of reading
  abbrev pub or_error : {A : Type 0} → (path msg : String) → Option A → IoResult sys.Polars A
  or_error path msg none = err (IoError.read_error path msg)
  or_error path msg (some a) = ok a

  abbrev pub first_candidate : String → List (ℕ × String) → IoResult sys.Polars String
  first_candidate metadata_dir [] =
      err (IoError.read_error metadata_dir "no *.metadata.json files found")
  first_candidate metadata_dir ((version, path) ∷ _) = ok path

  unfoldable pub find_latest_metadata_file : String → IoResult sys.Polars String
  unfolding candidates_in
  find_latest_metadata_file metadata_dir = do
    names ← of_io sys (sys.read_dir metadata_dir)
    first_candidate metadata_dir
        (sort_by (λ a b. compare b.0 a.0) (candidates_in metadata_dir names))

  unfoldable pub metadata_file : (metadata_dir : String) → IoResult sys.Polars String
  unfolding find_latest_metadata_file join trim_text parse_u64 decimal
  metadata_file metadata_dir =
      let hint_path = join metadata_dir "version-hint.text" in
      if sys.exists hint_path
      then (do
        hint ← of_read sys hint_path (sys.read_to_string hint_path)
        version ← or_error hint_path "invalid version-hint.text" (parse_u64 (trim_text hint))
        ok (join metadata_dir ("v" <> (decimal version <> ".metadata.json"))))
      else find_latest_metadata_file metadata_dir

  abbrev pub of_json : {A : Type 0} → String → String ⊎ A → IoResult sys.Polars A
  of_json path (inl e) = err (IoError.read_error path ("invalid Iceberg metadata JSON: " <> e))
  of_json path (inr a) = ok a

  -- `parse_metadata` is `serde_json::from_str`.
  module _ (parse_metadata : String → String ⊎ IcebergMetadata) where
    unfoldable pub load_metadata : (table_path : String) → IoResult sys.Polars IcebergMetadata
    unfolding metadata_file join
    load_metadata table_path =
        let metadata_dir = join table_path "metadata" in
        if sys.exists metadata_dir
        then (do
          path ← metadata_file metadata_dir
          content ← of_read sys path (sys.read_to_string path)
          of_json path (parse_metadata content))
        else err (IoError.read_error table_path "no metadata/ directory — not an Iceberg table")

    unfoldable pub list_snapshots : String → IoResult sys.Polars (List SnapshotInfo)
    unfolding load_metadata get
    list_snapshots table_path = do
      metadata ← load_metadata table_path
      ok (map info_of (unwrap_or_empty metadata.snapshots))

  -- `show_int` is `Display` of an `i64`.
  module _ (show_int : ℤ → String) where
    unfoldable pub resolve_snapshot :
        IcebergMetadata → (snapshot_id : Option ℤ) → String → IoResult sys.Polars IcebergSnapshot
    unfolding with_id
    resolve_snapshot metadata snapshot_id table_path = do
      target ←
          or_error table_path "Iceberg table has no current snapshot"
            (or_id snapshot_id metadata.current_snapshot_id)
      or_error table_path ("snapshot " <> (show_int target <> " not found in metadata"))
          (with_id target (unwrap_or_empty metadata.snapshots))

    unfoldable pub find_snapshot_at_timestamp :
        IcebergMetadata → (timestamp_ms : ℤ) → String → IoResult sys.Polars IcebergSnapshot
    unfolding max_by_time
    find_snapshot_at_timestamp metadata timestamp_ms table_path =
        or_error table_path ("no Iceberg snapshot at or before timestamp " <> show_int timestamp_ms)
          (max_by_time none (
            filter (λ s. leb_int s.timestamp_ms timestamp_ms) (unwrap_or_empty metadata.snapshots)))
