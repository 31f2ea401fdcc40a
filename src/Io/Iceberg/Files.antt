-- ===== src/Io/Iceberg/Files.antt =====
-- crates/statguardian-io/src/iceberg.rs: the data files of a snapshot.
use stat_guardian.Base.{
  ℤ, ℕ, zero, suc, String, Bool, false, not, ◌&&◌, ◌⊎◌, inl, inr, Option, none, some, List, [], ◌∷◌,
  ◌++◌, filter, map, ◌==◌, string_eq, if◌then◌else◌, ◌-◌, ◌^◌, ltb,
}
use stat_guardian.Base.Affix.{ends_with, has_text, replace}
use stat_guardian.Stream.Json.{Value}
use stat_guardian.Stream.Agent.Events.{get_field}
use stat_guardian.Io.Errors.{IoError}
use stat_guardian.Io.System.{System, of_read, of_io}
use stat_guardian.Io.Paths.{join, extension}
use stat_guardian.Io.Iceberg.Steps.{Steps, gives, fails, hangs, ◌>>=◌, lift, resolve_path}
use stat_guardian.Io.Iceberg.Metadata.{IcebergSnapshot}

pub record IcebergDataFile : Type 0 where
  pub file_path : String
  pub file_format : String
  pub record_count : ℤ
  pub file_size_bytes : ℤ

-- Code that is run for one item after the other, its lists behind each other.
unfoldable pub extend_all :
    {Polars A B : Type 0} → (A → Steps Polars (List B)) → List A → Steps Polars (List B)
extend_all f [] = gives []
extend_all f (x ∷ xs) = do ys ← f x; zs ← extend_all f xs; gives (ys ++ zs)

module _ {Number : Type 0} where
  -- `v.get(key)`, which only an object has, and the two readings of a value.
  unfoldable pub member : String → Option (Value Number) → Option (Value Number)
  unfolding get_field
  member key (some (Value.object o)) = get_field key o
  member key _ = none

  abbrev pub as_str : Option (Value Number) → Option String
  as_str (some (Value.string s)) = some s
  as_str _ = none

  abbrev pub as_i64 : (Number → Option ℤ) → Option (Value Number) → Option ℤ
  as_i64 number_i64 (some (Value.number n)) = number_i64 n
  as_i64 number_i64 _ = none

abbrev pub text_or : String → Option String → String
text_or default none = default
text_or default (some s) = s

abbrev pub int_or_zero : Option ℤ → ℤ
int_or_zero none = ℤ.pos 0
int_or_zero (some i) = i

module _ (sys : System) where
  abbrev pub Found : Type 0
  Found = Steps sys.Polars (List IcebergDataFile)

  -- `read_dir(..).flatten()`, of a directory that cannot be read nothing.
  abbrev pub names_or_none : String ⊎ List String → List String
  names_or_none (inl e) = []
  names_or_none (inr names) = names

  abbrev pub is_parquet : Option String → Bool
  is_parquet none = false
  is_parquet (some ext) = ext == "parquet"

  -- What an entry of a directory adds, where `inside` is what is in it if it is a directory.
  unfoldable pub found_at : String → Steps sys.Polars (List String) → Steps sys.Polars (List String)
  unfolding extension
  found_at path inside =
      if sys.is_dir path
      then inside
      else gives (if is_parquet (extension path) then path ∷ [] else [])

  -- The walk does not end where it comes back to a directory by a link.
  unfoldable pub walkdir_parquet : (depth : ℕ) → String → Steps sys.Polars (List String)
  unfolding extend_all found_at join
  walkdir_parquet zero dir = hangs
  walkdir_parquet (suc depth) dir =
      extend_all (λ name. found_at (join dir name) (walkdir_parquet depth (join dir name)))
        (names_or_none (sys.read_dir dir))

  -- `metadata(..).map(|m| m.len() as i64).unwrap_or(0)`
  abbrev pub size_of : String ⊎ ℕ → ℤ
  size_of (inl e) = ℤ.pos 0
  size_of (inr n) = if ltb n (2 ^ 63) then ℤ.pos n else ℤ.negsuc (2 ^ 64 - 1 - n)

  abbrev pub scanned_file : String → IcebergDataFile
  scanned_file path = record {
    file_path = path;
    file_format = "PARQUET";
    record_count = ℤ.pos 0;
    file_size_bytes = size_of (sys.file_len path);
  }

  unfoldable pub scan_data_directory : (depth : ℕ) → (table_path : String) → Found
  unfolding walkdir_parquet join
  scan_data_directory depth table_path =
      let data_dir = join table_path "data" in
      if sys.exists data_dir
      then (walkdir_parquet depth data_dir >>= λ paths. gives (map scanned_file paths))
      else gives []

  -- `parse_values` is `serde_json::from_str` on a list of values, and `number_i64` its `as_i64`.
  module _ {Number : Type 0} (parse_values : String → String ⊎ List (Value Number))
      (number_i64 : Number → Option ℤ) where
    -- An entry that lacks the path, the count or the size is left out.
    abbrev pub data_file :
        String
        → Value Number
        → (path : Option String) → (count size : Option (Value Number)) → Found
    data_file table_path d (some path) (some count) (some size) = do
      resolved ← resolve_path path table_path
      gives (
          record {
            file_path = resolved;
            file_format = text_or "PARQUET" (as_str (member "file_format" (some d)));
            record_count = int_or_zero (as_i64 number_i64 (some count));
            file_size_bytes = int_or_zero (as_i64 number_i64 (some size));
          }
          ∷ [])
    data_file table_path d _ _ _ = gives []

    abbrev pub entry_files : String → Option (Value Number) → Found
    entry_files table_path none = gives []
    entry_files table_path (some d) =
        data_file table_path d (as_str (member "file_path" (some d)))
          (member "record_count" (some d)) (member "file_size_in_bytes" (some d))

    unfoldable pub read_manifest_json : (path table_path : String) → Found
    unfolding entry_files extend_all
    read_manifest_json path table_path = do
      content ← lift (of_read sys path (sys.read_to_string path))
      entries ← lift (of_read sys path (parse_values content))
      extend_all (λ e. entry_files table_path (member "data_file" (some e))) entries

    module _ (depth : ℕ) where
      unfoldable pub read_manifest : (manifest_path table_path : String) → Found
      unfolding read_manifest_json scan_data_directory replace ends_with
      read_manifest manifest_path table_path =
          let json_path = replace manifest_path ".avro" ".json" in
          if sys.exists json_path
          then read_manifest_json json_path table_path
          else if ends_with manifest_path ".json" && sys.exists manifest_path
          then read_manifest_json manifest_path table_path
          else scan_data_directory depth table_path

      unfoldable pub listed_manifest : String → Option String → Found
      unfolding read_manifest resolve_path
      listed_manifest table_path none = gives []
      listed_manifest table_path (some manifest_path) = do
        resolved ← resolve_path manifest_path table_path
        read_manifest resolved table_path

      unfoldable pub collect_from_json_manifest_list : (path table_path : String) → Found
      unfolding listed_manifest extend_all
      collect_from_json_manifest_list path table_path = do
        content ← lift (of_read sys path (sys.read_to_string path))
        entries ← lift (of_read sys path (parse_values content))
        extend_all (λ e. listed_manifest table_path (as_str (member "manifest_path" (some e))))
            entries

      -- The manifests of all snapshots of the table.
      unfoldable pub collect_manifests_from_directory : (table_path : String) → Found
      unfolding read_manifest extend_all ends_with has_text join
      collect_manifests_from_directory table_path =
          let metadata_dir = join table_path "metadata" in
          do
            names ← lift (of_io sys (sys.read_dir metadata_dir))
            extend_all (λ name. read_manifest (join metadata_dir name) table_path)
                (filter (λ name. ends_with name ".avro" && not (has_text name "snap-")) names)

      unfoldable pub collect_from_manifest_list : (manifest_list_path table_path : String) → Found
      unfolding collect_from_json_manifest_list collect_manifests_from_directory ends_with
      collect_from_manifest_list manifest_list_path table_path =
          if ends_with manifest_list_path ".json"
          then collect_from_json_manifest_list manifest_list_path table_path
          else collect_manifests_from_directory table_path

      unfoldable pub collect_inline : String → Option (List String) → Found
      unfolding listed_manifest extend_all
      collect_inline table_path none =
          fails (IoError.read_error table_path "snapshot has neither manifest-list nor manifests")
      collect_inline table_path (some manifests) =
          extend_all (λ m. listed_manifest table_path (some m)) manifests

      unfoldable pub collect_listed : String → IcebergSnapshot → Option String → Found
      unfolding collect_inline collect_from_manifest_list resolve_path
      collect_listed table_path snapshot none = collect_inline table_path snapshot.manifests
      collect_listed table_path snapshot (some manifest_list_path) = do
        resolved ← resolve_path manifest_list_path table_path
        collect_from_manifest_list resolved table_path

      unfoldable pub collect_data_files : IcebergSnapshot → (table_path : String) → Found
      unfolding collect_listed
      collect_data_files snapshot table_path =
          collect_listed table_path snapshot snapshot.manifest_list
