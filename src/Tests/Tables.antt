-- ===== src/Tests/Tables.antt =====
-- Tables, batches and rows of crates/statguardian-io, on a small file system.
use Prim.Native.Nat.{max}
use stat_guardian.Base.{
  ℤ, ℕ, ◌≡◌, refl, ◌↔◌, String, ◌⊎◌, inl, inr, true, false, Option, none, some, List, [], ◌∷◌, Memᴰ,
  ◌||◌, ◌==◌, nat_eq, string_eq, if◌then◌else◌, arith,
}
use stat_guardian.Base.Panic.{returns}
use stat_guardian.Base.Affix.{
  ends_with, starts_with, strip_prefix_text, strip_suffix_text, trim_end_matches, parse_u64,
}
use stat_guardian.Base.Sort.{sort_by}
use stat_guardian.Base.Chars.{split_text, trim_text}
use stat_guardian.Io.Errors.{IoError, IoResult, ok, err}
use stat_guardian.Io.System.{System}
use stat_guardian.Io.Paths.{join, extension}
use stat_guardian.Io.Batches.Drain.{Covers}
use stat_guardian.Io.Rows.{StreamRow, sorted_keys, new_buffer}
use stat_guardian.Io.Rows.Windows.{Windowed, push_all, push_all-Windowed}
use stat_guardian.Io.Delta.{
  DeltaAction, commits_in, commits_upto, limit_of, full_path, url_decode, lines_of_text, actions_of,
  read_actions, resolve_active_files, find_version_for_timestamp,
}
use stat_guardian.Io.Delta.Active.{IsActive}
use stat_guardian.Io.Delta.Versions.{IsHistory, resolve_active_files-exact}
use stat_guardian.Io.Cloud.{is_cloud_uri, cloud_extension}
use stat_guardian.Io.Sql.{SqlBackend, from_url}
use stat_guardian.Io.Iceberg.Metadata.{
  IcebergSnapshot, IcebergMetadata, resolve_snapshot, find_snapshot_at_timestamp,
}
use stat_guardian.Io.Iceberg.Snapshots.{IsAnswer, snapshots_at, find_snapshot_at_timestamp-newest}
use stat_guardian.Io.Iceberg.Files.{walkdir_parquet}
use stat_guardian.Io.Iceberg.Walk.{Lists, IsShallow, IsBelow, walkdir_parquet-exact}
use stat_guardian.Io.Iceberg.Steps.{gives, panics, has_drive, resolve_path}
use stat_guardian.Engine.Streaming.{execute_streaming, execute_streaming-Covers, reports_of}

-- A log with two commits and a file that is none. A frame is its number of rows.
abbrev read_text : String → String ⊎ String
read_text path =
    if path == "t/_delta_log/0.json"
    then inr "add a\n"
    else if path == "t/_delta_log/1.json"
    then inr "add b\nremove a\n"
    else inl "no such file"

abbrev disk : System
disk = record {
  Frame = ℕ;
  Polars = String;
  File = String;
  Plan = String;
  exists = λ path. path == "t/_delta_log";
  is_dir = λ path. path == "t";
  read_dir = λ path. inr ("1.json" ∷ "x.crc" ∷ "0.json" ∷ []);
  read_to_string = read_text;
  file_len = λ path. inr 0;
  open_file = λ path. inr path;
  parquet_reader = λ file. inr 2;
  csv_reader = λ file. inr 5;
  json_reader = λ file. inl "no JSON";
  ipc_reader = λ file. inr 1;
  avro_reader = λ file. inr 1;
  json_bytes = λ bytes. inl "no JSON";
  scan_parquet = λ uri. inr uri;
  scan_csv = λ uri. inr uri;
  scan_ndjson = λ uri. inr uri;
  scan_ipc = λ uri. inr uri;
  collect_plan = λ plan. inr 3;
  height = λ df. df;
  slice = λ df offset len. len;
  vstack = λ a b. inr b;
  default_frame = 0;
  new_frame = λ height columns. inr height;
}

abbrev added : String → DeltaAction
added path = record { add = some (record { path = path; modification_time = none }); remove = none }

abbrev parse_action : String → Option DeltaAction
parse_action line =
    if line == "add a"
    then some (added "a")
    else if line == "add b"
    then some (added "b")
    else if line == "remove a"
    then some (record { add = none; remove = some (record { path = "a" }) })
    else none

abbrev actions : List DeltaAction
actions = added "a" ∷ added "b" ∷ record { add = none; remove = some (record { path = "a" }) } ∷ []

abbrev names : List String
names = "1.json" ∷ "x.crc" ∷ "0.json" ∷ []

read_actions-log :
    read_actions disk parse_action (commits_upto (limit_of none) (commits_in "t/_delta_log" names))
    ≡ ok actions
unfolding read_actions actions_of lines_of_text trim_text commits_in ends_with strip_suffix_text
    trim_end_matches parse_u64 join starts_with split_text sort_by
read_actions-log = refl

active_files : resolve_active_files disk parse_action "t/_delta_log" "t/" none ≡ ok ("t/b" ∷ [])
unfolding resolve_active_files sort_by
active_files = refl

resolve_active_files-exact_example :
    IsHistory
      (limit_of none)
      (commits_in "t/_delta_log" names)
      (commits_upto (limit_of none) (commits_in "t/_delta_log" names))
    × ((files : List String) × (resolve_active_files disk parse_action "t/_delta_log" "t/" none
          ≡ ok files)
        × ((file : String)
            → Memᴰ file files
              ↔ ((path : String) × IsActive path actions × (file ≡ full_path "t/" path))))
resolve_active_files-exact_example =
    resolve_active_files-exact disk parse_action "t/_delta_log" "t/" none names actions refl
      read_actions-log

-- The commits have the times 10 and 20; nothing is older than 10, and still version 0 is given.
abbrev commit_time : String → Option ℤ
commit_time line =
    if line == "add a" then some (ℤ.pos 10) else if line == "add b" then some (ℤ.pos 20) else none

version_too_old : find_version_for_timestamp disk commit_time "t/_delta_log" (ℤ.pos 5) ≡ ok 0
unfolding find_version_for_timestamp sort_by
version_too_old = refl

-- Five rows in batches of two, where the file is gone after the first read.
abbrev reads : ℕ → IoResult String ℕ
reads i = if i == 0 then ok 5 else err (IoError.io "gone")

execute_streaming-Covers_example :
    (batches : List ℕ) × (execute_streaming disk (λ df _. returns df) 6 reads "data.csv" 2
      ≡ some (ok (reports_of disk (λ df _. returns df) batches)))
    × Covers disk 5 (max 2 1) 0 batches
execute_streaming-Covers_example =
    execute_streaming-Covers disk (λ df _. returns df) "data.csv" 2 5 reads refl (omega arith)
      (omega arith)

batches_of_two :
    execute_streaming disk (λ df _. returns df) 6 reads "data.csv" 2
    ≡ some (ok (returns (2 ∷ 2 ∷ 1 ∷ [])))
unfolding execute_streaming
batches_of_two = refl

abbrev row_of : String → StreamRow
row_of v = ("id", v) ∷ ("at", "now") ∷ []

push_all-Windowed_example :
    Windowed disk 2
      (sorted_keys (row_of "1"))
      (row_of "1" ∷ row_of "2" ∷ row_of "3" ∷ [])
      (push_all disk (row_of "1" ∷ row_of "2" ∷ row_of "3" ∷ []) (new_buffer 2))
push_all-Windowed_example = push_all-Windowed disk 2 (row_of "1") (row_of "2" ∷ row_of "3" ∷ [])

-- A name that begins with a character of more than one byte.
path_panics : resolve_path {Polars = String} "é.parquet" "t" ≡ panics
unfolding resolve_path starts_with strip_prefix_text has_drive
path_panics = refl

path_below :
    resolve_path {Polars = String} "data/part-0.parquet" "/tmp/t/"
    ≡ gives "/tmp/t/data/part-0.parquet"
unfolding resolve_path
path_below = refl

path_uri :
    resolve_path {Polars = String} "file:///tmp/t/part-0.parquet" "t"
    ≡ gives "/tmp/t/part-0.parquet"
unfolding resolve_path
path_uri = refl

extensions :
    (extension "/a/b.tar.gz" ≡ some "gz")
    × (extension "/a/.hidden" ≡ none)
    × (extension "a.csv/" ≡ some "csv")
unfolding extension
extensions = (refl, refl, refl)

cloud_extensions :
    (cloud_extension "s3://b/x/*.parquet" ≡ "parquet")
    × (cloud_extension "gs://b/data.csv?v=1" ≡ "csv")
unfolding cloud_extension
cloud_extensions = (refl, refl)

clouds : (is_cloud_uri "s3a://b/x" ≡ true) × (is_cloud_uri "file:///x" ≡ false)
unfolding is_cloud_uri
clouds = (refl, refl)

backends :
    (from_url (λ s. s) "postgres://localhost/db" ≡ SqlBackend.postgres)
    × (from_url (λ s. s) "snowflake://user@account/db" ≡ SqlBackend.python_layer "snowflake")
unfolding from_url
backends = (refl, refl)

decoded_path : url_decode "a%20b%2Fc" ≡ "a b/c"
unfolding url_decode
decoded_path = refl

-- Two snapshots at one time, and one behind it.
abbrev snapshot_of : ℤ → ℤ → IcebergSnapshot
snapshot_of id time = record {
  snapshot_id = id;
  manifest_list = none;
  manifests = none;
  parent_snapshot_id = none;
  timestamp_ms = time;
  summary = [];
}

abbrev table_metadata : IcebergMetadata
table_metadata = record {
  format_version = 2;
  current_snapshot_id = some (ℤ.pos 7);
  snapshots = some (
      snapshot_of (ℤ.pos 7) (ℤ.pos 20)
      ∷ snapshot_of (ℤ.pos 8) (ℤ.pos 20)
      ∷ snapshot_of (ℤ.pos 9) (ℤ.pos 30)
      ∷ []);
  refs = none;
}

find_snapshot_at_timestamp-newest_example :
    IsAnswer disk
      (λ i. "25")
      (snapshots_at (ℤ.pos 25) table_metadata)
      "no Iceberg snapshot at or before timestamp 25"
      "t"
      (find_snapshot_at_timestamp disk (λ i. "25") table_metadata (ℤ.pos 25) "t")
find_snapshot_at_timestamp-newest_example =
    find_snapshot_at_timestamp-newest disk (λ i. "25") table_metadata (ℤ.pos 25) "t"

second_of_two :
    find_snapshot_at_timestamp disk (λ i. "25") table_metadata (ℤ.pos 25) "t"
    ≡ ok (snapshot_of (ℤ.pos 8) (ℤ.pos 20))
unfolding find_snapshot_at_timestamp
second_of_two = refl

current_snapshot :
    resolve_snapshot disk (λ i. "7") table_metadata none "t" ≡ ok (snapshot_of (ℤ.pos 7) (ℤ.pos 20))
unfolding resolve_snapshot
current_snapshot = refl

-- The folder `t` with a file and a folder, which has a file of Parquet and another one.
abbrev lake : System
lake = record disk {
  is_dir = λ path. path == "t/a" || path == "t";
  read_dir =
      λ path. inr (if path == "t" then "a" ∷ "x.parquet" ∷ [] else "y.parquet" ∷ "z.txt" ∷ []);
}

lake-IsShallow : IsShallow lake 2 "t"
unfolding join
lake-IsShallow = ((λ _. (λ h. cc h, (λ h. cc h, tt))), (λ h. cc h, tt))

walkdir_parquet-exact_example : Lists (walkdir_parquet lake 2 "t") (IsBelow lake 2 "t")
walkdir_parquet-exact_example = walkdir_parquet-exact lake 2 "t" lake-IsShallow

walked : walkdir_parquet lake 2 "t" ≡ gives ("t/a/y.parquet" ∷ "t/x.parquet" ∷ [])
unfolding walkdir_parquet extension
walked = refl
