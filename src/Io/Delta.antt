-- ===== src/Io/Delta.antt =====
-- crates/statguardian-io/src/delta.rs: the files of a Delta table from its log of commits.
pub mod Active
pub mod Versions
use Prim.Native.Nat.{compare}
use Prim.Native.String.{◌++◌ as ◌<>◌}
use stat_guardian.Base.{
  ℤ, leb_int, ℕ, ◌-◌, ◌^◌, String, Bool, true, false, not, ◌⊎◌, inl, inr, Option, none, some, List,
  [], ◌∷◌, ◌++◌, filter, map, ltb, leb, ◌==◌, nat_eq, string_eq, if◌then◌else◌,
}
use stat_guardian.Base.Chars.{split_text, trim_text}
use stat_guardian.Base.Affix.{
  ends_with, has_text, trim_end_matches, replace, strip_suffix_text, parse_u64,
}
use stat_guardian.Base.Sort.{sort_by}
use stat_guardian.Io.Errors.{IoError, IoResult, ok, err, ◌>>=◌}
use stat_guardian.Io.System.{System, of_read, of_io}
use stat_guardian.Io.Paths.{join}
use stat_guardian.Io.Formats.{Read, read_and_concat}

pub record DeltaAdd : Type 0 where
  pub path : String
  pub modification_time : Option ℤ

pub record DeltaRemove : Type 0 where
  pub path : String

pub record DeltaAction : Type 0 where
  pub add : Option DeltaAdd
  pub remove : Option DeltaRemove

-- A commit: its version and the path of its file.
abbrev pub Commit : Type 0
Commit = ℕ × String

-- `filter_map` over the names of the log directory
unfoldable pub commits_in : (log_dir : String) → List String → List Commit
unfolding ends_with trim_end_matches parse_u64 join
commits_in log_dir [] = []
commits_in log_dir (name ∷ names) =
    let rest = commits_in log_dir names in
    if ends_with name ".json"
    then (elim (parse_u64 (trim_end_matches name ".json")) [
      | none ↦ rest
      | some version ↦ (version, join log_dir name) ∷ rest
    ])
    else rest

-- `sort_by_key(|(v, _)| *v)`
abbrev pub sort_commits : List Commit → List Commit
sort_commits = sort_by (λ a b. compare a.0 b.0)

abbrev pub drop_empty_end : List String → List String
drop_empty_end [] = []
drop_empty_end (s ∷ []) = if s == "" then [] else s ∷ []
drop_empty_end (s ∷ t ∷ ts) = s ∷ drop_empty_end (t ∷ ts)

abbrev pub without_return : String → String
without_return s = elim (strip_suffix_text "\r" s) [ none ↦ s | some t ↦ t ]

-- `str::lines`
unfoldable pub lines_of_text : String → List String
unfolding split_text strip_suffix_text
lines_of_text s = map without_return (drop_empty_end (split_text (λ c. c == 10) s))

unfoldable pub url_decode : String → String
unfolding replace has_text
url_decode s =
    if has_text s "%" then replace (replace (replace s "%20" " ") "%3D" "=") "%2F" "/" else s

-- The file of a path of the log.
unfoldable pub full_path : (table_root path : String) → String
unfolding url_decode trim_end_matches
full_path table_root path = trim_end_matches table_root "/" <> ("/" <> url_decode path)

-- A `HashMap` from paths to files: the entry of a key is the last one that was put.
abbrev pub without : String → List (String × String) → List (String × String)
without path m = filter (λ (p, f). not (p == path)) m

abbrev pub put : String → String → List (String × String) → List (String × String)
put path file m = without path m ++ (path, file) ∷ []

abbrev pub apply_add : String → Option DeltaAdd → List (String × String) → List (String × String)
apply_add table_root none m = m
apply_add table_root (some a) m = put a.path (full_path table_root a.path) m

abbrev pub apply_remove : Option DeltaRemove → List (String × String) → List (String × String)
apply_remove none m = m
apply_remove (some r) m = without r.path m

abbrev pub apply_action : String → DeltaAction → List (String × String) → List (String × String)
apply_action table_root a m = apply_remove a.remove (apply_add table_root a.add m)

unfoldable pub replay : String → List DeltaAction → List (String × String) → List (String × String)
unfolding full_path
replay table_root [] m = m
replay table_root (a ∷ actions) m = replay table_root actions (apply_action table_root a m)

abbrev pub no_action : DeltaAction
no_action = record { add = none; remove = none }

abbrev pub or_no_action : Option DeltaAction → DeltaAction
or_no_action none = no_action
or_no_action (some a) = a

-- `unwrap_or(u64::MAX)`
abbrev pub limit_of : Option ℕ → ℕ
limit_of none = 2 ^ 64 - 1
limit_of (some version) = version

abbrev pub commits_upto : ℕ → List Commit → List Commit
commits_upto limit commits = filter (λ c. leb c.0 limit) (sort_commits commits)

module _ (sys : System) where
  abbrev pub no_log : String → IoError sys.Polars
  no_log table_path =
      IoError.read_error table_path "no _delta_log directory found — not a Delta table"

  abbrev pub read_files : String → List String → Read sys
  read_files table_path [] =
      err (IoError.read_error table_path "Delta table has no active data files")
  read_files table_path (f ∷ files) = read_and_concat sys (f ∷ files)

  -- `parse_action` is `serde_json::from_str`, which may fail.
  module _ (parse_action : String → Option DeltaAction) where
    -- The actions of the lines that are not blank.
    unfoldable pub actions_of : List String → List DeltaAction
    unfolding trim_text
    actions_of [] = []
    actions_of (line ∷ lines) =
        let rest = actions_of lines in
        if trim_text line == "" then rest else or_no_action (parse_action (trim_text line)) ∷ rest

    -- The commits are read one after the other.
    unfoldable pub read_actions : List Commit → IoResult sys.Polars (List DeltaAction)
    unfolding actions_of lines_of_text
    read_actions [] = ok []
    read_actions ((version, path) ∷ commits) = do
      content ← of_read sys path (sys.read_to_string path)
      rest ← read_actions commits
      ok (actions_of (lines_of_text content) ++ rest)

    unfoldable pub resolve_active_files :
        (log_dir table_root : String)
        → (up_to_version : Option ℕ) → IoResult sys.Polars (List String)
    unfolding commits_in read_actions replay
    resolve_active_files log_dir table_root up_to_version = do
      names ← of_read sys log_dir (sys.read_dir log_dir)
      actions ← read_actions (commits_upto (limit_of up_to_version) (commits_in log_dir names))
      ok (map (λ (p, f). f) (replay table_root actions []))

    unfoldable pub read_version : (table_path : String) → (version : Option ℕ) → Read sys
    unfolding join resolve_active_files read_and_concat
    read_version table_path version =
        let log_dir = join table_path "_delta_log" in
        if sys.exists log_dir
        then (do
          files ← resolve_active_files log_dir table_path version
          read_files table_path files)
        else err (no_log table_path)

    unfoldable pub read_latest : String → Read sys
    unfolding read_version
    read_latest table_path = read_version table_path none

    unfoldable pub read_two_versions :
        String → (reference current : ℕ) → IoResult sys.Polars (sys.Frame × sys.Frame)
    unfolding read_version
    read_two_versions table_path reference current = do
      old ← read_version table_path (some reference)
      new ← read_version table_path (some current)
      ok (old, new)

  -- `commit_time` gives the timestamp of a line with a `commitInfo` that has one.
  module _ (commit_time : String → Option ℤ) where
    unfoldable pub find_time : List String → Option ℤ
    find_time [] = none
    find_time (line ∷ lines) = elim (commit_time line) [
      | none ↦ find_time lines
      | some ts ↦ some ts
    ]

    abbrev pub text_or_empty : String ⊎ String → String
    text_or_empty (inl e) = ""
    text_or_empty (inr content) = content

    unfoldable pub time_of : Commit → Option ℤ
    unfolding find_time lines_of_text
    time_of (version, path) = find_time (lines_of_text (text_or_empty (sys.read_to_string path)))

    -- A commit without a time is included.
    abbrev pub is_later : ℤ → Option ℤ → Bool
    is_later timestamp_ms none = false
    is_later timestamp_ms (some ts) = not (leb_int ts timestamp_ms)

    unfoldable pub best_version : ℤ → List Commit → ℕ → ℕ
    unfolding time_of
    best_version timestamp_ms [] best = best
    best_version timestamp_ms (c ∷ commits) best =
        let rest = best_version timestamp_ms commits c.0 in
        if is_later timestamp_ms (time_of c) then best else rest

    unfoldable pub find_version_for_timestamp : String → ℤ → IoResult sys.Polars ℕ
    unfolding commits_in best_version
    find_version_for_timestamp log_dir timestamp_ms = do
      names ← of_io sys (sys.read_dir log_dir)
      ok (best_version timestamp_ms (sort_commits (commits_in log_dir names)) 0)

    unfoldable pub read_as_of_timestamp :
        (parse_action : String → Option DeltaAction) → String → ℤ → Read sys
    unfolding join find_version_for_timestamp read_version
    read_as_of_timestamp parse_action table_path timestamp_ms =
        let log_dir = join table_path "_delta_log" in
        if sys.exists log_dir
        then (do
          version ← find_version_for_timestamp log_dir timestamp_ms
          read_version parse_action table_path (some version))
        else err (no_log table_path)
