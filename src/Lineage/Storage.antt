-- ===== src/Lineage/Storage.antt =====
-- crates/statguardian-lineage/src/storage.rs: versions and changes in two tables. A table is the
-- list of its rows; the statements are run as SQLite documents them. The texts of values
-- (serde_json, RFC 3339) are parameters, and so are the clock and the random part of a change's id.
pub mod RoundTrip
pub mod Versions
use Prim.Native.Nat.{compare, Ordering}
use Prim.Native.String.{◌++◌ as ◌<>◌}
use stat_guardian.Base.{
  ℕ, ◌+◌, ◌%◌, ◌^◌, String, Bool, true, false, not, ◌&&◌, ◌||◌, Option, none, some, List, [], ◌∷◌,
  ◌++◌, map, filter, take, contains, ltb, ◌==◌, nat_eq, string_eq, if◌then◌else◌,
}
use stat_guardian.Base.Sort.{sort_by}
use stat_guardian.Lineage.Model.{
  LineageGraph, LineageVersion, LineageChange, ChangeType, change_name, ChangeSeverity,
  change_severity_name,
}

pub record VersionRow : Type 0 where
  pub version_id : String
  pub warehouse_id : String
  pub version_number : ℕ
  pub timestamp : String
  pub graph_json : String
  pub schema_versions_json : String
  pub quality_scores_json : String
  pub change_severity : String
  pub created_at : String

pub record ChangeRow : Type 0 where
  pub change_id : String
  pub version_id : String
  pub change_type : String
  pub source_table : String
  pub target_table : Option String
  pub change_reason : Option String
  pub changed_at : String
  pub changed_by : Option String
  pub tables_affected_json : String
  pub severity : String
  pub propagates_schema_changes : ℕ

-- Whether SQLite enforces the foreign key is a matter of how it was built.
pub record Store : Type 0 where
  pub foreign_keys : Bool
  pub versions : List VersionRow
  pub changes : List ChangeRow

pub data DbResult {ℓ} (A : Type ℓ) : Type ℓ where
  ok : A → DbResult A
  failed : DbResult A

infixl 5 ◌>>=◌
abbrev pub ◌>>=◌ {ℓ κ} : {A : Type ℓ} {B : Type κ} → DbResult A → (A → DbResult B) → DbResult B
ok a >>= f = f a
failed >>= f = failed

-- `?` on what a library returns
abbrev pub try {ℓ} : {A : Type ℓ} → Option A → DbResult A
try none = failed
try (some a) = ok a

-- `arrange` is the order in which SQLite gives the rows of a query that names none: any.
pub record Codec (F64 : Type 0) : Type 0 where
  pub write_graph : LineageGraph → Option String
  pub read_graph : String → Option LineageGraph
  pub write_versions : List (String × ℕ) → Option String
  pub read_versions : String → Option (List (String × ℕ))
  pub write_scores : List (String × F64) → Option String
  pub read_scores : String → Option (List (String × F64))
  pub write_tables : List String → Option String
  pub read_tables : String → Option (List String)
  pub write_time : ℕ → String
  pub read_time : String → Option ℕ
  pub arrange : List ChangeRow → List ChangeRow

unfoldable pub empty_store : Bool → Store
empty_store foreign_keys = record { foreign_keys = foreign_keys; versions = []; changes = [] }

-- `PRIMARY KEY` and `UNIQUE(warehouse_id, version_number)`
unfoldable pub version_conflicts : VersionRow → VersionRow → Bool
version_conflicts new old =
    old.version_id == new.version_id
    || (old.warehouse_id == new.warehouse_id && old.version_number == new.version_number)

-- `PRIMARY KEY` and `UNIQUE(version_id, source_table, change_type)`
unfoldable pub change_conflicts : ChangeRow → ChangeRow → Bool
change_conflicts new old =
    old.change_id == new.change_id
    || (old.version_id == new.version_id
        && (old.source_table == new.source_table && old.change_type == new.change_type))

-- `FOREIGN KEY`: the version of every change is there.
refers : List VersionRow → List ChangeRow → Bool
refers versions [] = true
refers versions (c ∷ cs) =
    contains (map (λ v. v.version_id) versions) c.version_id && refers versions cs

-- The end of a statement, which takes it back where a foreign key is broken.
unfoldable pub commit : Store → DbResult Store
unfolding refers
commit store =
    if store.foreign_keys && not (refers store.versions store.changes) then failed else ok store

-- `INSERT OR REPLACE`: the rows in conflict go, and the new row comes last.
unfoldable pub insert_version : VersionRow → Store → DbResult Store
unfolding version_conflicts commit
insert_version row store = commit (record store {
  versions = filter (λ old. not (version_conflicts row old)) store.versions ++ row ∷ [];
})

unfoldable pub insert_change : ChangeRow → Store → DbResult Store
unfolding change_conflicts commit
insert_change row store = commit (record store {
  changes = filter (λ old. not (change_conflicts row old)) store.changes ++ row ∷ [];
})

unfoldable pub read_severity : String → ChangeSeverity
read_severity s =
    if s == "NONE"
    then ChangeSeverity.no_severity
    else if s == "LOW"
    then ChangeSeverity.low
    else if s == "MEDIUM"
    then ChangeSeverity.medium
    else if s == "HIGH"
    then ChangeSeverity.high
    else ChangeSeverity.no_severity

unfoldable pub read_change_type : String → ChangeType
read_change_type s =
    if s == "node_added"
    then ChangeType.node_added
    else if s == "node_removed"
    then ChangeType.node_removed
    else if s == "edge_added"
    then ChangeType.edge_added
    else if s == "edge_removed"
    then ChangeType.edge_removed
    else if s == "edge_modified"
    then ChangeType.edge_modified
    else ChangeType.node_added

abbrev pub is_row : String → ℕ → VersionRow → Bool
is_row warehouse_id version_number row =
    row.warehouse_id == warehouse_id && row.version_number == version_number

-- `query_row(..).optional()`: the first row.
abbrev pub first_row {ℓ} : {A : Type ℓ} → List A → Option A
first_row [] = none
first_row (row ∷ rows) = some row

-- `LIMIT`, where the `usize` is cast to `i32` and a negative limit is none.
unfoldable pub limited {ℓ} : {A : Type ℓ} → ℕ → List A → List A
limited limit rows = if ltb (limit % 2 ^ 32) (2 ^ 31) then take (limit % 2 ^ 32) rows else rows

-- `SELECT version_number .. WHERE warehouse_id = ? ORDER BY version_number DESC`
unfoldable pub numbers_of : String → Store → List ℕ
numbers_of warehouse_id store =
    sort_by (λ a b. compare b a)
      (map (λ row. row.version_number)
        (filter (λ row. row.warehouse_id == warehouse_id) store.versions))

unfoldable pub list_versions : String → (limit : ℕ) → Store → List ℕ
unfolding limited numbers_of
list_versions warehouse_id limit store = limited limit (numbers_of warehouse_id store)

module _ {F64 : Type 0} (codec : Codec F64) where
  unfoldable pub save_version : (created_at : String) → LineageVersion F64 → Store → DbResult Store
  unfolding insert_version change_severity_name
  save_version created_at version store = do
    graph_json ← try (codec.write_graph version.lineage_graph)
    schema_versions_json ← try (codec.write_versions version.schema_versions)
    quality_scores_json ← try (codec.write_scores version.quality_scores)
    insert_version
        (record {
          version_id = version.version_id;
          warehouse_id = version.lineage_graph.warehouse_id;
          version_number = version.version_number;
          timestamp = codec.write_time version.timestamp;
          graph_json = graph_json;
          schema_versions_json = schema_versions_json;
          quality_scores_json = quality_scores_json;
          change_severity = change_severity_name version.change_severity;
          created_at = created_at;
        })
        store

  unfoldable pub save_change : (uuid : String) → LineageChange → String → Store → DbResult Store
  unfolding insert_change change_name change_severity_name
  save_change uuid change version_id store = do
    tables_affected_json ← try (codec.write_tables change.tables_affected)
    insert_change
        (record {
          change_id = version_id <> "_" <> uuid;
          version_id = version_id;
          change_type = change_name change.change_type;
          source_table = change.source_table;
          target_table = change.target_table;
          change_reason = change.change_reason;
          changed_at = codec.write_time change.changed_at;
          changed_by = change.changed_by;
          tables_affected_json = tables_affected_json;
          severity = change_severity_name change.severity;
          propagates_schema_changes = if change.propagates_schema_changes then 1 else 0;
        })
        store

  unfoldable pub read_change : ChangeRow → DbResult LineageChange
  unfolding read_change_type read_severity
  read_change row = do
    changed_at ← try (codec.read_time row.changed_at)
    tables_affected ← try (codec.read_tables row.tables_affected_json)
    ok (record {
      change_type = read_change_type row.change_type;
      source_table = row.source_table;
      target_table = row.target_table;
      change_reason = row.change_reason;
      changed_at = changed_at;
      changed_by = row.changed_by;
      tables_affected = tables_affected;
      severity = read_severity row.severity;
      propagates_schema_changes = not (row.propagates_schema_changes == 0);
    })

  unfoldable pub read_changes : List ChangeRow → DbResult (List LineageChange)
  unfolding read_change
  read_changes [] = ok []
  read_changes (row ∷ rows) = do
    change ← read_change row
    rest ← read_changes rows
    ok (change ∷ rest)

  unfoldable pub get_changes : String → Store → DbResult (List LineageChange)
  unfolding read_changes
  get_changes version_id store =
      read_changes (codec.arrange (filter (λ row. row.version_id == version_id) store.changes))

  unfoldable pub read_version : VersionRow → Store → DbResult (LineageVersion F64)
  unfolding read_severity get_changes
  read_version row store = do
    lineage_graph ← try (codec.read_graph row.graph_json)
    schema_versions ← try (codec.read_versions row.schema_versions_json)
    quality_scores ← try (codec.read_scores row.quality_scores_json)
    timestamp ← try (codec.read_time row.timestamp)
    changes ← get_changes row.version_id store
    ok (record {
      version_id = row.version_id;
      lineage_graph = lineage_graph;
      version_number = row.version_number;
      timestamp = timestamp;
      schema_versions = schema_versions;
      quality_scores = quality_scores;
      changes_from_previous = changes;
      change_severity = read_severity row.change_severity;
    })

  unfoldable pub read_found : Option VersionRow → Store → DbResult (Option (LineageVersion F64))
  unfolding read_version
  read_found none store = ok none
  read_found (some row) store = do version ← read_version row store; ok (some version)

  unfoldable pub get_version : String → ℕ → Store → DbResult (Option (LineageVersion F64))
  unfolding read_found
  get_version warehouse_id version_number store =
      read_found (first_row (filter (is_row warehouse_id version_number) store.versions)) store

  unfoldable pub get_latest_version : String → Store → DbResult (Option (LineageVersion F64))
  unfolding get_version numbers_of
  get_latest_version warehouse_id store = elim (first_row (numbers_of warehouse_id store)) [
    | none ↦ ok none
    | some version_number ↦ get_version warehouse_id version_number store
  ]
