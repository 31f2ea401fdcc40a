-- ===== src/Lineage/Storage/RoundTrip.antt =====
-- What was saved is what is read.
pub mod Changes
use text.Mathlib.TextEquality.{eq_iff}
use Prim.Native.String.{◌++◌ as ◌<>◌}
use stat_guardian.Base.Sort.{All}
use stat_guardian.Base.{
  String, ◌≡◌, refl, Bool, true, false, not, ◌&&◌, some, List, [], ◌∷◌, ◌++◌, filter, ◌==◌, nat_eq,
  string_eq, if◌then◌else◌, arith,
}
use stat_guardian.Lineage.Model.{
  LineageVersion, LineageChange, ChangeType, change_name, ChangeSeverity, change_severity_name,
}
use stat_guardian.Lineage.Storage.{
  VersionRow, ChangeRow, Store, DbResult, ok, failed, ◌>>=◌, Codec, version_conflicts,
  change_conflicts, commit, insert_version, insert_change, read_severity, read_change_type, is_row,
  save_version, save_change, read_change, read_changes, get_changes, read_version, read_found,
  get_version,
}

read_severity-name : (s : ChangeSeverity) → read_severity (change_severity_name s) ≡ s
unfolding read_severity change_severity_name
read_severity-name ChangeSeverity.no_severity = refl
read_severity-name ChangeSeverity.low = refl
read_severity-name ChangeSeverity.medium = refl
read_severity-name ChangeSeverity.high = refl

read_change_type-name : (t : ChangeType) → read_change_type (change_name t) ≡ t
unfolding read_change_type change_name
read_change_type-name ChangeType.node_added = refl
read_change_type-name ChangeType.node_removed = refl
read_change_type-name ChangeType.edge_added = refl
read_change_type-name ChangeType.edge_removed = refl
read_change_type-name ChangeType.edge_modified = refl

-- `as i32` and `!= 0`
flag_read : (b : Bool) → not (nat_eq.is_same (if b then 1 else 0) 0) ≡ b
flag_read true = refl
flag_read false = refl

commit-ok : (s : Store) {t : Store} → commit s ≡ ok t → t ≡ s
unfolding commit
commit-ok s h = ground arith

-- Of the rows that are left, none is at the place of the new one.
filter-replaced :
    (row : VersionRow) (rows : List VersionRow)
    → filter
        (is_row row.warehouse_id row.version_number)
        (filter (λ old. not (version_conflicts row old)) rows ++ row ∷ [])
      ≡ row ∷ []
unfolding version_conflicts
filter-replaced row [] = ground (
  arith,
  eq_iff row.warehouse_id row.warehouse_id,
  nat_eq.is_same_iff row.version_number row.version_number,
)
filter-replaced row (old ∷ rows) = ground (arith, filter-replaced row rows)

insert_version-ok :
    (row : VersionRow) (store : Store) {store' : Store}
    → insert_version row store ≡ ok store'
    → store' ≡ record store {
      versions = filter (λ old. not (version_conflicts row old)) store.versions ++ row ∷ [];
    }
unfolding insert_version
insert_version-ok row store saved = commit-ok _ saved

insert_change-ok :
    (row : ChangeRow) (store : Store) {store' : Store}
    → insert_change row store ≡ ok store'
    → store' ≡ record store {
      changes = filter (λ old. not (change_conflicts row old)) store.changes ++ row ∷ [];
    }
unfolding insert_change
insert_change-ok row store saved = commit-ok _ saved

-- Inversion of a bind that succeeds.
>>=-ok {ℓ κ} :
    {A : Type ℓ} {B : Type κ} (m : DbResult A) (f : A → DbResult B) {b : B}
    → (m >>= f) ≡ ok b
    → (a : A) × (m ≡ ok a) × (f a ≡ ok b)
>>=-ok (ok a) f h = (a, refl, h)
>>=-ok failed f h = cc h

-- Neither the id of a change nor its place in the version is taken.
abbrev IsFresh : (change_id version_id : String) → LineageChange → ChangeRow → Type 0
IsFresh change_id version_id change old =
    ((old.change_id == change_id) ≡ false)
    × ((old.version_id == version_id
          && (old.source_table == change.source_table
              && old.change_type == change_name change.change_type))
        ≡ false)

filter-fresh :
    (row : ChangeRow) (change : LineageChange) (rows : List ChangeRow)
    → row.source_table ≡ change.source_table
    → row.change_type ≡ change_name change.change_type
    → All (IsFresh row.change_id row.version_id change) rows
    → filter (λ old. not (change_conflicts row old)) rows ≡ rows
unfolding change_conflicts
filter-fresh row change [] source kind fresh = refl
filter-fresh row change (old ∷ rows) source kind fresh =
    ground (arith, filter-fresh row change rows source kind fresh.1)

filter-appended :
    (row : ChangeRow) (rows : List ChangeRow)
    → filter (λ c. c.version_id == row.version_id) (rows ++ row ∷ [])
      ≡ filter (λ c. c.version_id == row.version_id) rows ++ row ∷ []
filter-appended row [] = ground (arith, eq_iff row.version_id row.version_id)
filter-appended row (old ∷ rows) = ground (arith, filter-appended row rows)

module _ {F64 : Type 0} (codec : Codec F64) where
  -- The texts of the parts of a version can be written and read back.
  pub record IsReadable (v : LineageVersion F64) : Type 0 where
    pub graph :
        (s : String) × (codec.write_graph v.lineage_graph ≡ some s)
        × (codec.read_graph s ≡ some v.lineage_graph)
    pub versions :
        (s : String) × (codec.write_versions v.schema_versions ≡ some s)
        × (codec.read_versions s ≡ some v.schema_versions)
    pub scores :
        (s : String) × (codec.write_scores v.quality_scores ≡ some s)
        × (codec.read_scores s ≡ some v.quality_scores)
    pub time : codec.read_time (codec.write_time v.timestamp) ≡ some v.timestamp

  -- Rows are read in a store with the same changes.
  read_found-row :
      (row : VersionRow) (store : Store) (rows : List VersionRow) (v : LineageVersion F64)
      (cs : List LineageChange)
      → row.version_id ≡ v.version_id
      → row.version_number ≡ v.version_number
      → row.change_severity ≡ change_severity_name v.change_severity
      → codec.read_graph row.graph_json ≡ some v.lineage_graph
      → codec.read_versions row.schema_versions_json ≡ some v.schema_versions
      → codec.read_scores row.quality_scores_json ≡ some v.quality_scores
      → codec.read_time row.timestamp ≡ some v.timestamp
      → get_changes codec v.version_id store ≡ ok cs
      → read_found codec (some row) (record store { versions = rows })
        ≡ ok (some (record v { changes_from_previous = cs }))
  unfolding read_found read_version get_changes
  read_found-row row store rows v cs id number severity gr nr qr tr found =
      rw (gr, nr, qr, tr, id, found) (rw (number, severity) (rw read_severity-name refl))

  -- A version whose texts can be read back and that was saved is found under its warehouse and
  -- number as it was, but with the changes that are stored for its id.
  pub get_version-save_version :
      (created_at : String) (v : LineageVersion F64) (store : Store) (cs : List LineageChange)
      {store' : Store}
      → IsReadable v
      → get_changes codec v.version_id store ≡ ok cs
      → save_version codec created_at v store ≡ ok store'
      → get_version codec v.lineage_graph.warehouse_id v.version_number store'
        ≡ ok (some (record v { changes_from_previous = cs }))
  unfolding save_version get_version
  get_version-save_version created_at v store cs {store'} readable found saved =
      let (g, gw, gr) = readable.graph in
      let (n, nw, nr) = readable.versions in
      let (q, qw, qr) = readable.scores in
      let row : VersionRow = record {
        version_id = v.version_id;
        warehouse_id = v.lineage_graph.warehouse_id;
        version_number = v.version_number;
        timestamp = codec.write_time v.timestamp;
        graph_json = g;
        schema_versions_json = n;
        quality_scores_json = q;
        change_severity = change_severity_name v.change_severity;
        created_at = created_at;
      } in
      let rows = filter (λ old. not (version_conflicts row old)) store.versions ++ row ∷ [] in
      let e = insert_version-ok row store (rw (gw, nw, qw) at saved) in
      rw e (
        rw (filter-replaced row store.versions)
          (read_found-row row store rows v cs refl refl refl gr nr qr readable.time found))

  read_changes-append :
      (rows rows' : List ChangeRow) (cs cs' : List LineageChange)
      → read_changes codec rows ≡ ok cs
      → read_changes codec rows' ≡ ok cs'
      → read_changes codec (rows ++ rows') ≡ ok (cs ++ cs')
  unfolding read_changes
  read_changes-append [] rows' cs cs' h h' = let e : cs ≡ [] = cc h in rw e h'
  read_changes-append (row ∷ rows) rows' cs cs' h h' =
      let (c, one, rest) =
        >>=-ok (read_change codec row) (λ c. read_changes codec rows >>= λ r. ok (c ∷ r)) h in
      let (ds, others, both) = >>=-ok (read_changes codec rows) (λ r. ok (c ∷ r)) rest in
      let e : cs ≡ c ∷ ds = cc both in
      rw (one, ◌>>=◌) (rw (read_changes-append rows rows' ds cs' others h', ◌>>=◌) (rw e refl))

  read_changes_single :
      (row : ChangeRow) (change : LineageChange)
      → row.change_type ≡ change_name change.change_type
      → row.source_table ≡ change.source_table
      → row.target_table ≡ change.target_table
      → row.change_reason ≡ change.change_reason
      → row.changed_by ≡ change.changed_by
      → row.severity ≡ change_severity_name change.severity
      → row.propagates_schema_changes ≡ (if change.propagates_schema_changes then 1 else 0)
      → codec.read_time row.changed_at ≡ some change.changed_at
      → codec.read_tables row.tables_affected_json ≡ some change.tables_affected
      → read_changes codec (row ∷ []) ≡ ok (change ∷ [])
  unfolding read_changes read_change
  read_changes_single row change kind source target reason author severity flag time tables =
      rw (time, tables)
        (rw (kind, source, target, reason, author, severity, flag)
          (rw (read_change_type-name, read_severity-name)
            (rw (flag_read change.propagates_schema_changes) refl)))
