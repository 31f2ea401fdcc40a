-- ===== src/Tests/Archive.antt =====
-- The store of crates/statguardian-lineage with two versions of a warehouse.
use stat_guardian.Base.{ℕ, ◌≤◌, ◌≡◌, refl, ◌⊎◌, true, false, none, some, [], ◌∷◌, string_eq}
use stat_guardian.Lineage.Model.{
  LineageGraph, LineageVersion, LineageChange, ChangeType, ChangeSeverity,
}
use stat_guardian.Lineage.Storage.{
  Store, VersionRow, ChangeRow, ok, failed, Codec, empty_store, save_version, save_change,
  insert_version, insert_change, get_changes, get_version, get_latest_version, list_versions,
}
use stat_guardian.Lineage.Storage.RoundTrip.{get_version-save_version}
use stat_guardian.Lineage.Storage.RoundTrip.Changes.{get_changes-save_change}
use mathlib.Core.List.{List, Permᴰ, reverse}
use mathlib.Core.List.Permᴰ
use stat_guardian.Lineage.Storage.Versions.{IsStored, get_latest_version-exact}

abbrev empty_graph : LineageGraph
empty_graph = record { warehouse_id = "w"; nodes = []; edges = []; timestamp = 1 }

-- Texts of the values that occur below.
abbrev codec : Codec ℕ
codec = record {
  write_graph = λ _. some "graph";
  read_graph = λ _. some empty_graph;
  write_versions = λ _. some "versions";
  read_versions = λ _. some [];
  write_scores = λ _. some "scores";
  read_scores = λ _. some [];
  write_tables = λ _. some "tables";
  read_tables = λ _. some [];
  write_time = λ _. "time";
  read_time = λ _. some 5;
  arrange = λ rows. reverse rows;
}

abbrev first : LineageVersion ℕ
first = record {
  version_id = "w__v1";
  lineage_graph = empty_graph;
  version_number = 1;
  timestamp = 5;
  schema_versions = [];
  quality_scores = [];
  changes_from_previous = [];
  change_severity = ChangeSeverity.high;
}

abbrev first_row_saved : VersionRow
first_row_saved = record {
  version_id = "w__v1";
  warehouse_id = "w";
  version_number = 1;
  timestamp = "time";
  graph_json = "graph";
  schema_versions_json = "versions";
  quality_scores_json = "scores";
  change_severity = "HIGH";
  created_at = "now";
}

abbrev one_version : Store
one_version = record { foreign_keys = true; versions = first_row_saved ∷ []; changes = [] }

save_version-first : save_version codec "now" first (empty_store true) ≡ ok one_version
unfolding save_version insert_version empty_store
save_version-first = refl

get_changes-none : (store : Store) → store.changes ≡ [] → get_changes codec "w__v1" store ≡ ok []
unfolding get_changes
get_changes-none store e = rw e refl

get_version-save_version_example : get_version codec "w" 1 one_version ≡ ok (some first)
get_version-save_version_example =
    get_version-save_version codec "now" first (empty_store true) []
      (record {
        graph = ("graph", refl, refl);
        versions = ("versions", refl, refl);
        scores = ("scores", refl, refl);
        time = refl;
      })
      (get_changes-none (empty_store true) (unfold empty_store in refl)) save_version-first

abbrev added : LineageChange
added = record {
  change_type = ChangeType.node_added;
  source_table = "orders";
  target_table = none;
  change_reason = none;
  changed_at = 5;
  changed_by = none;
  tables_affected = [];
  severity = ChangeSeverity.low;
  propagates_schema_changes = false;
}

abbrev added_row : ChangeRow
added_row = record {
  change_id = "w__v1_x";
  version_id = "w__v1";
  change_type = "node_added";
  source_table = "orders";
  target_table = none;
  change_reason = none;
  changed_at = "time";
  changed_by = none;
  tables_affected_json = "tables";
  severity = "LOW";
  propagates_schema_changes = 0;
}

abbrev one_change : Store
one_change = record one_version { changes = added_row ∷ [] }

save_change-added : save_change codec "x" added "w__v1" one_version ≡ ok one_change
unfolding save_change insert_change
save_change-added = refl

get_changes-added : get_changes codec "w__v1" one_change ≡ ok (added ∷ [])
unfolding get_changes
get_changes-added = refl

abbrev removed : LineageChange
removed = record added { change_type = ChangeType.node_removed; source_table = "items" }

abbrev removed_row : ChangeRow
removed_row = record added_row {
  change_id = "w__v1_y";
  change_type = "node_removed";
  source_table = "items";
}

abbrev two_changes : Store
two_changes = record one_version { changes = added_row ∷ removed_row ∷ [] }

save_change-removed : save_change codec "y" removed "w__v1" one_change ≡ ok two_changes
unfolding save_change insert_change
save_change-removed = refl

-- The rows come in the order opposite to that of their insertion.
get_changes-save_change_example :
    (cs : List LineageChange) × (get_changes codec "w__v1" two_changes ≡ ok cs)
    × Permᴰ (added ∷ removed ∷ []) cs
get_changes-save_change_example =
    get_changes-save_change codec "y" "w__v1" removed one_change (added ∷ [])
      (λ rows. Permᴰ.reverse rows) refl "tables" refl refl ((refl, refl), tt) get_changes-added
      save_change-removed

-- A change of a version that is not stored breaks the foreign key.
save_change-orphan : save_change codec "x" added "w__v2" one_version ≡ failed
unfolding save_change insert_change
save_change-orphan = refl

get_latest_version-exact_example :
    ((list_versions "w" 1 one_version ≡ [])
      × (get_latest_version codec "w" one_version ≡ ok none)
      × ((n : ℕ) → ¬ IsStored "w" n one_version))
    ⊎ ((latest : ℕ) × (list_versions "w" 1 one_version ≡ latest ∷ [])
        × (get_latest_version codec "w" one_version ≡ get_version codec "w" latest one_version)
        × IsStored "w" latest one_version
        × ((n : ℕ) → IsStored "w" n one_version → n ≤ latest))
get_latest_version-exact_example = get_latest_version-exact codec "w" one_version
