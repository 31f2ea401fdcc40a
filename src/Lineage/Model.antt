-- ===== src/Lineage/Model.antt =====
-- crates/statguardian-lineage/src/model.rs: the lineage graph. A `DateTime` is a number; `now` is
-- what `Utc::now()` gives.
pub mod Impact
use Prim.Native.String.{◌++◌ as ◌<>◌}
use stat_guardian.Base.{
  ℤ, ℕ, zero, suc, ◌+◌, String, ◌≡◌, Bool, true, false, Option, none, some, List, [], ◌∷◌, ◌++◌,
  length, map, filter, ◌==◌, string_eq, contains, decimal, if◌then◌else◌,
}
use stat_guardian.Base.Assoc.{get, insert}

pub record LineageNode : Type 0 where
  pub node_id : String
  pub table_id : String
  pub stage : String
  pub version : ℕ
  pub warehouse : String
  pub database : String
  pub schema_name : String
  pub table_name : String
  pub transformation_sql : Option String
  pub transformation_name : Option String
  pub description : Option String
  pub owner : Option String
  pub created_at : ℕ
  pub last_accessed : Option ℕ
  pub columns : List String
  pub row_count : Option ℤ

unfoldable pub new_node :
    (now : ℕ)
    → (table_id stage : String) → (version : ℕ)
    → (warehouse database schema_name table_name : String) → LineageNode
unfolding decimal
new_node now table_id stage version warehouse database schema_name table_name = record {
  node_id = table_id <> "__" <> stage <> "__" <> decimal version;
  table_id = table_id;
  stage = stage;
  version = version;
  warehouse = warehouse;
  database = database;
  schema_name = schema_name;
  table_name = table_name;
  transformation_sql = none;
  transformation_name = none;
  description = none;
  owner = none;
  created_at = now;
  last_accessed = none;
  columns = [];
  row_count = none;
}

unfoldable pub qualified_name : LineageNode → String
qualified_name n = n.database <> "." <> n.schema_name <> "." <> n.table_name

unfoldable pub cache_key : LineageNode → String
unfolding decimal
cache_key n = n.table_id <> ":" <> n.stage <> ":v" <> decimal n.version

pub record LineageEdge : Type 0 where
  pub edge_id : String
  pub source_node_id : String
  pub target_node_id : String
  pub join_type : Option String
  pub columns_used : List String
  pub filter_condition : Option String
  pub version : ℕ
  pub created_at : ℕ
  pub last_modified : Option ℕ
  pub modification_reason : Option String

unfoldable pub new_edge : (now : ℕ) → (source_node_id target_node_id : String) → LineageEdge
new_edge now source_node_id target_node_id = record {
  edge_id = source_node_id <> "__" <> target_node_id;
  source_node_id = source_node_id;
  target_node_id = target_node_id;
  join_type = none;
  columns_used = [];
  filter_condition = none;
  version = 1;
  created_at = now;
  last_modified = none;
  modification_reason = none;
}

-- `nodes` is an `IndexMap`: an association list.
pub record LineageGraph : Type 0 where
  pub warehouse_id : String
  pub timestamp : ℕ
  pub nodes : List (String × LineageNode)
  pub edges : List LineageEdge

unfoldable pub new_graph : (now : ℕ) → String → LineageGraph
new_graph now warehouse_id = record {
  warehouse_id = warehouse_id;
  timestamp = now;
  nodes = [];
  edges = [];
}

unfoldable pub add_node : LineageNode → LineageGraph → LineageGraph
add_node node g = record g { nodes = insert node.node_id node g.nodes }

unfoldable pub add_edge : LineageEdge → LineageGraph → LineageGraph
add_edge edge g = record g { edges = g.edges ++ edge ∷ [] }

unfoldable pub get_upstream : LineageGraph → String → List String
get_upstream g target_node_id =
    map (λ (e : LineageEdge). e.source_node_id)
      (filter (λ e. e.target_node_id == target_node_id) g.edges)

unfoldable pub get_downstream : LineageGraph → String → List String
get_downstream g source_node_id =
    map (λ (e : LineageEdge). e.target_node_id)
      (filter (λ e. e.source_node_id == source_node_id) g.edges)

-- The inner loop of `get_impact_chain`. The head of the list is the end of `queue`.
unfoldable pub push_unvisited : List String → List String → List String → List String
push_unvisited visited [] queue = queue
push_unvisited visited (d ∷ ds) queue =
    push_unvisited visited ds (if contains visited d then queue else d ∷ queue)

-- The outer loop; `none` means that the fuel ran out.
unfoldable pub impact_loop :
    ℕ → LineageGraph → (queue visited affected : List String) → Option (List String)
impact_loop zero g queue visited affected = none
impact_loop (suc fuel) g [] visited affected = some affected
impact_loop (suc fuel) g (current ∷ queue) visited affected = elim (contains visited current) [
  | true ↦ impact_loop fuel g queue visited affected
  | false ↦
      let visited' = current ∷ visited in
      impact_loop fuel g (push_unvisited visited' (get_downstream g current) queue) visited'
        (affected ++ current ∷ [])
]

-- Every edge is followed at most once.
unfoldable pub get_impact_chain : LineageGraph → String → Option (List String)
unfolding impact_loop
get_impact_chain g target_node_id = impact_loop (length g.edges + 2) g (target_node_id ∷ []) [] []

unfoldable pub get_node : LineageGraph → String → Option LineageNode
get_node g node_id = get node_id g.nodes

unfoldable pub size : LineageGraph → ℕ × ℕ
size g = (length g.nodes, length g.edges)

pub data ChangeType : Type 0 where
  node_added node_removed edge_added edge_removed edge_modified : ChangeType

-- `Display`
unfoldable pub change_name : ChangeType → String
change_name ChangeType.node_added = "node_added"
change_name ChangeType.node_removed = "node_removed"
change_name ChangeType.edge_added = "edge_added"
change_name ChangeType.edge_removed = "edge_removed"
change_name ChangeType.edge_modified = "edge_modified"

-- `ChangeSeverity::None` is `no_severity`.
pub data ChangeSeverity : Type 0 where
  no_severity low medium high : ChangeSeverity

-- `Display`
unfoldable pub change_severity_name : ChangeSeverity → String
change_severity_name ChangeSeverity.no_severity = "NONE"
change_severity_name ChangeSeverity.low = "LOW"
change_severity_name ChangeSeverity.medium = "MEDIUM"
change_severity_name ChangeSeverity.high = "HIGH"

pub record LineageChange : Type 0 where
  pub change_type : ChangeType
  pub source_table : String
  pub target_table : Option String
  pub change_reason : Option String
  pub changed_at : ℕ
  pub changed_by : Option String
  pub tables_affected : List String
  pub severity : ChangeSeverity
  pub propagates_schema_changes : Bool

unfoldable pub new_change : (now : ℕ) → ChangeType → String → ChangeSeverity → LineageChange
new_change now change_type source_table severity = record {
  change_type = change_type;
  source_table = source_table;
  target_table = none;
  change_reason = none;
  changed_at = now;
  changed_by = none;
  tables_affected = [];
  severity = severity;
  propagates_schema_changes = false;
}

pub record LineageVersion (F64 : Type 0) : Type 0 where
  pub version_id : String
  pub lineage_graph : LineageGraph
  pub version_number : ℕ
  pub timestamp : ℕ
  pub schema_versions : List (String × ℕ)
  pub quality_scores : List (String × F64)
  pub changes_from_previous : List LineageChange
  pub change_severity : ChangeSeverity

unfoldable pub new_version :
    {F64 : Type 0} → (now : ℕ) → String → ℕ → LineageGraph → LineageVersion F64
unfolding decimal
new_version now warehouse_id version_number lineage_graph = record {
  version_id = warehouse_id <> "__v" <> decimal version_number;
  lineage_graph = lineage_graph;
  version_number = version_number;
  timestamp = now;
  schema_versions = [];
  quality_scores = [];
  changes_from_previous = [];
  change_severity = ChangeSeverity.no_severity;
}
