-- ===== src/Core/Dag.antt =====
-- crates/statguardian-core/src/compiler/dag.rs: the checks of a plan.
pub mod Columns
use stat_guardian.Base.{
  ℕ, String, Bool, Option, List, [], ◌∷◌, ◌==◌, string_eq, string_discrete, ℕ_discrete, length, map,
  if◌then◌else◌,
}
use stat_guardian.Base.Sort.{sort_by}
use stat_guardian.Base.Dedup.{dedup}
use Prim.Native.String.{compare}
use stat_guardian.Core.Ast.{MetricFn, ComparisonOp, StatFn, Severity}

pub data DagNode (F64 : Type 0) : Type 0 where
  type_check :
      (column expected_type : String) → (coerce : Bool) → (severity : Severity) → DagNode F64
  null_check uniqueness_check : (column : String) → (severity : Severity) → DagNode F64
  regex_check : (column pattern : String) → (severity : Severity) → DagNode F64
  range_check : (column : String) → (min max : Option F64) → (severity : Severity) → DagNode F64
  len_check : (column : String) → (min max : ℕ) → (severity : Severity) → DagNode F64
  enum_check : (column : String) → (allowed : List String) → (severity : Severity) → DagNode F64
  positive_check negative_check : (column : String) → (severity : Severity) → DagNode F64
  quality_metric_check :
      (column : String)
      → (metric : MetricFn) → (op : ComparisonOp) → (threshold : F64) → (severity : Severity)
      → DagNode F64
  drift_check :
      (column : String)
      → (stat : StatFn) → (op : ComparisonOp) → (threshold : F64) → (severity : Severity)
      → DagNode F64
  outlier_detection : (column method : String) → (severity : Severity) → DagNode F64
  duplicate_detection null_anomaly_detection cardinality_check :
      (column : String) → (severity : Severity) → DagNode F64
  profile : (column : String) → DagNode F64

module _ {F64 : Type 0} where
  unfoldable pub column : DagNode F64 → String
  column (type_check c t coerce s) = c
  column (null_check c s) = c
  column (uniqueness_check c s) = c
  column (regex_check c p s) = c
  column (range_check c min max s) = c
  column (len_check c min max s) = c
  column (enum_check c allowed s) = c
  column (positive_check c s) = c
  column (negative_check c s) = c
  column (quality_metric_check c m op t s) = c
  column (drift_check c st op t s) = c
  column (outlier_detection c m s) = c
  column (duplicate_detection c s) = c
  column (null_anomaly_detection c s) = c
  column (cardinality_check c s) = c
  column (profile c) = c

  unfoldable pub cost : DagNode F64 → ℕ
  cost (type_check c t coerce s) = 1
  cost (null_check c s) = 1
  cost (positive_check c s) = 2
  cost (negative_check c s) = 2
  cost (range_check c min max s) = 2
  cost (len_check c min max s) = 2
  cost (enum_check c allowed s) = 3
  cost (regex_check c p s) = 4
  cost (uniqueness_check c s) = 5
  cost (quality_metric_check c m op t s) = 5
  cost (profile c) = 6
  cost (cardinality_check c s) = 6
  cost (drift_check c st op t s) = 7
  cost (outlier_detection c m s) = 8
  cost (duplicate_detection c s) = 8
  cost (null_anomaly_detection c s) = 3

  unfoldable pub severity : DagNode F64 → Severity
  severity (type_check c t coerce s) = s
  severity (null_check c s) = s
  severity (uniqueness_check c s) = s
  severity (regex_check c p s) = s
  severity (range_check c min max s) = s
  severity (len_check c min max s) = s
  severity (enum_check c allowed s) = s
  severity (positive_check c s) = s
  severity (negative_check c s) = s
  severity (quality_metric_check c m op t s) = s
  severity (drift_check c st op t s) = s
  severity (outlier_detection c m s) = s
  severity (duplicate_detection c s) = s
  severity (null_anomaly_detection c s) = s
  severity (cardinality_check c s) = s
  severity (profile c) = Severity.info

-- Nodes are compared by their `Debug` text, which shows every field.
unfoldable pub DagNode-discrete : {F64 : Type 0} → Discrete F64 → Discrete (DagNode F64)
DagNode-discrete d = hlevel (d, string_discrete, ℕ_discrete)

pub record ExecutionDag (F64 : Type 0) : Type 0 where
  pub nodes : List (DagNode F64)
  pub referenced_columns : List String

module _ {F64 : Type 0} where
  -- `collect`, `sort`, `dedup`
  unfoldable pub new : List (DagNode F64) → ExecutionDag F64
  unfolding column
  new nodes = record {
    nodes = nodes;
    referenced_columns = dedup (sort_by compare (map column nodes));
  }

  unfoldable pub node_count : ExecutionDag F64 → ℕ
  node_count dag = length dag.nodes
