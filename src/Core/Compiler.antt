-- ===== src/Core/Compiler.antt =====
-- crates/statguardian-core/src/compiler/mod.rs: from a contract to an execution plan.
pub mod Coverage
pub mod Plan
use stat_guardian.Base.{
  String, ◌≡◌, Bool, true, false, ◌||◌, Option, none, some, List, [], ◌∷◌, ◌++◌, map, if◌then◌else◌,
  string_eq,
}
use mathlib.Core.Option
use stat_guardian.Base.Assoc.{get}
use stat_guardian.Core.Ast.{
  type_name, Constraint, FieldDef, Severity, QualityRule, StatsRule, AnomalyFn, AnomalyRule,
  DataContract,
}
use stat_guardian.Core.Dag.{
  DagNode, type_check, null_check, uniqueness_check, regex_check, range_check, len_check,
  enum_check, positive_check, negative_check, quality_metric_check, drift_check, outlier_detection,
  duplicate_detection, null_anomaly_detection, cardinality_check, profile, ExecutionDag,
}
use stat_guardian.Core.Optimizer.{optimize}

module _ {F64 : Type 0} where
  abbrev pub is_coerce : Constraint F64 → Bool
  is_coerce Constraint.coerce = true
  is_coerce _ = false

  -- `constraints.contains(&Constraint::Coerce)`
  unfoldable pub has_coerce : List (Constraint F64) → Bool
  has_coerce [] = false
  has_coerce (c ∷ cs) = is_coerce c || has_coerce cs

  -- The `match` on a constraint.
  unfoldable pub constraint_node : String → Constraint F64 → Option (DagNode F64)
  constraint_node col Constraint.not_null = some (null_check col Severity.error)
  constraint_node col Constraint.primary_key = some (null_check col Severity.error)
  constraint_node col Constraint.unique = some (uniqueness_check col Severity.error)
  constraint_node col Constraint.positive = some (positive_check col Severity.error)
  constraint_node col Constraint.negative = some (negative_check col Severity.error)
  constraint_node col (Constraint.regex p) = some (regex_check col p Severity.error)
  constraint_node col (Constraint.between lo hi) =
      some (range_check col (some lo) (some hi) Severity.error)
  constraint_node col (Constraint.min v) = some (range_check col (some v) none Severity.error)
  constraint_node col (Constraint.max v) = some (range_check col none (some v) Severity.error)
  constraint_node col (Constraint.len lo hi) = some (len_check col lo hi Severity.error)
  constraint_node col (Constraint.enum values) = some (enum_check col values Severity.error)
  constraint_node col Constraint.coerce = none
  constraint_node col (Constraint.foreign_key t c) = none

  unfoldable pub push_node : Option (DagNode F64) → List (DagNode F64) → List (DagNode F64)
  push_node none nodes = nodes
  push_node (some n) nodes = n ∷ nodes

  unfoldable pub constraint_nodes : String → List (Constraint F64) → List (DagNode F64)
  unfolding constraint_node
  constraint_nodes col [] = []
  constraint_nodes col (c ∷ cs) = push_node (constraint_node col c) (constraint_nodes col cs)

  -- The nodes of a field, in the order in which they are pushed.
  unfoldable pub field_nodes : FieldDef F64 → List (DagNode F64)
  field_nodes f =
      profile f.name
      ∷ type_check f.name (type_name f.data_type) (has_coerce f.constraints) Severity.blocking
      ∷ constraint_nodes f.name f.constraints

  unfoldable pub schema_nodes : List (FieldDef F64) → List (DagNode F64)
  schema_nodes [] = []
  schema_nodes (f ∷ fs) = field_nodes f ++ schema_nodes fs

  unfoldable pub quality_node : QualityRule F64 → DagNode F64
  quality_node r = quality_metric_check r.column r.metric r.op r.threshold r.severity

  unfoldable pub stats_node : StatsRule F64 → DagNode F64
  stats_node r = drift_check r.column r.stat r.op r.threshold r.severity

  unfoldable pub anomaly_check : AnomalyFn → AnomalyRule → DagNode F64
  anomaly_check AnomalyFn.detect_outliers r =
      outlier_detection r.column (Option.get_or (get "method" r.args) "iqr") r.severity
  anomaly_check AnomalyFn.detect_duplicates r = duplicate_detection r.column r.severity
  anomaly_check AnomalyFn.detect_nulls r = null_anomaly_detection r.column r.severity
  anomaly_check AnomalyFn.detect_cardinality_explosion r = cardinality_check r.column r.severity
  anomaly_check AnomalyFn.detect_pattern_breaks r =
      regex_check r.column (Option.get_or (get "pattern" r.args) "") r.severity

  unfoldable pub anomaly_node : AnomalyRule → DagNode F64
  unfolding anomaly_check get
  anomaly_node r = anomaly_check r.function r

  -- All nodes that `compile` pushes.
  unfoldable pub contract_nodes : DataContract F64 → List (DagNode F64)
  unfolding schema_nodes
  contract_nodes c =
      schema_nodes c.schema
      ++ (map quality_node c.quality_rules
          ++ (map stats_node c.stats_rules ++ map anomaly_node c.anomaly_rules))

module _ {F64 : Type 0} (F64-discrete : Discrete F64) where
  -- `compile` has no error of its own.
  unfoldable pub compile : DataContract F64 → ExecutionDag F64
  unfolding contract_nodes optimize
  compile contract = optimize F64-discrete (contract_nodes contract)
