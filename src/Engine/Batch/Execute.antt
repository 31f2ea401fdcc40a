-- ===== src/Engine/Batch/Execute.antt =====
-- `BatchExecutor::execute` of crates/statguardian-engine/src/batch.rs, and the entry points of
-- crates/statguardian-engine/src/lib.rs on data frames.
pub mod Findings
pub mod Groups
use Prim.Native.Nat.{Ordering}
use Prim.Native.String.{compare}
use stat_guardian.Base.{
  ℕ, ◌+◌, String, Bool, true, false, ◌&&◌, Option, none, some, List, [], ◌∷◌, ◌++◌, length, ◌==◌,
  string_eq, if◌then◌else◌,
}
use stat_guardian.Base.Order.{then_with}
use stat_guardian.Base.Sort.{sort_by}
use stat_guardian.Base.DedupBy.{dedup_by}
use stat_guardian.Base.Panic.{MayPanic, returns, panics, ◌>>=◌, flat_map}
use stat_guardian.Core.Ast.{DataContract}
use stat_guardian.Core.Dag.{DagNode, ExecutionDag, node_count}
use stat_guardian.Core.Optimizer.{group_by_column}
use stat_guardian.Validators.Violation.{Violation, any_blocking}
use stat_guardian.Validators.Frame.{Floats, Library}
use stat_guardian.Validators.Schema.{validate}
use stat_guardian.Validators.Rules.{evaluate_rules, evaluate_cross_column}
use stat_guardian.Stats.Drift.{DriftResult, evaluate_drifts}
use stat_guardian.Metrics.Report.{ValidationReport, new_report}
use stat_guardian.Engine.Batch.{execute_node}

module _ {F64 : Type 0} where
  -- The closure given to `sort_by`, and the one given to `dedup_by`.
  unfoldable pub violation_cmp : Violation F64 → Violation F64 → Ordering
  violation_cmp a b = then_with (compare a.column b.column) (compare a.check b.check)

  unfoldable pub same_check : Violation F64 → Violation F64 → Bool
  same_check a b = a.column == b.column && a.check == b.check

  unfoldable pub reported : List (Violation F64) → List (Violation F64)
  unfolding violation_cmp same_check
  reported found = dedup_by same_check (sort_by violation_cmp found)

module _ {F64 : Type 0} (f : Floats F64) (l : Library F64) where
  -- The checks of one column; `abort` is set behind a blocking violation.
  unfoldable pub run_group :
      l.Frame → (abort : Bool) → List (DagNode F64) → MayPanic (List (Violation F64))
  run_group df abort [] = returns []
  run_group df true (node ∷ nodes) = returns []
  run_group df false (node ∷ nodes) = do
    vs ← execute_node f l df node
    rest ← run_group df (any_blocking vs) nodes
    returns (vs ++ rest)

  unfoldable pub run_column :
      l.Frame → String × List (DagNode F64) → MayPanic (List (Violation F64))
  unfolding run_group
  run_column df (column, nodes) = run_group df false nodes

  unfoldable pub run_plan : l.Frame → ExecutionDag F64 → MayPanic (List (Violation F64))
  unfolding run_column
  run_plan df dag = flat_map (run_column df) (group_by_column dag)

  -- What the validators and the plan find, in the order of the chain.
  unfoldable pub found_by : l.Frame → DataContract F64 → List (Violation F64) → List (Violation F64)
  found_by df contract dag_violations =
      validate f l df contract.schema
      ++ (evaluate_rules f l df contract.quality_rules
          ++ (evaluate_cross_column f l df contract.cross_column_rules ++ dag_violations))

  unfoldable pub drift_from :
      l.Frame → Option l.Frame → DataContract F64 → MayPanic (List (DriftResult F64))
  drift_from df none contract = returns []
  drift_from df (some reference) contract = evaluate_drifts f l df reference contract.stats_rules

  -- The id, the time and the duration of the report are the caller's, and so is the profile.
  module _ {Profile : Type 0} (profile : l.Frame → List Profile) (id executed_at : String)
      (duration_ms : ℕ) where
    unfoldable pub execute :
        DataContract F64
        → ExecutionDag F64
        → l.Frame
        → (reference : Option l.Frame) → MayPanic (ValidationReport F64 Profile)
    unfolding run_plan drift_from found_by reported
    execute contract dag df reference = do
      dag_violations ← run_plan df dag
      drift_results ← drift_from df reference contract
      returns (
          new_report f id executed_at contract.name (l.height df)
            (reported (found_by df contract dag_violations)) drift_results (profile df)
            (node_count dag + length contract.quality_rules) duration_ms)
