-- ===== src/Core/Optimizer.antt =====
-- crates/statguardian-core/src/compiler/optimizer.rs: the passes over the list of checks.
pub mod Nodes
pub mod Order
pub mod Groups
use Prim.Native.Nat.{compare as compare_ℕ, Ordering}
use Prim.Native.String.{compare as compare_text}
use stat_guardian.Base.{
  ℕ, String, Bool, true, false, not, Option, none, some, List, [], ◌∷◌, ◌++◌, map, filter, contains,
  string_eq, ◌==◌, eq_of_discrete, if◌then◌else◌,
}
use stat_guardian.Base.Order.{then_with}
use stat_guardian.Base.Sort.{sort_by}
use stat_guardian.Base.Dedup.{keep_new}
use stat_guardian.Core.Ast.{MetricFn, Severity}
use stat_guardian.Core.Dag
use stat_guardian.Core.Dag.{
  DagNode, null_check, quality_metric_check, column, cost, severity, DagNode-discrete, ExecutionDag,
}

abbrev pub sev_order : Severity → ℕ
sev_order Severity.blocking = 0
sev_order Severity.error = 1
sev_order Severity.warning = 2
sev_order Severity.info = 3

module _ {F64 : Type 0} where
  abbrev pub is_null_check : DagNode F64 → Bool
  is_null_check (null_check c s) = true
  is_null_check _ = false

  -- The columns with a null check, as the set `null_checked`.
  unfoldable pub null_checked : List (DagNode F64) → List String
  unfolding column
  null_checked nodes = map column (filter is_null_check nodes)

  -- Whether the filter keeps a node.
  unfoldable pub keeps : List String → DagNode F64 → Bool
  keeps checked (quality_metric_check c MetricFn.completeness op t s) = not (contains checked c)
  keeps checked _ = true

  unfoldable pub fuse_null_checks : List (DagNode F64) → List (DagNode F64)
  unfolding null_checked keeps
  fuse_null_checks nodes = filter (keeps (null_checked nodes)) nodes

  -- The closure given to `sort_by`.
  unfoldable pub node_cmp : DagNode F64 → DagNode F64 → Ordering
  unfolding column cost severity
  node_cmp a b = then_with (compare_text (column a) (column b)) (
      then_with (compare_ℕ (sev_order (severity a)) (sev_order (severity b)))
        (compare_ℕ (cost a) (cost b)))

  unfoldable pub sort_by_cost : List (DagNode F64) → List (DagNode F64)
  unfolding node_cmp
  sort_by_cost nodes = sort_by node_cmp nodes

  -- `map.entry(column).or_default().push(node)`
  unfoldable pub push_group :
      String → DagNode F64 → List (String × List (DagNode F64)) → List (String × List (DagNode F64))
  push_group c n [] = (c, n ∷ []) ∷ []
  push_group c n ((d, ns) ∷ groups) =
      if d == c then (d, ns ++ n ∷ []) ∷ groups else (d, ns) ∷ push_group c n groups

  group_nodes :
      List (DagNode F64) → List (String × List (DagNode F64)) → List (String × List (DagNode F64))
  unfolding push_group
  group_nodes [] groups = groups
  group_nodes (n ∷ ns) groups = group_nodes ns (push_group (column n) n groups)

  -- A `HashMap` as an association list.
  unfoldable pub group_by_column : ExecutionDag F64 → List (String × List (DagNode F64))
  unfolding group_nodes
  group_by_column dag = group_nodes dag.nodes []

module _ {F64 : Type 0} (F64-discrete : Discrete F64) where
  unfoldable pub deduplicate : List (DagNode F64) → List (DagNode F64)
  deduplicate nodes = keep_new ⦃e = eq_of_discrete (DagNode-discrete F64-discrete)⦄ [] nodes

  -- `stop_on_blocking` is never read.
  unfoldable pub optimize : List (DagNode F64) → ExecutionDag F64
  unfolding Dag.new
  optimize nodes = Dag.new (sort_by_cost (fuse_null_checks (deduplicate nodes)))
