-- ===== src/Tests/Plan.antt =====
-- The compiler and the optimizer of crates/statguardian-core on a small contract. The floats are
-- numbers here.
use stat_guardian.Base.{
  ℕ, ℕ_discrete, ◌≡◌, refl, ◌↔◌, false, none, some, List, [], ◌∷◌, Memᴰ, nat_eq, string_eq,
}
use stat_guardian.Base.Sort.{AllPairs, sort_by}
use stat_guardian.Base.Dedup.{keep_new}
use stat_guardian.Core.Ast.{
  type_name, DataType, Constraint, MetricFn, ComparisonOp, Severity, DataContract,
}
use stat_guardian.Core.Dag.{
  DagNode, type_check, null_check, range_check, quality_metric_check, profile, DagNode-discrete,
}
use stat_guardian.Core.Optimizer.{sort_by_cost, fuse_null_checks, deduplicate, optimize}
use stat_guardian.Core.Optimizer.Nodes.{IsFused, optimize-nodes}
use stat_guardian.Core.Optimizer.Order.{Ranked, optimize-Ranked, optimize_idempotent}
use stat_guardian.Core.Compiler.{
  has_coerce, push_node, constraint_nodes, field_nodes, quality_node, compile,
}
use stat_guardian.Core.Compiler.Coverage.{Demands}
use stat_guardian.Core.Compiler.Plan.{IsRedundant, compile-exact}

abbrev completeness_rule : DagNode ℕ
completeness_rule =
    quality_metric_check "id" MetricFn.completeness ComparisonOp.gt 95 Severity.warning

abbrev orders : DataContract ℕ
orders = record {
  name = "orders";
  schema =
      record {
        name = "id";
        data_type = DataType.int;
        constraints = Constraint.not_null ∷ Constraint.min 1 ∷ [];
      }
      ∷ [];
  quality_rules =
      record {
        metric = MetricFn.completeness;
        column = "id";
        op = ComparisonOp.gt;
        threshold = 95;
        severity = Severity.warning;
      }
      ∷ [];
  cross_column_rules = [];
  stats_rules = [];
  anomaly_rules = [];
  stream_config = none;
}

abbrev orders_plan : List (DagNode ℕ)
orders_plan =
    type_check "id" "int" false Severity.blocking
    ∷ null_check "id" Severity.error
    ∷ range_check "id" (some 1) none Severity.error
    ∷ profile "id"
    ∷ []

compile-orders : (compile ℕ_discrete orders).nodes ≡ orders_plan
unfolding compile sort_by_cost fuse_null_checks deduplicate sort_by keep_new field_nodes
    DagNode-discrete constraint_nodes push_node quality_node type_name has_coerce
compile-orders = refl

compile-exact_example :
    Memᴰ completeness_rule (compile ℕ_discrete orders).nodes
    ↔ (Demands orders completeness_rule × (¬ IsRedundant orders completeness_rule))
compile-exact_example = compile-exact ℕ_discrete orders completeness_rule

-- A list with a node twice, two columns and a fused rule.
abbrev mixed : List (DagNode ℕ)
mixed =
    profile "id"
    ∷ null_check "id" Severity.error
    ∷ null_check "id" Severity.error
    ∷ completeness_rule
    ∷ profile "age"
    ∷ []

optimize-nodes_example :
    Memᴰ completeness_rule (optimize ℕ_discrete mixed).nodes
    ↔ (Memᴰ completeness_rule mixed × (¬ IsFused mixed completeness_rule))
optimize-nodes_example = optimize-nodes ℕ_discrete mixed completeness_rule

optimize-Ranked_example : AllPairs Ranked (optimize ℕ_discrete mixed).nodes
optimize-Ranked_example = optimize-Ranked ℕ_discrete mixed

optimize_idempotent_example :
    optimize ℕ_discrete (optimize ℕ_discrete mixed).nodes ≡ optimize ℕ_discrete mixed
optimize_idempotent_example = optimize_idempotent ℕ_discrete mixed
