-- ===== src/Core/Compiler/Plan.antt =====
-- The plan of a contract, said of the contract alone.
use stat_guardian.Base.{String, ◌≡◌, ◌≢◌, refl, sym, ◌↔◌, ◌⊎◌, inl, inr, ⊎_elim, some, Memᴰ}
use stat_guardian.Core.Ast.{
  Constraint, FieldDef, Severity, MetricFn, ComparisonOp, AnomalyFn, AnomalyRule, DataContract,
}
use stat_guardian.Core.Dag.{DagNode, null_check, quality_metric_check}
use stat_guardian.Core.Optimizer.Nodes.{IsFused, optimize-nodes}
use stat_guardian.Core.Compiler.{
  constraint_node, quality_node, stats_node, anomaly_node, anomaly_check, contract_nodes, compile,
}
use stat_guardian.Core.Compiler.Coverage.{
  Demands, of_field, of_type, of_constraint, of_quality, of_stats, of_anomaly, Memᴰ-contract_nodes,
}

module _ {F64 : Type 0} where
  -- The contract has a field of this name that is `not_null` or a `primary_key`.
  abbrev pub IsGuarded : DataContract F64 → String → Type 0
  IsGuarded c column =
      (f : FieldDef F64) × (k : Constraint F64) × Memᴰ f c.schema
      × (f.name ≡ column)
      × Memᴰ k f.constraints
      × ((k ≡ Constraint.not_null) ⊎ (k ≡ Constraint.primary_key))

  -- A completeness rule on such a column.
  abbrev pub IsRedundant : DataContract F64 → DagNode F64 → Type 0
  IsRedundant c n =
      (column : String) × (op : ComparisonOp) × (threshold : F64) × (s : Severity) × (n
        ≡ quality_metric_check column MetricFn.completeness op threshold s)
      × IsGuarded c column

  null_check_constraint :
      (col col' : String) (s : Severity) (k : Constraint F64)
      → constraint_node col k ≡ some (null_check col' s)
      → (col ≡ col') × ((k ≡ Constraint.not_null) ⊎ (k ≡ Constraint.primary_key))
  unfolding constraint_node
  null_check_constraint col col' s Constraint.not_null e = (cc e, inl refl)
  null_check_constraint col col' s Constraint.primary_key e = (cc e, inr refl)
  null_check_constraint col col' s _ e = absurd (cc e)

  anomaly_check-ne :
      (g : AnomalyFn) (r : AnomalyRule) (col : String) (s : Severity)
      → anomaly_check {F64 = F64} g r ≢ null_check col s
  unfolding anomaly_check
  anomaly_check-ne AnomalyFn.detect_outliers r col s e = cc e
  anomaly_check-ne _ r col s e = cc e

  -- A null check comes from a `not_null` or a `primary_key` and from nothing else.
  null_check-IsGuarded :
      (c : DataContract F64) (col : String) (s : Severity)
      → Demands c (null_check col s)
      → IsGuarded c col
  unfolding quality_node stats_node anomaly_node
  null_check-IsGuarded c col s (of_field f m e) = absurd (cc e)
  null_check-IsGuarded c col s (of_type f m e) = absurd (cc e)
  null_check-IsGuarded c col s (of_constraint f k m there e) =
      let (same, which) = null_check_constraint f.name col s k e in (f, k, m, same, there, which)
  null_check-IsGuarded c col s (of_quality r m e) = absurd (cc e)
  null_check-IsGuarded c col s (of_stats r m e) = absurd (cc e)
  null_check-IsGuarded c col s (of_anomaly r m e) =
      absurd (anomaly_check-ne r.function r col s (sym e))

  IsGuarded-null_check :
      (c : DataContract F64) (col : String)
      → IsGuarded c col
      → Demands c (null_check col Severity.error)
  unfolding constraint_node
  IsGuarded-null_check c col (f, k, m, same, there, which) =
      of_constraint f k m there (⊎_elim (λ e. rw e (rw same)) (λ e. rw e (rw same)) which)

  IsRedundant-iff :
      (c : DataContract F64) (n : DagNode F64) → IsFused (contract_nodes c) n ↔ IsRedundant c n
  IsRedundant-iff c n = (
    λ (col, op, t, s, s', e, m). (
      col,
      op,
      t,
      s,
      e,
      null_check-IsGuarded c col s' ((Memᴰ-contract_nodes c (null_check col s')).0 m),
    ),
    λ (col, op, t, s, e, g). (
      col,
      op,
      t,
      s,
      Severity.error,
      e,
      (Memᴰ-contract_nodes c (null_check col Severity.error)).1 (IsGuarded-null_check c col g),
    ),
  )

module _ {F64 : Type 0} (F64-discrete : Discrete F64) where
  -- The plan of a contract holds a check exactly if a field, a constraint or a rule of the
  -- contract asks for it and it is no completeness rule on a column that is not_null or a
  -- primary_key.
  pub compile-exact :
      (c : DataContract F64) (n : DagNode F64)
      → Memᴰ n (compile F64-discrete c).nodes ↔ (Demands c n × (¬ IsRedundant c n))
  unfolding compile
  compile-exact c n =
      let plan = optimize-nodes F64-discrete (contract_nodes c) n in
      let asked = Memᴰ-contract_nodes c n in
      let redundant = IsRedundant-iff c n in
      (
        λ m. let (put, kept) = plan.0 m in (asked.0 put, λ r. kept (redundant.1 r)),
        λ (d, needed). plan.1 (asked.1 d, λ f. needed (redundant.0 f)),
      )
