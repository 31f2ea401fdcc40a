-- ===== src/Core/Optimizer/Nodes.antt =====
-- Which checks the optimizer keeps.
use mathlib.Core.List.Memᴰ
use stat_guardian.Base.{
  String, ◌≡◌, refl, sym, ap, ◌∙◌, ◌↔◌, inl, inr, true, List, [], Memᴰ, map, filter, contains,
  contains_iff, Memᴰ-filter, eq_of_discrete, string_eq, arith, Bool-cases,
}
use mathlib.Core.Bool.{false≢true}
use stat_guardian.Base.Sort.{Memᴰ-sort_by}
use stat_guardian.Base.Dedup.{Memᴰ-keep_new}
use stat_guardian.Core.Ast.{MetricFn, ComparisonOp, Severity}
use stat_guardian.Core.Dag.{DagNode, null_check, quality_metric_check, column, DagNode-discrete}
use stat_guardian.Core.Optimizer.{
  is_null_check, null_checked, keeps, fuse_null_checks, node_cmp, sort_by_cost, deduplicate,
  optimize,
}

module _ {F64 : Type 0} where
  -- A completeness rule on a column that has a null check.
  abbrev pub IsFused : List (DagNode F64) → DagNode F64 → Type 0
  IsFused nodes n =
      (c : String) × (op : ComparisonOp) × (threshold : F64) × (s s' : Severity) × (n
        ≡ quality_metric_check c MetricFn.completeness op threshold s)
      × Memᴰ (null_check c s') nodes

  null_check_of :
      (n : DagNode F64) → is_null_check n ≡ true → (s : Severity) × (n ≡ null_check (column n) s)
  unfolding column
  null_check_of (null_check c s) h = (s, refl)
  null_check_of _ h = cc

  null_checked_iff :
      (nodes : List (DagNode F64)) (c : String)
      → (contains (null_checked nodes) c ≡ true) ↔ ((s : Severity) × Memᴰ (null_check c s) nodes)
  unfolding null_checked
  null_checked_iff nodes c =
      let checked = map column (filter is_null_check nodes) in
      (
        λ h.
            let (n, m, e) =
              Memᴰ.of_map column (filter is_null_check nodes) ((contains_iff checked c).0 h) in
            let (m', is) = (Memᴰ-filter is_null_check n nodes).0 m in
            let (s, e') = null_check_of n is in
            (s, Memᴰ.cast (sym (e' ∙ ap (λ d. null_check d s) e)) m'),
        λ (s, m).
            (contains_iff checked c).1
              (Memᴰ.map column ((Memᴰ-filter is_null_check (null_check c s) nodes).1 (m, refl))),
      )

  pub keeps_iff :
      (nodes : List (DagNode F64)) (n : DagNode F64)
      → (keeps (null_checked nodes) n ≡ true) ↔ (¬ IsFused nodes n)
  unfolding keeps
  keeps_iff nodes (quality_metric_check c MetricFn.completeness op t s) = (
    λ h (c', op', t', s₁, s', e, m).
        let same : c ≡ c' = cc e in
        let there = (null_checked_iff nodes c).1 (s', rw same m) in false≢true (rw there at h),
    λ kept. elim (Bool-cases (contains (null_checked nodes) c)) [
      | inl there ↦
          let (s', m) = (null_checked_iff nodes c).0 there in
          absurd (kept (c, op, t, s, s', refl, m))
      | inr absent ↦ rw absent
    ],
  )
  keeps_iff nodes _ = (λ h f. cc (f.5), λ _. refl)

module _ {F64 : Type 0} (F64-discrete : Discrete F64) where
  Memᴰ-deduplicate :
      (n : DagNode F64) (nodes : List (DagNode F64))
      → Memᴰ n (deduplicate F64-discrete nodes) ↔ Memᴰ n nodes
  unfolding deduplicate
  Memᴰ-deduplicate n nodes =
      let instance e = eq_of_discrete (DagNode-discrete F64-discrete) in
      ground (arith, Memᴰ-keep_new n [] nodes)

  IsFused-deduplicate :
      (nodes : List (DagNode F64)) (n : DagNode F64)
      → IsFused (deduplicate F64-discrete nodes) n ↔ IsFused nodes n
  IsFused-deduplicate nodes n = (
    λ (c, op, t, s, s', e, m). (c, op, t, s, s', e, (Memᴰ-deduplicate (null_check c s') nodes).0 m),
    λ (c, op, t, s, s', e, m). (c, op, t, s, s', e, (Memᴰ-deduplicate (null_check c s') nodes).1 m),
  )

  -- The optimizer's plan holds a check exactly if it was put in and is no completeness rule on a
  -- column that has a null check.
  pub optimize-nodes :
      (nodes : List (DagNode F64)) (n : DagNode F64)
      → Memᴰ n (optimize F64-discrete nodes).nodes ↔ (Memᴰ n nodes × (¬ IsFused nodes n))
  unfolding optimize fuse_null_checks sort_by_cost
  optimize-nodes nodes n =
      let unique = deduplicate F64-discrete nodes in
      let fused = Memᴰ-filter (keeps (null_checked unique)) n unique in
      let sorted = Memᴰ-sort_by node_cmp n (fuse_null_checks unique) in
      let (to, back) = keeps_iff unique n in
      let (drop_new, add_new) = IsFused-deduplicate nodes n in
      let (old, new) = Memᴰ-deduplicate n nodes in
      (
        λ m. let (m', k) = fused.0 (sorted.0 m) in (old m', λ f. to k (add_new f)),
        λ (m, nf). sorted.1 (fused.1 (new m, back (λ f. nf (drop_new f)))),
      )
