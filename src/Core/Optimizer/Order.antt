-- ===== src/Core/Optimizer/Order.antt =====
-- The order of the checks in a plan.
use Prim.Native.Nat.{compare as compare_ℕ}
use Prim.Native.String.{compare as compare_text}
use text.Mathlib.TextPositions.{compare_refl}
use stat_guardian.Base.{
  ℕ, ◌≤◌, String, ◌≡◌, refl, sym, ap, ◌∙◌, true, List, [], ◌∷◌, filter, filter_all, eq_of_discrete,
  string_eq, ◌==◌, ◌&&◌, nat_eq, arith,
}
use stat_guardian.Base.Order.{
  IsOrder, IsOrder-nat, IsOrder-text, IsOrder-on, IsOrder-then_with, is_le,
}
use stat_guardian.Base.Sort.{
  AllPairs, IsSorted, sort_by-IsSorted, filter-sort_by, sort_by_of_IsSorted,
}
use text.Mathlib.TextEquality.{eq_iff}
use stat_guardian.Base.Distinct.{filter-IsDistinct, sort_by-IsDistinct}
use stat_guardian.Base.Dedup.{All-imp, IsDistinct, keep_new-IsDistinct, keep_new_of_IsDistinct}
use stat_guardian.Core.Dag
use stat_guardian.Core.Dag.{
  DagNode, null_check, column, cost, severity, DagNode-discrete, ExecutionDag,
}
use stat_guardian.Core.Optimizer.{
  sev_order, null_checked, keeps, fuse_null_checks, node_cmp, sort_by_cost, deduplicate, optimize,
}
use stat_guardian.Core.Optimizer.Nodes.{keeps_iff, optimize-nodes}

module _ {F64 : Type 0} where
  IsOrder-node_cmp : IsOrder (node_cmp {F64 = F64})
  unfolding node_cmp
  IsOrder-node_cmp = IsOrder-then_with _ _ (IsOrder-on column compare_text IsOrder-text) (
      IsOrder-then_with _ _ (IsOrder-on (λ n. sev_order (severity n)) compare_ℕ IsOrder-nat)
        (IsOrder-on cost compare_ℕ IsOrder-nat))

  -- What may stand before what: columns ascend, within a column the graver checks come first, and
  -- of equally grave ones the cheaper.
  pub record Ranked (a b : DagNode F64) : Type 0 where
    pub columns : is_le (compare_text (column a) (column b)) ≡ true
    pub graver : column a ≡ column b → sev_order (severity a) ≤ sev_order (severity b)
    pub cheaper : column a ≡ column b → severity a ≡ severity b → cost a ≤ cost b

  Ranked-of_le : (a b : DagNode F64) → is_le (node_cmp a b) ≡ true → Ranked a b
  unfolding node_cmp
  Ranked-of_le a b h = record {
    columns = ground arith;
    graver =
        λ same. ground (arith, compare_refl (column b), ap (compare_text (column a)) (sym same));
    cheaper = λ same equal. ground (
      arith,
      compare_refl (column a),
      ap (compare_text (column a)) (sym same),
      ap sev_order equal,
    );
  }

  AllPairs-Ranked : (nodes : List (DagNode F64)) → IsSorted node_cmp nodes → AllPairs Ranked nodes
  AllPairs-Ranked [] s = tt
  AllPairs-Ranked (n ∷ ns) s = (All-imp ns (Ranked-of_le n) s.0, AllPairs-Ranked ns s.1)

  le_of_alike :
      (a b : DagNode F64)
      → column a ≡ column b
      → sev_order (severity a) ≡ sev_order (severity b)
      → cost a ≡ cost b
      → is_le (node_cmp a b) ≡ true
  unfolding node_cmp
  le_of_alike a b same grade price =
      ground (arith, compare_refl (column a), ap (compare_text (column a)) (sym same))

  -- The checks of one column, severity and cost keep in the sorted plan the order that they had.
  sort_by_cost-stable :
      (c : String) (grade price : ℕ) (nodes : List (DagNode F64))
      → let alike = λ (n : DagNode F64).
        column n == c && sev_order (severity n) == grade && cost n == price in
        filter alike (sort_by_cost nodes) ≡ filter alike nodes
  unfolding sort_by_cost
  sort_by_cost-stable c grade price nodes =
      filter-sort_by node_cmp _ nodes
        (λ a b ha hb. ground (arith, eq_iff (column a) c, eq_iff (column b) c, le_of_alike a b))

module _ {F64 : Type 0} (F64-discrete : Discrete F64) (nodes : List (DagNode F64)) where
  plan-IsSorted : IsSorted node_cmp (optimize F64-discrete nodes).nodes
  unfolding optimize sort_by_cost
  plan-IsSorted = sort_by-IsSorted node_cmp IsOrder-node_cmp _

  -- In a plan, of any two checks the earlier one has the smaller or same column; in one column the
  -- graver checks come first, and of equally grave ones the cheaper.
  pub optimize-Ranked : AllPairs Ranked (optimize F64-discrete nodes).nodes
  optimize-Ranked = AllPairs-Ranked _ plan-IsSorted

  -- No check stands twice in a plan.
  optimize-IsDistinct :
      IsDistinct ⦃e = eq_of_discrete (DagNode-discrete F64-discrete)⦄
        (optimize F64-discrete nodes).nodes
  unfolding optimize sort_by_cost fuse_null_checks deduplicate
  optimize-IsDistinct =
      let instance e = eq_of_discrete (DagNode-discrete F64-discrete) in
      sort_by-IsDistinct node_cmp _ (filter-IsDistinct _ _ (keep_new-IsDistinct [] nodes))

  fuse_again :
      fuse_null_checks (optimize F64-discrete nodes).nodes ≡ (optimize F64-discrete nodes).nodes
  unfolding fuse_null_checks
  fuse_again =
      let plan = (optimize F64-discrete nodes).nodes in
      filter_all (keeps (null_checked plan)) plan (λ n m.
        (keeps_iff plan n).1 (λ (c, op, t, s, s', e, there).
          ((optimize-nodes F64-discrete nodes n).0 m).1 (
            c,
            op,
            t,
            s,
            s',
            e,
            ((optimize-nodes F64-discrete nodes (null_check c s')).0 there).0,
          )))

  -- Running the optimizer on the checks of its own plan gives the same plan.
  pub optimize_idempotent :
      optimize F64-discrete (optimize F64-discrete nodes).nodes ≡ optimize F64-discrete nodes
  unfolding optimize deduplicate sort_by_cost
  optimize_idempotent =
      let instance e = eq_of_discrete (DagNode-discrete F64-discrete) in
      let plan = (optimize F64-discrete nodes).nodes in
      ap (λ ns. Dag.new (sort_by_cost (fuse_null_checks ns)))
        (keep_new_of_IsDistinct [] plan optimize-IsDistinct (λ _ _. refl))
      ∙ ap (λ ns. Dag.new (sort_by_cost ns)) fuse_again
      ∙ ap Dag.new (sort_by_of_IsSorted node_cmp plan plan-IsSorted)
