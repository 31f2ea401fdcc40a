-- ===== src/Engine/Batch/Execute/Findings.antt =====
-- What a report keeps of all that was found.
use Prim.Native.Nat.{Ordering}
use Prim.Native.String.{compare}
use text.Mathlib.TextPositions.{compare_refl}
use text.Mathlib.TextEquality.{eq_iff, path_by_compare}
use stat_guardian.Base.{
  ℕ, ◌+◌, String, ◌≡◌, refl, sym, ap, ◌∙◌, ◌↔◌, Bool, true, false, not, ◌&&◌, Option, List, [], ◌∷◌,
  length, filter, take, ◌==◌, string_eq, arith,
}
use stat_guardian.Base.Order.{IsOrder, IsOrder-text, IsOrder-on, IsOrder-then_with, is_le}
use stat_guardian.Base.Sort.{All, sort_by, IsSorted, sort_by-IsSorted, filter-sort_by}
use stat_guardian.Base.DedupBy.{dedup_by-IsSorted, filter-dedup_by}
use stat_guardian.Base.Panic.{returns, ◌>>=◌}
use stat_guardian.Core.Ast.{DataContract}
use stat_guardian.Core.Dag.{ExecutionDag, node_count}
use stat_guardian.Validators.Violation.{Violation, is_blocking, any_blocking}
use stat_guardian.Validators.Frame.{Floats, Library}
use stat_guardian.Stats.Drift.{DriftResult}
use stat_guardian.Metrics.Report.{ValidationReport, new_report}
use stat_guardian.Engine.Batch.Execute.{
  violation_cmp, same_check, reported, run_plan, found_by, drift_from, execute,
}

compare-eq_iff : (s t : String) → (compare s t ≡ Ordering.eq) ↔ ((s == t) ≡ true)
compare-eq_iff s t = (
  λ h. (eq_iff s t).1 (path_by_compare s t h),
  λ h. ap (compare s) (sym ((eq_iff s t).0 h)) ∙ compare_refl s,
)

module _ {F64 : Type 0} where
  -- A violation of the check on the column.
  abbrev pub is_of : String → String → Violation F64 → Bool
  is_of column check v = v.column == column && v.check == check

  IsOrder-violation_cmp : IsOrder {A = Violation F64} violation_cmp
  unfolding violation_cmp
  IsOrder-violation_cmp =
      IsOrder-then_with _ _ (IsOrder-on (λ (v : Violation F64). v.column) compare IsOrder-text)
        (IsOrder-on (λ (v : Violation F64). v.check) compare IsOrder-text)

  same_check_iff :
      (a b : Violation F64) → (same_check a b ≡ true) ↔ (violation_cmp a b ≡ Ordering.eq)
  unfolding same_check violation_cmp
  same_check_iff a b =
      ground (arith, compare-eq_iff a.column b.column, compare-eq_iff a.check b.check)

  is_of_one :
      (column check : String) (a b : Violation F64)
      → is_of column check a ≡ true
      → (is_of column check b ≡ true) ↔ (violation_cmp a b ≡ Ordering.eq)
  unfolding same_check
  is_of_one column check a b h = ground (
    arith,
    same_check_iff a b,
    eq_iff a.column column,
    eq_iff a.check check,
    eq_iff b.column column,
    eq_iff b.check check,
    eq_iff a.column b.column,
    eq_iff a.check b.check,
  )

  any_blocking-none :
      (vs : List (Violation F64))
      → (not (any_blocking vs) ≡ true) ↔ All (λ v. is_blocking v ≡ false) vs
  unfolding any_blocking
  any_blocking-none [] = (λ _. tt, λ _. refl)
  any_blocking-none (v ∷ vs) = ground (arith, any_blocking-none vs)

  -- Of each check of a column only what was found first is kept, and the kept are in order.
  reported-exact :
      (found : List (Violation F64))
      → IsSorted violation_cmp (reported found)
        × ((column check : String)
            → filter (is_of column check) (reported found)
              ≡ take 1 (filter (is_of column check) found))
  unfolding reported
  reported-exact found =
      let sorted = sort_by-IsSorted violation_cmp IsOrder-violation_cmp found in
      (
        dedup_by-IsSorted same_check violation_cmp IsOrder-violation_cmp same_check_iff
            (sort_by violation_cmp found) sorted,
        λ column check.
            filter-dedup_by same_check violation_cmp IsOrder-violation_cmp same_check_iff
              (is_of column check) (is_of_one column check) (sort_by violation_cmp found) sorted
            ∙ ap (take 1) (
                filter-sort_by violation_cmp (is_of column check) found
                  (λ x y p q. ap is_le ((is_of_one column check x y p).0 q))),
      )

module _ {F64 Profile : Type 0} (f : Floats F64) (l : Library F64)
    (profile : l.Frame → List Profile) (id executed_at : String) (duration_ms : ℕ) where
  -- Where the plan and the drift rules give their results, execute ends with a report that holds
  -- its violations by column and check, and of each check of a column exactly the first one found,
  -- in the order of schema, quality rules, cross-column rules and plan; it passes exactly if none
  -- that it holds is blocking.
  pub execute-exact :
      (contract : DataContract F64) (dag : ExecutionDag F64) (df : l.Frame)
      (reference : Option l.Frame) (dag_violations : List (Violation F64))
      (drifts : List (DriftResult F64))
      → run_plan f l df dag ≡ returns dag_violations
      → drift_from f l df reference contract ≡ returns drifts
      → (report : ValidationReport F64 Profile) × (execute f l profile id executed_at duration_ms
            contract dag df reference
          ≡ returns report)
        × IsSorted violation_cmp report.violations
        × ((column check : String)
            → filter (is_of column check) report.violations
              ≡ take 1 (filter (is_of column check) (found_by f l df contract dag_violations)))
        × ((report.passed ≡ true) ↔ All (λ v. is_blocking v ≡ false) report.violations)
  unfolding execute new_report
  execute-exact contract dag df reference dag_violations drifts planned drifted =
      let found = found_by f l df contract dag_violations in
      let (sorted, firsts) = reported-exact found in
      (
        new_report f id executed_at contract.name (l.height df) (reported found) drifts (profile df)
            (node_count dag + length contract.quality_rules) duration_ms,
        rw (planned, ◌>>=◌) (rw (drifted, ◌>>=◌) refl),
        sorted,
        firsts,
        any_blocking-none (reported found),
      )
