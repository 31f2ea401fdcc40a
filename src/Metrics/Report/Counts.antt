-- ===== src/Metrics/Report/Counts.antt =====
-- The summary of a report against its violations.
use stat_guardian.Base.{ℕ, ◌+◌, String, ◌≡◌, ◌↔◌, Bool, true, false, List, [], ◌∷◌, length, arith}
use stat_guardian.Core.Ast.{Severity}
use stat_guardian.Validators.Violation.{Violation, is_blocking_severity, any_blocking}
use stat_guardian.Validators.Frame.{Floats}
use stat_guardian.Stats.Drift.{DriftResult}
use stat_guardian.Metrics.Report.{is_error, is_warning, count_severity, new_report, summary}

abbrev pub is_info : Severity → Bool
is_info Severity.info = true
is_info _ = false

module _ {F64 : Type 0} where
  severities_lem :
      (vs : List (Violation F64))
      → (length vs
          ≡ count_severity is_blocking_severity vs
            + count_severity is_error vs
            + count_severity is_warning vs
            + count_severity is_info vs)
        × ((any_blocking vs ≡ false) ↔ (count_severity is_blocking_severity vs ≡ 0))
  unfolding any_blocking
  severities_lem [] = (omega arith, ground arith)
  severities_lem (v ∷ vs) = ground (arith, severities_lem vs)

  -- The summary of a new report passes exactly if it counts no blocking violation, and its counts
  -- of blocking violations, errors and warnings are all violations but those that only inform.
  new_report-summary :
      {Profile : Type 0} (f : Floats F64) (id executed_at dataset : String) (row_count : ℕ)
      (violations : List (Violation F64)) (drifts : List (DriftResult F64))
      (profiles : List Profile) (total_checks duration_ms : ℕ)
      → let s = summary f (
          new_report f id executed_at dataset row_count violations drifts profiles total_checks
            duration_ms) in
        ((s.passed ≡ true) ↔ (s.blocking_count ≡ 0))
        × (s.violation_count
            ≡ s.blocking_count
              + s.error_count
              + s.warning_count
              + count_severity is_info violations)
  unfolding summary new_report
  new_report-summary f id executed_at dataset row_count violations drifts profiles total_checks
        duration_ms =
      let (all, passes) = severities_lem violations in (ground arith, all)
