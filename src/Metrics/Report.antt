-- ===== src/Metrics/Report.antt =====
-- crates/statguardian-metrics/src/report.rs: the health score, the report and its summary. The
-- random id and the time of a report are arguments; its JSON text is left out.
pub mod Counts
use Prim.Native.Nat.{max}
use Prim.Native.String.{◌++◌ as ◌<>◌}
use stat_guardian.Base.{
  ℕ, ◌+◌, String, Bool, true, false, not, Option, none, some, List, [], ◌∷◌, length, filter,
  decimal, if◌then◌else◌,
}
use stat_guardian.Core.Ast.{Severity}
use stat_guardian.Validators.Violation.{Violation, is_blocking_severity, any_blocking}
use stat_guardian.Validators.Frame.{Floats}
use stat_guardian.Stats.Drift.{DriftResult}

abbrev pub is_error : Severity → Bool
is_error Severity.error = true
is_error _ = false

abbrev pub is_warning : Severity → Bool
is_warning Severity.warning = true
is_warning _ = false

module _ {F64 : Type 0} where
  -- `violations.iter().filter(|v| v.severity == ..).count()`
  abbrev pub count_severity : (Severity → Bool) → List (Violation F64) → ℕ
  count_severity test vs = length (filter (λ v. test v.severity) vs)

  -- `drift_results.iter().filter(|r| !r.passed).count()`
  abbrev pub count_failing : List (DriftResult F64) → ℕ
  count_failing rs = length (filter (λ r. not r.passed) rs)

pub record DatasetHealthScore (F64 : Type 0) : Type 0 where
  pub score : F64
  pub schema_score : F64
  pub quality_score : F64
  pub drift_score : F64
  pub grade : String

-- `profile` is what is kept of a column's profile, which no method reads.
pub record ValidationReport (F64 Profile : Type 0) : Type 0 where
  pub id : String
  pub dataset : String
  pub executed_at : String
  pub duration_ms : ℕ
  pub row_count : ℕ
  pub violations : List (Violation F64)
  pub drift_results : List (DriftResult F64)
  pub column_profiles : List Profile
  pub health : DatasetHealthScore F64
  pub passed : Bool

pub record ExecutionSummary (F64 : Type 0) : Type 0 where
  pub dataset : String
  pub passed : Bool
  pub health_score : F64
  pub grade : String
  pub row_count : ℕ
  pub violation_count : ℕ
  pub blocking_count : ℕ
  pub error_count : ℕ
  pub warning_count : ℕ
  pub drift_failing : ℕ
  pub duration_ms : ℕ

-- One metric of the text exposition format: its help, its type and its value.
unfoldable pub exposed : (name help kind labels value : String) → String
exposed name help kind labels value =
    "# HELP " <> name <> " " <> help <> "\n# TYPE " <> name <> " " <> kind <> "\n" <> name <> "{"
    <> labels <> "} " <> value <> "\n"

module _ {F64 : Type 0} (f : Floats F64) where
  open f use {ops, literal, of_count, add_f64, mul_f64, div_f64, min_f64, show_f64}
  open ops use {lt_f64, le_f64, sub_f64}

  -- `f64::clamp`
  unfoldable pub clamp : F64 → F64 → F64 → F64
  clamp x lo hi =
      let raised = if lt_f64 x lo then lo else x in if lt_f64 hi raised then hi else raised

  unfoldable pub grade_of : F64 → String
  grade_of s =
      if le_f64 (literal "0.95") s
      then "A"
      else if le_f64 (literal "0.85") s
      then "B"
      else if le_f64 (literal "0.70") s
      then "C"
      else if le_f64 (literal "0.50") s
      then "D"
      else "F"

  unfoldable pub penalty_of : List (Violation F64) → (total_checks : ℕ) → F64
  penalty_of violations total_checks =
      let blocking = of_count (count_severity is_blocking_severity violations) in
      let errors = of_count (count_severity is_error violations) in
      let warnings = of_count (count_severity is_warning violations) in
      div_f64
        (add_f64 (add_f64 (mul_f64 blocking (literal "1.0")) (mul_f64 errors (literal "0.5")))
          (mul_f64 warnings (literal "0.1")))
        (of_count (max total_checks 1))

  unfoldable pub drift_score_of : List (DriftResult F64) → F64
  drift_score_of [] = literal "1.0"
  drift_score_of (r ∷ rs) =
      sub_f64 (literal "1.0")
        (div_f64 (of_count (count_failing (r ∷ rs))) (of_count (length (r ∷ rs))))

  -- `DatasetHealthScore::compute`
  unfoldable pub compute :
      List (Violation F64) → List (DriftResult F64) → (total_checks : ℕ) → DatasetHealthScore F64
  unfolding clamp grade_of penalty_of drift_score_of
  compute violations drift_results total_checks =
      let schema_score =
        sub_f64 (literal "1.0") (min_f64 (penalty_of violations total_checks) (literal "1.0")) in
      let drift_score = drift_score_of drift_results in
      let score =
        clamp (add_f64 (mul_f64 schema_score (literal "0.7")) (mul_f64 drift_score (literal "0.3")))
          (literal "0.0") (literal "1.0") in
      record {
        score = score;
        schema_score = schema_score;
        quality_score = schema_score;
        drift_score = drift_score;
        grade = grade_of score;
      }

  unfoldable pub exposed_drift : (dataset : String) → DriftResult F64 → String
  exposed_drift dataset drift =
      let dlabels = "dataset=\"" <> dataset <> "\",column=\"" <> drift.column <> "\"" in
      "statguard_drift{"
      <> dlabels
      <> ",stat=\""
      <> drift.stat
      <> "\"} "
      <> show_f64 ".6" drift.drift
      <> "\n"
      <> (elim drift.psi [
        | none ↦ ""
        | some psi ↦ "statguard_psi{" <> dlabels <> "} " <> show_f64 ".6" psi <> "\n"
      ])

  unfoldable pub exposed_drifts : (dataset : String) → List (DriftResult F64) → String
  unfolding exposed_drift
  exposed_drifts dataset [] = ""
  exposed_drifts dataset (r ∷ rs) = exposed_drift dataset r <> exposed_drifts dataset rs

  module _ {Profile : Type 0} where
    -- `ValidationReport::new`
    unfoldable pub new_report :
        (id executed_at dataset : String)
        → (row_count : ℕ) → List (Violation F64)
        → List (DriftResult F64)
        → List Profile
        → (total_checks duration_ms : ℕ) → ValidationReport F64 Profile
    unfolding compute any_blocking
    new_report id executed_at dataset row_count violations drifts profiles total_checks
          duration_ms =
        record {
          id = id;
          dataset = dataset;
          executed_at = executed_at;
          duration_ms = duration_ms;
          row_count = row_count;
          violations = violations;
          drift_results = drifts;
          column_profiles = profiles;
          health = compute violations drifts total_checks;
          passed = not (any_blocking violations);
        }

    unfoldable pub summary : ValidationReport F64 Profile → ExecutionSummary F64
    summary report = record {
      dataset = report.dataset;
      passed = report.passed;
      health_score = report.health.score;
      grade = report.health.grade;
      row_count = report.row_count;
      violation_count = length report.violations;
      blocking_count = count_severity is_blocking_severity report.violations;
      error_count = count_severity is_error report.violations;
      warning_count = count_severity is_warning report.violations;
      drift_failing = count_failing report.drift_results;
      duration_ms = report.duration_ms;
    }

    unfoldable pub to_prometheus : ValidationReport F64 Profile → String
    unfolding exposed exposed_drifts
    to_prometheus report =
        let labels = "dataset=\"" <> report.dataset <> "\"" in
        exposed "statguard_health_score" "Dataset health score (0–1)" "gauge" labels
          (show_f64 ".4" report.health.score)
        <> exposed "statguard_violations_total" "Total violations" "counter" labels
            (decimal (length report.violations))
        <> exposed "statguard_row_count" "Rows processed" "gauge" labels (decimal report.row_count)
        <> exposed "statguard_execution_ms" "Execution time in milliseconds" "gauge" labels
            (decimal report.duration_ms)
        <> exposed_drifts report.dataset report.drift_results

  -- `Display for ExecutionSummary`
  unfoldable pub show_summary : ExecutionSummary F64 → String
  show_summary s =
      "[StatGuard] "
      <> (if s.passed then "PASS ✓" else "FAIL ✗")
      <> " | dataset="
      <> s.dataset
      <> " | score="
      <> show_f64 ".2" s.health_score
      <> " ("
      <> s.grade
      <> ") | rows="
      <> decimal s.row_count
      <> " | violations="
      <> decimal s.violation_count
      <> " (blocking="
      <> decimal s.blocking_count
      <> ", errors="
      <> decimal s.error_count
      <> ", warnings="
      <> decimal s.warning_count
      <> ") | drift_failing="
      <> decimal s.drift_failing
      <> " | "
      <> decimal s.duration_ms
      <> "ms"
