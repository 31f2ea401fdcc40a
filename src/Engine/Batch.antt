-- ===== src/Engine/Batch.antt =====
-- crates/statguardian-engine/src/batch.rs: the checks of a plan and the report of a run.
pub mod Outliers
pub mod Execute
use Prim.Native.Nat.{max}
use Prim.Native.String.{◌++◌ as ◌<>◌}
use stat_guardian.Base.{
  ℕ, ◌+◌, ◌-◌, String, Bool, true, false, not, ◌&&◌, ◌||◌, ◌⊎◌, inl, inr, Option, none, some, List,
  [], ◌∷◌, length, ltb, ◌==◌, nat_eq, string_eq, contains, decimal, if◌then◌else◌,
}
use stat_guardian.Base.Panic.{MayPanic, returns, panics, ◌>>=◌}
use stat_guardian.Core.Ast.{QualityRule, Severity}
use stat_guardian.Core.Dag.{
  DagNode, type_check, null_check, uniqueness_check, regex_check, range_check, len_check,
  enum_check, positive_check, negative_check, quality_metric_check, drift_check, outlier_detection,
  duplicate_detection, null_anomaly_detection, cardinality_check, profile,
}
use stat_guardian.Validators.Violation.{Violation, new_violation, with_rows, with_values}
use stat_guardian.Validators.Frame.{Floats, Library}
use stat_guardian.Validators.Schema.{check_rows, byte_len, unwrap_or}
use stat_guardian.Validators.Rules.{evaluate_rules}
use stat_guardian.Engine.Batch.Outliers.{detect_outliers}

abbrev is_below : {F64 : Type 0} → (F64 → F64 → Bool) → F64 → Option F64 → Bool
is_below lt x none = false
is_below lt x (some m) = lt x m

abbrev is_above : {F64 : Type 0} → (F64 → F64 → Bool) → F64 → Option F64 → Bool
is_above lt x none = false
is_above lt x (some m) = lt m x

module _ {F64 : Type 0} (f : Floats F64) (l : Library F64) where
  open f use {ops, literal, of_count, mul_f64, div_f64, show_f64}
  open ops use {lt_f64, le_f64}

  -- The arms of the `match` on a node, for a column that is there.
  unfoldable pub null_check_on : String → Severity → l.Series → List (Violation F64)
  null_check_on column severity s =
      let n = l.null_count s in
      if ltb 0 n
      then with_values (of_count n) (literal "0.0") (
          new_violation column "null_check" (decimal n <> " null(s) in '" <> column <> "'")
            severity)
        ∷ []
      else []

  unfoldable pub uniqueness_check_on : String → Severity → l.Series → List (Violation F64)
  uniqueness_check_on column severity s =
      let n_total = l.series_len s in
      let n_unique = unwrap_or n_total (l.n_unique s) in
      if n_unique == n_total
      then []
      else with_values (of_count n_unique) (of_count n_total) (
          new_violation column "uniqueness"
            (decimal (n_total - n_unique) <> " duplicate(s) in '" <> column <> "'") severity)
        ∷ []

  unfoldable pub regex_check_on :
      (column pattern : String) → Severity → l.Series → List (Violation F64)
  regex_check_on column pattern severity s = elim (l.compile_pattern pattern) [
    | inl e ↦
        new_violation column "regex" ("invalid regex '" <> pattern <> "': " <> e) severity ∷ []
    | inr re ↦
        check_rows column "regex" (λ n. decimal n <> " value(s) don't match '" <> pattern <> "'")
          severity (λ t. not (l.is_match re t)) (l.texts s)
  ]

  unfoldable pub range_check_on :
      String → (min max : Option F64) → Severity → l.Series → List (Violation F64)
  range_check_on column min max severity s =
      check_rows column "range_check"
        (λ n. decimal n <> " value(s) out of range in '" <> column <> "'") severity
        (λ x. is_below lt_f64 x min || is_above lt_f64 x max) (l.floats s)

  unfoldable pub len_check_on : String → (min max : ℕ) → Severity → l.Series → List (Violation F64)
  len_check_on column min max severity s =
      check_rows column "len_check"
        (λ n. decimal n <> " value(s) with invalid length in '" <> column <> "'") severity
        (λ t. ltb (byte_len t) min || ltb max (byte_len t)) (l.texts s)

  unfoldable pub enum_check_on : String → List String → Severity → l.Series → List (Violation F64)
  enum_check_on column allowed severity s =
      check_rows column "enum_check"
        (λ n. decimal n <> " value(s) not in allowed set in '" <> column <> "'") severity
        (λ t. not (contains allowed t)) (l.texts s)

  unfoldable pub positive_check_on : String → Severity → l.Series → List (Violation F64)
  positive_check_on column severity s =
      check_rows column "positive_check"
        (λ n. decimal n <> " non-positive value(s) in '" <> column <> "'") severity
        (λ x. le_f64 x (literal "0.0")) (l.floats s)

  unfoldable pub negative_check_on : String → Severity → l.Series → List (Violation F64)
  negative_check_on column severity s =
      check_rows column "negative_check"
        (λ n. decimal n <> " non-negative value(s) in '" <> column <> "'") severity
        (λ x. le_f64 (literal "0.0") x) (l.floats s)

  unfoldable pub duplicate_detection_on : String → Severity → l.Series → List (Violation F64)
  duplicate_detection_on column severity s =
      let n_total = l.series_len s in
      let n_unique = unwrap_or n_total (l.n_unique s) in
      if ltb n_unique n_total
      then new_violation column "duplicate_detection"
          (decimal (n_total - n_unique) <> " duplicate(s) in '" <> column <> "'") severity
        ∷ []
      else []

  unfoldable pub null_anomaly_on : String → Severity → l.Series → List (Violation F64)
  null_anomaly_on column severity s =
      let null_rate = div_f64 (of_count (l.null_count s)) (of_count (max (l.series_len s) 1)) in
      let percent = show_f64 ".2" (mul_f64 null_rate (literal "100.0")) in
      if lt_f64 (literal "0.0") null_rate
      then with_values null_rate (literal "0.0") (
          new_violation column "null_anomaly" ("null rate " <> percent <> "% in '" <> column <> "'")
            severity)
        ∷ []
      else []

  unfoldable pub cardinality_check_on : String → Severity → l.Series → List (Violation F64)
  cardinality_check_on column severity s =
      let n_unique = unwrap_or 0 (l.n_unique s) in
      let n_total = l.series_len s in
      if ltb 100 n_total && lt_f64 (literal "0.95") (div_f64 (of_count n_unique) (of_count n_total))
      then new_violation column "cardinality_check"
          ("high cardinality in '"
            <> column
            <> "': "
            <> decimal n_unique
            <> "/"
            <> decimal n_total
            <> " unique")
          severity
        ∷ []
      else []

  -- `get_series`, and nothing where the column is not there.
  unfoldable pub on_column :
      l.Frame → String → (l.Series → List (Violation F64)) → MayPanic (List (Violation F64))
  on_column df column check = elim (l.column df column) [
    | none ↦ returns []
    | some s ↦ returns (check s)
  ]

  unfoldable pub execute_node : l.Frame → DagNode F64 → MayPanic (List (Violation F64))
  unfolding on_column
  execute_node df (profile c) = returns []
  execute_node df (type_check c t coerce s) = returns []
  execute_node df (null_check c s) = on_column df c (null_check_on c s)
  execute_node df (uniqueness_check c s) = on_column df c (uniqueness_check_on c s)
  execute_node df (regex_check c p s) = on_column df c (regex_check_on c p s)
  execute_node df (range_check c min max s) = on_column df c (range_check_on c min max s)
  execute_node df (len_check c min max s) = on_column df c (len_check_on c min max s)
  execute_node df (enum_check c allowed s) = on_column df c (enum_check_on c allowed s)
  execute_node df (positive_check c s) = on_column df c (positive_check_on c s)
  execute_node df (negative_check c s) = on_column df c (negative_check_on c s)
  execute_node df (quality_metric_check c m op t s) = returns (
      evaluate_rules f l df
        (record { metric = m; column = c; op = op; threshold = t; severity = s } ∷ []))
  execute_node df (drift_check c st op t s) = returns []
  execute_node df (outlier_detection c method s) = detect_outliers f l c method s df
  execute_node df (duplicate_detection c s) = on_column df c (duplicate_detection_on c s)
  execute_node df (null_anomaly_detection c s) = on_column df c (null_anomaly_on c s)
  execute_node df (cardinality_check c s) = on_column df c (cardinality_check_on c s)
