-- ===== src/Validators/Rules.antt =====
-- crates/statguardian-validators/src/rules.rs: quality metrics and rules across columns.
pub mod Rows
use Prim.Native.String.{◌++◌ as ◌<>◌}
use stat_guardian.Base.{
  ℕ, zero, suc, ◌+◌, ◌-◌, String, Bool, true, false, not, ◌&&◌, Option, none, some, List, [], ◌∷◌,
  ◌++◌, length, ltb, ◌==◌, nat_eq, decimal, if◌then◌else◌,
}
use stat_guardian.Core.Ast.{
  MetricFn, ComparisonOp, evaluate, evaluate_str, evaluate_bool, op_symbol, LiteralValue,
  QualityRule, CrossColumnRule, Severity,
}
use stat_guardian.Validators.Violation.{Violation, new_violation, with_values}
use stat_guardian.Validators.Frame.{Floats, Library, value_at}
use stat_guardian.Validators.Schema.{rows_violation}

unfoldable pub metric_name : MetricFn → String
metric_name MetricFn.completeness = "completeness"
metric_name MetricFn.uniqueness = "uniqueness"
metric_name MetricFn.validity = "validity"
metric_name MetricFn.consistency = "consistency"
metric_name MetricFn.freshness = "freshness"
metric_name MetricFn.non_null_rate = "non_null_rate"

-- The test of the value in a row, if the series has values of the type and this one is no null.
abbrev pub holds_at : {A : Type 0} → (A → Bool) → Option (List (Option A)) → ℕ → Bool
holds_at test none idx = false
holds_at test (some vs) idx = elim (value_at vs idx) [ none ↦ false | some v ↦ test v ]

module _ {F64 : Type 0} (f : Floats F64) (l : Library F64) where
  open f use {ops, literal, of_count, div_f64, show_f64}
  open ops use {sub_f64}

  -- `1.0 - series.null_count() as f64 / n`
  abbrev pub non_null_rate : l.Series → F64 → F64
  non_null_rate series n = sub_f64 (literal "1.0") (div_f64 (of_count (l.null_count series)) n)

  abbrev pub unique_rate : l.Series → F64 → Option F64
  unique_rate series n = elim (l.n_unique series) [
    | none ↦ none
    | some n_unique ↦ some (div_f64 (of_count n_unique) n)
  ]

  abbrev pub metric_of : l.Series → F64 → MetricFn → Option F64
  metric_of series n MetricFn.completeness = some (non_null_rate series n)
  metric_of series n MetricFn.non_null_rate = some (non_null_rate series n)
  metric_of series n MetricFn.uniqueness = unique_rate series n
  metric_of series n MetricFn.validity =
      some (div_f64 (sub_f64 n (of_count (l.null_count series))) n)
  metric_of series n MetricFn.consistency = unique_rate series n
  metric_of series n MetricFn.freshness = some (non_null_rate series n)

  -- `n == 0.0`, where `n` is the length as `f64`, is that the length is zero.
  unfoldable pub compute_metric : l.Series → MetricFn → Option F64
  compute_metric series metric =
      if l.series_len series == 0
      then some (literal "0.0")
      else metric_of series (of_count (l.series_len series)) metric

  unfoldable pub metric_violation : QualityRule F64 → F64 → Violation F64
  metric_violation rule observed = with_values observed rule.threshold (
      new_violation rule.column (metric_name rule.metric)
        ("quality check failed: "
          <> metric_name rule.metric
          <> "("
          <> rule.column
          <> ") = "
          <> show_f64 ".4" observed
          <> " "
          <> op_symbol rule.op
          <> " "
          <> show_f64 ".4" rule.threshold)
        rule.severity)

  unfoldable pub evaluate_metric : l.Series → QualityRule F64 → List (Violation F64)
  unfolding compute_metric metric_violation
  evaluate_metric series rule = elim (compute_metric series rule.metric) [
    | none ↦ []
    | some observed ↦
        if evaluate ops rule.op observed rule.threshold
        then []
        else metric_violation rule observed ∷ []
  ]

  unfoldable pub evaluate_rule : l.Frame → QualityRule F64 → List (Violation F64)
  unfolding evaluate_metric
  evaluate_rule df rule = elim (l.column df rule.column) [
    | none ↦
        new_violation rule.column "quality_check" ("column '" <> rule.column <> "' not found")
          Severity.blocking
        ∷ []
    | some series ↦ evaluate_metric series rule
  ]

  -- `RuleEngine::evaluate`
  unfoldable pub evaluate_rules : l.Frame → List (QualityRule F64) → List (Violation F64)
  unfolding evaluate_rule
  evaluate_rules df [] = []
  evaluate_rules df (rule ∷ rules) = evaluate_rule df rule ++ evaluate_rules df rules

  unfoldable pub row_matches : l.Series → ℕ → ComparisonOp → LiteralValue F64 → Bool
  row_matches series idx op (LiteralValue.number n) =
      holds_at (λ v. evaluate ops op v n) (l.floats series) idx
  row_matches series idx op (LiteralValue.str s) =
      holds_at (λ v. evaluate_str op v s) (l.texts series) idx
  row_matches series idx op (LiteralValue.bool b) =
      holds_at (λ v. evaluate_bool op v b) (l.bools series) idx

  unfoldable pub row_fails : (when_series assert_series : l.Series) → CrossColumnRule F64 → ℕ → Bool
  unfolding row_matches
  row_fails when_series assert_series rule i =
      row_matches when_series i rule.when_op rule.when_value
      && not (row_matches assert_series i rule.assert_op rule.assert_value)

  -- `for i in 0..n`, from `i` on with `n` rows left.
  unfoldable pub failing_rows :
      (when_series assert_series : l.Series) → CrossColumnRule F64 → (i n : ℕ) → List ℕ
  unfolding row_fails
  failing_rows when_series assert_series rule i zero = []
  failing_rows when_series assert_series rule i (suc n) =
      let rest = failing_rows when_series assert_series rule (suc i) n in
      if row_fails when_series assert_series rule i then i ∷ rest else rest

  -- `Display` of a literal.
  unfoldable pub show_literal : LiteralValue F64 → String
  show_literal (LiteralValue.number n) = show_f64 "" n
  show_literal (LiteralValue.str s) = "\"" <> s <> "\""
  show_literal (LiteralValue.bool true) = "true"
  show_literal (LiteralValue.bool false) = "false"

  unfoldable pub rule_message : CrossColumnRule F64 → ℕ → String
  unfolding show_literal
  rule_message rule n =
      decimal n
      <> " row(s) violate: assert "
      <> rule.assert_column
      <> " "
      <> op_symbol rule.assert_op
      <> " "
      <> show_literal rule.assert_value
      <> " when "
      <> rule.when_column
      <> " "
      <> op_symbol rule.when_op
      <> " "
      <> show_literal rule.when_value

  unfoldable pub missing_column :
      (kind column : String) → CrossColumnRule F64 → List (Violation F64)
  missing_column kind column rule =
      new_violation rule.assert_column "cross_column_rule"
        (kind <> " column '" <> column <> "' not found") rule.severity
      ∷ []

  unfoldable pub evaluate_rows :
      l.Frame → (when_series assert_series : l.Series) → CrossColumnRule F64 → List (Violation F64)
  unfolding failing_rows rule_message
  evaluate_rows df when_series assert_series rule =
      rows_violation rule.assert_column "cross_column_rule" (rule_message rule) rule.severity
        (failing_rows when_series assert_series rule 0 (l.height df))

  unfoldable pub evaluate_cross_column_rule : l.Frame → CrossColumnRule F64 → List (Violation F64)
  unfolding missing_column evaluate_rows
  evaluate_cross_column_rule df rule = elim (l.column df rule.when_column) [
    | none ↦ missing_column "condition" rule.when_column rule
    | some when_series ↦ elim (l.column df rule.assert_column) [
      | none ↦ missing_column "assertion" rule.assert_column rule
      | some assert_series ↦ evaluate_rows df when_series assert_series rule
    ]
  ]

  unfoldable pub evaluate_cross_column : l.Frame → List (CrossColumnRule F64) → List (Violation F64)
  unfolding evaluate_cross_column_rule
  evaluate_cross_column df [] = []
  evaluate_cross_column df (rule ∷ rules) =
      evaluate_cross_column_rule df rule ++ evaluate_cross_column df rules
