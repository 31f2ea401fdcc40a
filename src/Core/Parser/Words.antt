-- ===== src/Core/Parser/Words.antt =====
-- crates/statguardian-core/src/parser/mod.rs: the words and literals of the language.
use Prim.Native.Char.{code}
use Prim.Native.String.{◌++◌ as ◌<>◌}
use stat_guardian.Base.{
  ℕ, String, Bool, true, false, Option, none, some, ◌==◌, nat_eq, string_eq, if◌then◌else◌,
}
use stat_guardian.Core.Ast.{
  DataType, MetricFn, ComparisonOp, Severity, default_severity, StatFn, AnomalyFn, LiteralValue,
}
use stat_guardian.Core.Errors.{CoreError, Outcome, returns, fails, panics, ◌>>=◌}
use stat_guardian.Core.Parser.Tree.{
  Rule, rule_name, is_rule, Pair, Pairs, as_rule, as_str, take, only_child,
}

-- `strip_suffix('"')`
unfoldable pub strip_suffix : String → Option String
strip_suffix String.[] = none
strip_suffix (String.◌∷◌ c String.[]) = if code c == 34 then some "" else none
strip_suffix (String.◌∷◌ c (String.◌∷◌ d s)) = elim (strip_suffix (String.◌∷◌ d s)) [
  | none ↦ none
  | some t ↦ some (String.◌∷◌ c t)
]

-- `strip_prefix('"')`
unfoldable pub strip_prefix : String → Option String
strip_prefix String.[] = none
strip_prefix (String.◌∷◌ c s) = if code c == 34 then some s else none

unfoldable pub unquote : String → String
unfolding strip_suffix strip_prefix
unquote raw = elim (strip_prefix raw) [
  | none ↦ raw
  | some s ↦ elim (strip_suffix s) [ none ↦ raw | some t ↦ t ]
]

-- `parse::<f64>` and `as usize`
pub record Numbers (F64 : Type 0) : Type 0 where
  pub parse_f64 : String → Option F64
  pub as_usize : F64 → ℕ

module _ {Pest Anyhow : Type 0} where
  unfoldable pub parse_data_type : Pair → Outcome Pest Anyhow DataType
  parse_data_type p =
      if as_str p == "int"
      then returns DataType.int
      else if as_str p == "float"
      then returns DataType.float
      else if as_str p == "string"
      then returns DataType.string
      else if as_str p == "bool"
      then returns DataType.bool
      else if as_str p == "date"
      then returns DataType.date
      else if as_str p == "datetime"
      then returns DataType.datetime
      else if as_str p == "bytes"
      then returns DataType.bytes
      else fails (CoreError.unsupported ("unknown type: " <> as_str p))

  unfoldable pub parse_metric_fn : Pair → Outcome Pest Anyhow MetricFn
  parse_metric_fn p =
      if as_str p == "completeness"
      then returns MetricFn.completeness
      else if as_str p == "uniqueness"
      then returns MetricFn.uniqueness
      else if as_str p == "validity"
      then returns MetricFn.validity
      else if as_str p == "consistency"
      then returns MetricFn.consistency
      else if as_str p == "freshness"
      then returns MetricFn.freshness
      else if as_str p == "non_null_rate"
      then returns MetricFn.non_null_rate
      else fails (CoreError.unsupported ("unknown metric: " <> as_str p))

  unfoldable pub parse_comparison_op : Pair → Outcome Pest Anyhow ComparisonOp
  parse_comparison_op p =
      if as_str p == ">"
      then returns ComparisonOp.gt
      else if as_str p == "<"
      then returns ComparisonOp.lt
      else if as_str p == ">="
      then returns ComparisonOp.gte
      else if as_str p == "<="
      then returns ComparisonOp.lte
      else if as_str p == "=="
      then returns ComparisonOp.eq
      else if as_str p == "!="
      then returns ComparisonOp.neq
      else fails (CoreError.unsupported ("unknown op: " <> as_str p))

  unfoldable pub parse_stat_fn : Pair → Outcome Pest Anyhow StatFn
  parse_stat_fn p =
      if as_str p == "mean"
      then returns StatFn.mean
      else if as_str p == "std"
      then returns StatFn.std
      else if as_str p == "median"
      then returns StatFn.median
      else if as_str p == "min"
      then returns StatFn.min
      else if as_str p == "max"
      then returns StatFn.max
      else if as_str p == "p05"
      then returns StatFn.p05
      else if as_str p == "p95"
      then returns StatFn.p95
      else if as_str p == "p99"
      then returns StatFn.p99
      else if as_str p == "p999"
      then returns StatFn.p999
      else fails (CoreError.unsupported ("unknown stat fn: " <> as_str p))

  unfoldable pub parse_anomaly_fn : Pair → Outcome Pest Anyhow AnomalyFn
  parse_anomaly_fn p =
      if as_str p == "detect_outliers"
      then returns AnomalyFn.detect_outliers
      else if as_str p == "detect_nulls"
      then returns AnomalyFn.detect_nulls
      else if as_str p == "detect_duplicates"
      then returns AnomalyFn.detect_duplicates
      else if as_str p == "detect_pattern_breaks"
      then returns AnomalyFn.detect_pattern_breaks
      else if as_str p == "detect_cardinality_explosion"
      then returns AnomalyFn.detect_cardinality_explosion
      else fails (CoreError.unsupported ("unknown anomaly fn: " <> as_str p))

  abbrev pub severity_of : Pair → Outcome Pest Anyhow Severity
  severity_of level =
      if as_str level == "info"
      then returns Severity.info
      else if as_str level == "warning"
      then returns Severity.warning
      else if as_str level == "error"
      then returns Severity.error
      else if as_str level == "blocking"
      then returns Severity.blocking
      else fails (CoreError.unsupported ("unknown severity: " <> as_str level))

  unfoldable pub parse_severity : Pair → Outcome Pest Anyhow Severity
  parse_severity p = do level ← only_child p; severity_of level

  abbrev pub prefixed : Pair → Pairs → Bool → Outcome Pest Anyhow (Severity × Pair × Pairs)
  prefixed first rest false = returns (default_severity, first, rest)
  prefixed first rest true = do
    severity ← parse_severity first
    (p, ps) ← take rest
    returns (severity, p, ps)

  -- How four of the rules begin: the severity, and the first pair that is not its prefix.
  unfoldable pub parse_prefix : Pairs → Outcome Pest Anyhow (Severity × Pair × Pairs)
  unfolding parse_severity
  parse_prefix inner = do
    (first, rest) ← take inner
    prefixed first rest (is_rule (as_rule first) Rule.severity_prefix)

  module _ {F64 : Type 0} (numbers : Numbers F64) where
    -- `as_str().parse::<f64>().unwrap()`
    abbrev pub parse_number : Pair → Outcome Pest Anyhow F64
    parse_number p = elim (numbers.parse_f64 (as_str p)) [ none ↦ panics | some x ↦ returns x ]

    abbrev pub literal_of : Rule → Pair → Outcome Pest Anyhow (LiteralValue F64)
    literal_of Rule.number p = do x ← parse_number p; returns (LiteralValue.number x)
    literal_of Rule.string_literal p = returns (LiteralValue.str (unquote (as_str p)))
    literal_of Rule.boolean p = returns (LiteralValue.bool (as_str p == "true"))
    literal_of other p = fails (CoreError.unsupported ("unknown literal: " <> rule_name other))

    unfoldable pub parse_literal_value : Pair → Outcome Pest Anyhow (LiteralValue F64)
    unfolding unquote
    parse_literal_value p = do inner ← only_child p; literal_of (as_rule inner) inner
