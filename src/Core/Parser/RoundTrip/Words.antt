-- ===== src/Core/Parser/RoundTrip/Words.antt =====
-- Words, literals and prefixes are read back as they were.
use Prim.Native.Char.{Char}
use Prim.Native.String.{◌++◌ as ◌<>◌}
use Prim.Native.String.append
use stat_guardian.Base.{String, true, false, some, List, [], ◌∷◌, ◌≡◌, refl, string_eq}
use mathlib.Core.Path.{subst}
use stat_guardian.Base.Sort.{All}
use stat_guardian.Core.Ast.{
  DataType, type_name, LiteralValue, MetricFn, ComparisonOp, op_symbol, Severity, StatFn, stat_name,
  AnomalyFn,
}
use stat_guardian.Core.Errors.{Outcome, returns}
use stat_guardian.Core.Parser.Tree.{Rule, rule_name, is_rule, Pair, Pairs, as_rule, collect}
use stat_guardian.Core.Parser.Words.{
  strip_suffix, strip_prefix, unquote, Numbers, parse_data_type, parse_metric_fn,
  parse_comparison_op, parse_stat_fn, parse_anomaly_fn, parse_severity, parse_prefix, parse_number,
  parse_literal_value,
}
use stat_guardian.Core.Parser.Print.{
  Source, leaf, quote, onto, metric_text, anomaly_text, literal_pair, with_prefix,
}

append_cons : (c : Char) (s t : String) → (String.◌∷◌ c s <> t) ≡ String.◌∷◌ c (s <> t)
append_cons c s t = λ i. append.cons c s t i

strip_suffix-cons :
    (c d : Char) (s : String) {t : String}
    → strip_suffix (String.◌∷◌ d s) ≡ some t
    → strip_suffix (String.◌∷◌ c (String.◌∷◌ d s)) ≡ some (String.◌∷◌ c t)
unfolding strip_suffix
strip_suffix-cons c d s h = rw (h, strip_suffix) refl

strip_suffix-append : (s : String) → strip_suffix (s <> "\"") ≡ some s
unfolding strip_suffix
strip_suffix-append String.[] = refl
strip_suffix-append (String.◌∷◌ c String.[]) = rw (append_cons c "" "\"") refl
strip_suffix-append (String.◌∷◌ c (String.◌∷◌ d s)) =
    let rest =
      subst (λ t. strip_suffix t ≡ some (String.◌∷◌ d s)) (append_cons d s "\"")
        (strip_suffix-append (String.◌∷◌ d s)) in
    rw (append_cons c (String.◌∷◌ d s) "\"")
      (rw (append_cons d s "\"") (strip_suffix-cons c d (s <> "\"") rest))

append_nil : (t : String) → ("" <> t) ≡ t
append_nil t = λ i. append.nil t i

pub unquote-quote : (s : String) → unquote (quote s) ≡ s
unfolding unquote strip_prefix
unquote-quote s =
    rw (append_cons _ "" (s <> "\""))
      (rw (append_nil (s <> "\"")) (rw (strip_suffix-append s, unquote) refl))

module _ {F64 : Type 0} (source : Source F64) (numbers : Numbers F64) where
  -- The text of the number is read as the number.
  abbrev pub IsReadable : F64 → Type 0
  IsReadable x = numbers.parse_f64 (source.show_f64 x) ≡ some x

  abbrev pub IsReadableLiteral : LiteralValue F64 → Type 0
  IsReadableLiteral (LiteralValue.number x) = IsReadable x
  IsReadableLiteral _ = Unit

module _ {Pest Anyhow : Type 0} where
  pub parse_data_type-name :
      (t : DataType)
      → parse_data_type {Pest = Pest} {Anyhow = Anyhow} (leaf Rule.data_type (type_name t))
        ≡ returns t
  unfolding parse_data_type type_name
  parse_data_type-name DataType.int = refl
  parse_data_type-name DataType.float = refl
  parse_data_type-name DataType.string = refl
  parse_data_type-name DataType.bool = refl
  parse_data_type-name DataType.date = refl
  parse_data_type-name DataType.datetime = refl
  parse_data_type-name DataType.bytes = refl

  pub parse_metric_fn-text :
      (t : MetricFn)
      → parse_metric_fn {Pest = Pest} {Anyhow = Anyhow} (leaf Rule.metric_fn (metric_text t))
        ≡ returns t
  unfolding parse_metric_fn
  parse_metric_fn-text MetricFn.completeness = refl
  parse_metric_fn-text MetricFn.uniqueness = refl
  parse_metric_fn-text MetricFn.validity = refl
  parse_metric_fn-text MetricFn.consistency = refl
  parse_metric_fn-text MetricFn.freshness = refl
  parse_metric_fn-text MetricFn.non_null_rate = refl

  pub parse_comparison_op-symbol :
      (t : ComparisonOp)
      → parse_comparison_op {Pest = Pest} {Anyhow = Anyhow} (leaf Rule.comparison_op (op_symbol t))
        ≡ returns t
  unfolding parse_comparison_op op_symbol
  parse_comparison_op-symbol ComparisonOp.gt = refl
  parse_comparison_op-symbol ComparisonOp.lt = refl
  parse_comparison_op-symbol ComparisonOp.gte = refl
  parse_comparison_op-symbol ComparisonOp.lte = refl
  parse_comparison_op-symbol ComparisonOp.eq = refl
  parse_comparison_op-symbol ComparisonOp.neq = refl

  pub parse_stat_fn-name :
      (t : StatFn)
      → parse_stat_fn {Pest = Pest} {Anyhow = Anyhow} (leaf Rule.stat_fn (stat_name t)) ≡ returns t
  unfolding parse_stat_fn stat_name
  parse_stat_fn-name StatFn.mean = refl
  parse_stat_fn-name StatFn.std = refl
  parse_stat_fn-name StatFn.median = refl
  parse_stat_fn-name StatFn.min = refl
  parse_stat_fn-name StatFn.max = refl
  parse_stat_fn-name StatFn.p05 = refl
  parse_stat_fn-name StatFn.p95 = refl
  parse_stat_fn-name StatFn.p99 = refl
  parse_stat_fn-name StatFn.p999 = refl

  pub parse_anomaly_fn-text :
      (t : AnomalyFn)
      → parse_anomaly_fn {Pest = Pest} {Anyhow = Anyhow} (leaf Rule.anomaly_fn (anomaly_text t))
        ≡ returns t
  unfolding parse_anomaly_fn
  parse_anomaly_fn-text AnomalyFn.detect_outliers = refl
  parse_anomaly_fn-text AnomalyFn.detect_nulls = refl
  parse_anomaly_fn-text AnomalyFn.detect_duplicates = refl
  parse_anomaly_fn-text AnomalyFn.detect_pattern_breaks = refl
  parse_anomaly_fn-text AnomalyFn.detect_cardinality_explosion = refl

  -- A loop over pairs of one rule, each of which is read back.
  pub collect-onto :
      {A : Type 0} (r : Rule) (f : Pair → Outcome Pest Anyhow A) (g : A → Pair)
      → ((x : A) → is_rule (as_rule (g x)) r ≡ true)
      → (xs : List A) → All (λ x. f (g x) ≡ returns x) xs
      → collect r f (onto g xs Pairs.done) ≡ returns xs
  unfolding collect
  collect-onto r f g same [] all = refl
  collect-onto r f g same (x ∷ xs) all =
      rw (same x) (rw (collect-onto r f g same xs all.1) (rw all.0 refl))

  module _ {F64 : Type 0} (source : Source F64) where
    -- The severity is read back whether or not it has a prefix.
    pub parse_prefix-with_prefix :
        (s : Severity) (p : Pair) (ps : Pairs)
        → is_rule (as_rule p) Rule.severity_prefix ≡ false
        → parse_prefix {Pest = Pest} {Anyhow = Anyhow} (with_prefix source s (Pairs.next p ps))
          ≡ returns (s, p, ps)
    unfolding parse_prefix parse_severity rule_name
    parse_prefix-with_prefix Severity.info p ps h = refl
    parse_prefix-with_prefix Severity.warning p ps h = refl
    parse_prefix-with_prefix Severity.error p ps h = rw h refl
    parse_prefix-with_prefix Severity.blocking p ps h = refl

    module _ (numbers : Numbers F64) where
      pub parse_literal_value-pair :
          (v : LiteralValue F64)
          → IsReadableLiteral source numbers v
          → parse_literal_value {Pest = Pest} {Anyhow = Anyhow} numbers (literal_pair source v)
            ≡ returns v
      unfolding parse_literal_value
      parse_literal_value-pair (LiteralValue.number x) h = rw (h, parse_number) refl
      parse_literal_value-pair (LiteralValue.str s) h = rw (unquote-quote s) refl
      parse_literal_value-pair (LiteralValue.bool true) h = refl
      parse_literal_value-pair (LiteralValue.bool false) h = refl
