-- ===== src/Core/Parser/Print.antt =====
-- The pairs that the rules of crates/statguardian-core/src/parser/grammar.pest give for a contract.
use Prim.Native.String.{◌++◌ as ◌<>◌}
use stat_guardian.Base.{ℕ, String, Bool, true, false, Option, none, some, List, [], ◌∷◌}
use stat_guardian.Core.Ast.{
  type_name, Constraint, FieldDef, LiteralValue, MetricFn, ComparisonOp, op_symbol, Severity,
  QualityRule, CrossColumnRule, stat_name, StatsRule, AnomalyFn, AnomalyRule, StreamConfig,
  DataContract,
}
use stat_guardian.Core.Parser.Tree.{Rule, Pair, Pairs}

-- How numbers are written, and the text of a pair that has parts.
pub record Source (F64 : Type 0) : Type 0 where
  pub show_f64 : F64 → String
  pub show_usize : ℕ → String
  pub text_of : Rule → Pairs → String

abbrev pub leaf : Rule → String → Pair
leaf r s = Pair.pair r s Pairs.done

-- A `string_literal`, which has its quotation marks.
abbrev pub quote : String → String
quote s = "\"" <> (s <> "\"")

abbrev pub string_pair : String → Pair
string_pair s = leaf Rule.string_literal (quote s)

abbrev pub one : Pair → Pairs
one p = Pairs.next p Pairs.done

abbrev pub two : Pair → Pair → Pairs
two p q = Pairs.next p (one q)

-- One pair for each item, before others.
abbrev pub onto {ℓ} : {A : Type ℓ} → (A → Pair) → List A → Pairs → Pairs
onto f [] rest = rest
onto f (x ∷ xs) rest = Pairs.next (f x) (onto f xs rest)

abbrev pub metric_text : MetricFn → String
metric_text MetricFn.completeness = "completeness"
metric_text MetricFn.uniqueness = "uniqueness"
metric_text MetricFn.validity = "validity"
metric_text MetricFn.consistency = "consistency"
metric_text MetricFn.freshness = "freshness"
metric_text MetricFn.non_null_rate = "non_null_rate"

abbrev pub severity_text : Severity → String
severity_text Severity.info = "info"
severity_text Severity.warning = "warning"
severity_text Severity.error = "error"
severity_text Severity.blocking = "blocking"

abbrev pub anomaly_text : AnomalyFn → String
anomaly_text AnomalyFn.detect_outliers = "detect_outliers"
anomaly_text AnomalyFn.detect_nulls = "detect_nulls"
anomaly_text AnomalyFn.detect_duplicates = "detect_duplicates"
anomaly_text AnomalyFn.detect_pattern_breaks = "detect_pattern_breaks"
anomaly_text AnomalyFn.detect_cardinality_explosion = "detect_cardinality_explosion"

abbrev pub boolean_text : Bool → String
boolean_text true = "true"
boolean_text false = "false"

module _ {F64 : Type 0} (source : Source F64) where
  abbrev pub node : Rule → Pairs → Pair
  node r ps = Pair.pair r (source.text_of r ps) ps

  abbrev pub number_pair : F64 → Pair
  number_pair x = leaf Rule.number (source.show_f64 x)

  abbrev pub usize_pair : ℕ → Pair
  usize_pair n = leaf Rule.number (source.show_usize n)

  abbrev pub constraint_kind : Constraint F64 → Pair
  constraint_kind Constraint.not_null = leaf Rule.not_null "not_null"
  constraint_kind Constraint.unique = leaf Rule.unique "unique"
  constraint_kind Constraint.positive = leaf Rule.positive "positive"
  constraint_kind Constraint.negative = leaf Rule.negative "negative"
  constraint_kind Constraint.primary_key = leaf Rule.primary_key "primary_key"
  constraint_kind Constraint.coerce = leaf Rule.coerce_constraint "coerce"
  constraint_kind (Constraint.regex pattern) =
      node Rule.regex_constraint (one (string_pair pattern))
  constraint_kind (Constraint.between x y) =
      node Rule.between_constraint (two (number_pair x) (number_pair y))
  constraint_kind (Constraint.min value) = node Rule.min_constraint (one (number_pair value))
  constraint_kind (Constraint.max value) = node Rule.max_constraint (one (number_pair value))
  constraint_kind (Constraint.len m n) =
      node Rule.len_constraint (two (usize_pair m) (usize_pair n))
  constraint_kind (Constraint.enum values) =
      node Rule.enum_constraint (onto string_pair values Pairs.done)
  constraint_kind (Constraint.foreign_key table column) =
      node Rule.foreign_key (two (leaf Rule.identifier table) (leaf Rule.identifier column))

  abbrev pub constraint_pair : Constraint F64 → Pair
  constraint_pair c = node Rule.constraint (one (constraint_kind c))

  abbrev pub field_pair : FieldDef F64 → Pair
  field_pair f = node Rule.field_def (
      Pairs.next (leaf Rule.identifier f.name) (
        Pairs.next (leaf Rule.data_type (type_name f.data_type))
          (onto constraint_pair f.constraints Pairs.done)))

  abbrev pub prefix_pair : Severity → Pair
  prefix_pair s = node Rule.severity_prefix (one (leaf Rule.severity_level (severity_text s)))

  -- The default severity has no prefix.
  abbrev pub with_prefix : Severity → Pairs → Pairs
  with_prefix Severity.error ps = ps
  with_prefix s ps = Pairs.next (prefix_pair s) ps

  abbrev pub op_pair : ComparisonOp → Pair
  op_pair op = leaf Rule.comparison_op (op_symbol op)

  abbrev pub metric_pair : MetricFn → String → Pair
  metric_pair metric column =
      node Rule.quality_metric
        (two (leaf Rule.metric_fn (metric_text metric)) (leaf Rule.identifier column))

  abbrev pub quality_pair : QualityRule F64 → Pair
  quality_pair r = node Rule.quality_rule (
      with_prefix r.severity
        (Pairs.next (metric_pair r.metric r.column) (two (op_pair r.op) (number_pair r.threshold))))

  abbrev pub literal_kind : LiteralValue F64 → Pair
  literal_kind (LiteralValue.number x) = number_pair x
  literal_kind (LiteralValue.str s) = string_pair s
  literal_kind (LiteralValue.bool b) = leaf Rule.boolean (boolean_text b)

  abbrev pub literal_pair : LiteralValue F64 → Pair
  literal_pair v = node Rule.literal_value (one (literal_kind v))

  abbrev pub condition : String → ComparisonOp → LiteralValue F64 → Pairs → Pairs
  condition column op value rest =
      Pairs.next (leaf Rule.identifier column)
        (Pairs.next (op_pair op) (Pairs.next (literal_pair value) rest))

  abbrev pub cross_column_pair : CrossColumnRule F64 → Pair
  cross_column_pair r = node Rule.cross_column_rule (
      with_prefix r.severity (
        condition r.assert_column r.assert_op r.assert_value
          (condition r.when_column r.when_op r.when_value Pairs.done)))

  abbrev pub stats_pair : StatsRule F64 → Pair
  stats_pair r = node Rule.stats_rule (
      with_prefix r.severity (
        Pairs.next (leaf Rule.identifier r.column) (
          Pairs.next (leaf Rule.stat_fn (stat_name r.stat))
            (two (op_pair r.op) (number_pair r.threshold)))))

  abbrev pub arg_pair : String × String → Pair
  arg_pair (k, v) = node Rule.named_arg (two (leaf Rule.identifier k) (string_pair v))

  abbrev pub anomaly_pair : AnomalyRule → Pair
  anomaly_pair r = node Rule.anomaly_rule (
      with_prefix r.severity (
        Pairs.next (leaf Rule.anomaly_fn (anomaly_text r.function))
          (Pairs.next (leaf Rule.identifier r.column) (onto arg_pair r.args Pairs.done))))

  abbrev pub option_pairs : Rule → Option String → Pairs → Pairs
  option_pairs r none rest = rest
  option_pairs r (some v) rest =
      Pairs.next (node Rule.stream_option (one (node r (one (string_pair v))))) rest

  abbrev pub stream_pair : StreamConfig → Pair
  stream_pair cfg = node Rule.stream_section (
      option_pairs Rule.stream_window cfg.window (
        option_pairs Rule.stream_watermark cfg.watermark
          (option_pairs Rule.stream_emit cfg.emit Pairs.done)))

  abbrev pub section_pair : Rule → Pairs → Pair
  section_pair r ps = node Rule.section (one (node r ps))

  abbrev pub stream_section : Option StreamConfig → Pairs
  stream_section none = Pairs.done
  stream_section (some cfg) = one (node Rule.section (one (stream_pair cfg)))

  abbrev pub contract_pair : DataContract F64 → Pair
  contract_pair c = node Rule.dataset_def (
      Pairs.next (leaf Rule.identifier c.name) (
        Pairs.next (section_pair Rule.schema_section (onto field_pair c.schema Pairs.done)) (
          Pairs.next
            (section_pair Rule.quality_section (
              onto quality_pair c.quality_rules
                (onto cross_column_pair c.cross_column_rules Pairs.done)))
            (Pairs.next (section_pair Rule.stats_section (onto stats_pair c.stats_rules Pairs.done))
              (Pairs.next
                (section_pair Rule.anomaly_section (onto anomaly_pair c.anomaly_rules Pairs.done))
                (stream_section c.stream_config))))))

  -- The end of the input is the last pair of the `contract`.
  abbrev pub input_pair : List (DataContract F64) → Pair
  input_pair cs = node Rule.contract (onto contract_pair cs (one (leaf Rule.eoi "")))
