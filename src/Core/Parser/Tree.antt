-- ===== src/Core/Parser/Tree.antt =====
-- crates/statguardian-core/src/parser/grammar.pest: its rules, and the tree of pairs in which pest
-- gives a text that follows them.
use stat_guardian.Base.{String, Bool, List, [], ◌∷◌, ◌==◌, string_eq, if◌then◌else◌}
use stat_guardian.Core.Errors.{Outcome, returns, panics, ◌>>=◌}

pub data Rule : Type 0 where
  eoi whitespace comment identifier string_literal inner_str number boolean literal_value contract
        dataset_def section schema_section field_def data_type constraint not_null unique positive
        negative primary_key foreign_key coerce_constraint between_constraint min_constraint
        max_constraint len_constraint regex_constraint enum_constraint quality_section quality_rule
        cross_column_rule severity_prefix severity_level quality_metric metric_fn comparison_op
        stats_section stats_rule stat_fn anomaly_section anomaly_rule anomaly_fn named_arg
        stream_section stream_option stream_window stream_watermark stream_emit :
      Rule

-- `Debug`
unfoldable pub rule_name : Rule → String
rule_name Rule.eoi = "EOI"
rule_name Rule.whitespace = "WHITESPACE"
rule_name Rule.comment = "COMMENT"
rule_name Rule.identifier = "identifier"
rule_name Rule.string_literal = "string_literal"
rule_name Rule.inner_str = "inner_str"
rule_name Rule.number = "number"
rule_name Rule.boolean = "boolean"
rule_name Rule.literal_value = "literal_value"
rule_name Rule.contract = "contract"
rule_name Rule.dataset_def = "dataset_def"
rule_name Rule.section = "section"
rule_name Rule.schema_section = "schema_section"
rule_name Rule.field_def = "field_def"
rule_name Rule.data_type = "data_type"
rule_name Rule.constraint = "constraint"
rule_name Rule.not_null = "not_null"
rule_name Rule.unique = "unique"
rule_name Rule.positive = "positive"
rule_name Rule.negative = "negative"
rule_name Rule.primary_key = "primary_key"
rule_name Rule.foreign_key = "foreign_key"
rule_name Rule.coerce_constraint = "coerce_constraint"
rule_name Rule.between_constraint = "between_constraint"
rule_name Rule.min_constraint = "min_constraint"
rule_name Rule.max_constraint = "max_constraint"
rule_name Rule.len_constraint = "len_constraint"
rule_name Rule.regex_constraint = "regex_constraint"
rule_name Rule.enum_constraint = "enum_constraint"
rule_name Rule.quality_section = "quality_section"
rule_name Rule.quality_rule = "quality_rule"
rule_name Rule.cross_column_rule = "cross_column_rule"
rule_name Rule.severity_prefix = "severity_prefix"
rule_name Rule.severity_level = "severity_level"
rule_name Rule.quality_metric = "quality_metric"
rule_name Rule.metric_fn = "metric_fn"
rule_name Rule.comparison_op = "comparison_op"
rule_name Rule.stats_section = "stats_section"
rule_name Rule.stats_rule = "stats_rule"
rule_name Rule.stat_fn = "stat_fn"
rule_name Rule.anomaly_section = "anomaly_section"
rule_name Rule.anomaly_rule = "anomaly_rule"
rule_name Rule.anomaly_fn = "anomaly_fn"
rule_name Rule.named_arg = "named_arg"
rule_name Rule.stream_section = "stream_section"
rule_name Rule.stream_option = "stream_option"
rule_name Rule.stream_window = "stream_window"
rule_name Rule.stream_watermark = "stream_watermark"
rule_name Rule.stream_emit = "stream_emit"

-- `as_rule() == r`, where the names of two rules are different.
abbrev pub is_rule : Rule → Rule → Bool
is_rule r s = rule_name r == rule_name s

-- `as_rule`, `as_str` and `into_inner` of a pair are its three parts.
mutual
  pub data Pair : Type 0 where
    pair : Rule → String → Pairs → Pair

  pub data Pairs : Type 0 where
    done : Pairs
    next : Pair → Pairs → Pairs

abbrev pub as_rule : Pair → Rule
as_rule (Pair.pair rule text inner) = rule

abbrev pub as_str : Pair → String
as_str (Pair.pair rule text inner) = text

abbrev pub into_inner : Pair → Pairs
into_inner (Pair.pair rule text inner) = inner

module _ {Pest Anyhow : Type 0} where
  -- `next().unwrap()`, with what the iterator has left.
  abbrev pub take : Pairs → Outcome Pest Anyhow (Pair × Pairs)
  take Pairs.done = panics
  take (Pairs.next p ps) = returns (p, ps)

  -- `into_inner().next().unwrap()`
  abbrev pub only_child : Pair → Outcome Pest Anyhow Pair
  only_child p = do (child, rest) ← take (into_inner p); returns child

  -- A loop that pushes the value of each pair of one rule and skips the others.
  unfoldable pub collect :
      {A : Type 0} → Rule → (Pair → Outcome Pest Anyhow A) → Pairs → Outcome Pest Anyhow (List A)
  collect r f Pairs.done = returns []
  collect r f (Pairs.next p ps) =
      let rest = collect r f ps in
      if is_rule (as_rule p) r then (do x ← f p; xs ← rest; returns (x ∷ xs)) else rest
