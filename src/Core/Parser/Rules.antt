-- ===== src/Core/Parser/Rules.antt =====
-- crates/statguardian-core/src/parser/mod.rs: the rules of a contract, beside its schema.
use stat_guardian.Base.{String, List, [], ◌∷◌, string_eq}
use stat_guardian.Base.Assoc.{insert}
use stat_guardian.Core.Ast.{QualityRule, CrossColumnRule, StatsRule, AnomalyRule}
use stat_guardian.Core.Errors.{Outcome, returns, ◌>>=◌}
use stat_guardian.Core.Parser.Tree.{Rule, Pair, Pairs, as_rule, as_str, into_inner, take, collect}
use stat_guardian.Core.Parser.Words.{
  unquote, Numbers, parse_prefix, parse_number, parse_literal_value, parse_metric_fn,
  parse_comparison_op, parse_stat_fn, parse_anomaly_fn,
}

abbrev pub QualityRules : Type 0 → Type 0
QualityRules F64 = List (QualityRule F64) × List (CrossColumnRule F64)

-- `args.insert(k, v)` for one after the other
unfoldable pub insert_args :
    List (String × String) → List (String × String) → List (String × String)
insert_args [] m = m
insert_args ((k, v) ∷ args) m = insert_args args (insert k v m)

module _ {Pest Anyhow F64 : Type 0} (numbers : Numbers F64) where
  unfoldable pub parse_quality_rule : Pair → Outcome Pest Anyhow (QualityRule F64)
  unfolding parse_prefix parse_metric_fn parse_comparison_op
  parse_quality_rule p = do
    (severity, metric_pair, rest) ← parse_prefix (into_inner p)
    (fn_pair, columns) ← take (into_inner metric_pair)
    metric ← parse_metric_fn fn_pair
    (column, others) ← take columns
    (op_pair, rest') ← take rest
    op ← parse_comparison_op op_pair
    (number_pair, rest'') ← take rest'
    threshold ← parse_number numbers number_pair
    returns (record {
      metric = metric;
      column = as_str column;
      op = op;
      threshold = threshold;
      severity = severity;
    })

  unfoldable pub parse_cross_column_rule : Pair → Outcome Pest Anyhow (CrossColumnRule F64)
  unfolding parse_prefix parse_comparison_op parse_literal_value
  parse_cross_column_rule p = do
    (severity, assert_col_pair, ps) ← parse_prefix (into_inner p)
    (assert_op_pair, ps1) ← take ps
    assert_op ← parse_comparison_op assert_op_pair
    (assert_value_pair, ps2) ← take ps1
    assert_value ← parse_literal_value numbers assert_value_pair
    (when_column, ps3) ← take ps2
    (when_op_pair, ps4) ← take ps3
    when_op ← parse_comparison_op when_op_pair
    (when_value_pair, ps5) ← take ps4
    when_value ← parse_literal_value numbers when_value_pair
    returns (record {
      assert_column = as_str assert_col_pair;
      assert_op = assert_op;
      assert_value = assert_value;
      when_column = as_str when_column;
      when_op = when_op;
      when_value = when_value;
      severity = severity;
    })

  -- The loop of `parse_quality`, which keeps rules of two kinds.
  abbrev pub keep_rule :
      Rule → Pair → Outcome Pest Anyhow (QualityRules F64) → Outcome Pest Anyhow (QualityRules F64)
  keep_rule Rule.quality_rule p rest = do
    rule ← parse_quality_rule p
    (qr, ccr) ← rest
    returns (rule ∷ qr, ccr)
  keep_rule Rule.cross_column_rule p rest = do
    rule ← parse_cross_column_rule p
    (qr, ccr) ← rest
    returns (qr, rule ∷ ccr)
  keep_rule other p rest = rest

  unfoldable pub quality_loop : Pairs → Outcome Pest Anyhow (QualityRules F64)
  quality_loop Pairs.done = returns ([], [])
  quality_loop (Pairs.next p ps) = keep_rule (as_rule p) p (quality_loop ps)

  unfoldable pub parse_quality : Pair → Outcome Pest Anyhow (QualityRules F64)
  unfolding quality_loop
  parse_quality p = quality_loop (into_inner p)

  unfoldable pub parse_stats_rule : Pair → Outcome Pest Anyhow (StatsRule F64)
  unfolding parse_prefix parse_stat_fn parse_comparison_op
  parse_stats_rule p = do
    (severity, col_pair, ps) ← parse_prefix (into_inner p)
    (stat_pair, ps1) ← take ps
    stat ← parse_stat_fn stat_pair
    (op_pair, ps2) ← take ps1
    op ← parse_comparison_op op_pair
    (number_pair, ps3) ← take ps2
    threshold ← parse_number numbers number_pair
    returns (record {
      column = as_str col_pair;
      stat = stat;
      op = op;
      threshold = threshold;
      severity = severity;
    })

  unfoldable pub parse_stats : Pair → Outcome Pest Anyhow (List (StatsRule F64))
  unfolding collect parse_stats_rule
  parse_stats p = collect Rule.stats_rule parse_stats_rule (into_inner p)

module _ {Pest Anyhow : Type 0} where
  -- A named argument: its key, and its value without quotation marks.
  abbrev pub parse_arg : Pair → Outcome Pest Anyhow (String × String)
  parse_arg arg = do
    (k, rest) ← take (into_inner arg)
    (v, rest') ← take rest
    returns (as_str k, unquote (as_str v))

  unfoldable pub parse_anomaly_rule : Pair → Outcome Pest Anyhow AnomalyRule
  unfolding parse_prefix parse_anomaly_fn collect insert_args
  parse_anomaly_rule p = do
    (severity, fn_pair, ps) ← parse_prefix (into_inner p)
    function ← parse_anomaly_fn fn_pair
    (column, ps') ← take ps
    args ← collect Rule.named_arg parse_arg ps'
    returns (record {
      function = function;
      column = as_str column;
      args = insert_args args [];
      severity = severity;
    })

  unfoldable pub parse_anomalies : Pair → Outcome Pest Anyhow (List AnomalyRule)
  unfolding collect parse_anomaly_rule
  parse_anomalies p = collect Rule.anomaly_rule parse_anomaly_rule (into_inner p)
