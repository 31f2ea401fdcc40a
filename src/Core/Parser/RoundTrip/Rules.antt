-- ===== src/Core/Parser/RoundTrip/Rules.antt =====
-- The rules of a contract are read back as they were.
use stat_guardian.Base.{
  String, false, List, [], ◌∷◌, ◌++◌, ◌≡◌, refl, map, string_eq, contains, arith,
}
use mathlib.Core.Path.{sym, ◌∙◌}
use mathlib.Core.List.{append-nil, append_assoc}
use stat_guardian.Base.Sort.{All, All-mem}
use stat_guardian.Base.Assoc.{insert}
use stat_guardian.Core.Ast.{QualityRule, CrossColumnRule, StatsRule, AnomalyRule}
use stat_guardian.Core.Errors.{returns}
use stat_guardian.Core.Parser.Tree.{Rule, rule_name, Pairs}
use stat_guardian.Core.Parser.Words.{Numbers, parse_number}
use stat_guardian.Core.Parser.Rules.{
  parse_quality_rule, parse_cross_column_rule, quality_loop, parse_stats_rule, parse_stats,
  insert_args, parse_anomaly_rule, parse_anomalies, parse_arg,
}
use stat_guardian.Core.Parser.Print.{
  Source, onto, node, quality_pair, cross_column_pair, stats_pair, arg_pair, anomaly_pair,
}
use stat_guardian.Core.Parser.RoundTrip.Words.{
  IsReadable, IsReadableLiteral, unquote-quote, collect-onto, parse_prefix-with_prefix,
  parse_literal_value-pair, parse_metric_fn-text, parse_comparison_op-symbol, parse_stat_fn-name,
  parse_anomaly_fn-text,
}
use stat_guardian.Core.Parser.RoundTrip.Fields.{All-map}

module _ {F64 : Type 0} (source : Source F64) (numbers : Numbers F64) where
  abbrev pub IsReadableCondition : CrossColumnRule F64 → Type 0
  IsReadableCondition r =
      IsReadableLiteral source numbers r.assert_value
      × IsReadableLiteral source numbers r.when_value

module _ {F64 : Type 0} (source : Source F64) (numbers : Numbers F64) {Pest Anyhow : Type 0} where
  parse_quality_rule-pair :
      (r : QualityRule F64)
      → IsReadable source numbers r.threshold
      → parse_quality_rule {Pest = Pest} {Anyhow = Anyhow} numbers (quality_pair source r)
        ≡ returns r
  unfolding parse_quality_rule rule_name
  parse_quality_rule-pair r h =
      rw (parse_prefix-with_prefix {Pest = Pest} {Anyhow = Anyhow} source r.severity _ _ refl) (
        rw (parse_metric_fn-text {Pest = Pest} {Anyhow = Anyhow} r.metric) (
          rw (parse_comparison_op-symbol {Pest = Pest} {Anyhow = Anyhow} r.op)
            (rw (h, parse_number) refl)))

  parse_cross_column_rule-pair :
      (r : CrossColumnRule F64)
      → IsReadableCondition source numbers r
      → parse_cross_column_rule {Pest = Pest} {Anyhow = Anyhow} numbers (cross_column_pair source r)
        ≡ returns r
  unfolding parse_cross_column_rule rule_name
  parse_cross_column_rule-pair r (ha, hw) =
      rw (parse_prefix-with_prefix {Pest = Pest} {Anyhow = Anyhow} source r.severity _ _ refl) (
        rw (parse_comparison_op-symbol {Pest = Pest} {Anyhow = Anyhow} r.assert_op) (
          rw
            (parse_literal_value-pair {Pest = Pest} {Anyhow = Anyhow} source numbers r.assert_value
              ha)
            (rw (parse_comparison_op-symbol {Pest = Pest} {Anyhow = Anyhow} r.when_op) (
              rw
                (parse_literal_value-pair {Pest = Pest} {Anyhow = Anyhow} source numbers
                  r.when_value hw)
                refl))))

  cross_column-onto :
      (rs : List (CrossColumnRule F64))
      → All (IsReadableCondition source numbers) rs
      → quality_loop {Pest = Pest} {Anyhow = Anyhow} numbers
          (onto (cross_column_pair source) rs Pairs.done)
        ≡ returns ([], rs)
  unfolding quality_loop
  cross_column-onto [] h = refl
  cross_column-onto (r ∷ rs) (h, hs) =
      rw (parse_cross_column_rule-pair r h) (rw (cross_column-onto rs hs) refl)

  pub quality_loop-onto :
      (qs : List (QualityRule F64)) (rs : List (CrossColumnRule F64))
      → All (λ q. IsReadable source numbers q.threshold) qs
      → All (IsReadableCondition source numbers) rs
      → quality_loop {Pest = Pest} {Anyhow = Anyhow} numbers
          (onto (quality_pair source) qs (onto (cross_column_pair source) rs Pairs.done))
        ≡ returns (qs, rs)
  unfolding quality_loop
  quality_loop-onto [] rs h hs = cross_column-onto rs hs
  quality_loop-onto (q ∷ qs) rs (h, hq) hs =
      rw (parse_quality_rule-pair q h) (rw (quality_loop-onto qs rs hq hs) refl)

  parse_stats_rule-pair :
      (r : StatsRule F64)
      → IsReadable source numbers r.threshold
      → parse_stats_rule {Pest = Pest} {Anyhow = Anyhow} numbers (stats_pair source r) ≡ returns r
  unfolding parse_stats_rule rule_name
  parse_stats_rule-pair r h =
      rw (parse_prefix-with_prefix {Pest = Pest} {Anyhow = Anyhow} source r.severity _ _ refl) (
        rw (parse_stat_fn-name {Pest = Pest} {Anyhow = Anyhow} r.stat) (
          rw (parse_comparison_op-symbol {Pest = Pest} {Anyhow = Anyhow} r.op)
            (rw (h, parse_number) refl)))

  pub parse_stats-node :
      (rs : List (StatsRule F64))
      → All (λ r. IsReadable source numbers r.threshold) rs
      → parse_stats {Pest = Pest} {Anyhow = Anyhow} numbers
          (node source Rule.stats_section (onto (stats_pair source) rs Pairs.done))
        ≡ returns rs
  unfolding parse_stats rule_name
  parse_stats-node rs h =
      collect-onto Rule.stats_rule (parse_stats_rule numbers) (stats_pair source) (λ r. refl) rs
        (All-map parse_stats_rule-pair rs h)

-- A key that is not there comes last.
insert-new :
    (k v : String) (m : List (String × String))
    → contains (map (λ (j, w). j) m) k ≡ false
    → insert k v m ≡ m ++ (k, v) ∷ []
unfolding insert
insert-new k v [] h = refl
insert-new k v ((j, w) ∷ m) h =
    ground (arith, insert-new k v m, string_eq.is_same_iff j k, string_eq.is_same_iff k j)

-- No key is one of those that stand before it.
abbrev pub HasNewKeys : (before args : List (String × String)) → Type 0
HasNewKeys before [] = Unit
HasNewKeys before ((k, v) ∷ args) =
    (contains (map (λ (j, w). j) before) k ≡ false) × HasNewKeys (before ++ (k, v) ∷ []) args

insert_args-new :
    (args m : List (String × String)) → HasNewKeys m args → insert_args args m ≡ m ++ args
unfolding insert_args
insert_args-new [] m h = sym (append-nil m)
insert_args-new ((k, v) ∷ args) m (h, hs) =
    rw (insert-new k v m h)
      (insert_args-new args (m ++ (k, v) ∷ []) hs ∙ append_assoc m ((k, v) ∷ []) args)

module _ {F64 : Type 0} (source : Source F64) {Pest Anyhow : Type 0} where
  parse_arg-pair :
      (arg : String × String)
      → parse_arg {Pest = Pest} {Anyhow = Anyhow} (arg_pair source arg) ≡ returns arg
  parse_arg-pair (k, v) = rw (unquote-quote v) refl

  parse_anomaly_rule-pair :
      (r : AnomalyRule)
      → HasNewKeys [] r.args
      → parse_anomaly_rule {Pest = Pest} {Anyhow = Anyhow} (anomaly_pair source r) ≡ returns r
  unfolding parse_anomaly_rule rule_name
  parse_anomaly_rule-pair r h =
      rw (parse_prefix-with_prefix {Pest = Pest} {Anyhow = Anyhow} source r.severity _ _ refl) (
        rw (parse_anomaly_fn-text {Pest = Pest} {Anyhow = Anyhow} r.function) (
          rw
            (collect-onto Rule.named_arg (parse_arg {Pest = Pest} {Anyhow = Anyhow})
              (arg_pair source) (λ a. refl) r.args (All-mem _ r.args (λ a _. parse_arg-pair a)))
            (rw (insert_args-new r.args [] h) refl)))

  pub parse_anomalies-node :
      (rs : List AnomalyRule)
      → All (λ r. HasNewKeys [] r.args) rs
      → parse_anomalies {Pest = Pest} {Anyhow = Anyhow}
          (node source Rule.anomaly_section (onto (anomaly_pair source) rs Pairs.done))
        ≡ returns rs
  unfolding parse_anomalies rule_name
  parse_anomalies-node rs h =
      collect-onto Rule.anomaly_rule parse_anomaly_rule (anomaly_pair source) (λ r. refl) rs
        (All-map parse_anomaly_rule-pair rs h)
