-- ===== src/Tests/Checks.antt =====
-- The checks of crates/statguardian-validators and the engine on a frame of four people.
use stat_guardian.Base.{
  ◌<◌, String, ◌≡◌, refl, ◌↔◌, true, false, none, some, [], ◌∷◌, filter, take, Any, decimal, nat_eq,
}
use stat_guardian.Base.Sort.{sort_by, All, IsSorted}
use stat_guardian.Base.Panic.{hangs, returns, flat_map}
use stat_guardian.Base.{Option, List, Memᴰ}
use stat_guardian.Validators.Frame.{flatten}
use stat_guardian.Stats.Profiler.{quantile_manual}
use stat_guardian.Stats.Profiler.Quantiles.{HasRank, quantile_manual-HasRank}
use stat_guardian.Core.Ast.{
  Constraint, FieldDef, DataType, Severity, CrossColumnRule, LiteralValue, ComparisonOp,
  DataContract,
}
use stat_guardian.Core.Dag.{DagNode, null_check, range_check, ExecutionDag, column}
use stat_guardian.Core.Optimizer.{push_group, group_by_column}
use stat_guardian.Validators.Violation.{
  Violation, any_blocking, is_blocking, with_values, new_violation,
}
use stat_guardian.Validators.Schema.{validate, check_rows}
use stat_guardian.Validators.Frame.{failing}
use stat_guardian.Validators.Schema.Meaning.{IsValid, validate-nil_iff}
use stat_guardian.Validators.Schema.Blocking.{IsBroken, validate-blocking_iff}
use stat_guardian.Validators.Rules.{evaluate_cross_column_rule}
use stat_guardian.Validators.Rules.Rows.{Breaks, Reports, evaluate_cross_column_rule-exact}
use stat_guardian.Stats.Drift.{ks_values, ks_statistic}
use stat_guardian.Stats.Drift.Ends.{ks_values-ends, ks_values_hangs}
use stat_guardian.Metrics.Report.{ValidationReport}
use stat_guardian.Engine.Batch.{execute_node, range_check_on, null_check_on}
use stat_guardian.Engine.Batch.Execute.{run_plan, drift_from, found_by, violation_cmp, execute}
use stat_guardian.Engine.Batch.Execute.Findings.{is_of, execute-exact}
use stat_guardian.Tests.Library.{
  Float, fin, nan, test_floats, test_library, test_ieee, test_linear, nan-IsNan, numbers, words,
  people,
}

abbrev age_field : FieldDef Float
age_field = record {
  name = "age";
  data_type = DataType.float;
  constraints = Constraint.not_null ∷ Constraint.between (fin 18) (fin 120) ∷ [];
}

abbrev name_field : FieldDef Float
name_field = record { name = "name"; data_type = DataType.string; constraints = [] }

validate-nil_iff_example :
    (validate test_floats test_library people (age_field ∷ []) ≡ [])
    ↔ All (IsValid test_floats test_library people) (age_field ∷ [])
validate-nil_iff_example = validate-nil_iff test_floats test_library people (age_field ∷ [])

validate-blocking_iff_example :
    (any_blocking (validate test_floats test_library people (age_field ∷ name_field ∷ [])) ≡ true)
    ↔ Any (IsBroken test_floats test_library people) (age_field ∷ name_field ∷ [])
validate-blocking_iff_example =
    validate-blocking_iff test_floats test_library people (age_field ∷ name_field ∷ [])

-- In the UK all are of age.
abbrev of_age : CrossColumnRule Float
of_age = record {
  assert_column = "age";
  assert_op = ComparisonOp.gte;
  assert_value = LiteralValue.number (fin 18);
  when_column = "country";
  when_op = ComparisonOp.eq;
  when_value = LiteralValue.str "UK";
  severity = Severity.error;
}

evaluate_cross_column_rule-exact_example :
    Reports test_floats test_library
      (evaluate_cross_column_rule test_floats test_library people of_age)
      1
    ↔ ((1 < 4)
        × Breaks test_floats test_library
            (words (some "UK" ∷ some "UK" ∷ some "DE" ∷ some "DE" ∷ []))
            (numbers (some (fin 30) ∷ some (fin 17) ∷ none ∷ some (fin 45) ∷ []))
            of_age
            1)
evaluate_cross_column_rule-exact_example =
    evaluate_cross_column_rule-exact test_floats test_library people of_age
      (words (some "UK" ∷ some "UK" ∷ some "DE" ∷ some "DE" ∷ []))
      (numbers (some (fin 30) ∷ some (fin 17) ∷ none ∷ some (fin 45) ∷ [])) refl refl 1

ks_values-ends_example :
    (d : Float) × (ks_values test_floats 5 (fin 3 ∷ fin 1 ∷ []) (fin 2 ∷ fin 2 ∷ [])
      ≡ returns (some d))
ks_values-ends_example =
    ks_values-ends test_floats test_ieee (fin 3 ∷ fin 1 ∷ []) (fin 2 ∷ fin 2 ∷ [])
      (refl, (refl, tt)) (refl, (refl, tt))

ks_values_hangs_example : ks_values test_floats 100 (nan ∷ []) (fin 2 ∷ []) ≡ returns none
ks_values_hangs_example = ks_values_hangs test_floats nan nan-IsNan (fin 2) [] (refl, tt) 100

abbrev null_node : DagNode Float
null_node = null_check "age" Severity.blocking

abbrev range_node : DagNode Float
range_node = range_check "age" (some (fin 10)) none Severity.error

abbrev null_found : Violation Float
null_found = record {
  column = "age";
  check = "null_check";
  message = "1 null(s) in 'age'";
  severity = Severity.blocking;
  row_indices = [];
  observed = some (fin 1);
  expected = some (fin 0);
}

flat_map_range :
    flat_map (execute_node test_floats test_library people) (range_node ∷ []) ≡ returns []
unfolding flat_map execute_node range_check_on check_rows failing
flat_map_range = refl

execute_node_nulls :
    execute_node test_floats test_library people null_node ≡ returns (null_found ∷ [])
unfolding execute_node null_check_on with_values new_violation decimal
execute_node_nulls = refl

blocks : any_blocking (null_found ∷ []) ≡ true
unfolding any_blocking
blocks = refl

passes : any_blocking {F64 = Float} [] ≡ false
unfolding any_blocking
passes = refl

abbrev people_contract : DataContract Float
people_contract = record {
  name = "people";
  schema = age_field ∷ [];
  quality_rules = [];
  cross_column_rules = of_age ∷ [];
  stats_rules = [];
  anomaly_rules = [];
  stream_config = none;
}

abbrev people_plan : ExecutionDag Float
people_plan = record {
  nodes = range_node ∷ null_node ∷ range_node ∷ [];
  referenced_columns = "age" ∷ [];
}

run_plan-people : run_plan test_floats test_library people people_plan ≡ returns (null_found ∷ [])
unfolding run_plan flat_map group_by_column push_group execute_node range_check_on null_check_on
    check_rows failing with_values new_violation decimal any_blocking column
run_plan-people = refl

drift_from-none : drift_from test_floats test_library people none people_contract ≡ returns []
unfolding drift_from
drift_from-none = refl

execute-exact_example :
    (report : ValidationReport Float String) × (execute test_floats test_library
        (λ _. [])
        "id"
        "now"
        3
        people_contract
        people_plan
        people
        none
      ≡ returns report)
    × IsSorted violation_cmp report.violations
    × ((column check : String)
        → filter (is_of column check) report.violations
          ≡ take 1 (
              filter
                (is_of column check)
                (found_by test_floats test_library people people_contract (null_found ∷ []))))
    × ((report.passed ≡ true) ↔ All (λ v. is_blocking v ≡ false) report.violations)
execute-exact_example =
    execute-exact test_floats test_library (λ _. []) "id" "now" 3 people_contract people_plan people
      none (null_found ∷ []) [] run_plan-people drift_from-none

abbrev ages : List (Option Float)
ages = some (fin 4) ∷ none ∷ some (fin 1) ∷ []

quantile_manual-HasRank_example :
    (x : Float) × (quantile_manual test_floats ages (fin 0) ≡ some x)
    × Memᴰ x (flatten ages)
    × HasRank test_floats 0 x (flatten ages)
unfolding flatten
quantile_manual-HasRank_example =
    quantile_manual-HasRank test_floats test_linear ages (fin 0) (fin 4) 0 (Memᴰ.head refl)
      (refl, (refl, tt)) refl

-- A drift rule on a reference whose only value is a NaN does not end.
ks_statistic_hangs :
    ks_statistic test_floats test_library (numbers (some nan ∷ [])) (numbers (some (fin 2) ∷ []))
    ≡ hangs
unfolding ks_statistic sort_by
ks_statistic_hangs = refl
