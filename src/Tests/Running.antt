-- ===== src/Tests/Running.antt =====
-- crates/statguardian-engine/src/lib.rs on the text of a small contract.
use stat_guardian.Base.{
  ◌↔◌, true, false, some, filter, take, decimal, ◌≤◌, String, ◌⊎◌, inl, inr, ◌≡◌, refl, none, [],
  ◌∷◌, length, ◌==◌, string_eq, if◌then◌else◌, ℕ_discrete, arith,
}
use stat_guardian.Base.Chars.{as_bytes}
use stat_guardian.Core.Ast.{DataContract, DataType, Constraint, Severity}
use stat_guardian.Base.Dedup.{keep_new}
use stat_guardian.Core.Compiler.{compile, field_nodes, constraint_nodes, push_node}
use stat_guardian.Core.Parser.Tree.{Pairs}
use stat_guardian.Core.Parser.Words.{Numbers}
use stat_guardian.Core.Parser.Print.{Source, one, input_pair}
use stat_guardian.Engine.Batch.Execute.{run_plan, found_by, violation_cmp}
use stat_guardian.Engine.Batch.Execute.Findings.{is_of}
use stat_guardian.Engine.Run.{run, run-exact}
use stat_guardian.Base.Sort.{All, IsSorted, sort_by}
use stat_guardian.Base.Panic.{returns, flat_map}
use stat_guardian.Core.Dag.{column}
use stat_guardian.Core.Dag
use stat_guardian.Core.Errors.{Outcome}
use stat_guardian.Core.Optimizer.{
  push_group, group_by_column, optimize, deduplicate, fuse_null_checks, sort_by_cost, node_cmp,
}
use stat_guardian.Validators.Violation.{
  Violation, any_blocking, is_blocking, with_values, new_violation,
}
use stat_guardian.Metrics.Report.{ValidationReport}
use stat_guardian.Engine.Batch.{execute_node, null_check_on}
use stat_guardian.Tests.Library.{fin, Float, test_floats, test_library, people}

Float-discrete : Discrete Float
Float-discrete = hlevel ℕ_discrete

abbrev float_numbers : Numbers Float
float_numbers = record { parse_f64 = λ _. none; as_usize = λ _. 0 }

abbrev float_source : Source Float
float_source = record { show_f64 = λ _. "0"; show_usize = λ _. "0"; text_of = λ _ _. ".." }

abbrev people_checked : DataContract Float
people_checked = record {
  name = "people";
  schema =
      record { name = "age"; data_type = DataType.float; constraints = Constraint.not_null ∷ [] }
      ∷ [];
  quality_rules = [];
  cross_column_rules = [];
  stats_rules = [];
  anomaly_rules = [];
  stream_config = none;
}

abbrev dsl : String
dsl = "dataset people { schema { age: float, not_null } }"

abbrev pest : String → String ⊎ Pairs
pest s =
    if s == dsl then inr (one (input_pair float_source (people_checked ∷ []))) else inl "syntax"

dsl-fits : length (as_bytes dsl) ≤ 10485760
unfolding as_bytes
dsl-fits = omega arith

abbrev null_age : Violation Float
null_age = record {
  column = "age";
  check = "null_check";
  message = "1 null(s) in 'age'";
  severity = Severity.error;
  row_indices = [];
  observed = some (fin 1);
  expected = some (fin 0);
}

run_plan-checked :
    run_plan test_floats test_library people (compile Float-discrete people_checked)
    ≡ returns (null_age ∷ [])
unfolding run_plan flat_map group_by_column push_group execute_node null_check_on with_values
    new_violation decimal any_blocking column compile optimize deduplicate fuse_null_checks
    sort_by_cost Dag.new sort_by node_cmp Float-discrete keep_new field_nodes Dag.DagNode-discrete
    constraint_nodes push_node
run_plan-checked = refl

run-exact_example :
    (report : ValidationReport Float String) × (run {Anyhow = String} test_floats test_library
        Float-discrete float_numbers pest
        (λ s. s)
        (λ _. [])
        "id"
        "now"
        3
        dsl
        people
      ≡ Outcome.returns report)
    × (report.dataset ≡ "people")
    × (report.drift_results ≡ [])
    × IsSorted violation_cmp report.violations
    × ((column check : String)
        → filter (is_of column check) report.violations
          ≡ take 1 (
              filter
                (is_of column check)
                (found_by test_floats test_library people people_checked (null_age ∷ []))))
    × ((report.passed ≡ true) ↔ All (λ v. is_blocking v ≡ false) report.violations)
run-exact_example =
    run-exact test_floats test_library Float-discrete float_numbers pest (λ s. s) (λ _. []) "id"
      "now" 3 float_source people_checked [] dsl people (null_age ∷ [])
      ((((tt, tt), tt), tt, tt, tt, tt), tt) dsl-fits refl run_plan-checked
