-- ===== src/Engine/Run.antt =====
-- crates/statguardian-engine/src/lib.rs: from the text of a contract to the report on a frame.
use stat_guardian.Base.{
  filter, take, sym, ap, ◌∙◌, ◌+◌, true, false, ◌↔◌, ℕ, String, ◌⊎◌, ◌≤◌, inr, ◌≡◌, refl, none,
  List, [], ◌∷◌, length,
}
use stat_guardian.Base.Chars.{as_bytes}
use stat_guardian.Base.Sort.{All, IsSorted}
use stat_guardian.Base.Panic
use stat_guardian.Base.Panic.{MayPanic, returns, panics, hangs}
use stat_guardian.Core.Ast.{DataContract}
use stat_guardian.Core.Dag.{ExecutionDag, node_count}
use stat_guardian.Core.Compiler.{compile}
use stat_guardian.Core.Errors.{CoreError, Outcome, fails, ◌>>=◌}
use stat_guardian.Core.Parser.Tree.{Pairs}
use stat_guardian.Core.Parser.Words.{Numbers}
use stat_guardian.Core.Parser.Contract.{max_input_size, parse_and_compile}
use stat_guardian.Core.Parser.Print.{Source, one, input_pair}
use stat_guardian.Core.Parser.RoundTrip.Contract.{IsReadableContract, parse_and_compile-exact}
use stat_guardian.Validators.Frame.{Floats, Library}
use stat_guardian.Validators.Violation.{Violation, is_blocking}
use stat_guardian.Metrics.Report.{ValidationReport, new_report}
use stat_guardian.Engine.Batch.Execute.{
  execute, run_plan, found_by, drift_from, violation_cmp, reported,
}
use stat_guardian.Engine.Batch.Execute.Findings.{is_of, execute-exact}

returns_inj : {A : Type 0} {a b : A} → MayPanic.returns a ≡ returns b → a ≡ b
returns_inj h = cc h

module _ {Pest Anyhow : Type 0} where
  abbrev pub of_panic : {A : Type 0} → MayPanic A → Outcome Pest Anyhow A
  of_panic (returns a) = Outcome.returns a
  of_panic panics = Outcome.panics
  of_panic hangs = Outcome.hangs

  -- The first contract is run.
  abbrev pub run_first :
      {F64 Report : Type 0}
      → (DataContract F64 → ExecutionDag F64 → MayPanic Report)
      → List (DataContract F64 × ExecutionDag F64)
      → Outcome Pest Anyhow Report
  run_first exec [] = fails (CoreError.compile "no datasets defined in DSL")
  run_first exec ((contract, dag) ∷ _) = of_panic (exec contract dag)

  module _ {F64 Profile : Type 0} (f : Floats F64) (l : Library F64) (F64-discrete : Discrete F64)
      (numbers : Numbers F64) (pest_parse : String → Pest ⊎ Pairs) (too_long : String → Pest)
      (profile : l.Frame → List Profile) (id executed_at : String) (duration_ms : ℕ) where
    unfoldable pub run : String → l.Frame → Outcome Pest Anyhow (ValidationReport F64 Profile)
    unfolding parse_and_compile execute
    run dsl df = do
      pairs ← parse_and_compile numbers pest_parse too_long F64-discrete dsl
      run_first
          (λ contract dag. execute f l profile id executed_at duration_ms contract dag df none)
          pairs

    -- Where the pairs of a text within the maximum are those of some contracts, whose numbers can
    -- be read back and whose rules name no argument twice, and the compiled plan of the first
    -- contract gives its results on the frame, run ends with a report of that contract without
    -- drift results. It holds its violations by column and check, and of each check of a column
    -- exactly the first one found, and it passes exactly if none that it holds is blocking.
    pub run-exact :
        (source : Source F64) (c : DataContract F64) (cs : List (DataContract F64)) (dsl : String)
        (df : l.Frame) (dag_violations : List (Violation F64))
        → All (IsReadableContract source numbers) (c ∷ cs)
        → length (as_bytes dsl) ≤ max_input_size
        → pest_parse dsl ≡ inr (one (input_pair source (c ∷ cs)))
        → run_plan f l df (compile F64-discrete c) ≡ returns dag_violations
        → (report : ValidationReport F64 Profile) × (run dsl df ≡ Outcome.returns report)
          × (report.dataset ≡ c.name)
          × (report.drift_results ≡ [])
          × IsSorted violation_cmp report.violations
          × ((column check : String)
              → filter (is_of column check) report.violations
                ≡ take 1 (filter (is_of column check) (found_by f l df c dag_violations)))
          × ((report.passed ≡ true) ↔ All (λ v. is_blocking v ≡ false) report.violations)
    unfolding run drift_from execute new_report
    run-exact source c cs dsl df dag_violations readable small parsed planned =
        let dag = compile F64-discrete c in
        let (report, ran, sorted, firsts, passes) =
          execute-exact f l profile id executed_at duration_ms c dag df none dag_violations []
            planned refl in
        let made =
          new_report f id executed_at c.name (l.height df)
            (reported (found_by f l df c dag_violations)) [] (profile df)
            (node_count dag + length c.quality_rules) duration_ms in
        let e : report ≡ made =
          returns_inj (sym ran ∙ unfold execute drift_from in (rw (planned, Panic.◌>>=◌) refl)) in
        let read =
          (parse_and_compile-exact source numbers {Anyhow = Anyhow} pest_parse too_long F64-discrete
            (c ∷ cs) dsl readable small parsed).1 in
        (
          report,
          rw read (rw ran refl),
          ap (λ (r : ValidationReport F64 Profile). r.dataset) e,
          ap (λ (r : ValidationReport F64 Profile). r.drift_results) e,
          sorted,
          firsts,
          passes,
        )
