-- ===== src/Validators/Rules/Rows.antt =====
-- The rows that a rule across columns reports.
use stat_guardian.Base.{
  ℕ, zero, suc, ◌+◌, ◌≤◌, ◌<◌, String, ◌≡◌, refl, inl, inr, ◌↔◌, Bool, true, Option, none, some,
  List, [], ◌∷◌, Memᴰ, Memᴰ-cons, Memᴰ-nil, Any, Any-nil, Any-cons, arith, Option-cases,
}
use stat_guardian.Core.Ast.{
  ComparisonOp, evaluate, evaluate_str, evaluate_bool, LiteralValue, CrossColumnRule, Severity,
}
use stat_guardian.Validators.Violation.{Violation, with_rows}
use stat_guardian.Validators.Frame.{Floats, Library, value_at}
use stat_guardian.Validators.Schema.{rows_violation}
use stat_guardian.Validators.Rules.{
  holds_at, row_matches, row_fails, failing_rows, evaluate_rows, evaluate_cross_column_rule,
}

-- The row has a value, and the value passes the test.
abbrev pub HoldsAt : {A : Type 0} → (A → Bool) → Option (List (Option A)) → ℕ → Type 0
HoldsAt test none k = ⊥
HoldsAt test (some vs) k = (v : _) × (value_at vs k ≡ some v) × (test v ≡ true)

holds_at_iff :
    {A : Type 0} (test : A → Bool) (o : Option (List (Option A))) (k : ℕ)
    → (holds_at test o k ≡ true) ↔ HoldsAt test o k
holds_at_iff test none k = (λ e. cc e, λ h. absurd h)
holds_at_iff test (some vs) k = elim (Option-cases (value_at vs k)) [
  | inl null ↦ rw (null, holds_at) (λ e. cc e, λ (v, found, _). cc found)
  | inr (v, found) ↦
      rw (found, holds_at) (λ e. (v, refl, e), λ (w, same, e). let s : w ≡ v = cc same in rw s at e)
]

module _ {F64 : Type 0} (f : Floats F64) (l : Library F64) where
  -- The value in a row, read as the literal's type, is there and compares as the rule says.
  abbrev pub Holds : l.Series → ℕ → ComparisonOp → LiteralValue F64 → Type 0
  Holds s k op (LiteralValue.number n) = HoldsAt (λ v. evaluate f.ops op v n) (l.floats s) k
  Holds s k op (LiteralValue.str t) = HoldsAt (λ v. evaluate_str op v t) (l.texts s) k
  Holds s k op (LiteralValue.bool b) = HoldsAt (λ v. evaluate_bool op v b) (l.bools s) k

  row_matches_iff :
      (s : l.Series) (k : ℕ) (op : ComparisonOp) (value : LiteralValue F64)
      → (row_matches f l s k op value ≡ true) ↔ Holds s k op value
  unfolding row_matches
  row_matches_iff s k op (LiteralValue.number n) = holds_at_iff _ (l.floats s) k
  row_matches_iff s k op (LiteralValue.str t) = holds_at_iff _ (l.texts s) k
  row_matches_iff s k op (LiteralValue.bool b) = holds_at_iff _ (l.bools s) k

  -- The row meets the condition and not the assertion.
  abbrev pub Breaks : (when_series assert_series : l.Series) → CrossColumnRule F64 → ℕ → Type 0
  Breaks w a rule k =
      Holds w k rule.when_op rule.when_value × ¬ Holds a k rule.assert_op rule.assert_value

  row_fails_iff :
      (w a : l.Series) (rule : CrossColumnRule F64) (k : ℕ)
      → (row_fails f l w a rule k ≡ true) ↔ Breaks w a rule k
  unfolding row_fails
  row_fails_iff w a rule k = ground (
    arith,
    row_matches_iff w k rule.when_op rule.when_value,
    row_matches_iff a k rule.assert_op rule.assert_value,
  )

  Memᴰ-failing_rows :
      (w a : l.Series) (rule : CrossColumnRule F64) (i n k : ℕ)
      → Memᴰ k (failing_rows f l w a rule i n)
        ↔ ((i ≤ k) × (k < i + n) × (row_fails f l w a rule k ≡ true))
  unfolding failing_rows
  Memᴰ-failing_rows w a rule i zero k = ground (arith, Memᴰ-nil k)
  Memᴰ-failing_rows w a rule i (suc n) k =
      let rest = failing_rows f l w a rule (suc i) n in
      ground (arith, Memᴰ-failing_rows w a rule (suc i) n k, Memᴰ-cons k i rest)

  -- Some violation lists the row.
  abbrev pub Reports : List (Violation F64) → ℕ → Type 0
  Reports vs k = Any (λ v. Memᴰ k v.row_indices) vs

  rows_violation-Reports :
      (col check : String) (message : ℕ → String) (sev : Severity) (rows : List ℕ) (k : ℕ)
      → Reports (rows_violation col check message sev rows) k ↔ Memᴰ k rows
  unfolding rows_violation with_rows
  rows_violation-Reports col check message sev [] k =
      (λ any. absurd (Any-nil _ any), λ m. absurd (Memᴰ-nil k m))
  rows_violation-Reports col check message sev (i ∷ is) k = (
    λ any. elim ((Any-cons _ _ []).0 any) [ inl m ↦ m | inr later ↦ absurd (Any-nil _ later) ],
    λ m. (Any-cons _ _ []).1 (inl m),
  )

  -- Where both columns are there, a rule across columns reports exactly the rows of the frame
  -- whose value meets the condition and whose value does not meet the assertion; a null meets
  -- nothing.
  pub evaluate_cross_column_rule-exact :
      (df : l.Frame) (rule : CrossColumnRule F64) (w a : l.Series)
      → l.column df rule.when_column ≡ some w
      → l.column df rule.assert_column ≡ some a
      → (k : ℕ)
      → Reports (evaluate_cross_column_rule f l df rule) k ↔ ((k < l.height df) × Breaks w a rule k)
  unfolding evaluate_cross_column_rule evaluate_rows
  evaluate_cross_column_rule-exact df rule w a when_found assert_found k =
      let rows = failing_rows f l w a rule 0 (l.height df) in
      let listed = λ (message : ℕ → String).
        rows_violation-Reports rule.assert_column "cross_column_rule" message rule.severity rows
          k in
      let member = Memᴰ-failing_rows w a rule 0 (l.height df) k in
      let fails = row_fails_iff w a rule k in
      rw (when_found, evaluate_cross_column_rule)
        (rw (assert_found, evaluate_cross_column_rule)
          (
            λ any. let (lo, hi, e) = member.0 ((listed _).0 any) in (omega arith, fails.0 e),
            λ (lt, breaks). (listed _).1 (member.1 (omega arith, omega arith, fails.1 breaks)),
          ))
