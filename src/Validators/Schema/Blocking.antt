-- ===== src/Validators/Schema/Blocking.antt =====
-- When the schema check finds something blocking.
use stat_guardian.Base.{
  ℕ, String, ◌≡◌, refl, ◌∙◌, ◌⊎◌, inl, inr, ◌↔◌, ⊎_elim, Bool, true, false, not, ◌&&◌, ◌||◌, Option,
  none, some, List, [], ◌∷◌, ◌++◌, Any, Any-nil, Any-cons, arith, Option-cases, ⊎-cases,
}
use stat_guardian.Core.Ast.{Constraint, FieldDef, Severity}
use stat_guardian.Core.Compiler.{has_coerce}
use stat_guardian.Validators.Violation.{
  Violation, new_violation, with_rows, with_values, any_blocking,
}
use stat_guardian.Validators.Frame.{Floats, Library, failing}
use stat_guardian.Validators.Schema.{
  matches_type, rows_violation, check_rows, mistyped, check_type, check_nulls, check_unique,
  check_pattern, check_constraint, check_constraints, validate_field, validate,
}

pub any_blocking-append :
    {F64 : Type 0} (vs ws : List (Violation F64))
    → any_blocking (vs ++ ws) ≡ (any_blocking vs || any_blocking ws)
unfolding any_blocking
any_blocking-append [] ws = refl
any_blocking-append (v ∷ vs) ws = ground (arith, any_blocking-append vs ws)

rows_violation_passes :
    (F64 : Type 0) (col check : String) (message : ℕ → String) (rows : List ℕ)
    → any_blocking {F64 = F64} (rows_violation col check message Severity.error rows) ≡ false
unfolding rows_violation any_blocking with_rows new_violation
rows_violation_passes F64 col check message [] = refl
rows_violation_passes F64 col check message (i ∷ is) = refl

check_rows_passes :
    (F64 : Type 0) {A : Type 0} (col check : String) (message : ℕ → String) (test : A → Bool)
    (o : Option (List (Option A)))
    → any_blocking {F64 = F64} (check_rows col check message Severity.error test o) ≡ false
unfolding check_rows any_blocking
check_rows_passes F64 col check message test none = refl
check_rows_passes F64 col check message test (some vs) =
    rows_violation_passes F64 col check message (failing test vs)

module _ {F64 : Type 0} (f : Floats F64) (l : Library F64) where
  check_pattern_passes :
      (s : l.Series) (col pattern : String) → any_blocking (check_pattern f l s col pattern) ≡ false
  check_pattern_passes s col pattern = elim (⊎-cases (l.compile_pattern pattern)) [
    | inl (e, bad) ↦ unfold check_pattern any_blocking new_violation in rw (bad, check_pattern) refl
    | inr (re, good) ↦
        unfold check_pattern in rw (good, check_pattern) (check_rows_passes F64 _ _ _ _ _)
  ]

  check_constraint_passes :
      (s : l.Series) (col : String) (c : Constraint F64)
      → any_blocking (check_constraint f l s col c) ≡ false
  unfolding check_constraint
  check_constraint_passes s col Constraint.not_null =
      unfold check_nulls any_blocking with_values new_violation in ground arith
  check_constraint_passes s col Constraint.primary_key =
      unfold check_nulls any_blocking with_values new_violation in ground arith
  check_constraint_passes s col Constraint.unique =
      unfold check_unique any_blocking with_values new_violation in ground arith
  check_constraint_passes s col Constraint.positive = check_rows_passes F64 _ _ _ _ _
  check_constraint_passes s col Constraint.negative = check_rows_passes F64 _ _ _ _ _
  check_constraint_passes s col (Constraint.between min max) = check_rows_passes F64 _ _ _ _ _
  check_constraint_passes s col (Constraint.min value) = check_rows_passes F64 _ _ _ _ _
  check_constraint_passes s col (Constraint.max value) = check_rows_passes F64 _ _ _ _ _
  check_constraint_passes s col (Constraint.regex pattern) = check_pattern_passes s col pattern
  check_constraint_passes s col (Constraint.len min max) = check_rows_passes F64 _ _ _ _ _
  check_constraint_passes s col (Constraint.enum values) = check_rows_passes F64 _ _ _ _ _
  check_constraint_passes s col Constraint.coerce = unfold any_blocking in refl
  check_constraint_passes s col (Constraint.foreign_key table column) = unfold any_blocking in refl

  check_constraints_passes :
      (s : l.Series) (cs : List (Constraint F64)) (col : String)
      → any_blocking (check_constraints f l s cs col) ≡ false
  unfolding check_constraints
  check_constraints_passes s [] col = unfold any_blocking in refl
  check_constraints_passes s (c ∷ cs) col = ground (
    arith,
    any_blocking-append (check_constraint f l s col c) (check_constraints f l s cs col),
    check_constraint_passes s col c,
    check_constraints_passes s cs col,
  )

  check_type_blocking :
      (s : l.Series) (field : FieldDef F64)
      → any_blocking (check_type f l s field)
        ≡ (not (matches_type field.data_type (l.dtype s)) && not (has_coerce field.constraints))
  unfolding check_type mistyped any_blocking new_violation
  check_type_blocking s field = ground arith

  -- The column of a field is not there, or has another type and is not to be coerced.
  abbrev pub IsBroken : l.Frame → FieldDef F64 → Type 0
  IsBroken df field =
      (l.column df field.name ≡ none)
      ⊎ ((s : l.Series) × (l.column df field.name ≡ some s)
          × (matches_type field.data_type (l.dtype s) ≡ false)
          × (has_coerce field.constraints ≡ false))

  validate_field_found :
      (df : l.Frame) (field : FieldDef F64) (s : l.Series)
      → l.column df field.name ≡ some s
      → any_blocking (validate_field f l df field)
        ≡ (not (matches_type field.data_type (l.dtype s)) && not (has_coerce field.constraints))
  validate_field_found df field s found =
      let one = check_type f l s field in
      let rest = check_constraints f l s field.constraints field.name in
      let e : any_blocking (one ++ rest) ≡ any_blocking one = ground (
        arith,
        any_blocking-append one rest,
        check_constraints_passes s field.constraints field.name,
      ) in
      unfold validate_field in rw (found, validate_field) (e ∙ check_type_blocking s field)

  validate_field_blocking :
      (df : l.Frame) (field : FieldDef F64)
      → (any_blocking (validate_field f l df field) ≡ true) ↔ IsBroken df field
  validate_field_blocking df field = elim (Option-cases (l.column df field.name)) [
    | inl missing ↦ (
      λ _. inl missing,
      λ _. unfold validate_field any_blocking new_violation in rw (missing, validate_field) refl,
    )
    | inr (s, found) ↦
        let e = validate_field_found df field s found in
        (
          λ h. inr (s, found, ground arith, ground arith),
          ⊎_elim (λ missing. cc (missing, found))
              (λ (s', same, typed, kept).
                let at : s' ≡ s = cc (same, found) in
                let typed' : matches_type field.data_type (l.dtype s) ≡ false = rw at at typed in
                ground arith),
        )
  ]

  -- The schema check finds something blocking exactly if the column of a field is not there, or
  -- has another type and the field is not to be coerced; a constraint never blocks.
  pub validate-blocking_iff :
      (df : l.Frame) (fields : List (FieldDef F64))
      → (any_blocking (validate f l df fields) ≡ true) ↔ Any (IsBroken df) fields
  unfolding validate
  validate-blocking_iff df [] = (λ e. unfold any_blocking in cc e, λ any. absurd (Any-nil _ any))
  validate-blocking_iff df (field ∷ fields) = ground (
    arith,
    any_blocking-append (validate_field f l df field) (validate f l df fields),
    validate_field_blocking df field,
    validate-blocking_iff df fields,
    Any-cons (IsBroken df) field fields,
  )
