-- ===== src/Validators/Schema/Meaning.antt =====
-- What it takes of a data frame that the schema check finds nothing.
use stat_guardian.Base.{
  ℕ, ◌≤◌, String, ◌≡◌, refl, inl, inr, ◌↔◌, Bool, true, false, not, ◌||◌, Option, none, some, List,
  [], ◌∷◌, ◌++◌, Memᴰ, arith, Option-cases, ⊎-cases, nat_eq, string_eq, contains_iff,
}
use stat_guardian.Base.Sort.{All}
use stat_guardian.Core.Ast.{Constraint, FieldDef, Severity}
use stat_guardian.Validators.Frame.{Floats, Library, failing, value_at}
use stat_guardian.Validators.Frame.Rows.{failing-nil}
use stat_guardian.Validators.Schema.{
  matches_type, rows_violation, check_rows, unwrap_or, byte_len, check_type, check_nulls,
  check_unique, check_pattern, check_constraint, check_constraints, validate_field, validate,
}

append-nil_iff {ℓ} : {A : Type ℓ} (xs ys : List A) → (xs ++ ys ≡ []) ↔ ((xs ≡ []) × (ys ≡ []))
append-nil_iff [] ys = (λ e. (refl, e), λ (_, e). e)
append-nil_iff (x ∷ xs) ys = (λ e. cc e, λ (e, _). cc e)

-- Every value of the column has the property; a column without values of the type has none.
abbrev pub EachValue : {A : Type 0} → (A → Type 0) → Option (List (Option A)) → Type 0
EachValue P none = Unit
EachValue P (some vs) = (i : ℕ) (v : _) → value_at vs i ≡ some v → P v

rows_violation-nil :
    {F64 : Type 0} (col check : String) (message : ℕ → String) (sev : Severity) (rows : List ℕ)
    → (rows_violation {F64 = F64} col check message sev rows ≡ []) ↔ (rows ≡ [])
unfolding rows_violation
rows_violation-nil col check message sev [] = (λ _. refl, λ _. refl)
rows_violation-nil col check message sev (i ∷ is) = (λ e. cc e, λ e. cc e)

check_rows-nil :
    {F64 A : Type 0} (P : A → Type 0) (col check : String) (message : ℕ → String) (sev : Severity)
    (test : A → Bool) (o : Option (List (Option A)))
    → ((a : A) → (test a ≡ false) ↔ P a)
    → (check_rows {F64 = F64} col check message sev test o ≡ []) ↔ EachValue P o
unfolding check_rows
check_rows-nil P col check message sev test none same = (λ _. tt, λ _. refl)
check_rows-nil P col check message sev test (some vs) same =
    let shown = rows_violation-nil col check message sev (failing test vs) in
    let clean = failing-nil test vs in
    (
      λ e i v at. (same v).0 (clean.0 (shown.0 e) i v at),
      λ h. shown.1 (clean.1 (λ i v at. (same v).1 (h i v at))),
    )

self_iff {ℓ} : {P : Type ℓ} → P ↔ P
self_iff = (λ p. p, λ p. p)

not-false_iff : (b : Bool) → (not b ≡ false) ↔ (b ≡ true)
not-false_iff b = ground arith

or-false_iff : (a b : Bool) → ((a || b) ≡ false) ↔ ((a ≡ false) × (b ≡ false))
or-false_iff a b = ground arith

module _ {F64 : Type 0} (f : Floats F64) (l : Library F64) where
  open f use {ops, literal}
  open ops use {lt_f64, le_f64}

  -- What a constraint asks of a column.
  abbrev pub IsMet : l.Series → Constraint F64 → Type 0
  IsMet s Constraint.not_null = l.null_count s ≡ 0
  IsMet s Constraint.primary_key = l.null_count s ≡ 0
  IsMet s Constraint.unique = unwrap_or 0 (l.n_unique s) ≡ l.series_len s
  IsMet s Constraint.positive = EachValue (λ x. le_f64 x (literal "0.0") ≡ false) (l.floats s)
  IsMet s Constraint.negative = EachValue (λ x. le_f64 (literal "0.0") x ≡ false) (l.floats s)
  IsMet s (Constraint.between min max) =
      EachValue (λ x. (lt_f64 x min ≡ false) × (lt_f64 max x ≡ false)) (l.floats s)
  IsMet s (Constraint.min value) = EachValue (λ x. lt_f64 x value ≡ false) (l.floats s)
  IsMet s (Constraint.max value) = EachValue (λ x. lt_f64 value x ≡ false) (l.floats s)
  IsMet s (Constraint.regex pattern) =
      (re : l.Pattern) × (l.compile_pattern pattern ≡ inr re)
      × EachValue (λ t. l.is_match re t ≡ true) (l.texts s)
  IsMet s (Constraint.len min max) =
      EachValue (λ t. (min ≤ byte_len t) × (byte_len t ≤ max)) (l.texts s)
  IsMet s (Constraint.enum values) = EachValue (λ t. Memᴰ t values) (l.texts s)
  IsMet s Constraint.coerce = Unit
  IsMet s (Constraint.foreign_key table column) = Unit

  check_nulls-nil :
      (s : l.Series) (col : String) → (check_nulls f l s col ≡ []) ↔ (l.null_count s ≡ 0)
  unfolding check_nulls
  check_nulls-nil s col = ground arith

  check_unique-nil :
      (s : l.Series) (col : String) → (check_unique f l s col ≡ []) ↔ IsMet s Constraint.unique
  unfolding check_unique
  check_unique-nil s col = ground arith

  matched :
      (s : l.Series) (re : l.Pattern) (col check : String) (message : ℕ → String) (sev : Severity)
      → (check_rows {F64 = F64} col check message sev (λ t. not (l.is_match re t)) (l.texts s) ≡ [])
        ↔ EachValue (λ t. l.is_match re t ≡ true) (l.texts s)
  matched s re col check message sev =
      check_rows-nil _ col check message sev _ (l.texts s) (λ t. not-false_iff (l.is_match re t))

  check_pattern-nil :
      (s : l.Series) (col pattern : String)
      → (check_pattern f l s col pattern ≡ []) ↔ IsMet s (Constraint.regex pattern)
  unfolding check_pattern
  check_pattern-nil s col pattern = elim (⊎-cases (l.compile_pattern pattern)) [
    | inl (e, bad) ↦ rw (bad, check_pattern) (λ h. cc h, λ (re, good, _). cc (bad, good))
    | inr (re, good) ↦
        rw (good, check_pattern)
          (
            λ h. (re, refl, (matched s re _ _ _ _).0 h),
            λ (re', same, h). let e : re' ≡ re = cc same in (matched s re _ _ _ _).1 (rw e at h),
          )
  ]

  check_constraint-nil :
      (s : l.Series) (col : String) (c : Constraint F64)
      → (check_constraint f l s col c ≡ []) ↔ IsMet s c
  unfolding check_constraint
  check_constraint-nil s col Constraint.not_null = check_nulls-nil s col
  check_constraint-nil s col Constraint.primary_key = check_nulls-nil s col
  check_constraint-nil s col Constraint.unique = check_unique-nil s col
  check_constraint-nil s col Constraint.positive =
      check_rows-nil _ _ _ _ _ _ (l.floats s) (λ x. self_iff)
  check_constraint-nil s col Constraint.negative =
      check_rows-nil _ _ _ _ _ _ (l.floats s) (λ x. self_iff)
  check_constraint-nil s col (Constraint.between min max) =
      check_rows-nil _ _ _ _ _ _ (l.floats s) (λ x. or-false_iff (lt_f64 x min) (lt_f64 max x))
  check_constraint-nil s col (Constraint.min value) =
      check_rows-nil _ _ _ _ _ _ (l.floats s) (λ x. self_iff)
  check_constraint-nil s col (Constraint.max value) =
      check_rows-nil _ _ _ _ _ _ (l.floats s) (λ x. self_iff)
  check_constraint-nil s col (Constraint.regex pattern) = check_pattern-nil s col pattern
  check_constraint-nil s col (Constraint.len min max) =
      check_rows-nil _ _ _ _ _ _ (l.texts s) (λ t. ground arith)
  check_constraint-nil s col (Constraint.enum values) =
      check_rows-nil _ _ _ _ _ _ (l.texts s) (λ t. ground (arith, contains_iff values t))
  check_constraint-nil s col Constraint.coerce = (λ _. tt, λ _. refl)
  check_constraint-nil s col (Constraint.foreign_key table column) = (λ _. tt, λ _. refl)

  check_constraints-nil :
      (s : l.Series) (cs : List (Constraint F64)) (col : String)
      → (check_constraints f l s cs col ≡ []) ↔ All (IsMet s) cs
  unfolding check_constraints
  check_constraints-nil s [] col = (λ _. tt, λ _. refl)
  check_constraints-nil s (c ∷ cs) col =
      let parts = append-nil_iff (check_constraint f l s col c) (check_constraints f l s cs col) in
      let (to, back) = check_constraint-nil s col c in
      let (to', back') = check_constraints-nil s cs col in
      (
        λ e. let (one, rest) = parts.0 e in (to one, to' rest),
        λ (met, all). parts.1 (back met, back' all),
      )

  check_type-nil :
      (s : l.Series) (field : FieldDef F64)
      → (check_type f l s field ≡ []) ↔ (matches_type field.data_type (l.dtype s) ≡ true)
  unfolding check_type
  check_type-nil s field = ground arith

  -- The column of a field is there, has its type and meets its constraints.
  abbrev pub IsValid : l.Frame → FieldDef F64 → Type 0
  IsValid df field =
      (s : l.Series) × (l.column df field.name ≡ some s)
      × (matches_type field.data_type (l.dtype s) ≡ true)
      × All (IsMet s) field.constraints

  validate_field-nil :
      (df : l.Frame) (field : FieldDef F64) → (validate_field f l df field ≡ []) ↔ IsValid df field
  unfolding validate_field
  validate_field-nil df field = elim (Option-cases (l.column df field.name)) [
    | inl missing ↦
        rw (missing, validate_field) (λ e. cc e, λ (s, found, _, _). cc (missing, found))
    | inr (s, found) ↦
        let parts =
          append-nil_iff (check_type f l s field)
            (check_constraints f l s field.constraints field.name) in
        let typed = check_type-nil s field in
        let met = check_constraints-nil s field.constraints field.name in
        rw (found, validate_field)
          (
            λ e. let (one, rest) = parts.0 e in (s, refl, typed.0 one, met.0 rest),
            λ (s', same, t, all).
                let e : s' ≡ s = cc same in parts.1 (typed.1 (rw e at t), met.1 (rw e at all)),
          )
  ]

  -- The schema check finds nothing exactly if the column of every field is there, has its type,
  -- and meets each constraint: no null, no duplicate, every value in its bounds, matched by the
  -- pattern, of a length within the limits, in the list.
  pub validate-nil_iff :
      (df : l.Frame) (fields : List (FieldDef F64))
      → (validate f l df fields ≡ []) ↔ All (IsValid df) fields
  unfolding validate
  validate-nil_iff df [] = (λ _. tt, λ _. refl)
  validate-nil_iff df (field ∷ fields) =
      let parts = append-nil_iff (validate_field f l df field) (validate f l df fields) in
      let (to, back) = validate_field-nil df field in
      let (to', back') = validate-nil_iff df fields in
      (
        λ e. let (one, rest) = parts.0 e in (to one, to' rest),
        λ (valid, all). parts.1 (back valid, back' all),
      )
