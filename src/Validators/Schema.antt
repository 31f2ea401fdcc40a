-- ===== src/Validators/Schema.antt =====
-- crates/statguardian-validators/src/schema.rs: the type and the constraints of each field.
pub mod Meaning
pub mod Blocking
use Prim.Native.String.{◌++◌ as ◌<>◌}
use stat_guardian.Base.{
  ℕ, ◌-◌, String, Bool, true, false, not, ◌||◌, ◌⊎◌, inl, inr, Option, none, some, List, [], ◌∷◌,
  ◌++◌, length, ltb, ◌==◌, nat_eq, string_eq, contains, decimal, if◌then◌else◌,
}
use stat_guardian.Base.Chars.{as_bytes}
use stat_guardian.Core.Ast.{DataType, type_name, Constraint, FieldDef, Severity}
use stat_guardian.Core.Compiler.{has_coerce}
use stat_guardian.Validators.Violation.{Violation, new_violation, with_rows, with_values}
use stat_guardian.Validators.Frame.{Dtype, Floats, Library, failing}

abbrev pub is_integer : Dtype → Bool
is_integer Dtype.int8 = true
is_integer Dtype.int16 = true
is_integer Dtype.int32 = true
is_integer Dtype.int64 = true
is_integer Dtype.uint8 = true
is_integer Dtype.uint16 = true
is_integer Dtype.uint32 = true
is_integer Dtype.uint64 = true
is_integer _ = false

unfoldable pub matches_type : DataType → Dtype → Bool
matches_type DataType.int d = is_integer d
matches_type DataType.float Dtype.float32 = true
matches_type DataType.float Dtype.float64 = true
matches_type DataType.string Dtype.string = true
matches_type DataType.bool Dtype.boolean = true
matches_type DataType.date Dtype.date = true
matches_type DataType.datetime Dtype.datetime = true
matches_type DataType.bytes Dtype.binary = true
matches_type _ d = false

module _ {F64 : Type 0} where
  -- A violation with the rows that fail, if there are any.
  unfoldable pub rows_violation :
      (column check : String) → (message : ℕ → String) → Severity → List ℕ → List (Violation F64)
  rows_violation col check message severity [] = []
  rows_violation col check message severity (i ∷ is) =
      with_rows (i ∷ is) (new_violation col check (message (length (i ∷ is))) severity) ∷ []

  -- The rows whose values fail a test, of a column that has values of the type.
  unfoldable pub check_rows :
      {A : Type 0}
      → (column check : String) → (message : ℕ → String) → Severity
      → (A → Bool)
      → Option (List (Option A))
      → List (Violation F64)
  unfolding rows_violation
  check_rows col check message severity test none = []
  check_rows col check message severity test (some vs) =
      rows_violation col check message severity (failing test vs)

-- `str::len`
unfoldable pub byte_len : String → ℕ
unfolding as_bytes
byte_len s = length (as_bytes s)

abbrev pub unwrap_or : {A : Type 0} → A → Option A → A
unwrap_or a none = a
unwrap_or a (some b) = b

module _ {F64 : Type 0} (f : Floats F64) (l : Library F64) where
  open f use {ops, literal, of_count, show_f64}
  open ops use {lt_f64, le_f64}

  unfoldable pub mistyped : l.Series → FieldDef F64 → Violation F64
  mistyped series field =
      new_violation field.name "type_check"
        ("column '"
          <> field.name
          <> "' has dtype "
          <> l.show_dtype (l.dtype series)
          <> ", expected "
          <> type_name field.data_type)
        (if has_coerce field.constraints then Severity.warning else Severity.blocking)

  unfoldable pub check_type : l.Series → FieldDef F64 → List (Violation F64)
  unfolding mistyped
  check_type series field =
      if matches_type field.data_type (l.dtype series) then [] else mistyped series field ∷ []

  unfoldable pub check_nulls : l.Series → (column : String) → List (Violation F64)
  check_nulls series col =
      let n = l.null_count series in
      if ltb 0 n
      then with_values (of_count n) (literal "0.0") (
          new_violation col "not_null" (decimal n <> " null value(s) in '" <> col <> "'")
            Severity.error)
        ∷ []
      else []

  -- A series has at most as many distinct values as rows, so the difference is that of `usize`.
  unfoldable pub check_unique : l.Series → (column : String) → List (Violation F64)
  check_unique series col =
      let n_unique = unwrap_or 0 (l.n_unique series) in
      let n_total = l.series_len series in
      if n_unique == n_total
      then []
      else with_values (of_count n_unique) (of_count n_total) (
          new_violation col "uniqueness"
            (decimal (n_total - n_unique) <> " duplicate(s) in '" <> col <> "'") Severity.error)
        ∷ []

  unfoldable pub check_pattern : l.Series → (column pattern : String) → List (Violation F64)
  check_pattern series col pattern = elim (l.compile_pattern pattern) [
    | inl e ↦
        new_violation col "regex" ("invalid pattern '" <> pattern <> "': " <> e) Severity.error ∷ []
    | inr re ↦
        check_rows col "regex"
          (λ n. decimal n <> " value(s) don't match '" <> pattern <> "' in '" <> col <> "'")
          Severity.error (λ s. not (l.is_match re s)) (l.texts series)
  ]

  -- The `match` on a constraint.
  unfoldable pub check_constraint :
      l.Series → (column : String) → Constraint F64 → List (Violation F64)
  check_constraint series col Constraint.not_null = check_nulls series col
  check_constraint series col Constraint.primary_key = check_nulls series col
  check_constraint series col Constraint.unique = check_unique series col
  check_constraint series col Constraint.positive =
      check_rows col "positive" (λ n. decimal n <> " non-positive value(s) in '" <> col <> "'")
        Severity.error (λ x. le_f64 x (literal "0.0")) (l.floats series)
  check_constraint series col Constraint.negative =
      check_rows col "negative" (λ n. decimal n <> " non-negative value(s) in '" <> col <> "'")
        Severity.error (λ x. le_f64 (literal "0.0") x) (l.floats series)
  check_constraint series col (Constraint.between min max) =
      check_rows col "between"
        (λ n.
          decimal n
          <> " value(s) outside ["
          <> show_f64 "" min
          <> ","
          <> show_f64 "" max
          <> "] in '"
          <> col
          <> "'")
        Severity.error (λ x. lt_f64 x min || lt_f64 max x) (l.floats series)
  check_constraint series col (Constraint.min value) =
      check_rows col "min"
        (λ n. decimal n <> " value(s) below min=" <> show_f64 "" value <> " in '" <> col <> "'")
        Severity.error (λ x. lt_f64 x value) (l.floats series)
  check_constraint series col (Constraint.max value) =
      check_rows col "max"
        (λ n. decimal n <> " value(s) above max=" <> show_f64 "" value <> " in '" <> col <> "'")
        Severity.error (λ x. lt_f64 value x) (l.floats series)
  check_constraint series col (Constraint.regex pattern) = check_pattern series col pattern
  check_constraint series col (Constraint.len min max) =
      check_rows col "len"
        (λ n.
          decimal n
          <> " value(s) with length outside ["
          <> decimal min
          <> ","
          <> decimal max
          <> "] in '"
          <> col
          <> "'")
        Severity.error (λ s. ltb (byte_len s) min || ltb max (byte_len s)) (l.texts series)
  check_constraint series col (Constraint.enum values) =
      check_rows col "enum" (λ n. decimal n <> " value(s) not in allowed set in '" <> col <> "'")
        Severity.error (λ s. not (contains values s)) (l.texts series)
  check_constraint series col Constraint.coerce = []
  check_constraint series col (Constraint.foreign_key table column) = []

  unfoldable pub check_constraints :
      l.Series → List (Constraint F64) → (column : String) → List (Violation F64)
  check_constraints series [] col = []
  check_constraints series (c ∷ cs) col =
      check_constraint series col c ++ check_constraints series cs col

  -- The body of the loop.
  unfoldable pub validate_field : l.Frame → FieldDef F64 → List (Violation F64)
  unfolding check_type check_constraints
  validate_field df field = elim (l.column df field.name) [
    | none ↦
        new_violation field.name "column_exists"
          ("column '" <> field.name <> "' not found in dataset") Severity.blocking
        ∷ []
    | some series ↦ check_type series field ++ check_constraints series field.constraints field.name
  ]

  unfoldable pub validate : l.Frame → List (FieldDef F64) → List (Violation F64)
  unfolding validate_field
  validate df [] = []
  validate df (field ∷ fields) = validate_field df field ++ validate df fields
