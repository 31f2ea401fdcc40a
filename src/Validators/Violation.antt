-- ===== src/Validators/Violation.antt =====
-- crates/statguardian-validators/src/lib.rs. `F64` stands for `f64`.
use stat_guardian.Base.{ℕ, String, Bool, true, false, ◌||◌, Option, none, some, List, [], ◌∷◌}
use stat_guardian.Core.Ast.{Severity}

pub record Violation (F64 : Type 0) : Type 0 where
  pub column : String
  pub check : String
  pub message : String
  pub severity : Severity
  pub row_indices : List ℕ
  pub observed : Option F64
  pub expected : Option F64

-- `== Severity::Blocking`
abbrev pub is_blocking_severity : Severity → Bool
is_blocking_severity Severity.blocking = true
is_blocking_severity _ = false

module _ {F64 : Type 0} where
  unfoldable pub new_violation : (column check message : String) → Severity → Violation F64
  new_violation column check message severity = record {
    column = column;
    check = check;
    message = message;
    severity = severity;
    row_indices = [];
    observed = none;
    expected = none;
  }

  unfoldable pub with_rows : List ℕ → Violation F64 → Violation F64
  with_rows rows v = record v { row_indices = rows }

  unfoldable pub with_values : (observed expected : F64) → Violation F64 → Violation F64
  with_values observed expected v = record v { observed = some observed; expected = some expected }

  unfoldable pub is_blocking : Violation F64 → Bool
  is_blocking v = is_blocking_severity v.severity

  -- `violations.iter().any(|v| v.severity == Severity::Blocking)`
  unfoldable pub any_blocking : List (Violation F64) → Bool
  unfolding is_blocking
  any_blocking [] = false
  any_blocking (v ∷ vs) = is_blocking v || any_blocking vs
