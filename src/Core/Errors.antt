-- ===== src/Core/Errors.antt =====
-- crates/statguardian-core/src/error.rs, and code that gives one of these errors, panics or does not end.
use stat_guardian.Base.{String}

-- `Pest` and `Anyhow` stand for the errors of these packages.
pub data CoreError (Pest Anyhow : Type 0) : Type 0 where
  parse : Pest → CoreError Pest Anyhow
  compile : (message : String) → CoreError Pest Anyhow
  unsupported : String → CoreError Pest Anyhow
  unknown_column : (column : String) → CoreError Pest Anyhow
  type_mismatch : (column actual expected : String) → CoreError Pest Anyhow
  other : Anyhow → CoreError Pest Anyhow

-- `CoreResult`, for code that may panic or not end.
pub data Outcome (Pest Anyhow : Type 0) (A : Type 0) : Type 0 where
  returns : A → Outcome Pest Anyhow A
  fails : CoreError Pest Anyhow → Outcome Pest Anyhow A
  panics hangs : Outcome Pest Anyhow A

infixl 5 ◌>>=◌
abbrev pub ◌>>=◌ :
    {Pest Anyhow A B : Type 0}
    → Outcome Pest Anyhow A
    → (A → Outcome Pest Anyhow B)
    → Outcome Pest Anyhow B
returns a >>= f = f a
fails e >>= f = fails e
panics >>= f = panics
hangs >>= f = hangs
