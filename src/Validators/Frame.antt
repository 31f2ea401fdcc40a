-- ===== src/Validators/Frame.antt =====
-- What the checks use of the libraries: data frames (polars), patterns (regex) and `f64`. All of it
-- is a parameter.
pub mod Rows
use mathlib.Core.List.Memᴰ
use stat_guardian.Base.{
  ℕ, zero, suc, ◌+◌, String, ◌≡◌, refl, sym, ap, ◌∙◌, ◌⊎◌, inl, inr, ◌↔◌, Bool, true, false, Option,
  none, some, List, [], ◌∷◌, Memᴰ, Memᴰ-cons, Memᴰ-nil, if◌then◌else◌, arith, Bool-cases,
}
use stat_guardian.Core.Ast.{FloatOps}

-- The types of a column that the code tells apart.
pub data Dtype : Type 0 where
  int8 int16 int32 int64 uint8 uint16 uint32 uint64 float32 float64 : Dtype
  string boolean date datetime binary : Dtype
  other : String → Dtype

-- `literal` is the `f64` that a literal of the source stands for, `of_count` is `as f64` on a
-- `usize`, `floor_count` and `round_count` are `as usize` and `round() as usize`, and `show_f64 f x`
-- is the text of `x` under the format `{f}`.
pub record Floats (F64 : Type 0) : Type 0 where
  pub ops : FloatOps F64
  pub literal : String → F64
  pub of_count : ℕ → F64
  pub add_f64 : F64 → F64 → F64
  pub mul_f64 : F64 → F64 → F64
  pub div_f64 : F64 → F64 → F64
  pub min_f64 : F64 → F64 → F64
  pub max_f64 : F64 → F64 → F64
  pub sqrt_f64 : F64 → F64
  pub ln_f64 : F64 → F64
  pub floor_count : F64 → ℕ
  pub round_count : F64 → ℕ
  pub show_f64 : String → F64 → String

-- `column` is the materialized series of a column, if there is one, and `plain_column` what
-- `as_series` gives, which is none where the column is backed by a scalar. `floats`, `texts` and
-- `bools` are the values that a series has after `cast(Float64)` and `f64()`, under `str()` and
-- under `bool()`, where these succeed; a null is `none`. `n_unique` is `Ok` or not; `std` is
-- `std(1)`.
pub record Library (F64 : Type 0) : Type 1 where
  pub Frame : Type 0
  pub Series : Type 0
  pub Pattern : Type 0
  pub column : Frame → String → Option Series
  pub plain_column : Frame → String → Option Series
  pub height : Frame → ℕ
  pub dtype : Series → Dtype
  pub show_dtype : Dtype → String
  pub series_len : Series → ℕ
  pub null_count : Series → ℕ
  pub n_unique : Series → Option ℕ
  pub floats : Series → Option (List (Option F64))
  pub texts : Series → Option (List (Option String))
  pub bools : Series → Option (List (Option Bool))
  pub mean : List (Option F64) → Option F64
  pub std : List (Option F64) → Option F64
  pub minimum : List (Option F64) → Option F64
  pub maximum : List (Option F64) → Option F64
  pub compile_pattern : String → String ⊎ Pattern
  pub is_match : Pattern → String → Bool

-- `iter().flatten()`
unfoldable pub flatten : {A : Type 0} → List (Option A) → List A
flatten [] = []
flatten (none ∷ vs) = flatten vs
flatten (some v ∷ vs) = v ∷ flatten vs

module _ {A : Type 0} (test : A → Bool) where
  -- `iter().enumerate().filter_map(|(i, v)| v.filter(test).map(|_| i))`, from the index `i` on.
  unfoldable pub failing_from : ℕ → List (Option A) → List ℕ
  failing_from i [] = []
  failing_from i (none ∷ vs) = failing_from (suc i) vs
  failing_from i (some v ∷ vs) =
      let rest = failing_from (suc i) vs in if test v then i ∷ rest else rest

  unfoldable pub failing : List (Option A) → List ℕ
  unfolding failing_from
  failing vs = failing_from 0 vs

-- The value in a row, if the row is there and is no null.
abbrev pub value_at : {A : Type 0} → List (Option A) → ℕ → Option A
value_at [] i = none
value_at (v ∷ vs) zero = v
value_at (v ∷ vs) (suc i) = value_at vs i
