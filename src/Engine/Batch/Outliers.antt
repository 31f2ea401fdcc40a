-- ===== src/Engine/Batch/Outliers.antt =====
-- `detect_outliers` of crates/statguardian-engine/src/batch.rs.
use Prim.Native.String.{◌++◌ as ◌<>◌}
use stat_guardian.Base.{
  ℕ, ◌+◌, ◌*◌, ◌/◌, String, Bool, ◌||◌, Option, none, some, List, [], ◌∷◌, length, map, ◌==◌,
  string_eq, decimal, if◌then◌else◌,
}
use stat_guardian.Base.Panic.{MayPanic, returns, panics, ◌>>=◌}
use stat_guardian.Core.Ast.{Severity}
use stat_guardian.Validators.Violation.{Violation}
use stat_guardian.Validators.Frame.{Floats, Library}
use stat_guardian.Validators.Schema.{rows_violation}
use stat_guardian.Stats.Floats.{get_elem?, sort_floats}

-- `iter().enumerate().filter_map(|(i, v)| v.map(|x| (i, x)))`
unfoldable pub numbered : {A : Type 0} → ℕ → List (Option A) → List (ℕ × A)
numbered i [] = []
numbered i (none ∷ vs) = numbered (i + 1) vs
numbered i (some v ∷ vs) = (i, v) ∷ numbered (i + 1) vs

module _ {F64 : Type 0} where
  unfoldable pub select : (F64 → Bool) → List (ℕ × F64) → List ℕ
  select test [] = []
  select test ((i, x) ∷ vals) = let rest = select test vals in if test x then i ∷ rest else rest

  -- An index out of bounds panics.
  abbrev pub at_index : List F64 → ℕ → MayPanic F64
  at_index xs i = elim (get_elem? xs i) [ none ↦ panics | some x ↦ returns x ]

module _ {F64 : Type 0} (f : Floats F64) where
  open f use {ops, literal, of_count, add_f64, mul_f64, div_f64, max_f64, sqrt_f64}
  open ops use {lt_f64, sub_f64, abs_f64, epsilon}

  unfoldable pub iqr_outliers : List (ℕ × F64) → MayPanic (List ℕ)
  unfolding select sort_floats get_elem?
  iqr_outliers vals = do
    sorted ← sort_floats f (map (λ v. v.1) vals)
    q1 ← at_index sorted (length sorted / 4)
    q3 ← at_index sorted (3 * length sorted / 4)
    let iqr = sub_f64 q3 q1
    let lo = sub_f64 q1 (mul_f64 (literal "1.5") iqr)
    let hi = add_f64 q3 (mul_f64 (literal "1.5") iqr)
    returns (select (λ x. lt_f64 x lo || lt_f64 hi x) vals)

  unfoldable pub sum_of : (F64 → F64) → F64 → List (ℕ × F64) → F64
  sum_of term sum [] = sum
  sum_of term sum ((i, x) ∷ vals) = sum_of term (add_f64 sum (term x)) vals

  -- `powi(2)` is the product.
  unfoldable pub zscore_outliers : List (ℕ × F64) → List ℕ
  unfolding select sum_of
  zscore_outliers vals =
      let n = of_count (length vals) in
      let mean = div_f64 (sum_of (λ x. x) (literal "0.0") vals) n in
      let square = λ (x : F64). mul_f64 (sub_f64 x mean) (sub_f64 x mean) in
      let variance = div_f64 (sum_of square (literal "0.0") vals) (sub_f64 n (literal "1.0")) in
      let std = max_f64 (sqrt_f64 variance) epsilon in
      select (λ x. lt_f64 (literal "3.0") (abs_f64 (div_f64 (sub_f64 x mean) std))) vals

  unfoldable pub outlier_indices : String → List (ℕ × F64) → MayPanic (List ℕ)
  unfolding iqr_outliers zscore_outliers
  outlier_indices method vals =
      if method == "iqr"
      then iqr_outliers vals
      else if method == "zscore"
      then returns (zscore_outliers vals)
      else returns []

  unfoldable pub outlier_violations :
      (column method : String) → Severity → List (ℕ × F64) → MayPanic (List (Violation F64))
  unfolding outlier_indices rows_violation
  outlier_violations column method severity [] = returns []
  outlier_violations column method severity (v ∷ vals) = do
    rows ← outlier_indices method (v ∷ vals)
    returns (
        rows_violation column "outlier_detection"
          (λ n. decimal n <> " outlier(s) in '" <> column <> "' (method=" <> method <> ")") severity
          rows)

  module _ (l : Library F64) where
    unfoldable pub series_outliers :
        (column method : String) → Severity → l.Series → MayPanic (List (Violation F64))
    unfolding outlier_violations numbered
    series_outliers column method severity s = elim (l.floats s) [
      | none ↦ returns []
      | some ca ↦ outlier_violations column method severity (numbered 0 ca)
    ]

    unfoldable pub detect_outliers :
        (column method : String) → Severity → l.Frame → MayPanic (List (Violation F64))
    unfolding series_outliers
    detect_outliers column method severity df = elim (l.column df column) [
      | none ↦ returns []
      | some s ↦ series_outliers column method severity s
    ]
