-- ===== src/Stats/Floats.antt =====
-- Sorting and ranking of `f64` values, as crates/statguardian-stats and the batch engine do it.
use Prim.Native.Nat.{Ordering}
use stat_guardian.Base.{
  ℕ, zero, suc, Bool, true, false, not, ◌&&◌, Option, none, some, List, [], ◌∷◌, length, leb,
  if◌then◌else◌,
}
use stat_guardian.Base.Sort.{sort_by}
use stat_guardian.Base.Panic.{MayPanic, returns, panics}
use stat_guardian.Validators.Frame.{Floats}

-- `vals[i]`
unfoldable pub get_elem? : {A : Type 0} → List A → ℕ → Option A
get_elem? [] i = none
get_elem? (x ∷ xs) zero = some x
get_elem? (x ∷ xs) (suc i) = get_elem? xs i

module _ {F64 : Type 0} (f : Floats F64) where
  open f use {ops}
  open ops use {lt_f64, le_f64}

  -- `partial_cmp`, which has an answer for all but a NaN.
  unfoldable pub partial_cmp : F64 → F64 → Option Ordering
  partial_cmp a b =
      if lt_f64 a b
      then some Ordering.lt
      else if lt_f64 b a
      then some Ordering.gt
      else if le_f64 a b
      then some Ordering.eq
      else none

  -- `partial_cmp(..).unwrap_or(Equal)`
  unfoldable pub cmp_or_equal : F64 → F64 → Ordering
  unfolding partial_cmp
  cmp_or_equal a b = elim (partial_cmp a b) [ none ↦ Ordering.eq | some o ↦ o ]

  unfoldable pub is_nan : F64 → Bool
  is_nan x = not (le_f64 x x)

  unfoldable pub any_nan : List F64 → Bool
  unfolding is_nan
  any_nan [] = false
  any_nan (x ∷ xs) = if is_nan x then true else any_nan xs

  -- `sort_by(|a, b| a.partial_cmp(b).unwrap())`: a sort compares every value of two or more, and
  -- the comparison of a NaN panics.
  unfoldable pub sort_floats : List F64 → MayPanic (List F64)
  unfolding any_nan cmp_or_equal
  sort_floats xs =
      if leb 2 (length xs) && any_nan xs then panics else returns (sort_by cmp_or_equal xs)
