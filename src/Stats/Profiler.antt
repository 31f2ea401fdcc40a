-- ===== src/Stats/Profiler.antt =====
-- crates/statguardian-stats/src/profiler.rs: the profile of a data frame.
pub mod Quantiles
use Prim.Native.Nat.{min}
use stat_guardian.Base.{
  ℕ, zero, suc, ◌+◌, ◌-◌, String, Bool, true, false, Option, none, some, List, [], ◌∷◌, length, map,
  ltb, if◌then◌else◌,
}
use stat_guardian.Base.Sort.{sort_by}
use stat_guardian.Core.Ast.{FloatOps}
use stat_guardian.Validators.Frame.{Dtype, Floats, Library, flatten}
use stat_guardian.Stats.Floats.{get_elem?, cmp_or_equal}
use stat_guardian.Stats.Drift.{bucket}

pub record ColumnProfile (F64 : Type 0) : Type 0 where
  pub name : String
  pub dtype : String
  pub row_count : ℕ
  pub null_count : ℕ
  pub null_rate : F64
  pub distinct_count : ℕ
  pub min : Option F64
  pub max : Option F64
  pub mean : Option F64
  pub std : Option F64
  pub median : Option F64
  pub p05 : Option F64
  pub p25 : Option F64
  pub p75 : Option F64
  pub p95 : Option F64
  pub p99 : Option F64
  pub histogram : Option (List (F64 × F64 × ℕ))

pub record DatasetProfile (F64 : Type 0) : Type 0 where
  pub row_count : ℕ
  pub column_count : ℕ
  pub columns : List (ColumnProfile F64)

-- A column: its series is there unless it is backed by a scalar.
pub record Column (Series : Type 0) : Type 0 where
  pub name : String
  pub dtype : Dtype
  pub len : ℕ
  pub null_count : ℕ
  pub as_series : Option Series
  pub as_strings : List String

unfoldable pub is_numeric : Dtype → Bool
is_numeric Dtype.int8 = true
is_numeric Dtype.int16 = true
is_numeric Dtype.int32 = true
is_numeric Dtype.int64 = true
is_numeric Dtype.uint8 = true
is_numeric Dtype.uint16 = true
is_numeric Dtype.uint32 = true
is_numeric Dtype.uint64 = true
is_numeric Dtype.float32 = true
is_numeric Dtype.float64 = true
is_numeric _ = false

module _ {F64 : Type 0} (f : Floats F64) where
  open f use {ops, literal, of_count, add_f64, mul_f64, div_f64, round_count}
  open ops use {lt_f64, sub_f64}

  -- Where `n + 1` values are there, the index is at most `n`.
  abbrev pub rank : F64 → ℕ → ℕ
  rank q n = min (round_count (mul_f64 q (sub_f64 (of_count (suc n)) (literal "1.0")))) n

  abbrev pub ranked : F64 → List F64 → Option F64
  ranked q [] = none
  ranked q (v ∷ vals) = get_elem? (sort_by (cmp_or_equal f) (v ∷ vals)) (rank q (length vals))

  unfoldable pub quantile_manual : List (Option F64) → F64 → Option F64
  unfolding flatten get_elem? cmp_or_equal
  quantile_manual ca q = ranked q (flatten ca)

  abbrev pub bins_from : F64 → F64 → ℕ → List ℕ → List (F64 × F64 × ℕ)
  bins_from lo width i [] = []
  bins_from lo width i (n ∷ counts) =
      let lower = add_f64 lo (mul_f64 (of_count i) width) in
      (lower, add_f64 lower width, n) ∷ bins_from lo width (suc i) counts

  unfoldable pub histogram_between : List (Option F64) → F64 → F64 → ℕ → List (F64 × F64 × ℕ)
  unfolding flatten bucket
  histogram_between ca lo hi bins =
      let width = div_f64 (sub_f64 hi lo) (of_count bins) in
      bins_from lo width 0 (bucket f (flatten ca) lo width bins)

  unfoldable pub build_histogram :
      List (Option F64) → Option F64 → Option F64 → ℕ → List (F64 × F64 × ℕ)
  unfolding histogram_between
  build_histogram ca (some a) (some b) bins =
      if lt_f64 a b then histogram_between ca a b bins else []
  build_histogram ca _ _ bins = []

  module _ (l : Library F64) where
    -- The fields of a profile that `numeric_stats` gives, from the values.
    unfoldable pub with_stats : List (Option F64) → ColumnProfile F64 → ColumnProfile F64
    unfolding quantile_manual build_histogram
    with_stats ca profile =
        let low = l.minimum ca in
        let high = l.maximum ca in
        record profile {
          min = low;
          max = high;
          mean = l.mean ca;
          std = l.std ca;
          median = quantile_manual ca (literal "0.5");
          p05 = quantile_manual ca (literal "0.05");
          p25 = quantile_manual ca (literal "0.25");
          p75 = quantile_manual ca (literal "0.75");
          p95 = quantile_manual ca (literal "0.95");
          p99 = quantile_manual ca (literal "0.99");
          histogram = some (build_histogram ca low high 10);
        }

    abbrev pub with_values_of : Option l.Series → ColumnProfile F64 → ColumnProfile F64
    with_values_of none profile = profile
    with_values_of (some series) profile =
        if is_numeric (l.dtype series)
        then (elim (l.floats series) [ none ↦ profile | some ca ↦ with_stats ca profile ])
        else profile

    -- `cardinality` is that of the sketch to which the texts were added.
    module _ (cardinality : List String → ℕ) where
      unfoldable pub profile_column : Column l.Series → ColumnProfile F64
      unfolding is_numeric with_stats
      profile_column col = with_values_of col.as_series (record {
        name = col.name;
        dtype = l.show_dtype col.dtype;
        row_count = col.len;
        null_count = col.null_count;
        null_rate =
            if ltb 0 col.len
            then div_f64 (of_count col.null_count) (of_count col.len)
            else literal "0.0";
        distinct_count = cardinality col.as_strings;
        min = none;
        max = none;
        mean = none;
        std = none;
        median = none;
        p05 = none;
        p25 = none;
        p75 = none;
        p95 = none;
        p99 = none;
        histogram = none;
      })

      -- The columns are profiled in parallel and collected in their order.
      unfoldable pub profile : ℕ → List (Column l.Series) → DatasetProfile F64
      unfolding profile_column
      profile height columns = record {
        row_count = height;
        column_count = length columns;
        columns = map profile_column columns;
      }
