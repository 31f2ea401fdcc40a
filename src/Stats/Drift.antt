-- ===== src/Stats/Drift.antt =====
-- crates/statguardian-stats/src/drift.rs: how far a column has moved from a reference.
pub mod Ends
pub mod Buckets
use Prim.Native.Nat.{min}
use stat_guardian.Base.{
  ℕ, zero, suc, ◌+◌, ◌-◌, ◌*◌, ◌%◌, ◌^◌, String, Bool, true, false, ◌&&◌, Option, none, some, List,
  [], ◌∷◌, ◌++◌, length, if◌then◌else◌,
}
use stat_guardian.Base.Sort.{sort_by}
use stat_guardian.Base.Panic.{MayPanic, returns, panics, hangs, ◌>>=◌}
use stat_guardian.Core.Ast.{Severity, StatFn, stat_name, StatsRule, evaluate}
use stat_guardian.Validators.Frame.{Dtype, Floats, Library, flatten}
use stat_guardian.Validators.Schema.{is_integer, unwrap_or}
use stat_guardian.Stats.Floats.{get_elem?, cmp_or_equal, sort_floats}

pub record DriftResult (F64 : Type 0) : Type 0 where
  pub column : String
  pub stat : String
  pub reference_value : F64
  pub current_value : F64
  pub drift : F64
  pub threshold : F64
  pub passed : Bool
  pub severity : Severity
  pub psi : Option F64
  pub ks_stat : Option F64

unfoldable pub is_numeric : Dtype → Bool
is_numeric Dtype.float32 = true
is_numeric Dtype.float64 = true
is_numeric d = is_integer d

-- `vec![0u32; bins]`
unfoldable pub zero_counts : ℕ → List ℕ
zero_counts zero = []
zero_counts (suc n) = 0 ∷ zero_counts n

-- `counts[i] += 1` on `u32`
unfoldable pub bump : ℕ → List ℕ → List ℕ
bump i [] = []
bump zero (c ∷ cs) = (c + 1) % 2 ^ 32 ∷ cs
bump (suc i) (c ∷ cs) = c ∷ bump i cs

abbrev pub push_some : {A : Type 0} → Option A → List A → List A
push_some none rest = rest
push_some (some a) rest = a ∷ rest

-- The values of both columns behind the places `i` and `j` of the loop.
pub record KsState (F64 : Type 0) : Type 0 where
  pub i : ℕ
  pub ref_rest : List F64
  pub j : ℕ
  pub cur_rest : List F64
  pub max_diff : F64

-- `i < ref_vals.len() || j < cur_vals.len()`
abbrev pub ks_done : {F64 : Type 0} → KsState F64 → Bool
ks_done s = elim s.ref_rest [ [] ↦ elim s.cur_rest [ [] ↦ true | _ ↦ false ] | _ ↦ false ]

module _ {F64 : Type 0} (f : Floats F64) where
  open f use {
    ops, literal, of_count, add_f64, mul_f64, div_f64, min_f64, max_f64, ln_f64, floor_count,
    round_count,
  }
  open ops use {lt_f64, le_f64, sub_f64, abs_f64, epsilon}

  -- The index that a value falls in.
  unfoldable pub bucket_of : F64 → F64 → ℕ → F64 → ℕ
  bucket_of lo width bins v = min (floor_count (div_f64 (sub_f64 v lo) width)) (bins - 1)

  unfoldable pub fill : F64 → F64 → ℕ → List F64 → List ℕ → List ℕ
  unfolding bucket_of bump
  fill lo width bins [] counts = counts
  fill lo width bins (v ∷ vals) counts =
      fill lo width bins vals (bump (bucket_of lo width bins v) counts)

  unfoldable pub bucket : List F64 → F64 → F64 → ℕ → List ℕ
  unfolding fill zero_counts
  bucket vals lo width bins = fill lo width bins vals (zero_counts bins)

  unfoldable pub fold : (F64 → F64 → F64) → F64 → List F64 → F64
  fold step a [] = a
  fold step a (x ∷ xs) = fold step (step a x) xs

  -- The term of a bucket in the index.
  unfoldable pub psi_term : F64 → F64 → ℕ → ℕ → F64
  psi_term ref_n cur_n r c =
      let p_ref = max_f64 (div_f64 (of_count r) ref_n) (literal "1e-9") in
      let p_cur = max_f64 (div_f64 (of_count c) cur_n) (literal "1e-9") in
      mul_f64 (sub_f64 p_cur p_ref) (ln_f64 (div_f64 p_cur p_ref))

  unfoldable pub psi_sum : F64 → F64 → F64 → List ℕ → List ℕ → F64
  unfolding psi_term
  psi_sum ref_n cur_n sum [] cs = sum
  psi_sum ref_n cur_n sum (r ∷ rs) [] = sum
  psi_sum ref_n cur_n sum (r ∷ rs) (c ∷ cs) =
      psi_sum ref_n cur_n (add_f64 sum (psi_term ref_n cur_n r c)) rs cs

  -- The index of two columns that have values.
  unfoldable pub psi_of : List F64 → List F64 → ℕ → F64
  unfolding fold bucket psi_sum
  psi_of ref_vals cur_vals bins =
      let lo =
        min_f64 (fold min_f64 (literal "INFINITY") ref_vals)
          (fold min_f64 (literal "INFINITY") cur_vals) in
      let hi =
        max_f64 (fold max_f64 (literal "NEG_INFINITY") ref_vals)
          (fold max_f64 (literal "NEG_INFINITY") cur_vals) in
      let width = div_f64 (sub_f64 hi lo) (of_count bins) in
      if lt_f64 (abs_f64 (sub_f64 hi lo)) epsilon
      then literal "0.0"
      else psi_sum (of_count (length ref_vals)) (of_count (length cur_vals)) (literal "0.0")
          (bucket ref_vals lo width bins) (bucket cur_vals lo width bins)

  unfoldable pub psi_values : List F64 → List F64 → ℕ → F64
  unfolding psi_of
  psi_values [] cur_vals bins = literal "0.0"
  psi_values (r ∷ rs) [] bins = literal "0.0"
  psi_values (r ∷ rs) (c ∷ cs) bins = psi_of (r ∷ rs) (c ∷ cs) bins

  -- `while i < vals.len() && vals[i] == v`, where the list is `vals[i..]`.
  unfoldable pub advance : F64 → ℕ → List F64 → ℕ × List F64
  advance v i [] = (i, [])
  advance v i (x ∷ xs) =
      let rest = advance v (i + 1) xs in if le_f64 x v && le_f64 v x then rest else (i, x ∷ xs)

  -- `vals.get(i).cloned().unwrap_or(f64::INFINITY)`
  unfoldable pub next_value : List F64 → F64
  next_value [] = literal "INFINITY"
  next_value (x ∷ xs) = x

  unfoldable pub ks_step : F64 → F64 → KsState F64 → KsState F64
  unfolding advance next_value
  ks_step n_ref n_cur s =
      let rv = next_value s.ref_rest in
      let cv = next_value s.cur_rest in
      let (i, ref_rest) = if le_f64 rv cv then advance rv s.i s.ref_rest else (s.i, s.ref_rest) in
      let (j, cur_rest) = if le_f64 cv rv then advance cv s.j s.cur_rest else (s.j, s.cur_rest) in
      record {
        i = i;
        ref_rest = ref_rest;
        j = j;
        cur_rest = cur_rest;
        max_diff =
            max_f64 s.max_diff
              (abs_f64 (sub_f64 (div_f64 (of_count i) n_ref) (div_f64 (of_count j) n_cur)));
      }

  -- The `while` loop; `none` where the fuel runs out.
  unfoldable pub ks_loop : (fuel : ℕ) → F64 → F64 → KsState F64 → Option F64
  unfolding ks_step
  ks_loop zero n_ref n_cur s = none
  ks_loop (suc fuel) n_ref n_cur s =
      let rest = ks_loop fuel n_ref n_cur (ks_step n_ref n_cur s) in
      if ks_done s then some s.max_diff else rest

  unfoldable pub ks_sorted : (fuel : ℕ) → List F64 → List F64 → Option F64
  unfolding ks_loop
  ks_sorted fuel ref_vals cur_vals =
      ks_loop fuel (of_count (length ref_vals)) (of_count (length cur_vals)) (record {
        i = 0;
        ref_rest = ref_vals;
        j = 0;
        cur_rest = cur_vals;
        max_diff = literal "0.0";
      })

  unfoldable pub ks_values : (fuel : ℕ) → List F64 → List F64 → MayPanic (Option F64)
  unfolding ks_sorted sort_floats
  ks_values fuel [] cur_vals = returns (some (literal "0.0"))
  ks_values fuel (r ∷ rs) [] = returns (some (literal "0.0"))
  ks_values fuel (r ∷ rs) (c ∷ cs) = do
    ref_vals ← sort_floats f (r ∷ rs)
    cur_vals ← sort_floats f (c ∷ cs)
    returns (ks_sorted fuel ref_vals cur_vals)

  abbrev pub ended : Option F64 → MayPanic F64
  ended none = hangs
  ended (some d) = returns d

  -- A quantile of values of which none is a NaN.
  unfoldable pub quantile_values : List F64 → F64 → Option F64
  unfolding get_elem? cmp_or_equal
  quantile_values [] q = none
  quantile_values (v ∷ vs) q =
      let vals = sort_by (cmp_or_equal f) (v ∷ vs) in
      let last = sub_f64 (of_count (length vals)) (literal "1.0") in
      get_elem? vals (min (round_count (mul_f64 q last)) (length vals - 1))

  unfoldable pub quantile_manual : List (Option F64) → F64 → Option F64
  unfolding quantile_values flatten
  quantile_manual ca q = quantile_values (flatten ca) q

  module _ (l : Library F64) where
    unfoldable pub stat_of : List (Option F64) → StatFn → Option F64
    unfolding quantile_manual
    stat_of ca StatFn.mean = l.mean ca
    stat_of ca StatFn.std = l.std ca
    stat_of ca StatFn.min = l.minimum ca
    stat_of ca StatFn.max = l.maximum ca
    stat_of ca StatFn.median = quantile_manual ca (literal "0.5")
    stat_of ca StatFn.p05 = quantile_manual ca (literal "0.05")
    stat_of ca StatFn.p95 = quantile_manual ca (literal "0.95")
    stat_of ca StatFn.p99 = quantile_manual ca (literal "0.99")
    stat_of ca StatFn.p999 = quantile_manual ca (literal "0.999")

    unfoldable pub compute_stat : l.Series → StatFn → Option F64
    unfolding stat_of
    compute_stat series stat = elim (l.floats series) [ none ↦ none | some ca ↦ stat_of ca stat ]

    unfoldable pub to_f64_vec : l.Series → List F64
    unfolding flatten
    to_f64_vec series = elim (l.floats series) [ none ↦ [] | some ca ↦ flatten ca ]

    -- `DriftEngine::psi`
    unfoldable pub psi : l.Series → l.Series → ℕ → F64
    unfolding to_f64_vec psi_values
    psi reference current bins = psi_values (to_f64_vec reference) (to_f64_vec current) bins

    -- `DriftEngine::ks_statistic`, with one round for each value and one more.
    -- Where these do not end the loop, it does not end.
    unfoldable pub ks_statistic : l.Series → l.Series → MayPanic F64
    unfolding to_f64_vec ks_values
    ks_statistic reference current =
        let ref_vals = to_f64_vec reference in
        let cur_vals = to_f64_vec current in
        ks_values (length ref_vals + length cur_vals + 1) ref_vals cur_vals >>= ended

    unfoldable pub drift_of : F64 → F64 → F64
    drift_of cur_val ref_val =
        let change = abs_f64 (sub_f64 cur_val ref_val) in
        if lt_f64 (abs_f64 ref_val) (literal "1e-9")
        then change
        else div_f64 change (abs_f64 ref_val)

    -- What is said of a rule whose statistic both columns have.
    unfoldable pub compare_columns :
        StatsRule F64
        → (cur_series ref_series : l.Series) → (cur_val ref_val : F64)
        → MayPanic (Option (DriftResult F64))
    unfolding psi ks_statistic drift_of is_numeric
    compare_columns rule cur_series ref_series cur_val ref_val =
        let drift = drift_of cur_val ref_val in
        let numeric = is_numeric (l.dtype cur_series) in
        let tested = ks_statistic ref_series cur_series in
        do
          ks_stat ← if numeric then (tested >>= λ d. returns (some d)) else returns none
          returns (
              some (record {
                column = rule.column;
                stat = stat_name rule.stat;
                reference_value = ref_val;
                current_value = cur_val;
                drift = drift;
                threshold = rule.threshold;
                passed = evaluate ops rule.op drift rule.threshold;
                severity = rule.severity;
                psi = if numeric then some (psi ref_series cur_series 10) else none;
                ks_stat = ks_stat;
              }))

    unfoldable pub compare_values :
        StatsRule F64
        → (cur_series ref_series : l.Series) → (cur_val ref_val : Option F64)
        → MayPanic (Option (DriftResult F64))
    unfolding compare_columns
    compare_values rule cur_series ref_series none ref_val = returns none
    compare_values rule cur_series ref_series (some c) none = returns none
    compare_values rule cur_series ref_series (some c) (some r) =
        compare_columns rule cur_series ref_series c r

    unfoldable pub compare_series :
        StatsRule F64
        → (cur_series ref_series : Option l.Series) → MayPanic (Option (DriftResult F64))
    unfolding compare_values compute_stat
    compare_series rule none ref_series = returns none
    compare_series rule (some c) none = returns none
    compare_series rule (some c) (some r) =
        compare_values rule c r (compute_stat c rule.stat) (compute_stat r rule.stat)

    -- `evaluate_rule`
    unfoldable pub evaluate_drift :
        (current reference : l.Frame) → StatsRule F64 → MayPanic (Option (DriftResult F64))
    unfolding compare_series
    evaluate_drift current reference rule =
        compare_series rule (l.plain_column current rule.column)
          (l.plain_column reference rule.column)

    -- `DriftEngine::evaluate`
    unfoldable pub evaluate_drifts :
        (current reference : l.Frame) → List (StatsRule F64) → MayPanic (List (DriftResult F64))
    unfolding evaluate_drift
    evaluate_drifts current reference [] = returns []
    evaluate_drifts current reference (rule ∷ rules) = do
      result ← evaluate_drift current reference rule
      results ← evaluate_drifts current reference rules
      returns (push_some result results)
