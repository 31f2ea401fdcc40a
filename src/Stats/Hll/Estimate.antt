-- ===== src/Stats/Hll/Estimate.antt =====
-- `HyperLogLog::cardinality` of crates/statguardian-stats/src/hll.rs, over a parameter for `f64`.
use stat_guardian.Base.{ℕ, ◌^◌, List, filter, length, map, ltb, ◌==◌, nat_eq, if◌then◌else◌}
use stat_guardian.Validators.Frame.{Floats}
use stat_guardian.Stats.Hll.{num_registers}

-- `inverse_power n` is `2f64.powi(-n)`, and `sum` that of an iterator of `f64`.
module _ {F64 : Type 0} (fl : Floats F64) (inverse_power : ℕ → F64) (sum : List F64 → F64) where
  open fl use {ops, literal, of_count, add_f64, mul_f64, div_f64, ln_f64, round_count}

  -- `NUM_REGISTERS as f64`
  abbrev pub registers_count : F64
  registers_count = of_count num_registers

  -- `ALPHA`
  abbrev pub alpha : F64
  alpha =
      div_f64 (literal "0.7213")
        (add_f64 (literal "1.0") (div_f64 (literal "1.079") registers_count))

  unfoldable pub raw_estimate : List ℕ → F64
  raw_estimate registers =
      div_f64 (mul_f64 (mul_f64 alpha registers_count) registers_count)
        (sum (map inverse_power registers))

  -- With as many registers at 0.
  abbrev pub small_range : (zeros : ℕ) → F64 → F64
  small_range zeros raw =
      if ltb 0 zeros
      then mul_f64 registers_count (ln_f64 (div_f64 registers_count (of_count zeros)))
      else raw

  -- `pow32` is 2 ^ 32, and -4294967296.0 is `-pow32`.
  abbrev pub large_range : F64 → F64
  large_range raw =
      let pow32 = of_count (2 ^ 32) in
      mul_f64 (literal "-4294967296.0") (ln_f64 (ops.sub_f64 (literal "1.0") (div_f64 raw pow32)))

  unfoldable pub corrected : List ℕ → F64 → F64
  corrected registers raw =
      if ops.le_f64 raw (mul_f64 (literal "2.5") registers_count)
      then small_range (length (filter (λ r. r == 0) registers)) raw
      else if ops.lt_f64 (div_f64 (of_count (2 ^ 32)) (literal "30.0")) raw
      then large_range raw
      else raw

  unfoldable pub cardinality : List ℕ → ℕ
  unfolding corrected raw_estimate
  cardinality registers = round_count (corrected registers (raw_estimate registers))
