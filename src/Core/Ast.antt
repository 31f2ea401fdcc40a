-- ===== src/Core/Ast.antt =====
-- crates/statguardian-core/src/ast.rs: the data of a contract. `F64` stands for `f64`, which the
-- types only carry; two floats of `F64` are equal if they have the same `Debug` text.
use Prim.Native.String.{compare, ◌++◌ as ◌<>◌}
use stat_guardian.Base.{
  ℕ, String, Bool, true, false, Option, none, some, List, [], ◌∷◌, ◌==◌, string_eq, not,
  if◌then◌else◌,
}
use stat_guardian.Base.Assoc.{insert}
use stat_guardian.Base.Order.{is_le}
use mathlib.Core.Bool.{xor}

pub data DataType : Type 0 where
  int float string bool date datetime bytes : DataType

-- `Display`
unfoldable pub type_name : DataType → String
type_name DataType.int = "int"
type_name DataType.float = "float"
type_name DataType.string = "string"
type_name DataType.bool = "bool"
type_name DataType.date = "date"
type_name DataType.datetime = "datetime"
type_name DataType.bytes = "bytes"

pub data Constraint (F64 : Type 0) : Type 0 where
  not_null unique positive negative primary_key coerce : Constraint F64
  regex : (pattern : String) → Constraint F64
  between : (min max : F64) → Constraint F64
  min : (value : F64) → Constraint F64
  max : (value : F64) → Constraint F64
  len : (min max : ℕ) → Constraint F64
  enum : (values : List String) → Constraint F64
  foreign_key : (table column : String) → Constraint F64

pub record FieldDef (F64 : Type 0) : Type 0 where
  pub name : String
  pub data_type : DataType
  pub constraints : List (Constraint F64)

pub data LiteralValue (F64 : Type 0) : Type 0 where
  number : F64 → LiteralValue F64
  str : String → LiteralValue F64
  bool : Bool → LiteralValue F64

-- `Display`, where `show_f64` is that of an `f64`.
unfoldable pub literal_text : {F64 : Type 0} → (show_f64 : F64 → String) → LiteralValue F64 → String
literal_text show_f64 (LiteralValue.number n) = show_f64 n
literal_text show_f64 (LiteralValue.str s) = "\"" <> (s <> "\"")
literal_text show_f64 (LiteralValue.bool b) = if b then "true" else "false"

pub data MetricFn : Type 0 where
  completeness uniqueness validity consistency freshness non_null_rate : MetricFn

pub data ComparisonOp : Type 0 where
  gt lt gte lte eq neq : ComparisonOp

-- What the comparisons use of `f64`.
pub record FloatOps (F64 : Type 0) : Type 0 where
  pub lt_f64 : F64 → F64 → Bool
  pub le_f64 : F64 → F64 → Bool
  pub sub_f64 : F64 → F64 → F64
  pub abs_f64 : F64 → F64
  pub epsilon : F64

module _ {F64 : Type 0} (ops : FloatOps F64) where
  open ops use {lt_f64, le_f64, sub_f64, abs_f64, epsilon}

  unfoldable pub evaluate : ComparisonOp → F64 → F64 → Bool
  evaluate ComparisonOp.gt lhs rhs = lt_f64 rhs lhs
  evaluate ComparisonOp.lt lhs rhs = lt_f64 lhs rhs
  evaluate ComparisonOp.gte lhs rhs = le_f64 rhs lhs
  evaluate ComparisonOp.lte lhs rhs = le_f64 lhs rhs
  evaluate ComparisonOp.eq lhs rhs = lt_f64 (abs_f64 (sub_f64 lhs rhs)) epsilon
  evaluate ComparisonOp.neq lhs rhs = le_f64 epsilon (abs_f64 (sub_f64 lhs rhs))

-- The operators of `str` are those of its `Ord`.
unfoldable pub evaluate_str : ComparisonOp → String → String → Bool
evaluate_str ComparisonOp.eq lhs rhs = lhs == rhs
evaluate_str ComparisonOp.neq lhs rhs = not (lhs == rhs)
evaluate_str ComparisonOp.lt lhs rhs = not (is_le (compare rhs lhs))
evaluate_str ComparisonOp.lte lhs rhs = is_le (compare lhs rhs)
evaluate_str ComparisonOp.gt lhs rhs = not (is_le (compare lhs rhs))
evaluate_str ComparisonOp.gte lhs rhs = is_le (compare rhs lhs)

unfoldable pub evaluate_bool : ComparisonOp → Bool → Bool → Bool
evaluate_bool ComparisonOp.eq lhs rhs = not (xor lhs rhs)
evaluate_bool ComparisonOp.neq lhs rhs = xor lhs rhs
evaluate_bool _ lhs rhs = false

-- `Display`
unfoldable pub op_symbol : ComparisonOp → String
op_symbol ComparisonOp.gt = ">"
op_symbol ComparisonOp.lt = "<"
op_symbol ComparisonOp.gte = ">="
op_symbol ComparisonOp.lte = "<="
op_symbol ComparisonOp.eq = "=="
op_symbol ComparisonOp.neq = "!="

pub data Severity : Type 0 where
  info warning error blocking : Severity

-- `#[default]`
abbrev pub default_severity : Severity
default_severity = Severity.error

pub record QualityRule (F64 : Type 0) : Type 0 where
  pub metric : MetricFn
  pub column : String
  pub op : ComparisonOp
  pub threshold : F64
  pub severity : Severity

pub record CrossColumnRule (F64 : Type 0) : Type 0 where
  pub assert_column : String
  pub assert_op : ComparisonOp
  pub assert_value : LiteralValue F64
  pub when_column : String
  pub when_op : ComparisonOp
  pub when_value : LiteralValue F64
  pub severity : Severity

pub data StatFn : Type 0 where
  mean std median min max p05 p95 p99 p999 : StatFn

-- `Display`
unfoldable pub stat_name : StatFn → String
stat_name StatFn.mean = "mean"
stat_name StatFn.std = "std"
stat_name StatFn.median = "median"
stat_name StatFn.min = "min"
stat_name StatFn.max = "max"
stat_name StatFn.p05 = "p05"
stat_name StatFn.p95 = "p95"
stat_name StatFn.p99 = "p99"
stat_name StatFn.p999 = "p999"

pub record StatsRule (F64 : Type 0) : Type 0 where
  pub column : String
  pub stat : StatFn
  pub op : ComparisonOp
  pub threshold : F64
  pub severity : Severity

pub data AnomalyFn : Type 0 where
  detect_outliers detect_nulls detect_duplicates detect_pattern_breaks : AnomalyFn
  detect_cardinality_explosion : AnomalyFn

-- `args` is an `IndexMap`: an association list with each key once, in order of insertion.
pub record AnomalyRule : Type 0 where
  pub function : AnomalyFn
  pub column : String
  pub args : List (String × String)
  pub severity : Severity

pub record StreamConfig : Type 0 where
  pub window : Option String
  pub watermark : Option String
  pub emit : Option String

pub record DataContract (F64 : Type 0) : Type 0 where
  pub name : String
  pub schema : List (FieldDef F64)
  pub quality_rules : List (QualityRule F64)
  pub cross_column_rules : List (CrossColumnRule F64)
  pub stats_rules : List (StatsRule F64)
  pub anomaly_rules : List AnomalyRule
  pub stream_config : Option StreamConfig

unfoldable pub new : {F64 : Type 0} → String → DataContract F64
new name = record {
  name = name;
  schema = [];
  quality_rules = [];
  cross_column_rules = [];
  stats_rules = [];
  anomaly_rules = [];
  stream_config = none;
}

-- `schema.iter().map(..).collect()`: of fields with one name the last counts.
collect_fields :
    {F64 : Type 0}
    → List (FieldDef F64)
    → List (String × FieldDef F64)
    → List (String × FieldDef F64)
collect_fields [] m = m
collect_fields (f ∷ fs) m = collect_fields fs (insert f.name f m)

unfoldable pub schema_map : {F64 : Type 0} → DataContract F64 → List (String × FieldDef F64)
unfolding collect_fields insert
schema_map c = collect_fields c.schema []

unfoldable pub is_streaming : {F64 : Type 0} → DataContract F64 → Bool
is_streaming c = elim c.stream_config [ none ↦ false | some _ ↦ true ]
