-- ===== src/Core/Parser/Fields.antt =====
-- crates/statguardian-core/src/parser/mod.rs: the fields of a schema.
use Prim.Native.String.{◌++◌ as ◌<>◌}
use stat_guardian.Base.{String, List, [], ◌∷◌}
use stat_guardian.Core.Ast.{FieldDef, Constraint}
use stat_guardian.Core.Errors.{CoreError, Outcome, returns, fails, ◌>>=◌}
use stat_guardian.Core.Parser.Tree.{
  Rule, rule_name, Pair, Pairs, as_rule, as_str, into_inner, take, only_child, collect,
}
use stat_guardian.Core.Parser.Words.{unquote, Numbers, parse_data_type, parse_number}

-- `map(|p| unquote(p.as_str())).collect()`
unfoldable pub unquote_all : Pairs → List String
unquote_all Pairs.done = []
unquote_all (Pairs.next p ps) = unquote (as_str p) ∷ unquote_all ps

module _ {Pest Anyhow : Type 0} where
  module _ {F64 : Type 0} (numbers : Numbers F64) where
    abbrev pub two_numbers : Pairs → Outcome Pest Anyhow (F64 × F64)
    two_numbers ps = do
      (p, rest) ← take ps
      x ← parse_number numbers p
      (q, rest') ← take rest
      y ← parse_number numbers q
      returns (x, y)

    abbrev pub one_number : Pair → Outcome Pest Anyhow F64
    one_number inner = do p ← only_child inner; parse_number numbers p

    unfoldable pub constraint_of : Rule → Pair → Outcome Pest Anyhow (Constraint F64)
    unfolding unquote_all
    constraint_of Rule.not_null inner = returns Constraint.not_null
    constraint_of Rule.unique inner = returns Constraint.unique
    constraint_of Rule.positive inner = returns Constraint.positive
    constraint_of Rule.negative inner = returns Constraint.negative
    constraint_of Rule.primary_key inner = returns Constraint.primary_key
    constraint_of Rule.coerce_constraint inner = returns Constraint.coerce
    constraint_of Rule.regex_constraint inner = do
      p ← only_child inner
      returns (Constraint.regex (unquote (as_str p)))
    constraint_of Rule.between_constraint inner = do
      (low, high) ← two_numbers (into_inner inner)
      returns (Constraint.between low high)
    constraint_of Rule.min_constraint inner = do
      value ← one_number inner
      returns (Constraint.min value)
    constraint_of Rule.max_constraint inner = do
      value ← one_number inner
      returns (Constraint.max value)
    constraint_of Rule.len_constraint inner = do
      (low, high) ← two_numbers (into_inner inner)
      returns (Constraint.len (numbers.as_usize low) (numbers.as_usize high))
    constraint_of Rule.enum_constraint inner =
        returns (Constraint.enum (unquote_all (into_inner inner)))
    constraint_of Rule.foreign_key inner = do
      (table, rest) ← take (into_inner inner)
      (column, rest') ← take rest
      returns (Constraint.foreign_key (as_str table) (as_str column))
    constraint_of other inner =
        fails (CoreError.unsupported ("unknown constraint: " <> rule_name other))

    unfoldable pub parse_constraint : Pair → Outcome Pest Anyhow (Constraint F64)
    unfolding constraint_of
    parse_constraint p = do inner ← only_child p; constraint_of (as_rule inner) inner

    unfoldable pub parse_field : Pair → Outcome Pest Anyhow (FieldDef F64)
    unfolding parse_data_type collect parse_constraint
    parse_field p = do
      (name, rest) ← take (into_inner p)
      (ty, cs) ← take rest
      data_type ← parse_data_type ty
      constraints ← collect Rule.constraint parse_constraint cs
      returns (record { name = as_str name; data_type = data_type; constraints = constraints })

    unfoldable pub parse_schema : Pair → Outcome Pest Anyhow (List (FieldDef F64))
    unfolding collect parse_field
    parse_schema p = collect Rule.field_def parse_field (into_inner p)
