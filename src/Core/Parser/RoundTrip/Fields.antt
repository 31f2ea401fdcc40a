-- ===== src/Core/Parser/RoundTrip/Fields.antt =====
-- The fields of a schema are read back as they were.
use stat_guardian.Base.{ℕ, String, some, List, [], ◌∷◌, ◌≡◌, refl}
use stat_guardian.Base.Sort.{All}
use stat_guardian.Core.Ast.{Constraint, FieldDef}
use stat_guardian.Core.Errors.{returns}
use stat_guardian.Core.Parser.Tree.{Rule, rule_name, Pairs}
use stat_guardian.Core.Parser.Words.{Numbers, parse_number}
use stat_guardian.Core.Parser.Fields.{
  unquote_all, constraint_of, parse_constraint, parse_field, parse_schema,
}
use stat_guardian.Core.Parser.Print.{Source, string_pair, onto, constraint_pair, field_pair, node}
use stat_guardian.Core.Parser.RoundTrip.Words.{
  IsReadable, unquote-quote, collect-onto, parse_data_type-name,
}

unquote_all-onto : (vs : List String) → unquote_all (onto string_pair vs Pairs.done) ≡ vs
unfolding unquote_all
unquote_all-onto [] = refl
unquote_all-onto (v ∷ vs) = rw (unquote-quote v) (rw (unquote_all-onto vs) refl)

pub All-map {ℓ κ κ'} :
    {A : Type ℓ} {P : A → Type κ} {Q : A → Type κ'}
    → ((a : A) → P a → Q a)
    → (xs : List A) → All P xs
    → All Q xs
All-map f [] all = tt
All-map f (x ∷ xs) all = (f x all.0, All-map f xs all.1)

module _ {F64 : Type 0} (source : Source F64) (numbers : Numbers F64) where
  -- The text of the number is read as a float that is cast to the number.
  abbrev pub IsReadableUsize : ℕ → Type 0
  IsReadableUsize n =
      (x : F64) × (numbers.parse_f64 (source.show_usize n) ≡ some x) × (numbers.as_usize x ≡ n)

  abbrev pub IsReadableConstraint : Constraint F64 → Type 0
  IsReadableConstraint (Constraint.between x y) =
      IsReadable source numbers x × IsReadable source numbers y
  IsReadableConstraint (Constraint.min x) = IsReadable source numbers x
  IsReadableConstraint (Constraint.max x) = IsReadable source numbers x
  IsReadableConstraint (Constraint.len m n) = IsReadableUsize m × IsReadableUsize n
  IsReadableConstraint _ = Unit

  abbrev pub IsReadableField : FieldDef F64 → Type 0
  IsReadableField f = All IsReadableConstraint f.constraints

  module _ {Pest Anyhow : Type 0} where
    parse_constraint-pair :
        (c : Constraint F64)
        → IsReadableConstraint c
        → parse_constraint {Pest = Pest} {Anyhow = Anyhow} numbers (constraint_pair source c)
          ≡ returns c
    unfolding parse_constraint constraint_of
    parse_constraint-pair Constraint.not_null h = refl
    parse_constraint-pair Constraint.unique h = refl
    parse_constraint-pair Constraint.positive h = refl
    parse_constraint-pair Constraint.negative h = refl
    parse_constraint-pair Constraint.primary_key h = refl
    parse_constraint-pair Constraint.coerce h = refl
    parse_constraint-pair (Constraint.regex pattern) h = rw (unquote-quote pattern) refl
    parse_constraint-pair (Constraint.between x y) (hx, hy) =
        rw (hx, parse_number) (rw (hy, parse_number) refl)
    parse_constraint-pair (Constraint.min x) h = rw (h, parse_number) refl
    parse_constraint-pair (Constraint.max x) h = rw (h, parse_number) refl
    parse_constraint-pair (Constraint.len m n) ((x, hx, ex), (y, hy, ey)) =
        rw (hx, parse_number) (rw (hy, parse_number) (rw ex (rw ey refl)))
    parse_constraint-pair (Constraint.enum vs) h = rw (unquote_all-onto vs) refl
    parse_constraint-pair (Constraint.foreign_key table column) h = refl

    parse_field-pair :
        (f : FieldDef F64)
        → IsReadableField f
        → parse_field {Pest = Pest} {Anyhow = Anyhow} numbers (field_pair source f) ≡ returns f
    unfolding parse_field rule_name
    parse_field-pair f h = rw (parse_data_type-name {Pest = Pest} {Anyhow = Anyhow} f.data_type) (
        rw
          (collect-onto Rule.constraint (parse_constraint {Pest = Pest} {Anyhow = Anyhow} numbers)
            (constraint_pair source) (λ c. refl) f.constraints
            (All-map parse_constraint-pair f.constraints h))
          refl)

    pub parse_schema-node :
        (fs : List (FieldDef F64))
        → All IsReadableField fs
        → parse_schema {Pest = Pest} {Anyhow = Anyhow} numbers
            (node source Rule.schema_section (onto (field_pair source) fs Pairs.done))
          ≡ returns fs
    unfolding parse_schema rule_name
    parse_schema-node fs h =
        collect-onto Rule.field_def (parse_field numbers) (field_pair source) (λ f. refl) fs
          (All-map parse_field-pair fs h)
