-- ===== src/Tests/Parsing.antt =====
-- The pairs of a small contract through crates/statguardian-core/src/parser.
use stat_guardian.Base.{
  ℕ, ◌≤◌, String, ◌≡◌, refl, ◌⊎◌, inl, inr, none, some, [], ◌∷◌, length, map, ◌==◌, nat_eq,
  string_eq, if◌then◌else◌, ℕ_discrete, arith,
}
use stat_guardian.Base.Chars.{as_bytes}
use stat_guardian.Core.Ast.{
  DataContract, DataType, Constraint, LiteralValue, MetricFn, ComparisonOp, Severity, StatFn,
  AnomalyFn,
}
use stat_guardian.Core.Errors.{CoreError, returns, fails}
use stat_guardian.Core.Compiler.{compile}
use stat_guardian.Core.Parser.Tree.{Rule, Pairs}
use stat_guardian.Core.Parser.Words.{Numbers, strip_prefix, strip_suffix, unquote, parse_stat_fn}
use stat_guardian.Core.Parser.Contract.{max_input_size, parse, parse_and_compile}
use stat_guardian.Core.Parser.Print.{Source, leaf, one, input_pair}
use stat_guardian.Core.Parser.RoundTrip.Contract.{parse_and_compile-exact}

-- Floats that are 7 or 0.
abbrev numbers : Numbers ℕ
numbers = record {
  parse_f64 = λ s. if s == "7" then some 7 else if s == "0" then some 0 else none;
  as_usize = λ n. n;
}

abbrev source : Source ℕ
source = record {
  show_f64 = λ n. if n == 7 then "7" else "0";
  show_usize = λ n. if n == 7 then "7" else "0";
  text_of = λ _ _. "..";
}

abbrev users : DataContract ℕ
users = record {
  name = "users";
  schema =
      record {
        name = "age";
        data_type = DataType.int;
        constraints =
            Constraint.not_null ∷ Constraint.between 0 7 ∷ Constraint.regex "^[^@]+$" ∷ [];
      }
      ∷ [];
  quality_rules =
      record {
        metric = MetricFn.completeness;
        column = "age";
        op = ComparisonOp.gte;
        threshold = 7;
        severity = Severity.warning;
      }
      ∷ [];
  cross_column_rules =
      record {
        assert_column = "age";
        assert_op = ComparisonOp.gt;
        assert_value = LiteralValue.number 0;
        when_column = "status";
        when_op = ComparisonOp.eq;
        when_value = LiteralValue.str "paid";
        severity = Severity.error;
      }
      ∷ [];
  stats_rules =
      record {
        column = "age";
        stat = StatFn.p99;
        op = ComparisonOp.lt;
        threshold = 7;
        severity = Severity.error;
      }
      ∷ [];
  anomaly_rules =
      record {
        function = AnomalyFn.detect_outliers;
        column = "age";
        args = ("method", "iqr") ∷ ("k", "3") ∷ [];
        severity = Severity.blocking;
      }
      ∷ [];
  stream_config = some (record { window = some "5m"; watermark = none; emit = some "close" });
}

abbrev text : String
text =
    "dataset users { schema { age: int, not_null, between(0, 7), regex=\"^[^@]+$\" } quality { @warning: completeness(age) >= 7 assert age > 0 when status == \"paid\" } stats { age.p99 drift < 7 } anomalies { @blocking: detect_outliers(age, method=\"iqr\", k=\"3\") } stream { window=\"5m\" emit=\"close\" } }"

abbrev pest_parse : String → String ⊎ Pairs
pest_parse s = if s == text then inr (one (input_pair source (users ∷ []))) else inl "syntax"

text-fits : length (as_bytes text) ≤ max_input_size
unfolding as_bytes
text-fits = omega arith

parse_and_compile-exact_example :
    (parse {Anyhow = String} numbers pest_parse (λ s. s) text ≡ returns (users ∷ []))
    × (parse_and_compile {Anyhow = String} numbers pest_parse (λ s. s) ℕ_discrete text
        ≡ returns (map (λ c. (c, compile ℕ_discrete c)) (users ∷ [])))
parse_and_compile-exact_example =
    parse_and_compile-exact source numbers pest_parse (λ s. s) ℕ_discrete (users ∷ []) text
      (
        (
          ((tt, ((refl, refl), (tt, tt))), tt),
          (refl, tt),
          ((refl, tt), tt),
          (refl, tt),
          ((refl, (refl, tt)), tt),
        ),
        tt,
      )
      text-fits refl

-- `p01` is a `stat_fn` of the grammar.
parse_stat_fn_p01 :
    parse_stat_fn {Pest = String} {Anyhow = String} (leaf Rule.stat_fn "p01")
    ≡ fails (CoreError.unsupported "unknown stat fn: p01")
unfolding parse_stat_fn
parse_stat_fn_p01 = refl

-- A quotation mark at one end only stays.
unquote_one : (unquote "\"" ≡ "\"") × (unquote "\"a" ≡ "\"a") × (unquote "\"a\"" ≡ "a")
unfolding unquote strip_prefix strip_suffix
unquote_one = (refl, refl, refl)
