-- ===== src/Core/Parser/Contract.antt =====
-- crates/statguardian-core/src/parser/mod.rs and lib.rs: a contract, and a text of contracts.
use stat_guardian.Base.{
  ℕ, ◌*◌, String, Bool, true, false, Option, none, some, ◌⊎◌, inl, inr, List, [], ◌∷◌, ◌++◌, length,
  ltb,
}
use stat_guardian.Base.Chars.{as_bytes}
use stat_guardian.Core.Ast.{DataContract, StreamConfig, new}
use stat_guardian.Core.Dag.{ExecutionDag}
use stat_guardian.Core.Compiler.{compile}
use stat_guardian.Core.Errors.{CoreError, Outcome, returns, fails, ◌>>=◌}
use stat_guardian.Core.Parser.Tree.{
  Rule, is_rule, Pair, Pairs, as_rule, as_str, into_inner, take, only_child, collect,
}
use stat_guardian.Core.Parser.Words.{unquote, Numbers}
use stat_guardian.Core.Parser.Fields.{parse_schema}
use stat_guardian.Core.Parser.Rules.{parse_quality, parse_stats, parse_anomalies}

abbrev pub max_input_size : ℕ
max_input_size = 10 * 1024 * 1024

abbrev pub default_stream : StreamConfig
default_stream = record { window = none; watermark = none; emit = none }

abbrev pub compile_all :
    {F64 : Type 0}
    → Discrete F64
    → List (DataContract F64)
    → List (DataContract F64 × ExecutionDag F64)
compile_all F64-discrete [] = []
compile_all F64-discrete (c ∷ cs) = (c, compile F64-discrete c) ∷ compile_all F64-discrete cs

module _ {Pest Anyhow : Type 0} where
  abbrev pub option_value : Pair → Outcome Pest Anyhow (Option String)
  option_value opt = do p ← only_child opt; returns (some (unquote (as_str p)))

  abbrev pub set_option : Rule → Pair → StreamConfig → Outcome Pest Anyhow StreamConfig
  set_option Rule.stream_window opt cfg = do
    value ← option_value opt
    returns (record cfg { window = value })
  set_option Rule.stream_watermark opt cfg = do
    value ← option_value opt
    returns (record cfg { watermark = value })
  set_option Rule.stream_emit opt cfg = do
    value ← option_value opt
    returns (record cfg { emit = value })
  set_option other opt cfg = returns cfg

  unfoldable pub stream_loop : Pairs → StreamConfig → Outcome Pest Anyhow StreamConfig
  stream_loop Pairs.done cfg = returns cfg
  stream_loop (Pairs.next wrapper ps) cfg = do
    opt ← only_child wrapper
    cfg' ← set_option (as_rule opt) opt cfg
    stream_loop ps cfg'

  unfoldable pub parse_stream : Pair → Outcome Pest Anyhow StreamConfig
  unfolding stream_loop
  parse_stream p = stream_loop (into_inner p) default_stream

  module _ {F64 : Type 0} (numbers : Numbers F64) where
    -- A section replaces what the contract had of its kind.
    unfoldable pub set_section :
        Rule → Pair → DataContract F64 → Outcome Pest Anyhow (DataContract F64)
    unfolding parse_schema parse_quality parse_stats parse_anomalies parse_stream
    set_section Rule.schema_section inner contract = do
      schema ← parse_schema numbers inner
      returns (record contract { schema = schema })
    set_section Rule.quality_section inner contract = do
      (qr, ccr) ← parse_quality numbers inner
      returns (record contract { quality_rules = qr; cross_column_rules = ccr })
    set_section Rule.stats_section inner contract = do
      rules ← parse_stats numbers inner
      returns (record contract { stats_rules = rules })
    set_section Rule.anomaly_section inner contract = do
      rules ← parse_anomalies inner
      returns (record contract { anomaly_rules = rules })
    set_section Rule.stream_section inner contract = do
      cfg ← parse_stream inner
      returns (record contract { stream_config = some cfg })
    set_section other inner contract = returns contract

    abbrev pub take_section :
        Bool → Pair → DataContract F64 → Outcome Pest Anyhow (DataContract F64)
    take_section false section contract = returns contract
    take_section true section contract = do
      inner ← only_child section
      set_section (as_rule inner) inner contract

    unfoldable pub section_loop : Pairs → DataContract F64 → Outcome Pest Anyhow (DataContract F64)
    unfolding set_section
    section_loop Pairs.done contract = returns contract
    section_loop (Pairs.next section ps) contract = do
      contract' ← take_section (is_rule (as_rule section) Rule.section) section contract
      section_loop ps contract'

    unfoldable pub parse_dataset : Pair → Outcome Pest Anyhow (DataContract F64)
    unfolding section_loop new
    parse_dataset p = do
      (name, sections) ← take (into_inner p)
      section_loop sections (new (as_str name))

    unfoldable pub dataset_loop : Pairs → Outcome Pest Anyhow (List (DataContract F64))
    unfolding collect parse_dataset
    dataset_loop Pairs.done = returns []
    dataset_loop (Pairs.next p ps) = do
      contracts ← collect Rule.dataset_def parse_dataset (into_inner p)
      rest ← dataset_loop ps
      returns (contracts ++ rest)

    -- `pest_parse` is `ContractParser::parse(Rule::contract, ..)`, and `too_long` the error at the
    -- start of the text that names the maximum.
    module _ (pest_parse : String → Pest ⊎ Pairs) (too_long : String → Pest) where
      abbrev pub parse_sized : Bool → String → Outcome Pest Anyhow (List (DataContract F64))
      parse_sized true input = fails (CoreError.parse (too_long input))
      parse_sized false input = elim (pest_parse input) [
        | inl e ↦ fails (CoreError.parse e)
        | inr pairs ↦ dataset_loop pairs
      ]

      unfoldable pub parse : String → Outcome Pest Anyhow (List (DataContract F64))
      unfolding dataset_loop as_bytes
      parse input = parse_sized (ltb max_input_size (length (as_bytes input))) input

      unfoldable pub parse_and_compile :
          Discrete F64 → String → Outcome Pest Anyhow (List (DataContract F64 × ExecutionDag F64))
      unfolding parse
      parse_and_compile F64-discrete dsl = do
        contracts ← parse dsl
        returns (compile_all F64-discrete contracts)
