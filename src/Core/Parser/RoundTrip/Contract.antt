-- ===== src/Core/Parser/RoundTrip/Contract.antt =====
-- Contracts are read back as they were, and a text of contracts is compiled to their plans.
use stat_guardian.Base.{
  String, false, Option, none, some, ◌⊎◌, inr, List, [], ◌∷◌, ◌≡◌, refl, ◌≤◌, length, ltb, map,
  arith,
}
use mathlib.Core.Path.{◌∙◌, ap}
use mathlib.Core.List.{append-nil}
use stat_guardian.Core.Compiler.{compile}
use stat_guardian.Base.Chars.{as_bytes}
use stat_guardian.Base.Sort.{All}
use stat_guardian.Core.Ast.{DataContract, StreamConfig, new}
use stat_guardian.Core.Errors.{returns}
use stat_guardian.Core.Parser.Tree.{Rule, rule_name, Pairs, collect}
use stat_guardian.Core.Parser.Words.{Numbers}
use stat_guardian.Core.Parser.Rules.{parse_quality}
use stat_guardian.Core.Parser.Contract.{
  max_input_size, stream_loop, parse_stream, set_section, section_loop, parse_dataset, dataset_loop,
  parse, parse_and_compile, parse_sized, compile_all,
}
use stat_guardian.Core.Parser.Print.{
  Source, onto, one, leaf, stream_pair, stream_section, option_pairs, contract_pair, input_pair,
}
use stat_guardian.Core.Parser.RoundTrip.Words.{IsReadable, unquote-quote}
use stat_guardian.Core.Parser.RoundTrip.Fields.{IsReadableField, parse_schema-node}
use stat_guardian.Core.Parser.RoundTrip.Rules.{
  IsReadableCondition, quality_loop-onto, parse_stats-node, HasNewKeys, parse_anomalies-node,
}

compile_all-map :
    {F64 : Type 0} (d : Discrete F64) (cs : List (DataContract F64))
    → compile_all d cs ≡ map (λ c. (c, compile d c)) cs
compile_all-map d [] = refl
compile_all-map d (c ∷ cs) = rw (compile_all-map d cs) refl

module _ {F64 : Type 0} (source : Source F64) (numbers : Numbers F64) where
  -- Each number is read back from its text, and no rule has an argument twice.
  abbrev pub IsReadableContract : DataContract F64 → Type 0
  IsReadableContract c =
      All (IsReadableField source numbers) c.schema
      × All (λ q. IsReadable source numbers q.threshold) c.quality_rules
      × All (IsReadableCondition source numbers) c.cross_column_rules
      × All (λ r. IsReadable source numbers r.threshold) c.stats_rules
      × All (λ r. HasNewKeys [] r.args) c.anomaly_rules

  module _ {Pest Anyhow : Type 0} where
    stream_window-option :
        (v : Option String) (rest : Pairs)
        → stream_loop {Pest = Pest} {Anyhow = Anyhow}
            (option_pairs source Rule.stream_window v rest)
            (record { window = none; watermark = none; emit = none })
          ≡ stream_loop rest (record { window = v; watermark = none; emit = none })
    unfolding stream_loop
    stream_window-option none rest = refl
    stream_window-option (some s) rest = rw (unquote-quote s) refl

    stream_watermark-option :
        (w v : Option String) (rest : Pairs)
        → stream_loop {Pest = Pest} {Anyhow = Anyhow}
            (option_pairs source Rule.stream_watermark v rest)
            (record { window = w; watermark = none; emit = none })
          ≡ stream_loop rest (record { window = w; watermark = v; emit = none })
    unfolding stream_loop
    stream_watermark-option w none rest = refl
    stream_watermark-option w (some s) rest = rw (unquote-quote s) refl

    stream_emit-option :
        (w m v : Option String)
        → stream_loop {Pest = Pest} {Anyhow = Anyhow}
            (option_pairs source Rule.stream_emit v Pairs.done)
            (record { window = w; watermark = m; emit = none })
          ≡ returns (record { window = w; watermark = m; emit = v })
    unfolding stream_loop
    stream_emit-option w m none = refl
    stream_emit-option w m (some s) = rw (unquote-quote s) refl

    parse_stream-pair :
        (cfg : StreamConfig)
        → parse_stream {Pest = Pest} {Anyhow = Anyhow} (stream_pair source cfg) ≡ returns cfg
    unfolding parse_stream
    parse_stream-pair cfg =
        stream_window-option cfg.window _
        ∙ stream_watermark-option cfg.window cfg.watermark _
        ∙ stream_emit-option cfg.window cfg.watermark cfg.emit

    section_loop-stream :
        (c : DataContract F64) (cfg : Option StreamConfig)
        → section_loop {Pest = Pest} {Anyhow = Anyhow} numbers
            (stream_section source cfg)
            (record c { stream_config = none })
          ≡ returns (record c { stream_config = cfg })
    unfolding section_loop set_section rule_name
    section_loop-stream c none = refl
    section_loop-stream c (some cfg) = rw (parse_stream-pair cfg) refl

    parse_dataset-pair :
        (c : DataContract F64)
        → IsReadableContract c
        → parse_dataset {Pest = Pest} {Anyhow = Anyhow} numbers (contract_pair source c) ≡ returns c
    unfolding parse_dataset section_loop set_section rule_name new parse_quality
    parse_dataset-pair c (hs, hq, hc, ht, ha) =
        rw (parse_schema-node source numbers {Pest = Pest} {Anyhow = Anyhow} c.schema hs) (
          rw
            (quality_loop-onto source numbers {Pest = Pest} {Anyhow = Anyhow} c.quality_rules
              c.cross_column_rules hq hc)
            (rw (parse_stats-node source numbers {Pest = Pest} {Anyhow = Anyhow} c.stats_rules ht) (
              rw (parse_anomalies-node source {Pest = Pest} {Anyhow = Anyhow} c.anomaly_rules ha)
                (section_loop-stream c c.stream_config))))

    contracts-onto :
        (cs : List (DataContract F64))
        → All IsReadableContract cs
        → collect Rule.dataset_def
            (parse_dataset {Pest = Pest} {Anyhow = Anyhow} numbers)
            (onto (contract_pair source) cs (one (leaf Rule.eoi "")))
          ≡ returns cs
    unfolding collect rule_name
    contracts-onto [] h = refl
    contracts-onto (c ∷ cs) (h, hs) = rw (contracts-onto cs hs) (rw (parse_dataset-pair c h) refl)

    dataset_loop-input :
        (cs : List (DataContract F64))
        → All IsReadableContract cs
        → dataset_loop {Pest = Pest} {Anyhow = Anyhow} numbers (one (input_pair source cs))
          ≡ returns cs
    unfolding dataset_loop
    dataset_loop-input cs h = rw (contracts-onto cs h) (ap returns (append-nil cs))

    module _ (pest_parse : String → Pest ⊎ Pairs) (too_long : String → Pest) where
      -- Within the maximum, the pairs decide.
      parse-input :
          (cs : List (DataContract F64)) (input : String)
          → All IsReadableContract cs
          → length (as_bytes input) ≤ max_input_size
          → pest_parse input ≡ inr (one (input_pair source cs))
          → parse {Anyhow = Anyhow} numbers pest_parse too_long input ≡ returns cs
      unfolding parse
      parse-input cs input h small parsed =
          let fits : ltb max_input_size (length (as_bytes input)) ≡ false = ground arith in
          rw (fits, parse_sized) (rw (parsed, parse_sized) (dataset_loop-input cs h))

      -- Where the pairs of a text within the maximum are those of some contracts, whose numbers
      -- can be read back and whose rules name no argument twice, parse gives these contracts, and
      -- parse_and_compile gives each with its plan.
      pub parse_and_compile-exact :
          (d : Discrete F64) (cs : List (DataContract F64)) (input : String)
          → All IsReadableContract cs
          → length (as_bytes input) ≤ max_input_size
          → pest_parse input ≡ inr (one (input_pair source cs))
          → (parse {Anyhow = Anyhow} numbers pest_parse too_long input ≡ returns cs)
            × (parse_and_compile {Anyhow = Anyhow} numbers pest_parse too_long d input
                ≡ returns (map (λ c. (c, compile d c)) cs))
      unfolding parse_and_compile
      parse_and_compile-exact d cs input h small parsed =
          let contracts = parse-input cs input h small parsed in
          (contracts, rw contracts (ap returns (compile_all-map d cs)))
