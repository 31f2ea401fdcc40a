-- ===== src/Stream/Agent/Events.antt =====
-- crates/statguardian-stream/src/agent.rs: events read from JSON, and from the lines of a reader.
pub mod Metadata
pub mod Lines
use stat_guardian.Base.{
  ℤ, ℕ, zero, suc, String, Bool, true, false, not, ◌⊎◌, inl, inr, Option, none, some, List, [], ◌∷◌,
  length, contains, ◌==◌, string_eq, if◌then◌else◌,
}
use stat_guardian.Base.Assoc.{insert}
use stat_guardian.Stream.Json.{Value, Fields}
use stat_guardian.Stream.Reader.{Reader, bytes_of, ok, err}
use stat_guardian.Stream.Ndjson.{RawLine, NdjsonSource, new, next_line}
use stat_guardian.Stream.Report.{StreamError, StreamResult, done, failed}
use stat_guardian.Stream.Agent.{AgentEvent, AgentEventKind, Measured, Provenance}

-- What the code uses of a `serde_json::Number`, of the text of a value, and of `str`.
pub record EventOps (Number Cost : Type 0) : Type 0 where
  pub number_u64 : Number → Option ℕ
  pub number_i64 : Number → Option ℤ
  pub number_f64 : Number → Option Cost
  pub show_value : Value Number → String
  pub to_ascii_lowercase : String → String

module _ {Number : Type 0} where
  -- `obj.get(k)`
  unfoldable pub get_field : String → Fields Number → Option (Value Number)
  get_field k Fields.end = none
  get_field k (Fields.field j v obj) = if j == k then some v else get_field k obj

  -- `keys.iter().find_map(|k| obj.get(*k))`
  unfoldable pub find_field : List String → Fields Number → Option (Value Number)
  unfolding get_field
  find_field [] obj = none
  find_field (k ∷ keys) obj = elim (get_field k obj) [
    | none ↦ find_field keys obj
    | some v ↦ some v
  ]

  abbrev pub as_text : Option (Value Number) → Option String
  as_text (some (Value.string s)) = some s
  as_text _ = none

  unfoldable pub get_str : Fields Number → List String → Option String
  unfolding find_field
  get_str obj keys = as_text (find_field keys obj)

abbrev pub text_or : Option String → String → String
text_or none default = default
text_or (some s) default = s

-- `AgentEventKind::parse`, after the text is in lower case.
unfoldable pub kind_of : String → AgentEventKind
kind_of s =
    if contains ("tool_call" ∷ "tool_use" ∷ "call" ∷ []) s
    then AgentEventKind.tool_call
    else if contains ("tool_result" ∷ "tool_output" ∷ "result" ∷ []) s
    then AgentEventKind.tool_result
    else if contains ("llm_call" ∷ "llm" ∷ "completion" ∷ "model_call" ∷ []) s
    then AgentEventKind.llm_call
    else if s == "retry"
    then AgentEventKind.retry
    else if contains ("error" ∷ "failure" ∷ []) s
    then AgentEventKind.error
    else if s == "policy_violation"
    then AgentEventKind.policy_violation
    else AgentEventKind.other

-- The provenance of the event, where `unknown` is no arm.
unfoldable pub default_provenance : Option String → Provenance
default_provenance none = Provenance.measured
default_provenance (some s) = if s == "estimated" then Provenance.estimated else Provenance.measured

abbrev pub provenance_or : Provenance → Option String → Provenance
provenance_or default none = default
provenance_or default (some s) =
    if s == "measured"
    then Provenance.measured
    else if s == "estimated"
    then Provenance.estimated
    else if s == "unknown"
    then Provenance.unknown
    else default

unfoldable pub parse_provenance :
    {Number : Type 0} → Option (Value Number) → Provenance → Provenance
parse_provenance v default = provenance_or default (as_text v)

abbrev pub known : List String
known =
    "execution_id" ∷ "run_id" ∷ "trace_id" ∷ "session_id" ∷ "seq" ∷ "step" ∷ "index"
    ∷ "timestamp_ms" ∷ "ts_ms" ∷ "kind" ∷ "type" ∷ "event" ∷ "tool" ∷ "tool_name" ∷ "name"
    ∷ "call_signature" ∷ "args_hash" ∷ "signature" ∷ "tokens_in" ∷ "input_tokens" ∷ "prompt_tokens"
    ∷ "tokens_out" ∷ "output_tokens" ∷ "completion_tokens" ∷ "cost_usd" ∷ "cost" ∷ "duration_ms"
    ∷ "latency_ms" ∷ "elapsed_ms" ∷ "retry_of" ∷ "retry_index" ∷ "error" ∷ "provenance" ∷ []

-- `known.contains(&k.as_str())`
unfoldable pub is_known : String → Bool
is_known k = contains known k

module _ {Number Cost : Type 0} (ops : EventOps Number Cost) where
  open ops use {number_u64, number_i64, number_f64, show_value, to_ascii_lowercase}

  -- The two functions on numbers differ in how they read one.
  module _ {A : Type 0} (as_number : Number → Option A) where
    abbrev pub value_number : Option (Value Number) → Option A
    value_number (some (Value.number n)) = as_number n
    value_number _ = none

    abbrev pub measured_value : Provenance → Option (Value Number) → Option (Measured A)
    measured_value default (some (Value.number n)) = elim (as_number n) [
      | none ↦ none
      | some x ↦ some (record { value = x; provenance = default })
    ]
    measured_value default (some (Value.object o)) = elim (value_number (get_field "value" o)) [
      | none ↦ none
      | some x ↦
          some
            (record { value = x; provenance = parse_provenance (get_field "provenance" o) default })
    ]
    measured_value default _ = none

    unfoldable pub parse_measured : Fields Number → List String → Provenance → Option (Measured A)
    unfolding find_field get_field parse_provenance
    parse_measured obj keys default = measured_value default (find_field keys obj)

  -- The entries are those of a `BTreeMap`; no theorem says anything of their order.
  unfoldable pub metadata_loop : Fields Number → List (String × String) → List (String × String)
  metadata_loop Fields.end m = m
  metadata_loop (Fields.field k v obj) m =
      metadata_loop obj (if is_known k then m else insert k (show_value v) m)

  unfoldable pub event_of : Fields Number → AgentEvent Cost
  unfolding get_str kind_of default_provenance parse_measured metadata_loop find_field
  event_of obj =
      let default = default_provenance (get_str obj ("provenance" ∷ [])) in
      record {
        execution_id =
            text_or (get_str obj ("execution_id" ∷ "run_id" ∷ "trace_id" ∷ "session_id" ∷ []))
              "unknown";
        seq = elim (value_number number_u64 (find_field ("seq" ∷ "step" ∷ "index" ∷ []) obj)) [
          | none ↦ 0
          | some n ↦ n
        ];
        timestamp_ms = value_number number_i64 (find_field ("timestamp_ms" ∷ "ts_ms" ∷ []) obj);
        kind =
            kind_of
              (to_ascii_lowercase (text_or (get_str obj ("kind" ∷ "type" ∷ "event" ∷ [])) "other"));
        tool = get_str obj ("tool" ∷ "tool_name" ∷ "name" ∷ []);
        call_signature = get_str obj ("call_signature" ∷ "args_hash" ∷ "signature" ∷ []);
        tokens_in =
            parse_measured number_u64 obj ("tokens_in" ∷ "input_tokens" ∷ "prompt_tokens" ∷ [])
              default;
        tokens_out =
            parse_measured number_u64 obj
              ("tokens_out" ∷ "output_tokens" ∷ "completion_tokens" ∷ []) default;
        cost_usd = parse_measured number_f64 obj ("cost_usd" ∷ "cost" ∷ []) default;
        duration_ms =
            parse_measured number_u64 obj ("duration_ms" ∷ "latency_ms" ∷ "elapsed_ms" ∷ [])
              default;
        retry_of = value_number number_u64 (find_field ("retry_of" ∷ "retry_index" ∷ []) obj);
        error = get_str obj ("error" ∷ []);
        metadata = metadata_loop obj [];
      }

  unfoldable pub from_json : Value Number → String ⊎ AgentEvent Cost
  unfolding event_of
  from_json (Value.object obj) = inr (event_of obj)
  from_json _ = inl "agent event must be a JSON object"

  module _ (from_str : List ℕ → String ⊎ Value Number) where
    -- The body of the loop of `parse_ndjson`.
    unfoldable pub line_event : ℕ → RawLine → StreamResult (AgentEvent Cost)
    unfolding from_json
    line_event max_record_bytes line =
        if line.exceeded
        then failed (StreamError.oversized_record line.record_index max_record_bytes line.bytes)
        else if not line.utf8
        then failed (StreamError.invalid_utf8 line.record_index)
        else elim (from_str line.content) [
          | inl reason ↦ failed (StreamError.malformed line.record_index reason)
          | inr value ↦ elim (from_json value) [
            | inl reason ↦ failed (StreamError.malformed line.record_index reason)
            | inr event ↦ done event
          ]
        ]

    abbrev pub push_event :
        AgentEvent Cost
        → Option (StreamResult (List (AgentEvent Cost)))
        → Option (StreamResult (List (AgentEvent Cost)))
    push_event event (some (done events)) = some (done (event ∷ events))
    push_event event rest = rest

    abbrev pub after_line :
        StreamResult (AgentEvent Cost)
        → Option (StreamResult (List (AgentEvent Cost)))
        → Option (StreamResult (List (AgentEvent Cost)))
    after_line (failed e) rest = some (failed e)
    after_line (done event) rest = push_event event rest

    -- `none` means that the fuel ran out.
    unfoldable pub events_loop :
        ℕ → ℕ → NdjsonSource → Option (StreamResult (List (AgentEvent Cost)))
    unfolding line_event
    events_loop max_record_bytes zero src = none
    events_loop max_record_bytes (suc fuel) src = elim (next_line src) [
      | none ↦ none
      | some err ↦ some (failed StreamError.io)
      | some (ok (none, src')) ↦ some (done [])
      | some (ok (some line, src')) ↦
          after_line (line_event max_record_bytes line) (events_loop max_record_bytes fuel src')
    ]

    unfoldable pub parse_ndjson : Reader → ℕ → Option (StreamResult (List (AgentEvent Cost)))
    unfolding events_loop
    parse_ndjson reader max_record_bytes =
        events_loop max_record_bytes (suc (length (bytes_of reader))) (new reader max_record_bytes)
