-- ===== src/Stream/Validator/Run.antt =====
-- The loop of `validate_reader` and `flush_batch` of crates/statguardian-stream/src/validator.rs.
pub mod Accounting
pub mod Sources
pub mod Buffers
use Prim.Native.String.{◌++◌ as ◌<>◌}
use stat_guardian.Base.{
  ℕ, zero, suc, ◌+◌, String, ◌≡◌, Bool, true, false, not, ◌⊎◌, inl, inr, Option, none, some, List,
  [], ◌∷◌, ◌++◌, length, map, ltb, leb, decimal, if◌then◌else◌,
}
use stat_guardian.Validators.Violation.{Violation}
use stat_guardian.Stream.Reader.{Reader, bytes_of, u64, ok, err}
use stat_guardian.Stream.Ndjson.{RawLine, NdjsonSource, Answer, next_line}
use stat_guardian.Stream.Ndjson
use stat_guardian.Stream.Json.{Value}
use stat_guardian.Stream.Sanitize.{TextOps, sanitize}
use stat_guardian.Stream.Report.{
  StreamLimits, StreamError, StreamResult, done, failed, StreamFinding, MalformedKind,
  MalformedRecord, StreamLimitHit, StreamReport,
}
use stat_guardian.Stream.Validator.{
  StreamOptions, RunState, new_state, record_sanitization, reject, finish, truncate_preview,
}

-- What a run calls: `serde_json::from_str`, the data frame of a batch, and `Engine::execute`.
pub record Calls (Number Frame F64 : Type 0) : Type 0 where
  pub text_ops : TextOps Number
  pub from_str : List ℕ → String ⊎ Value Number
  pub read_frame : List (Value Number) → String ⊎ Frame
  pub execute : Frame → List (Violation F64)

-- `record_ids[local]` where `local < records.len()`
abbrev pub id_at : List ℕ → ℕ → Option ℕ
id_at [] local = none
id_at (id ∷ ids) zero = some id
id_at (id ∷ ids) (suc local) = id_at ids local

abbrev pub reached : Option ℕ → ℕ → Bool
reached none n = false
reached (some max) n = leb max n

abbrev pub max_of : Option ℕ → ℕ
max_of none = 0
max_of (some max) = max

-- A limit is hit if there is one more line.
unfoldable pub hit_limit : String → ℕ → RunState → RunState
hit_limit limit max state = record state {
  truncated = true;
  limit_hit = some (record { limit = limit; value = max });
}

module _ {Number Frame F64 : Type 0} (calls : Calls Number Frame F64) where
  abbrev pub Batch : Type 0
  Batch = List (ℕ × Value Number)

  unfoldable pub finding : RunState → Option ℕ → Violation F64 → StreamFinding
  finding state index v = record {
    record_index = index;
    batch = state.batches;
    column = v.column;
    check = v.check;
    message = v.message;
    severity = v.severity;
  }

  -- The loop over the rows of a violation.
  unfoldable pub row_findings : RunState → List ℕ → Violation F64 → List ℕ → List StreamFinding
  row_findings state ids v [] = []
  row_findings state ids v (local ∷ rows) =
      let rest = row_findings state ids v rows in
      elim (id_at ids local) [ none ↦ rest | some id ↦ finding state (some id) v ∷ rest ]

  unfoldable pub violation_findings : RunState → List ℕ → Violation F64 → List StreamFinding
  unfolding row_findings finding
  violation_findings state ids v = elim v.row_indices [
    | [] ↦ finding state none v ∷ []
    | local ∷ rows ↦ row_findings state ids v (local ∷ rows)
  ]

  unfoldable pub all_findings : RunState → List ℕ → List (Violation F64) → List StreamFinding
  all_findings state ids [] = []
  all_findings state ids (v ∷ vs) = violation_findings state ids v ++ all_findings state ids vs

  -- A batch that is not empty; the batch is empty afterwards.
  unfoldable pub flush_records : Batch → RunState → StreamResult RunState
  unfolding all_findings
  flush_records batch state =
      elim (calls.read_frame (map (λ (entry : ℕ × Value Number). entry.1) batch)) [
        | inl reason ↦ failed (StreamError.materialize state.batches reason)
        | inr frame ↦
            let ids = map (λ (entry : ℕ × Value Number). entry.0) batch in
            done (record state {
              findings = state.findings ++ all_findings state ids (calls.execute frame);
              records_validated = u64 (state.records_validated + length batch);
              batches = u64 (state.batches + 1);
            })
      ]

  unfoldable pub flush_batch : Batch → RunState → StreamResult RunState
  unfolding flush_records
  flush_batch [] state = done state
  flush_batch (entry ∷ batch) state = flush_records (entry ∷ batch) state

  module _ (options : StreamOptions) where
    -- `batch.push`, and a flush where the batch is full.
    unfoldable pub push_record :
        ℕ × Value Number → Batch → RunState → StreamResult (RunState × Batch)
    unfolding flush_batch
    push_record entry batch state =
        let batch' = batch ++ entry ∷ [] in
        if leb options.limits.batch_size (length batch')
        then elim (flush_batch batch' state) [
          | failed e ↦ failed e
          | done state' ↦ done (state', [])
        ]
        else done (state, batch')

    -- A line that is rejected under a policy.
    abbrev pub after_reject : Batch → StreamResult RunState → StreamResult (RunState × Batch)
    after_reject batch (failed e) = failed e
    after_reject batch (done state) = done (state, batch)

    unfoldable pub parsed_line :
        RawLine → String ⊎ Value Number → RunState → Batch → StreamResult (RunState × Batch)
    unfolding push_record truncate_preview
    parsed_line line (inl e) state batch = after_reject batch (
        reject options.malformed
          (record {
            record_index = line.record_index;
            kind = MalformedKind.json;
            reason = "invalid JSON: " <> e;
            preview =
                if options.allow_raw_diagnostics
                then some (truncate_preview line.content 200)
                else none;
          })
          state)
    parsed_line line (inr value) state batch =
        let (sanitized, events) = sanitize calls.text_ops options.sanitizer value in
        push_record (line.record_index, sanitized) batch (record_sanitization events state)

    -- The body of the loop once a line is read.
    unfoldable pub handle_line : RawLine → RunState → Batch → StreamResult (RunState × Batch)
    unfolding parsed_line
    handle_line line state batch =
        if line.exceeded
        then after_reject batch (
            reject options.oversized
              (record {
                record_index = line.record_index;
                kind = MalformedKind.oversized;
                reason =
                    "line exceeded max_record_bytes ("
                    <> decimal options.limits.max_record_bytes
                    <> ") and was discarded";
                preview = none;
              })
              state)
        else if not line.utf8
        then after_reject batch (
            reject options.malformed
              (record {
                record_index = line.record_index;
                kind = MalformedKind.utf8;
                reason = "line is not valid UTF-8";
                preview = none;
              })
              state)
        else parsed_line line (calls.from_str line.content) state batch

    abbrev pub LoopEnd : Type 0
    LoopEnd = Option (StreamResult (NdjsonSource × RunState × Batch))

    -- One more line is asked for at a limit, and the loop left.
    unfoldable pub stop_at : String → ℕ → Answer → RunState → Batch → LoopEnd
    unfolding hit_limit
    stop_at limit max none state batch = none
    stop_at limit max (some err) state batch = some (failed StreamError.io)
    stop_at limit max (some (ok (none, src))) state batch = some (done (src, state, batch))
    stop_at limit max (some (ok (some line, src))) state batch =
        some (done (src, hit_limit limit max state, batch))

    -- The `loop`; `none` means that the fuel ran out.
    unfoldable pub run_loop : ℕ → NdjsonSource → RunState → Batch → LoopEnd
    unfolding stop_at handle_line
    run_loop zero src state batch = none
    run_loop (suc fuel) src state batch =
        elim (reached options.limits.max_records src.record_index) [
          | true ↦
              stop_at "max_records" (max_of options.limits.max_records) (next_line src) state batch
          | false ↦ elim (reached options.limits.max_bytes src.bytes_consumed) [
            | true ↦
                stop_at "max_bytes" (max_of options.limits.max_bytes) (next_line src) state batch
            | false ↦ elim (next_line src) [
              | none ↦ none
              | some err ↦ some (failed StreamError.io)
              | some (ok (none, src')) ↦ some (done (src', state, batch))
              | some (ok (some line, src')) ↦ elim (handle_line line state batch) [
                | failed e ↦ some (failed e)
                | done (state', batch') ↦ run_loop fuel src' state' batch'
              ]
            ]
          ]
        ]

    -- What follows the loop.
    unfoldable pub finish_run : (duration_ms : ℕ) → LoopEnd → Option (StreamResult StreamReport)
    unfolding flush_batch
    finish_run duration_ms none = none
    finish_run duration_ms (some (failed e)) = some (failed e)
    finish_run duration_ms (some (done (src, state, batch))) = elim (flush_batch batch state) [
      | failed e ↦ some (failed e)
      | done state' ↦ some (
          done (
            finish duration_ms (record state' {
              records_read = src.record_index;
              bytes_consumed = src.bytes_consumed;
            })))
    ]

    -- Every round but the last reads a record, of at least one byte.
    unfoldable pub validate_reader :
        (dataset : String) → (duration_ms : ℕ) → Reader → Option (StreamResult StreamReport)
    unfolding run_loop finish_run
    validate_reader dataset duration_ms reader = finish_run duration_ms (
        run_loop (suc (length (bytes_of reader)))
          (Ndjson.new reader options.limits.max_record_bytes) (new_state dataset) [])
