-- ===== src/Stream/Validator.antt =====
-- crates/statguardian-stream/src/validator.rs: a run over a stream in micro-batches. What it calls
-- outside the crate is a parameter: the JSON parser, the reader of data frames, the engine.
pub mod Run
pub mod Finish
use Prim.Native.Nat.{compare as compare_ℕ, Ordering}
use Prim.Native.String.{◌++◌ as ◌<>◌, compare}
use stat_guardian.Base.{
  ℕ, zero, suc, ◌+◌, String, ◌≡◌, Bool, true, false, not, ◌⊎◌, inl, inr, Option, none, some, List,
  [], ◌∷◌, ◌++◌, length, map, filter, take, ltb, leb, decimal, if◌then◌else◌,
}
use stat_guardian.Base.Order.{then_with}
use stat_guardian.Base.Sort.{sort_by}
use stat_guardian.Core.Ast.{Severity}
use stat_guardian.Validators.Violation.{Violation, is_blocking_severity}
use stat_guardian.Stream.Reader.{Reader, bytes_of, u64, IoResult, ok, err}
use stat_guardian.Stream.Ndjson.{RawLine, NdjsonSource, records_read, next_line}
use stat_guardian.Stream.Ndjson
use stat_guardian.Stream.Json.{Value}
use stat_guardian.Stream.Sanitize.{
  Sanitizer, SanitizationEvent, SanitizationSummary, TextOps, empty_summary, record_event, sanitize,
}
use stat_guardian.Stream.Report.{
  StreamLimits, MalformedPolicy, StreamError, StreamResult, done, failed, StreamFinding,
  MalformedKind, MalformedRecord, StreamLimitHit, StreamReport,
}

pub record StreamOptions : Type 0 where
  pub limits : StreamLimits
  pub malformed : MalformedPolicy
  pub oversized : MalformedPolicy
  pub sanitizer : Sanitizer
  pub allow_raw_diagnostics : Bool

pub record RunState : Type 0 where
  pub dataset : String
  pub records_read : ℕ
  pub records_validated : ℕ
  pub malformed_count : ℕ
  pub oversized_count : ℕ
  pub batches : ℕ
  pub bytes_consumed : ℕ
  pub truncated : Bool
  pub findings : List StreamFinding
  pub malformed : List MalformedRecord
  pub sanitization : SanitizationSummary
  pub limit_hit : Option StreamLimitHit

unfoldable pub new_state : String → RunState
unfolding empty_summary
new_state dataset = record {
  dataset = dataset;
  records_read = 0;
  records_validated = 0;
  malformed_count = 0;
  oversized_count = 0;
  batches = 0;
  bytes_consumed = 0;
  truncated = false;
  findings = [];
  malformed = [];
  sanitization = empty_summary;
  limit_hit = none;
}

record_all : List SanitizationEvent → SanitizationSummary → SanitizationSummary
record_all [] summary = summary
record_all (e ∷ es) summary = record_all es (record_event e summary)

unfoldable pub record_sanitization : List SanitizationEvent → RunState → RunState
unfolding record_all
record_sanitization events state = record state {
  sanitization = record_all events state.sanitization;
}

abbrev pub rejection : MalformedKind → ℕ → String → StreamError
rejection MalformedKind.oversized index reason = StreamError.oversized_record index 0 0
rejection MalformedKind.utf8 index reason = StreamError.invalid_utf8 index
rejection MalformedKind.json index reason = StreamError.malformed index reason

abbrev pub count_oversized : MalformedKind → ℕ → ℕ
count_oversized MalformedKind.oversized n = u64 (n + 1)
count_oversized _ n = n

-- The `match` on the policy.
unfoldable pub apply_policy : MalformedPolicy → MalformedRecord → RunState → StreamResult RunState
apply_policy MalformedPolicy.fail_fast m state = failed (rejection m.kind m.record_index m.reason)
apply_policy MalformedPolicy.skip m state = done state
apply_policy (MalformedPolicy.collect max) m state =
    if ltb (length state.malformed) max
    then done (record state { malformed = state.malformed ++ m ∷ [] })
    else done state

unfoldable pub reject : MalformedPolicy → MalformedRecord → RunState → StreamResult RunState
unfolding apply_policy
reject policy m state = apply_policy policy m (record state {
  malformed_count = u64 (state.malformed_count + 1);
  oversized_count = count_oversized m.kind state.oversized_count;
})

-- `Option` orders `None` first.
abbrev pub compare_record : Option ℕ → Option ℕ → Ordering
compare_record none none = Ordering.eq
compare_record none (some b) = Ordering.lt
compare_record (some a) none = Ordering.gt
compare_record (some a) (some b) = compare_ℕ a b

unfoldable pub finding_cmp : StreamFinding → StreamFinding → Ordering
finding_cmp a b = then_with (compare_record a.record_index b.record_index) (
    then_with (compare a.column b.column)
      (then_with (compare a.check b.check) (compare_ℕ a.batch b.batch)))

any_blocking : List StreamFinding → Bool
any_blocking [] = false
any_blocking (f ∷ fs) = if is_blocking_severity f.severity then true else any_blocking fs

unfoldable pub finish : (duration_ms : ℕ) → RunState → StreamReport
unfolding any_blocking finding_cmp
finish duration_ms state =
    let findings = sort_by finding_cmp state.findings in
    let by_record = λ (a b : MalformedRecord). compare_ℕ a.record_index b.record_index in
    record {
      dataset = state.dataset;
      records_read = state.records_read;
      records_validated = state.records_validated;
      malformed_count = state.malformed_count;
      oversized_count = state.oversized_count;
      batches = state.batches;
      bytes_consumed = state.bytes_consumed;
      truncated = state.truncated;
      passed = not (any_blocking findings);
      duration_ms = duration_ms;
      findings = findings;
      malformed = sort_by by_record state.malformed;
      sanitization = state.sanitization;
      limit_hit = state.limit_hit;
    }

unfoldable pub truncate_preview : List ℕ → ℕ → List ℕ
truncate_preview s max = if leb (length s) max then s else take max s ++ 0x2026 ∷ []
