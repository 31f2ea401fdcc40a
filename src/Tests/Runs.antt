-- ===== src/Tests/Runs.antt =====
-- Runs of the stream validator of crates/statguardian-stream on three lines.
use mathlib.Core.List.{Perm}
use stat_guardian.Base.{
  ◌≤◌, from_utf8, trim, ℕ, ◌≡◌, ◌≢◌, refl, ◌↔◌, true, false, inl, inr, Option, none, some, List, [],
  ◌∷◌, Memᴰ, length, arith, ltb, if◌then◌else◌,
}
use stat_guardian.Base.Sort.{AllPairs, sort_by}
use stat_guardian.Core.Ast.{Severity}
use stat_guardian.Stream.Reader.{interrupted, Reader, chunk, bytes_of, read_line_capped}
use stat_guardian.Stream.Ndjson.{next_line, next_line_loop, classify}
use stat_guardian.Stream.Ndjson
use stat_guardian.Stream.Json.{Value, number}
use stat_guardian.Stream.Report.{
  MalformedRecord, MalformedPolicy, StreamResult, StreamFinding, StreamReport, done, failed,
}
use stat_guardian.Stream.Validator.{
  StreamOptions, RunState, new_state, reject, record_sanitization, finish,
}
use stat_guardian.Stream.Validator.Finish.{InOrder, finish-ordered}
use stat_guardian.Stream.Validator.Run.{Calls, violation_findings, validate_reader}
use stat_guardian.Stream.Validator.Run.Sources.{validate_bytes}
use stat_guardian.Stream.Validator.Run.Buffers.{validate_reader-eq-validate_bytes}

-- A text of two characters is JSON here, and the first row of each batch is bad.
abbrev calls : Calls ℕ (List (Value ℕ)) ℕ
calls = record {
  text_ops = record { value_to_string = λ _. ""; to_lowercase = λ s. s; to_uppercase = λ s. s };
  from_str = λ s. if ltb (length s) 2 then inl "short" else inr (number (length s));
  read_frame = λ values. inr values;
  execute = λ frame.
      record {
        column = "id";
        check = "not_null";
        message = "null";
        severity = Severity.blocking;
        row_indices = 0 ∷ [];
        observed = none;
        expected = none;
      }
      ∷ [];
}

abbrev options : Option ℕ → StreamOptions
options max_records = record {
  limits = record {
    max_records = max_records;
    max_bytes = none;
    max_record_bytes = 8;
    batch_size = 1;
  };
  malformed = MalformedPolicy.collect 100;
  oversized = MalformedPolicy.skip;
  sanitizer = record {
    redaction = record { rules = []; recursive = false };
    normalization = record {
      trim_fields = [];
      lowercase_fields = [];
      uppercase_fields = [];
      recursive = false;
    };
  };
  allow_raw_diagnostics = false;
}

-- `{}`, `x` and `{}`
abbrev input : Reader
input = chunk 123 (125 ∷ 10 ∷ 120 ∷ 10 ∷ 123 ∷ 125 ∷ 10 ∷ []) ∷ []

abbrev counts : Option (StreamResult StreamReport) → List ℕ
counts none = []
counts (some (failed e)) = []
counts (some (done r)) =
    r.records_read ∷ r.records_validated ∷ r.malformed_count ∷ r.batches ∷ length r.findings ∷ []

counts-validate_reader :
    counts (validate_reader calls (options none) "d" 0 input) ≡ 3 ∷ 2 ∷ 1 ∷ 2 ∷ 2 ∷ []
unfolding validate_reader Ndjson.new next_line next_line_loop read_line_capped classify from_utf8
    trim bytes_of reject record_sanitization new_state finish sort_by violation_findings
counts-validate_reader = refl

-- With a limit of two records three are read.
counts-limited :
    counts (validate_reader calls (options (some 2)) "d" 0 input) ≡ 3 ∷ 1 ∷ 1 ∷ 1 ∷ 1 ∷ []
unfolding validate_reader Ndjson.new next_line next_line_loop read_line_capped classify from_utf8
    trim bytes_of reject record_sanitization new_state finish sort_by violation_findings
counts-limited = refl

-- The same bytes in three buffers.
abbrev buffers : Reader
buffers =
    chunk 123 [] ∷ interrupted ∷ chunk 125 (10 ∷ 120 ∷ []) ∷ chunk 10 (123 ∷ 125 ∷ 10 ∷ []) ∷ []

validate_reader-eq-validate_bytes_example :
    validate_reader calls (options (some 2)) "d" 0 buffers
    ≡ validate_bytes calls (options (some 2)) "d" 0 (bytes_of buffers)
unfolding bytes_of
validate_reader-eq-validate_bytes_example =
    validate_reader-eq-validate_bytes calls (options (some 2)) "d" 0 buffers tt (omega arith)

abbrev at_record : ℕ → Severity → StreamFinding
at_record index severity = record {
  record_index = some index;
  batch = 0;
  column = "id";
  check = "not_null";
  message = "null";
  severity = severity;
}

abbrev two_findings : RunState
two_findings = record {
  dataset = "d";
  records_read = 4;
  records_validated = 4;
  malformed_count = 0;
  oversized_count = 0;
  batches = 1;
  bytes_consumed = 40;
  truncated = false;
  findings = at_record 3 Severity.warning ∷ at_record 1 Severity.blocking ∷ [];
  malformed = [];
  sanitization = record { total_events = 0; by_kind = []; by_field = [] };
  limit_hit = none;
}

finish-ordered_example :
    AllPairs InOrder (finish 5 two_findings).findings
    × Perm (finish 5 two_findings).findings two_findings.findings
    × AllPairs
        (λ (a b : MalformedRecord). a.record_index ≤ b.record_index)
        (finish 5 two_findings).malformed
    × Perm (finish 5 two_findings).malformed two_findings.malformed
    × (((finish 5 two_findings).passed ≡ true)
        ↔ ((f : StreamFinding) → Memᴰ f two_findings.findings → f.severity ≢ Severity.blocking))
finish-ordered_example = finish-ordered 5 two_findings
