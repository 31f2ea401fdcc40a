-- ===== src/Tests/Telemetry.antt =====
-- Events of an agent from JSON, as crates/statguardian-stream/src/agent.rs reads them.
use Prim.Native.Nat.{max}
use stat_guardian.Base.{ℕ, ◌≡◌, refl, inr, none, some, [], ◌∷◌, nat_eq, string_eq, arith}
use stat_guardian.Base.Assoc.{get}
use stat_guardian.Stream.Json.{Value, Fields}
use stat_guardian.Stream.Reader.{Reader, chunk, bytes_of}
use stat_guardian.Stream.Reader.Lines.{lines_of}
use stat_guardian.Stream.Ndjson.Lines.{records_of}
use stat_guardian.Stream.Agent.{Provenance}
use stat_guardian.Stream.Agent.Events.{
  from_json, EventOps, get_field, is_known, default_provenance, event_of, parse_ndjson,
}
use stat_guardian.Stream.Agent.Events.Metadata.{from_json-metadata}
use stat_guardian.Stream.Agent.Events.Lines.{events_of, parse_ndjson-exact}

abbrev ops : EventOps ℕ ℕ
ops = record {
  number_u64 = λ n. some n;
  number_i64 = λ _. none;
  number_f64 = λ n. some n;
  show_value = λ _. "text";
  to_ascii_lowercase = λ s. s;
}

abbrev call : Fields ℕ
call = Fields.field "tool" (Value.string "search") (
    Fields.field "team" (Value.string "ops") (Fields.field "tokens_in" (Value.number 5) Fields.end))

from_json-metadata_example : get "team" (event_of ops call).metadata ≡ some "text"
unfolding get_field is_known from_json
from_json-metadata_example =
    from_json-metadata ops "team" call (event_of ops call) (refl, (refl, (refl, tt))) refl

-- One record, of the bytes `{}`.
abbrev input : Reader
input = chunk 123 (125 ∷ []) ∷ chunk 10 [] ∷ []

parse_ndjson-exact_example :
    parse_ndjson ops (λ _. inr (Value.object call)) input 64
    ≡ some (
        events_of ops
          (λ _. inr (Value.object call))
          64
          (records_of (max 64 1) 0 (lines_of (bytes_of input))))
unfolding bytes_of
parse_ndjson-exact_example =
    parse_ndjson-exact ops (λ _. inr (Value.object call)) input 64 tt (omega arith)

-- An event that says of itself that it is not measured counts as measured.
default_provenance_unknown : default_provenance (some "unknown") ≡ Provenance.measured
unfolding default_provenance
default_provenance_unknown = refl
