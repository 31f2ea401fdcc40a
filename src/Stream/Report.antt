-- ===== src/Stream/Report.antt =====
-- crates/statguardian-stream: the limits (src/limits.rs), the errors (src/error.rs) and the report
-- (src/report.rs) of a run.
use Prim.Native.String.{◌++◌ as ◌<>◌}
use stat_guardian.Base.{
  ℕ, ◌*◌, String, ◌≡◌, refl, ◌⊎◌, inl, inr, Bool, true, false, not, ◌&&◌, ◌||◌, Option, none, some,
  List, [], ◌∷◌, length, filter, decimal, if◌then◌else◌,
}
use stat_guardian.Core.Ast.{Severity}
use stat_guardian.Stream.Sanitize.{SanitizationSummary}

pub record StreamLimits : Type 0 where
  pub max_records : Option ℕ
  pub max_bytes : Option ℕ
  pub max_record_bytes : ℕ
  pub batch_size : ℕ

unfoldable pub default_limits : StreamLimits
default_limits = record {
  max_records = none;
  max_bytes = none;
  max_record_bytes = 8 * 1024 * 1024;
  batch_size = 1_000;
}

unfoldable pub with_max_records : ℕ → StreamLimits
unfolding default_limits
with_max_records max_records = record default_limits { max_records = some max_records }

pub data MalformedPolicy : Type 0 where
  fail_fast skip : MalformedPolicy
  collect : (max : ℕ) → MalformedPolicy

unfoldable pub default_policy : MalformedPolicy
default_policy = MalformedPolicy.collect 100

-- The errors that a run gives.
pub data StreamError : Type 0 where
  io : StreamError
  malformed : (record_index : ℕ) → (reason : String) → StreamError
  oversized_record : (record_index limit actual : ℕ) → StreamError
  invalid_utf8 : (record_index : ℕ) → StreamError
  materialize : (batch : ℕ) → (reason : String) → StreamError

pub data StreamResult {ℓ} (A : Type ℓ) : Type ℓ where
  done : A → StreamResult A
  failed : StreamError → StreamResult A

pub StreamResult-cases {ℓ} :
    {A : Type ℓ} (o : StreamResult A)
    → ((e : StreamError) × (o ≡ failed e)) ⊎ ((a : A) × (o ≡ done a))
StreamResult-cases (failed e) = inl (e, refl)
StreamResult-cases (done a) = inr (a, refl)

-- `record` of the source is `record_index`.
pub record StreamFinding : Type 0 where
  pub record_index : Option ℕ
  pub batch : ℕ
  pub column : String
  pub check : String
  pub message : String
  pub severity : Severity

pub data MalformedKind : Type 0 where
  json utf8 oversized : MalformedKind

pub record MalformedRecord : Type 0 where
  pub record_index : ℕ
  pub kind : MalformedKind
  pub reason : String
  pub preview : Option (List ℕ)

pub record StreamLimitHit : Type 0 where
  pub limit : String
  pub value : ℕ

pub record StreamReport : Type 0 where
  pub dataset : String
  pub records_read : ℕ
  pub records_validated : ℕ
  pub malformed_count : ℕ
  pub oversized_count : ℕ
  pub batches : ℕ
  pub bytes_consumed : ℕ
  pub truncated : Bool
  pub passed : Bool
  pub duration_ms : ℕ
  pub findings : List StreamFinding
  pub malformed : List MalformedRecord
  pub sanitization : SanitizationSummary
  pub limit_hit : Option StreamLimitHit

abbrev pub same_severity : Severity → Severity → Bool
same_severity Severity.info Severity.info = true
same_severity Severity.warning Severity.warning = true
same_severity Severity.error Severity.error = true
same_severity Severity.blocking Severity.blocking = true
same_severity _ _ = false

unfoldable pub findings_with_severity : Severity → StreamReport → ℕ
findings_with_severity s r = length (filter (λ f. same_severity f.severity s) r.findings)

unfoldable pub blocking_count : StreamReport → ℕ
unfolding findings_with_severity
blocking_count r = findings_with_severity Severity.blocking r

unfoldable pub warning_count : StreamReport → ℕ
unfolding findings_with_severity
warning_count r = findings_with_severity Severity.warning r

abbrev no_items {ℓ} : {A : Type ℓ} → List A → Bool
no_items [] = true
no_items (_ ∷ _) = false

unfoldable pub exit_code : (fail_on_warning : Bool) → StreamReport → ℕ
exit_code fail_on_warning r =
    if not r.passed || (fail_on_warning && not (no_items r.findings)) then 1 else 0

unfoldable pub summary : StreamReport → String
unfolding decimal
summary r =
    "[StreamGuard] "
    <> (if r.passed then "PASS" else "FAIL")
    <> " | dataset="
    <> r.dataset
    <> " | records="
    <> decimal r.records_validated
    <> "/"
    <> decimal r.records_read
    <> " | findings="
    <> decimal (length r.findings)
    <> " (blocking="
    <> decimal (blocking_count r)
    <> ", warnings="
    <> decimal (warning_count r)
    <> ") | malformed="
    <> decimal r.malformed_count
    <> " | sanitized="
    <> decimal r.sanitization.total_events
    <> " | "
    <> decimal r.duration_ms
    <> "ms"
    <> (if r.truncated then " | truncated" else "")

-- The help, the type and the value of a metric.
unfoldable pub exposed_metric : (name help kind labels value : String) → String
exposed_metric name help kind labels value =
    "# HELP statguard_stream_" <> name <> " " <> help <> "\n# TYPE statguard_stream_" <> name <> " "
    <> kind <> "\nstatguard_stream_" <> name <> "{" <> labels <> "} " <> value <> "\n"

unfoldable pub to_prometheus : StreamReport → String
unfolding exposed_metric decimal
to_prometheus r =
    let labels = "dataset=\"" <> (r.dataset <> "\"") in
    exposed_metric "passed" "Stream validation passed (0/1)" "gauge" labels
      (if r.passed then "1" else "0")
    <> exposed_metric "records_read" "Records read" "counter" labels (decimal r.records_read)
    <> exposed_metric "records_validated" "Records validated" "counter" labels
        (decimal r.records_validated)
    <> exposed_metric "findings_total" "Findings" "counter" labels (decimal (length r.findings))
    <> exposed_metric "malformed_total" "Malformed records" "counter" labels
        (decimal r.malformed_count)
    <> exposed_metric "sanitized_total" "Sanitization events" "counter" labels
        (decimal r.sanitization.total_events)
