-- ===== src/Stream/Agent.antt =====
-- crates/statguardian-stream/src/agent.rs: events of an agent, their telemetry, and loop detection.
-- `Cost` stands for `f64`, of which the code uses what `CostOps` has.
pub mod Guard
pub mod Loops
pub mod Events
use Prim.Native.String.{compare}
use stat_guardian.Base.{
  ℤ, ℕ, zero, suc, ◌+◌, String, ◌≡◌, Bool, true, false, not, ◌&&◌, ◌||◌, Option, none, some, List,
  [], ◌∷◌, ◌++◌, length, filter, drop, contains, ◌==◌, nat_eq, string_eq, ltb, leb, if◌then◌else◌,
}
use stat_guardian.Base.Sort.{sort_by}
use stat_guardian.Stream.Reader.{u64}

pub data Provenance : Type 0 where
  measured estimated unknown : Provenance

pub record Measured {ℓ} (A : Type ℓ) : Type ℓ where
  pub value : A
  pub provenance : Provenance

pub data AgentEventKind : Type 0 where
  tool_call tool_result llm_call retry error policy_violation other : AgentEventKind

pub record AgentEvent (Cost : Type 0) : Type 0 where
  pub execution_id : String
  pub seq : ℕ
  pub timestamp_ms : Option ℤ
  pub kind : AgentEventKind
  pub tool : Option String
  pub call_signature : Option String
  pub tokens_in : Option (Measured ℕ)
  pub tokens_out : Option (Measured ℕ)
  pub cost_usd : Option (Measured Cost)
  pub duration_ms : Option (Measured ℕ)
  pub retry_of : Option ℕ
  pub error : Option String
  pub metadata : List (String × String)

pub record CostOps (Cost : Type 0) : Type 0 where
  pub no_cost : Cost
  pub add_cost : Cost → Cost → Cost
  pub gt_cost : Cost → Cost → Bool
  pub show_cost : Cost → String

pub record AgentTelemetry (Cost : Type 0) : Type 0 where
  pub events : ℕ
  pub tool_calls : ℕ
  pub retries : ℕ
  pub errors : ℕ
  pub tokens_in_measured : ℕ
  pub tokens_in_estimated : ℕ
  pub tokens_out_measured : ℕ
  pub tokens_out_estimated : ℕ
  pub cost_measured_usd : Cost
  pub cost_estimated_usd : Cost
  pub duration_measured_ms : ℕ
  pub duration_estimated_ms : ℕ
  pub unknown_metrics : ℕ
  pub executions : List String

abbrev pub is_tool_call : AgentEventKind → Bool
is_tool_call AgentEventKind.tool_call = true
is_tool_call _ = false

abbrev pub is_retry : AgentEventKind → Bool
is_retry AgentEventKind.retry = true
is_retry _ = false

abbrev pub is_error : AgentEventKind → Bool
is_error AgentEventKind.error = true
is_error _ = false

abbrev pub is_some {ℓ} : {A : Type ℓ} → Option A → Bool
is_some none = false
is_some (some _) = true

abbrev pub count_if : Bool → ℕ → ℕ
count_if b n = if b then u64 (n + 1) else n

-- The measured sum, the estimated sum and the count of unknown metrics.
unfoldable pub accumulate {ℓ} :
    {A : Type ℓ} → (A → A → A) → Option (Measured A) → A × A × ℕ → A × A × ℕ
accumulate add none sums = sums
accumulate add (some m) (known, guessed, missing) = elim m.provenance [
  | measured ↦ (add known m.value, guessed, missing)
  | estimated ↦ (known, add guessed m.value, missing)
  | unknown ↦ (known, guessed, u64 (missing + 1))
]

abbrev pub add_u64 : ℕ → ℕ → ℕ
add_u64 a b = u64 (a + b)

module _ {Cost : Type 0} (ops : CostOps Cost) where
  unfoldable pub no_telemetry : AgentTelemetry Cost
  no_telemetry = record {
    events = 0;
    tool_calls = 0;
    retries = 0;
    errors = 0;
    tokens_in_measured = 0;
    tokens_in_estimated = 0;
    tokens_out_measured = 0;
    tokens_out_estimated = 0;
    cost_measured_usd = ops.no_cost;
    cost_estimated_usd = ops.no_cost;
    duration_measured_ms = 0;
    duration_estimated_ms = 0;
    unknown_metrics = 0;
    executions = [];
  }

  -- The body of the loop of `aggregate`; `executions` is in order of arrival.
  unfoldable pub add_agent_event : AgentEvent Cost → AgentTelemetry Cost → AgentTelemetry Cost
  unfolding accumulate
  add_agent_event e t =
      let (in_m, in_e, u₁) =
        accumulate add_u64 e.tokens_in
          (t.tokens_in_measured, t.tokens_in_estimated, t.unknown_metrics) in
      let (out_m, out_e, u₂) =
        accumulate add_u64 e.tokens_out (t.tokens_out_measured, t.tokens_out_estimated, u₁) in
      let (cost_m, cost_e, u₃) =
        accumulate ops.add_cost e.cost_usd (t.cost_measured_usd, t.cost_estimated_usd, u₂) in
      let (time_m, time_e, u₄) =
        accumulate add_u64 e.duration_ms (t.duration_measured_ms, t.duration_estimated_ms, u₃) in
      record {
        events = u64 (t.events + 1);
        tool_calls = count_if (is_tool_call e.kind) t.tool_calls;
        retries = count_if (is_retry e.kind || is_some e.retry_of) t.retries;
        errors = count_if (is_error e.kind) t.errors;
        tokens_in_measured = in_m;
        tokens_in_estimated = in_e;
        tokens_out_measured = out_m;
        tokens_out_estimated = out_e;
        cost_measured_usd = cost_m;
        cost_estimated_usd = cost_e;
        duration_measured_ms = time_m;
        duration_estimated_ms = time_e;
        unknown_metrics = u₄;
        executions =
            if contains t.executions e.execution_id
            then t.executions
            else t.executions ++ e.execution_id ∷ [];
      }

  aggregate_from : List (AgentEvent Cost) → AgentTelemetry Cost → AgentTelemetry Cost
  aggregate_from [] t = t
  aggregate_from (e ∷ es) t = aggregate_from es (add_agent_event e t)

  unfoldable pub aggregate : List (AgentEvent Cost) → AgentTelemetry Cost
  unfolding aggregate_from add_agent_event no_telemetry
  aggregate events =
      let t = aggregate_from events no_telemetry in
      record t { executions = sort_by compare t.executions }

  abbrev pub total_tokens_measured : AgentTelemetry Cost → ℕ
  total_tokens_measured t = u64 (t.tokens_in_measured + t.tokens_out_measured)

  abbrev pub total_tokens_estimated : AgentTelemetry Cost → ℕ
  total_tokens_estimated t = u64 (t.tokens_in_estimated + t.tokens_out_estimated)

pub record LoopFinding : Type 0 where
  pub signature : String
  pub occurrences : ℕ
  pub first_seq : ℕ
  pub last_seq : ℕ

-- `recent.push`, and `recent.remove(0)` where there are more than `window`.
unfoldable pub push_recent : ℕ → String × ℕ → List (String × ℕ) → List (String × ℕ)
push_recent window call recent =
    let recent' = recent ++ call ∷ [] in
    if ltb window (length recent') then drop 1 recent' else recent'

abbrev pub first_of : ℕ → List (String × ℕ) → ℕ
first_of seq [] = seq
first_of seq ((s, n) ∷ calls) = n

abbrev pub last_of : ℕ → List (String × ℕ) → ℕ
last_of seq [] = seq
last_of seq ((s, n) ∷ calls) = last_of n calls

-- The finding of a signature is brought up to date, or a new one pushed.
unfoldable pub update_loops : LoopFinding → List LoopFinding → List LoopFinding
update_loops new [] = new ∷ []
update_loops new (l ∷ ls) =
    if l.signature == new.signature
    then record l { occurrences = new.occurrences; last_seq = new.last_seq } ∷ ls
    else l ∷ update_loops new ls

-- The body of the loop for a call.
unfoldable pub detect_call :
    (window threshold : ℕ)
    → String × ℕ
    → List (String × ℕ) × List LoopFinding
    → List (String × ℕ) × List LoopFinding
unfolding push_recent update_loops
detect_call window threshold (sig, seq) (recent, loops) =
    let recent' = push_recent window (sig, seq) recent in
    let found = filter (λ (call : String × ℕ). call.0 == sig) recent' in
    let finding : LoopFinding = record {
      signature = sig;
      occurrences = length found;
      first_seq = first_of seq found;
      last_seq = last_of seq found;
    } in
    (recent', if leb threshold (length found) then update_loops finding loops else loops)

module _ {Cost : Type 0} where
  unfoldable pub detect_from :
      (window threshold : ℕ)
      → List (AgentEvent Cost)
      → List (String × ℕ) × List LoopFinding
      → List LoopFinding
  unfolding detect_call
  detect_from window threshold [] (recent, loops) = loops
  detect_from window threshold (e ∷ es) (recent, loops) = elim e.call_signature [
    | none ↦ detect_from window threshold es (recent, loops)
    | some sig ↦
        detect_from window threshold es (detect_call window threshold (sig, e.seq) (recent, loops))
  ]

  unfoldable pub detect_loops : List (AgentEvent Cost) → (window threshold : ℕ) → List LoopFinding
  unfolding detect_from
  detect_loops events window threshold =
      if window == 0 || threshold == 0 then [] else detect_from window threshold events ([], [])
