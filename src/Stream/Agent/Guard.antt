-- ===== src/Stream/Agent/Guard.antt =====
-- `AgentGuard::evaluate` of crates/statguardian-stream/src/agent.rs and its recommendation.
pub mod Enforcing
use Prim.Native.String.{◌++◌ as ◌<>◌}
use stat_guardian.Base.{
  ℕ, zero, suc, ◌+◌, String, ◌≡◌, Bool, true, false, Option, none, some, List, [], ◌∷◌, ◌++◌, map,
  ltb, decimal, if◌then◌else◌,
}
use stat_guardian.Core.Ast.{Severity}
use stat_guardian.Validators.Violation.{is_blocking_severity}
use stat_guardian.Stream.Reader.{u64}
use stat_guardian.Stream.Agent.{
  AgentEvent, CostOps, AgentTelemetry, LoopFinding, aggregate, detect_loops, total_tokens_measured,
  total_tokens_estimated,
}

pub record AgentPolicy (Cost : Type 0) : Type 0 where
  pub max_tool_calls : Option ℕ
  pub max_total_tokens : Option ℕ
  pub max_cost_usd : Option Cost
  pub max_duration_ms : Option ℕ
  pub loop_window : ℕ
  pub loop_repeat_threshold : ℕ
  pub enforce : Bool

unfoldable pub default_agent_policy : {Cost : Type 0} → AgentPolicy Cost
default_agent_policy = record {
  max_tool_calls = none;
  max_total_tokens = none;
  max_cost_usd = none;
  max_duration_ms = none;
  loop_window = 8;
  loop_repeat_threshold = 3;
  enforce = false;
}

pub record AgentPolicyViolation : Type 0 where
  pub policy : String
  pub message : String
  pub severity : Severity
  pub measured : Bool
  pub heuristic : Bool

pub data Enforcement : Type 0 where
  continue warn stop : Enforcement

pub record AgentPolicyReport (Cost : Type 0) : Type 0 where
  pub telemetry : AgentTelemetry Cost
  pub violations : List AgentPolicyViolation
  pub loops : List LoopFinding

abbrev pub has_blocking : List AgentPolicyViolation → Bool
has_blocking [] = false
has_blocking (v ∷ vs) = if is_blocking_severity v.severity then true else has_blocking vs

unfoldable pub passed : {Cost : Type 0} → AgentPolicyReport Cost → Bool
passed report = elim report.violations [ [] ↦ true | _ ∷ _ ↦ false ]

unfoldable pub enforcement : {Cost : Type 0} → AgentPolicyReport Cost → Enforcement
enforcement report = elim report.violations [
  | [] ↦ Enforcement.continue
  | v ∷ vs ↦ if has_blocking (v ∷ vs) then Enforcement.stop else Enforcement.warn
]

abbrev pub breach_severity : Bool → Severity
breach_severity enforce = if enforce then Severity.blocking else Severity.error

-- A breach that measured data shows, and one that holds only with estimated data.
abbrev pub measured_breach : Bool → (policy message : String) → List AgentPolicyViolation
measured_breach enforce policy message =
    record {
      policy = policy;
      message = message;
      severity = breach_severity enforce;
      measured = true;
      heuristic = false;
    }
    ∷ []

abbrev pub estimated_breach : (policy message : String) → List AgentPolicyViolation
estimated_breach policy message =
    record {
      policy = policy;
      message = message;
      severity = Severity.warning;
      measured = false;
      heuristic = false;
    }
    ∷ []

unfoldable pub loop_violation : LoopFinding → AgentPolicyViolation
unfolding decimal
loop_violation l = record {
  policy = "loop_detection";
  message =
      "heuristic: signature '"
      <> l.signature
      <> "' repeated "
      <> decimal l.occurrences
      <> " times (seq "
      <> decimal l.first_seq
      <> "→"
      <> decimal l.last_seq
      <> ")";
  severity = Severity.warning;
  measured = false;
  heuristic = true;
}

module _ {Cost : Type 0} (ops : CostOps Cost) where
  unfoldable pub tool_call_violations :
      Bool → Option ℕ → AgentTelemetry Cost → List AgentPolicyViolation
  tool_call_violations enforce none t = []
  tool_call_violations enforce (some max) t =
      if ltb max t.tool_calls
      then measured_breach enforce "max_tool_calls"
          (decimal t.tool_calls <> " tool calls exceed budget of " <> decimal max)
      else []

  unfoldable pub token_violations :
      Bool → Option ℕ → AgentTelemetry Cost → List AgentPolicyViolation
  token_violations enforce none t = []
  token_violations enforce (some max) t =
      let known = total_tokens_measured ops t in
      let guessed = total_tokens_estimated ops t in
      if ltb max known
      then measured_breach enforce "max_total_tokens"
          (decimal known <> " measured tokens exceed budget of " <> decimal max)
      else if ltb max (u64 (known + guessed))
      then estimated_breach "max_total_tokens" (
          decimal known
          <> " measured + "
          <> decimal guessed
          <> " estimated tokens may exceed budget of "
          <> decimal max)
      else []

  unfoldable pub cost_violations :
      Bool → Option Cost → AgentTelemetry Cost → List AgentPolicyViolation
  cost_violations enforce none t = []
  cost_violations enforce (some max) t =
      if ops.gt_cost t.cost_measured_usd max
      then measured_breach enforce "max_cost_usd" (
          "$"
          <> ops.show_cost t.cost_measured_usd
          <> " measured cost exceeds budget of $"
          <> ops.show_cost max)
      else if ops.gt_cost (ops.add_cost t.cost_measured_usd t.cost_estimated_usd) max
      then estimated_breach "max_cost_usd" (
          "$"
          <> ops.show_cost t.cost_measured_usd
          <> " measured + $"
          <> ops.show_cost t.cost_estimated_usd
          <> " estimated cost may exceed budget of $"
          <> ops.show_cost max)
      else []

  unfoldable pub duration_violations :
      Bool → Option ℕ → AgentTelemetry Cost → List AgentPolicyViolation
  duration_violations enforce none t = []
  duration_violations enforce (some max) t =
      if ltb max t.duration_measured_ms
      then measured_breach enforce "max_duration_ms" (
          decimal t.duration_measured_ms
          <> "ms measured duration exceeds budget of "
          <> decimal max
          <> "ms")
      else []

  unfoldable pub evaluate_policy :
      AgentPolicy Cost → List (AgentEvent Cost) → AgentPolicyReport Cost
  evaluate_policy policy events =
      let t = aggregate ops events in
      let loops = detect_loops events policy.loop_window policy.loop_repeat_threshold in
      record {
        telemetry = t;
        violations =
            tool_call_violations policy.enforce policy.max_tool_calls t
            ++ (token_violations policy.enforce policy.max_total_tokens t
                ++ (cost_violations policy.enforce policy.max_cost_usd t
                    ++ (duration_violations policy.enforce policy.max_duration_ms t
                        ++ map loop_violation loops)));
        loops = loops;
      }
