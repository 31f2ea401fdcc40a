-- ===== src/Stream/Agent/Guard/Enforcing.antt =====
-- When the guard recommends to stop.
use mathlib.Core.Logic.Iff
use stat_guardian.Base.{
  ℕ, ◌<◌, ◌≡◌, refl, ◌↔◌, ◌⊎◌, Bool, true, false, Option, none, some, List, [], ◌∷◌, ◌++◌, map,
  arith, if◌then◌else◌,
}
use stat_guardian.Stream.Agent.{
  AgentEvent, CostOps, AgentTelemetry, LoopFinding, aggregate, detect_loops, total_tokens_measured,
}
use stat_guardian.Stream.Agent.Guard.{
  AgentPolicy, AgentPolicyViolation, AgentPolicyReport, Enforcement, has_blocking, enforcement,
  loop_violation, tool_call_violations, token_violations, cost_violations, duration_violations,
  evaluate_policy,
}

-- There is a limit, and the number is above it.
abbrev pub Exceeds : Option ℕ → ℕ → Type 0
Exceeds limit n = (max : ℕ) × (limit ≡ some max) × (max < n)

has_blocking-append :
    (xs ys : List AgentPolicyViolation)
    → (has_blocking (xs ++ ys) ≡ true) ↔ ((has_blocking xs ≡ true) ⊎ (has_blocking ys ≡ true))
has_blocking-append [] ys = ground arith
has_blocking-append (x ∷ xs) ys = ground (arith, has_blocking-append xs ys)

has_blocking-loops : (ls : List LoopFinding) → has_blocking (map loop_violation ls) ≡ false
unfolding loop_violation
has_blocking-loops [] = refl
has_blocking-loops (l ∷ ls) = has_blocking-loops ls

module _ {Cost : Type 0} where
  enforcement-stop :
      (report : AgentPolicyReport Cost)
      → (enforcement report ≡ Enforcement.stop) ↔ (has_blocking report.violations ≡ true)
  unfolding enforcement
  enforcement-stop report =
      elim report.violations
        as (λ vs.
          ((elim vs [
            | [] ↦ Enforcement.continue
            | v ∷ vs ↦ if has_blocking (v ∷ vs) then Enforcement.stop else Enforcement.warn
          ])
            ≡ Enforcement.stop)
          ↔ (has_blocking vs ≡ true)) [ [] ↦ (λ e. cc e, λ e. cc e) | v ∷ vs ↦ ground arith ]

  module _ (ops : CostOps Cost) where
    -- A budget of the policy is exceeded by measured data alone.
    abbrev pub IsBreached : AgentPolicy Cost → AgentTelemetry Cost → Type 0
    IsBreached policy t =
        Exceeds policy.max_tool_calls t.tool_calls
        ⊎ Exceeds policy.max_total_tokens (total_tokens_measured ops t)
        ⊎ ((max : Cost) × (policy.max_cost_usd ≡ some max)
            × (ops.gt_cost t.cost_measured_usd max ≡ true))
        ⊎ Exceeds policy.max_duration_ms t.duration_measured_ms

    tool_calls-block :
        (enforce : Bool) (limit : Option ℕ) (t : AgentTelemetry Cost)
        → (has_blocking (tool_call_violations ops enforce limit t) ≡ true)
          ↔ ((enforce ≡ true) × Exceeds limit t.tool_calls)
    unfolding tool_call_violations
    tool_calls-block enforce none t = (λ h. cc h, λ (on, (max, e, h)). cc e)
    tool_calls-block enforce (some max) t =
        (λ h. (ground arith, (max, refl, ground arith)), λ (on, (m, e, h)). ground arith)

    tokens-block :
        (enforce : Bool) (limit : Option ℕ) (t : AgentTelemetry Cost)
        → (has_blocking (token_violations ops enforce limit t) ≡ true)
          ↔ ((enforce ≡ true) × Exceeds limit (total_tokens_measured ops t))
    unfolding token_violations
    tokens-block enforce none t = (λ h. cc h, λ (on, (max, e, h)). cc e)
    tokens-block enforce (some max) t =
        (λ h. (ground arith, (max, refl, ground arith)), λ (on, (m, e, h)). ground arith)

    cost-block :
        (enforce : Bool) (limit : Option Cost) (t : AgentTelemetry Cost)
        → (has_blocking (cost_violations ops enforce limit t) ≡ true) ↔ (
            (enforce ≡ true)
            × ((max : Cost) × (limit ≡ some max) × (ops.gt_cost t.cost_measured_usd max ≡ true)))
    unfolding cost_violations
    cost-block enforce none t = (λ h. cc h, λ (on, (max, e, h)). cc e)
    cost-block enforce (some max) t =
        (λ h. (ground arith, (max, refl, ground arith)), λ (on, (m, e, h)). ground arith)

    duration-block :
        (enforce : Bool) (limit : Option ℕ) (t : AgentTelemetry Cost)
        → (has_blocking (duration_violations ops enforce limit t) ≡ true)
          ↔ ((enforce ≡ true) × Exceeds limit t.duration_measured_ms)
    unfolding duration_violations
    duration-block enforce none t = (λ h. cc h, λ (on, (max, e, h)). cc e)
    duration-block enforce (some max) t =
        (λ h. (ground arith, (max, refl, ground arith)), λ (on, (m, e, h)). ground arith)

    -- The guard recommends to stop exactly if the policy is enforced and measured data alone
    -- exceed a budget: never for estimated data, and never for a loop.
    pub enforcement-stop_iff :
        (policy : AgentPolicy Cost) (events : List (AgentEvent Cost))
        → (enforcement (evaluate_policy ops policy events) ≡ Enforcement.stop)
          ↔ ((policy.enforce ≡ true) × IsBreached policy (aggregate ops events))
    unfolding evaluate_policy
    enforcement-stop_iff policy events =
        let t = aggregate ops events in
        let on = policy.enforce in
        let loops =
          map loop_violation
            (detect_loops events policy.loop_window policy.loop_repeat_threshold) in
        let tools = tool_call_violations ops on policy.max_tool_calls t in
        let tokens = token_violations ops on policy.max_total_tokens t in
        let cost = cost_violations ops on policy.max_cost_usd t in
        let duration = duration_violations ops on policy.max_duration_ms t in
        Iff.trans (enforcement-stop (evaluate_policy ops policy events)) (
          ground (
            arith,
            has_blocking-append tools (tokens ++ (cost ++ (duration ++ loops))),
            has_blocking-append tokens (cost ++ (duration ++ loops)),
            has_blocking-append cost (duration ++ loops),
            has_blocking-append duration loops,
            has_blocking-loops
                (detect_loops events policy.loop_window policy.loop_repeat_threshold),
            tool_calls-block on policy.max_tool_calls t,
            tokens-block on policy.max_total_tokens t,
            cost-block on policy.max_cost_usd t,
            duration-block on policy.max_duration_ms t,
          ))
