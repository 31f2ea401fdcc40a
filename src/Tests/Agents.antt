-- ===== src/Tests/Agents.antt =====
-- The agent guard of crates/statguardian-stream on four events. A cost is a number here.
use stat_guardian.Base.{ℕ, ◌+◌, ◌≡◌, refl, ◌↔◌, true, none, some, List, [], ◌∷◌, ltb}
use stat_guardian.Stream.Agent.{
  AgentEvent, AgentEventKind, CostOps, Provenance, aggregate, detect_loops,
}
use stat_guardian.Stream.Agent.Loops.{AreWithin, detect_loops-AreWithin}
use stat_guardian.Stream.Agent.Guard.{
  AgentPolicy, Enforcement, enforcement, evaluate_policy, tool_call_violations, token_violations,
  cost_violations, duration_violations, loop_violation,
}
use stat_guardian.Stream.Agent.Guard.Enforcing.{IsBreached, enforcement-stop_iff}

abbrev costs : CostOps ℕ
costs = record {
  no_cost = 0;
  add_cost = λ a b. a + b;
  gt_cost = λ a b. ltb b a;
  show_cost = λ _. "";
}

abbrev search_call : ℕ → Provenance → AgentEvent ℕ
search_call seq provenance = record {
  execution_id = "run";
  seq = seq;
  timestamp_ms = none;
  kind = AgentEventKind.tool_call;
  tool = some "search";
  call_signature = some "search:rust";
  tokens_in = some (record { value = 60; provenance = provenance });
  tokens_out = none;
  cost_usd = none;
  duration_ms = none;
  retry_of = none;
  error = none;
  metadata = [];
}

abbrev calls_made : List (AgentEvent ℕ)
calls_made =
    search_call 1 Provenance.measured
    ∷ search_call 2 Provenance.measured
    ∷ search_call 3 Provenance.estimated
    ∷ []

abbrev budget : ℕ → AgentPolicy ℕ
budget tokens = record {
  max_tool_calls = none;
  max_total_tokens = some tokens;
  max_cost_usd = none;
  max_duration_ms = none;
  loop_window = 8;
  loop_repeat_threshold = 3;
  enforce = true;
}

loop_found :
    detect_loops calls_made 8 3
    ≡ record { signature = "search:rust"; occurrences = 3; first_seq = 1; last_seq = 3 } ∷ []
unfolding detect_loops
loop_found = refl

-- 120 measured and 60 estimated tokens
enforced_100 : enforcement (evaluate_policy costs (budget 100) calls_made) ≡ Enforcement.stop
unfolding enforcement evaluate_policy tool_call_violations token_violations aggregate
    cost_violations duration_violations detect_loops loop_violation
enforced_100 = refl

warned_150 : enforcement (evaluate_policy costs (budget 150) calls_made) ≡ Enforcement.warn
unfolding enforcement evaluate_policy tool_call_violations token_violations aggregate
    cost_violations duration_violations detect_loops loop_violation
warned_150 = refl

enforcement-stop_iff_example :
    (enforcement (evaluate_policy costs (budget 100) calls_made) ≡ Enforcement.stop)
    ↔ ((true ≡ true) × IsBreached costs (budget 100) (aggregate costs calls_made))
enforcement-stop_iff_example = enforcement-stop_iff costs (budget 100) calls_made

detect_loops-AreWithin_example : AreWithin 8 3 (detect_loops calls_made 8 3)
detect_loops-AreWithin_example = detect_loops-AreWithin calls_made 8 3
