-- ===== src/Examples/Services.antt =====
-- The theorems on engine/degradation.py, engine/agent_runtime/approval_gate.py, engine/budget.py and
-- engine/ratelimit.py applied to small inputs.
use prodinamik_engine.Prelude.{
  arith, ◌≤◌, ◌≡◌, refl, false, Option, none, some, List, [], ◌∷◌, if◌then◌else◌,
}
use prodinamik_engine.Dict.{get}
use prodinamik_engine.Degradation.{new_manager, EngineState, DiskUsage}
use prodinamik_engine.Degradation.Laws.{IsConsistent, Action, act_all, runs-IsConsistent}
use prodinamik_engine.Approval.{PauseReason, PauseArgs, new_gate, auto_approve_stale}
use prodinamik_engine.Approval.Laws.{
  IsSound, Call, run_all, unless_stale, gates-IsSound, auto_approve_stale_lem,
}
use prodinamik_engine.RateLimit.{RateLimiter, new_limiter}
use prodinamik_engine.RateLimit.Laws.{granted, granted_bounded}
use prodinamik_engine.Budget.{
  warn, stop, BudgetEnforcer, BudgetConfig, CostTracker, check_validator, configure,
  update_from_tracker, hard_exceeded, soft_exceeded, slow_or_proceed,
}
use prodinamik_engine.Budget.Laws.{any_limit, check_validator_lem}

abbrev failing : EngineState
failing = record {
  consecutive_llm_failures = 3;
  consecutive_adapter_failures = 0;
  budget_hard_limit_reached = false;
}

abbrev full_disk : Option DiskUsage
full_disk = some (record { used = 96; total = 100 })

abbrev two_actions : List Action
two_actions = Action.evaluated none failing ∷ Action.evaluated full_disk failing ∷ []

runs-IsConsistent_example : IsConsistent (act_all new_manager two_actions)
runs-IsConsistent_example = runs-IsConsistent two_actions

abbrev review : PauseArgs
review = record {
  reason = PauseReason.human_review;
  feedback = "";
  goal = "ship";
  error = "";
  auto_approve_timeout = some 60;
}

abbrev gate_calls : List Call
gate_calls =
    Call.pause 10 "t1" review
    ∷ Call.pause 50 "t2" review
    ∷ Call.approve 55 "t3" "admin" ""
    ∷ Call.reject 56 "t2" "admin" "no"
    ∷ Call.pause 57 "t2" review
    ∷ []

gates-IsSound_example : IsSound (run_all (new_gate (some 30)) gate_calls)
gates-IsSound_example = gates-IsSound (some 30) gate_calls

auto_approve_stale_lem_example :
    let g = run_all (new_gate (some 30)) gate_calls in
    get (auto_approve_stale g 80).1.paused "t1" ≡ unless_stale 80 (get g.paused "t1")
auto_approve_stale_lem_example = auto_approve_stale_lem (some 30) gate_calls 80 "t1"

abbrev enforcer : BudgetEnforcer
enforcer = record {
  degradation = some new_manager;
  limits = [];
  warnings_sent = [];
  validator_sampling = [];
}

abbrev budget : BudgetConfig
budget = record {
  soft_limit_usd = some 5;
  hard_limit_usd = some 10;
  max_llm_calls_per_run = some 5;
  max_storage_mb = some 50;
}

abbrev costs : CostTracker
costs = record { total_usd = 6; total_llm_calls = 4; storage_bytes = 0 }

check_validator_lem_example :
    let e = update_from_tracker costs (configure 100 budget enforcer) in
    (check_validator costs 2 e).0 ≡ (
      if any_limit hard_exceeded e.limits
      then stop
      else if any_limit soft_exceeded e.limits
      then warn
      else slow_or_proceed costs e.limits 2)
check_validator_lem_example =
    check_validator_lem costs 2 (update_from_tracker costs (configure 100 budget enforcer))

abbrev limiter : RateLimiter
limiter = record (new_limiter 10 (some 20)) {
  buckets = ("key", record { tokens = 5; last_refill = 0; burst = 20 }) ∷ [];
}

granted_bounded_example :
    granted limiter "key" ((1, "key", 12) ∷ (1, "other", 50) ∷ (2, "key", 12) ∷ []) ≤ 25
unfolding get
granted_bounded_example =
    granted_bounded ((1, "key", 12) ∷ (1, "other", 50) ∷ (2, "key", 12) ∷ []) limiter
      (record { tokens = 5; last_refill = 0; burst = 20 }) "key" 0 2 refl (omega arith)
      (omega arith, (omega arith, (omega arith, omega arith)))
