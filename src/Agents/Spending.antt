-- ===== src/Agents/Spending.antt =====
-- The budget controller of agent tasks (engine/agent_runtime/budget_controller.py). Costs are whole units, a
-- time is in whole seconds, and the soft ratio is `soft_num / soft_den`. The callbacks are outside; `fired`
-- lists which of them were called, by the level that is entered. The pause reason goes with `paused`.
pub mod Accounts
use prodinamik_engine.Prelude.{
  ℕ, ◌+◌, ◌*◌, max, String, Bool, true, false, Option, none, some, List, [], ◌∷◌, ◌++◌, leb,
  if◌then◌else◌, get_or, ◌&&◌, ◌||◌,
}
use prodinamik_engine.Dict
use prodinamik_engine.Dict.{Dict}

pub data BudgetLevel : Type 0 where
  normal warning critical exhausted : BudgetLevel

pub record BudgetThreshold : Type 0 where
  pub hourly_usd : ℕ
  pub daily_usd : ℕ
  pub weekly_usd : ℕ
  pub monthly_usd : ℕ
  pub per_task_usd : ℕ
  pub soft_num : ℕ
  pub soft_den : ℕ

pub record TaskCostRecord : Type 0 where
  pub cost_usd : ℕ
  pub llm_calls : ℕ
  pub tool_calls : ℕ

-- An entry of `_costs`.
pub record CostEntry : Type 0 where
  pub task_id : String
  pub cost : ℕ
  pub llm_call : Bool
  pub tool_call : Bool
  pub timestamp : ℕ

pub record BudgetController : Type 0 where
  pub thresholds : BudgetThreshold
  pub costs : List CostEntry
  pub task_costs : Dict TaskCostRecord
  pub total_cost : ℕ
  pub total_llm_calls : ℕ
  pub total_tool_calls : ℕ
  pub level : BudgetLevel
  pub paused : Bool
  pub fired : List BudgetLevel

abbrev pub new_controller : BudgetThreshold → BudgetController
new_controller t = record {
  thresholds = t;
  costs = [];
  task_costs = [];
  total_cost = 0;
  total_llm_calls = 0;
  total_tool_calls = 0;
  level = normal;
  paused = false;
  fired = [];
}

abbrev pub once : Bool → ℕ
once true = 1
once false = 0

abbrev pub no_cost : TaskCostRecord
no_cost = record { cost_usd = 0; llm_calls = 0; tool_calls = 0 }

abbrev pub charged : CostEntry → TaskCostRecord → TaskCostRecord
charged e r = record {
  cost_usd = r.cost_usd + e.cost;
  llm_calls = r.llm_calls + once e.llm_call;
  tool_calls = r.tool_calls + once e.tool_call;
}

-- `record_cost` up to the evaluation of the level.
unfoldable pub charge : CostEntry → BudgetController → BudgetController
charge e b = record b {
  costs = b.costs ++ e ∷ [];
  task_costs =
      Dict.put b.task_costs e.task_id
        (charged e (get_or (Dict.get b.task_costs e.task_id) no_cost));
  total_cost = b.total_cost + e.cost;
  total_llm_calls = b.total_llm_calls + once e.llm_call;
  total_tool_calls = b.total_tool_calls + once e.tool_call;
}

-- The costs of the last `span` seconds before `now`.
unfoldable pub window_cost : ℕ → ℕ → List CostEntry → ℕ
window_cost span now [] = 0
window_cost span now (e ∷ es) =
    let rest = window_cost span now es in
    if leb now (e.timestamp + span) && leb e.timestamp now then e.cost + rest else rest

abbrev pub greatest : List TaskCostRecord → ℕ
greatest [] = 0
greatest (r ∷ rs) = max r.cost_usd (greatest rs)

unfoldable pub level_of : BudgetThreshold → ℕ → ℕ → ℕ → BudgetLevel
level_of t hourly daily per_task =
    if leb t.hourly_usd hourly || (leb t.daily_usd daily || leb t.per_task_usd per_task)
    then exhausted
    else if leb (t.hourly_usd * t.soft_num) (hourly * t.soft_den)
        || leb (t.daily_usd * t.soft_num) (daily * t.soft_den)
    then critical
    else if leb (t.hourly_usd * t.soft_num) (hourly * t.soft_den * 2)
    then warning
    else normal

-- Whether agents are paused once a level is found.
abbrev pub paused_at : BudgetLevel → Bool → Bool
paused_at exhausted paused = true
paused_at critical paused = paused
paused_at warning paused = paused
paused_at normal paused = false

abbrev pub same_level : BudgetLevel → BudgetLevel → Bool
same_level normal normal = true
same_level warning warning = true
same_level critical critical = true
same_level exhausted exhausted = true
same_level _ _ = false

abbrev pub enter : BudgetLevel → BudgetController → BudgetController
enter l b = record b {
  level = l;
  paused = paused_at l b.paused;
  fired = if same_level l b.level then b.fired else b.fired ++ l ∷ [];
}

unfoldable pub evaluate_level : ℕ → BudgetController → BudgetController
evaluate_level now b =
    enter
      (level_of b.thresholds (window_cost 3600 now b.costs) (window_cost 86400 now b.costs)
        (greatest (Dict.values b.task_costs)))
      b

-- `record_cost`; the entry has the time at which it is recorded, `now` is that of the evaluation.
unfoldable pub record_cost : CostEntry → ℕ → BudgetController → BudgetController
record_cost e now b = evaluate_level now (charge e b)

unfoldable pub reset : BudgetController → BudgetController
reset b = record b {
  costs = [];
  task_costs = [];
  total_cost = 0;
  total_llm_calls = 0;
  total_tool_calls = 0;
  level = normal;
  paused = false;
  fired = if same_level normal b.level then b.fired else b.fired ++ normal ∷ [];
}
