-- ===== src/Budget.antt =====
-- The enforcement of budgets (engine/budget.py). Amounts are natural numbers in any unit fine enough
-- for the sums of money, since the code compares them only. A sampling rate is counted in eightieths:
-- 1.0 is 80 and the least rate 0.1 is 8, and each rate that halving reaches is a whole number of them.
-- The numbers of the cost tracker are an argument; the draw of `should_run_validator` is left out.
pub mod Laws
use prodinamik_engine.Prelude.{
  ℕ, zero, ◌+◌, ◌*◌, ◌/◌, max, String, Bool, true, false, Option, none, some, List, [], ◌∷◌, ltb,
  leb, ◌==◌, ◌||◌, if◌then◌else◌, get_or, add,
}
use prodinamik_engine.Dict
use prodinamik_engine.Dict.{Dict}
use prodinamik_engine.Degradation.{DegradationManager, survival, manual_degrade}

pub data BudgetAction : Type 0 where
  proceed warn slow stop : BudgetAction

pub record BudgetLimit : Type 0 where
  pub soft_limit : ℕ
  pub hard_limit : ℕ
  pub current : ℕ

abbrev pub soft_exceeded : BudgetLimit → Bool
soft_exceeded l = leb l.soft_limit l.current

abbrev pub hard_exceeded : BudgetLimit → Bool
hard_exceeded l = leb l.hard_limit l.current

unfoldable pub check : BudgetLimit → BudgetAction
check l = if hard_exceeded l then stop else if soft_exceeded l then warn else proceed

-- What the enforcer reads of the `CostTracker`.
pub record CostTracker : Type 0 where
  pub total_usd : ℕ
  pub total_llm_calls : ℕ
  pub storage_bytes : ℕ

pub record BudgetEnforcer : Type 0 where
  pub degradation : Option DegradationManager
  pub limits : Dict BudgetLimit
  pub warnings_sent : List String
  pub validator_sampling : Dict ℕ

-- The keys of `budget_config`; the amounts of money have the unit `usd` of the default limits.
pub record BudgetConfig : Type 0 where
  pub soft_limit_usd : Option ℕ
  pub hard_limit_usd : Option ℕ
  pub max_llm_calls_per_run : Option ℕ
  pub max_storage_mb : Option ℕ

abbrev pub new_limit : ℕ → ℕ → BudgetLimit
new_limit soft hard = record { soft_limit = soft; hard_limit = hard; current = 0 }

unfoldable pub configure : ℕ → BudgetConfig → BudgetEnforcer → BudgetEnforcer
configure usd c e = record {
  degradation = e.degradation;
  limits =
      (
        "total_cost",
        new_limit (get_or c.soft_limit_usd (1 * usd)) (get_or c.hard_limit_usd (5 * usd)),
      )
      ∷ (
        "llm_calls",
        new_limit (get_or c.max_llm_calls_per_run 20) (get_or c.max_llm_calls_per_run 30 + 10),
      )
      ∷ (
        "storage",
        new_limit (get_or c.max_storage_mb 100 * 1024 * 1024)
            (get_or c.max_storage_mb 200 * 1024 * 1024),
      )
      ∷ [];
  warnings_sent = e.warnings_sent;
  validator_sampling = e.validator_sampling;
}

-- The loop of `check_validator`: whether a limit stops it, whether one warns, and the warnings sent.
pub record Checked : Type 0 where
  pub stopped : Bool
  pub warned : Bool
  pub sent : List String

abbrev pub checked_next : BudgetAction → String → List String → (List String → Checked) → Checked
checked_next stop name sent rest = record { stopped = true; warned = false; sent = sent }
checked_next warn name sent rest =
    let r = rest (add name sent) in record { stopped = r.stopped; warned = true; sent = r.sent }
checked_next _ name sent rest = rest sent

unfoldable pub check_limits : Dict BudgetLimit → List String → Checked
check_limits [] sent = record { stopped = false; warned = false; sent = sent }
check_limits ((name, l) ∷ limits) sent =
    checked_next (check l) name sent (λ s. check_limits limits s)

-- Only the second and the third tier slow down.
abbrev pub slow_or_proceed : CostTracker → Dict BudgetLimit → ℕ → BudgetAction
slow_or_proceed cost limits tier =
    if ltb (get_or (Dict.get limits "llm_calls") (new_limit 100 200)).soft_limit
      cost.total_llm_calls
    then if tier == 2 || tier == 3 then slow else proceed
    else proceed

unfoldable pub check_validator : CostTracker → ℕ → BudgetEnforcer → BudgetAction × BudgetEnforcer
check_validator cost tier e =
    let r = check_limits e.limits e.warnings_sent in
    (
      if r.stopped then stop else if r.warned then warn else slow_or_proceed cost e.limits tier,
      record {
        degradation = e.degradation;
        limits = e.limits;
        warnings_sent = r.sent;
        validator_sampling = e.validator_sampling;
      },
    )

abbrev pub degrade : Option DegradationManager → Option DegradationManager
degrade none = none
degrade (some m) = some (manual_degrade m survival)

-- `max(rate * 0.5, 0.1)`
abbrev pub halved : ℕ → ℕ
halved rate = max (rate / 2) 8

unfoldable pub apply_action : BudgetAction → String → BudgetEnforcer → BudgetEnforcer
apply_action slow name e = record {
  degradation = e.degradation;
  limits = e.limits;
  warnings_sent = e.warnings_sent;
  validator_sampling =
      Dict.put e.validator_sampling name (halved (get_or (Dict.get e.validator_sampling name) 80));
}
apply_action stop name e = record {
  degradation = degrade e.degradation;
  limits = e.limits;
  warnings_sent = e.warnings_sent;
  validator_sampling = e.validator_sampling;
}
apply_action _ name e = e

-- `if name in self.limits: self.limits[name].current = current`
abbrev pub set_current : Dict BudgetLimit → String → ℕ → Dict BudgetLimit
set_current limits name current = set_of (Dict.get limits name)
  where
    set_of : Option BudgetLimit → Dict BudgetLimit
    set_of none = limits
    set_of (some l) =
        Dict.put limits name
          record { soft_limit = l.soft_limit; hard_limit = l.hard_limit; current = current }

unfoldable pub update_from_tracker : CostTracker → BudgetEnforcer → BudgetEnforcer
update_from_tracker cost e = record {
  degradation = e.degradation;
  limits =
      set_current
        (set_current (set_current e.limits "total_cost" cost.total_usd) "llm_calls"
          cost.total_llm_calls)
        "storage" cost.storage_bytes;
  warnings_sent = e.warnings_sent;
  validator_sampling = e.validator_sampling;
}

unfoldable pub reset : BudgetEnforcer → BudgetEnforcer
reset e = record {
  degradation = e.degradation;
  limits = [];
  warnings_sent = [];
  validator_sampling = [];
}
