-- ===== src/Agents/Spending/Accounts.antt =====
-- The accounts of engine/agent_runtime/budget_controller.py against the list of its costs, and the limit of a
-- task.
use prodinamik_engine.Prelude.{
  ℕ, ◌+◌, ◌≤◌, ◌≡◌, refl, ap, sym, ◌∙◌, String, true, List, [], ◌∷◌, ◌++◌, arith, if◌then◌else◌,
  str_eq, eq_refl, get_or, Bool-cases, inl, inr,
}
use prodinamik_engine.Dict
use prodinamik_engine.Dict.{Dict, at_key, get-put, get-put_self}
use prodinamik_engine.Agents.Spending.{
  exhausted, BudgetThreshold, TaskCostRecord, CostEntry, BudgetController, new_controller, no_cost,
  charged, charge, level_of, greatest, window_cost, evaluate_level, record_cost, reset, paused_at,
}

pub data Call : Type 0 where
  spend : CostEntry → ℕ → Call
  start_over : Call

abbrev pub call : Call → BudgetController → BudgetController
call (spend e now) b = record_cost e now b
call start_over b = reset b

unfoldable pub call_all : List Call → BudgetController → BudgetController
call_all [] b = b
call_all (c ∷ cs) b = call_all cs (call c b)

-- What is in the list for a task, and the sum of all.
abbrev pub spent_by : String → List CostEntry → TaskCostRecord → TaskCostRecord
spent_by k [] r = r
spent_by k (e ∷ es) r = spent_by k es (if str_eq e.task_id k then charged e r else r)

abbrev pub total : List CostEntry → ℕ
total [] = 0
total (e ∷ es) = e.cost + total es

abbrev pub sum_records : List TaskCostRecord → ℕ
sum_records [] = 0
sum_records (r ∷ rs) = r.cost_usd + sum_records rs

-- The records are those of the list of costs, and their sum is the total.
pub record IsAccounted (b : BudgetController) : Type 0 where
  pub tasks : (k : String) → get_or (Dict.get b.task_costs k) no_cost ≡ spent_by k b.costs no_cost
  pub listed : b.total_cost ≡ total b.costs
  pub summed : b.total_cost ≡ sum_records (Dict.values b.task_costs)

spent_by-append :
    (k : String) (es : List CostEntry) (e : CostEntry) (r : TaskCostRecord)
    → spent_by k (es ++ e ∷ []) r
      ≡ (if str_eq e.task_id k then charged e (spent_by k es r) else spent_by k es r)
spent_by-append k [] e r = refl
spent_by-append k (d ∷ es) e r =
    spent_by-append k es e (if str_eq d.task_id k then charged d r else r)

total-append : (es : List CostEntry) (e : CostEntry) → total (es ++ e ∷ []) ≡ total es + e.cost
total-append [] e = omega arith
total-append (d ∷ es) e = omega (arith, total-append es e)

sum-put :
    (d : Dict TaskCostRecord) (k : String) (e : CostEntry)
    → sum_records (Dict.values (Dict.put d k (charged e (get_or (Dict.get d k) no_cost))))
      ≡ sum_records (Dict.values d) + e.cost
unfolding Dict.put Dict.get
sum-put [] k e = omega arith
sum-put ((j, r) ∷ d) k e = elim (Bool-cases (str_eq j k)) [
  | inl t ↦ rw (t, Dict.put, Dict.get) (omega arith)
  | inr t ↦ rw (t, Dict.put, Dict.get) (omega (arith, sum-put d k e))
]

charge_task :
    (e : CostEntry) (b : BudgetController) (k : String)
    → get_or (Dict.get b.task_costs k) no_cost ≡ spent_by k b.costs no_cost
    → get_or (Dict.get b.task_costs e.task_id) no_cost ≡ spent_by e.task_id b.costs no_cost
    → get_or (Dict.get (charge e b).task_costs k) no_cost ≡ spent_by k (charge e b).costs no_cost
unfolding charge
charge_task e b k h own =
    at_key
      (λ k.
        get_or (Dict.get (charge e b).task_costs k) no_cost ≡ spent_by k (charge e b).costs no_cost)
      e.task_id k
      (rw (get-put_self) (
        ap (charged e) own
        ∙ sym (spent_by-append e.task_id b.costs e no_cost ∙ rw (eq_refl e.task_id) refl)))
      (λ n. rw (get-put, n) (h ∙ sym (spent_by-append k b.costs e no_cost ∙ rw n refl)))

charge-IsAccounted :
    (e : CostEntry) (b : BudgetController) → IsAccounted b → IsAccounted (charge e b)
unfolding charge
charge-IsAccounted e b h = record {
  tasks = λ k. charge_task e b k (h.tasks k) (h.tasks e.task_id);
  listed = omega (arith, h.listed, total-append b.costs e);
  summed = omega (arith, h.summed, sum-put b.task_costs e.task_id e);
}

call-IsAccounted : (c : Call) (b : BudgetController) → IsAccounted b → IsAccounted (call c b)
unfolding record_cost evaluate_level reset Dict.get
call-IsAccounted (spend e now) b h =
    let g = charge-IsAccounted e b h in
    record { tasks = g.tasks; listed = g.listed; summed = g.summed }
call-IsAccounted start_over b h = record { tasks = λ k. refl; listed = refl; summed = refl }

call_all-IsAccounted :
    (cs : List Call) (b : BudgetController) → IsAccounted b → IsAccounted (call_all cs b)
unfolding call_all
call_all-IsAccounted [] b h = h
call_all-IsAccounted (c ∷ cs) b h = call_all-IsAccounted cs (call c b) (call-IsAccounted c b h)

-- After any costs recorded and resets, every task's record has the sum of its costs since the last reset
-- and the numbers of its calls to a model and to tools, and the total is the sum of all costs and
-- that of the records.
pub accounts_agree :
    (t : BudgetThreshold) (cs : List Call) → IsAccounted (call_all cs (new_controller t))
unfolding Dict.get
accounts_agree t cs =
    call_all-IsAccounted cs (new_controller t)
      (record { tasks = λ k. refl; listed = refl; summed = refl })

-- The costs of one task are at the limit.
abbrev pub IsOver : BudgetController → Type 0
IsOver b = b.thresholds.per_task_usd ≤ greatest (Dict.values b.task_costs)

greatest-put :
    (d : Dict TaskCostRecord) (k : String) (e : CostEntry)
    → greatest (Dict.values d)
      ≤ greatest (Dict.values (Dict.put d k (charged e (get_or (Dict.get d k) no_cost))))
unfolding Dict.put Dict.get
greatest-put [] k e = omega arith
greatest-put ((j, r) ∷ d) k e = elim (Bool-cases (str_eq j k)) [
  | inl t ↦ rw (t, Dict.put, Dict.get) (omega arith)
  | inr t ↦ rw (t, Dict.put, Dict.get) (omega (arith, greatest-put d k e))
]

over_level :
    (t : BudgetThreshold) (hourly daily per_task : ℕ)
    → t.per_task_usd ≤ per_task
    → level_of t hourly daily per_task ≡ exhausted
unfolding level_of
over_level t hourly daily per_task h = ground (arith, h)

record_cost-IsOver :
    (e : CostEntry) (now : ℕ) (b : BudgetController)
    → IsOver b
    → IsOver (record_cost e now b)
      × ((record_cost e now b).level ≡ exhausted)
      × ((record_cost e now b).paused ≡ true)
unfolding record_cost evaluate_level charge
record_cost-IsOver e now b h =
    let over : IsOver (charge e b) = omega (arith, h, greatest-put b.task_costs e.task_id e) in
    let costs = b.costs ++ e ∷ [] in
    let found =
      over_level b.thresholds (window_cost 3600 now costs) (window_cost 86400 now costs)
        (greatest (Dict.values (charge e b).task_costs)) over in
    (over, found, ap (λ l. paused_at l b.paused) found)

-- Costs recorded one after another, with no reset.
abbrev pub spend_all : List (CostEntry × ℕ) → BudgetController → BudgetController
spend_all [] b = b
spend_all ((e, now) ∷ es) b = spend_all es (record_cost e now b)

spend_all-IsOver :
    (es : List (CostEntry × ℕ)) (b : BudgetController)
    → IsOver b
    → b.level ≡ exhausted
    → b.paused ≡ true
    → ((spend_all es b).level ≡ exhausted) × ((spend_all es b).paused ≡ true)
spend_all-IsOver [] b h l q = (l, q)
spend_all-IsOver ((e, now) ∷ es) b h l q =
    let r = record_cost-IsOver e now b h in spend_all-IsOver es (record_cost e now b) r.0 r.1 r.2

-- Once the costs of one task have come to the limit of a task, every cost recorded, for any task, at any
-- time and of any amount, leaves the controller exhausted and paused: without a reset it never recovers.
pub over_limit_stays_paused :
    (first : CostEntry × ℕ) (es : List (CostEntry × ℕ)) (b : BudgetController)
    → b.thresholds.per_task_usd ≤ greatest (Dict.values b.task_costs)
    → let after = spend_all (first ∷ es) b in (after.level ≡ exhausted) × (after.paused ≡ true)
over_limit_stays_paused (e, now) es b h =
    let r = record_cost-IsOver e now b h in spend_all-IsOver es (record_cost e now b) r.0 r.1 r.2
