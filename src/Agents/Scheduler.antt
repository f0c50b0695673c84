-- ===== src/Agents/Scheduler.antt =====
-- The scheduler (engine/agent_runtime/scheduler.py): it gives queued tasks to nodes of the registry.
pub mod Choice
pub mod Laws
use prodinamik_engine.Prelude.{
  ℕ, zero, suc, ◌+◌, min, String, Bool, true, false, Option, none, some, List, [], ◌∷◌, str_eq,
  if◌then◌else◌, length, take,
}
use prodinamik_engine.Dict
use prodinamik_engine.Dict.{Dict}
use prodinamik_engine.Tasks.Data.{Task, is_queued}
use prodinamik_engine.Tasks.Queue.{TaskQueue, enqueue, dequeue, acknowledge}
use prodinamik_engine.Agents.Registry.{AgentRegistry}
use prodinamik_engine.Agents.Registry.Queries.{find_best_node}

pub record Scheduler : Type 0 where
  pub registry : AgentRegistry
  pub queue : TaskQueue
  pub assignments : Dict String
  pub total_scheduled : ℕ
  pub total_failed_assign : ℕ

unfoldable pub assign : ℕ → String → String → Scheduler → Scheduler
assign now task_id node_id s = record s {
  queue = (acknowledge now task_id node_id s.queue).1;
  assignments = Dict.put s.assignments task_id node_id;
  total_scheduled = s.total_scheduled + 1;
}

-- The code tests `if node_id:`: an empty id counts as no node.
abbrev pub first_some : Option String → Option String → Option String
first_some none other = other
first_some (some a) other = if str_eq a "" then other else some a

-- The node for the first of the tools that has one.
unfoldable pub by_tools : ℕ → AgentRegistry → List String → Option String
by_tools now r [] = none
by_tools now r (tool ∷ tools) = first_some (find_best_node now r "" tool) (by_tools now r tools)

-- The three strategies of `schedule`.
unfoldable pub choose : ℕ → AgentRegistry → Task → Option String
choose now r t =
    first_some (if str_eq t.affinity "" then none else find_best_node now r t.affinity "")
      (first_some (by_tools now r (take 3 t.tools)) (first_some (find_best_node now r "" "") none))

abbrev pub assign_to : ℕ → Task → Option String → Scheduler → Option String × Scheduler
assign_to now t none s = (none, record s { total_failed_assign = s.total_failed_assign + 1 })
assign_to now t (some id) s = (some id, assign now t.task_id id s)

unfoldable pub schedule : ℕ → Task → Scheduler → Option String × Scheduler
schedule now t s =
    if is_queued t.status then assign_to now t (choose now s.registry t) s else (none, s)

-- A task that finds no node goes back, with a new time.
abbrev pub put_back : ℕ → Task → Scheduler → Scheduler
put_back now t s = record s { queue = (enqueue "" now t s.queue).1 }

-- The loop of `try_assign`: the number of tasks assigned.
unfoldable pub assign_loop : ℕ → ℕ → Scheduler → ℕ × Scheduler
assign_loop zero now s = (0, s)
assign_loop (suc rounds) now s =
    let (found, queue) = dequeue "" s.queue in
    let taken = record s { queue = queue } in
    elim found [
      | none ↦ (0, taken)
      | some t ↦
          let (node, scheduled) = schedule now t taken in
          let rest = assign_loop rounds now scheduled in
          elim node [ none ↦ (0, put_back now t scheduled) | some id ↦ (rest.0 + 1, rest.1) ]
    ]

unfoldable pub try_assign : ℕ → Scheduler → ℕ × Scheduler
try_assign now s = assign_loop (min 50 (length s.queue.queued_ids)) now s
