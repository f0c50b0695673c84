-- ===== src/Tasks/Queue/Listing.antt =====
-- `list_tasks` of engine/agent_runtime/task_queue.py: the tasks of one status, by priority and time of
-- creation, and no more than a limit.
use prodinamik_engine.Prelude.{
  ℕ, Bool, true, false, ◌||◌, ◌&&◌, List, [], ◌∷◌, ltb, ◌==◌, if◌then◌else◌, take,
}
use prodinamik_engine.Dict.{values}
use prodinamik_engine.Tasks.Data.{TaskStatus, Task}
use prodinamik_engine.Tasks.Queue.{TaskQueue}

abbrev pub status_eq : TaskStatus → TaskStatus → Bool
status_eq TaskStatus.queued TaskStatus.queued = true
status_eq TaskStatus.assigned TaskStatus.assigned = true
status_eq TaskStatus.running TaskStatus.running = true
status_eq TaskStatus.completed TaskStatus.completed = true
status_eq TaskStatus.failed TaskStatus.failed = true
status_eq TaskStatus.cancelled TaskStatus.cancelled = true
status_eq TaskStatus.timeout TaskStatus.timeout = true
status_eq _ _ = false

unfoldable pub with_status : TaskStatus → List Task → List Task
with_status s [] = []
with_status s (t ∷ ts) =
    let rest = with_status s ts in if status_eq t.status s then t ∷ rest else rest

-- The key `(priority, created_at)`.
abbrev pub comes_before : Task → Task → Bool
comes_before t u =
    ltb t.priority u.priority || (t.priority == u.priority && ltb t.created_at u.created_at)

unfoldable pub insert_task : Task → List Task → List Task
insert_task t [] = t ∷ []
insert_task t (u ∷ us) =
    let rest = insert_task t us in if comes_before u t then u ∷ rest else t ∷ u ∷ us

unfoldable pub sort_tasks : List Task → List Task
sort_tasks [] = []
sort_tasks (t ∷ ts) = insert_task t (sort_tasks ts)

unfoldable pub list_tasks : TaskStatus → ℕ → TaskQueue → List Task
list_tasks s limit q = take limit (sort_tasks (with_status s (values q.tasks)))
