-- ===== src/Agents/Coordinator.antt =====
-- The coordinator (engine/agent_runtime/coordinator.py): submission, heartbeats, polling and reports
-- of the workers, and one round of each background loop. It holds a scheduler, and in it the queue
-- and the registry. Ids from `uuid`, the clock and the text of a time-out are arguments; a callback is
-- not modelled, but the ids that are escalated are kept. Lists of tasks have the limit of the code, 50.
pub mod Running
pub mod Safe
use prodinamik_engine.Prelude.{
  ℕ, zero, suc, ◌+◌, ◌-◌, min, String, Bool, true, false, Option, none, some, List, [], ◌∷◌, ◌++◌,
  ltb, leb, str_eq, if◌then◌else◌, not,
}
use prodinamik_engine.Dict
use prodinamik_engine.Dict.{Dict}
use prodinamik_engine.Tasks.Data.{TaskStatus, Task}
use prodinamik_engine.Tasks.Queue.{TaskQueue, enqueue, dequeue, acknowledge, complete, fail, cancel}
use prodinamik_engine.Tasks.Queue.Listing.{list_tasks}
use prodinamik_engine.Agents.Registry
use prodinamik_engine.Agents.Registry.{
  NodeInfo, AgentRegistry, Beat, Registration, register_node, is_alive, available_slots,
  cleanup_stale_nodes,
}
use prodinamik_engine.Agents.Scheduler.{Scheduler, try_assign}

pub record CoordinatorConfig : Type 0 where
  pub heartbeat_ttl : ℕ
  pub max_task_retries : ℕ
  pub task_timeout : ℕ
  pub escalation_threshold : ℕ
  pub auto_reassign : Bool

pub record CoordinatorNode : Type 0 where
  pub config : CoordinatorConfig
  pub scheduler : Scheduler
  pub tasks_assigned : ℕ
  pub tasks_completed : ℕ
  pub tasks_failed : ℕ
  pub escalated : List String

abbrev pub with_queue : TaskQueue → CoordinatorNode → CoordinatorNode
with_queue q c = record c { scheduler = record c.scheduler { queue = q } }

abbrev pub with_registry : AgentRegistry → CoordinatorNode → CoordinatorNode
with_registry r c = record c { scheduler = record c.scheduler { registry = r } }

abbrev pub assigned_round : ℕ → CoordinatorNode → CoordinatorNode
assigned_round now c = record c { scheduler = (try_assign now c.scheduler).1 }

-- The arguments of `submit_task`.
pub record Submission : Type 0 where
  pub goal : String
  pub priority : ℕ
  pub affinity : String
  pub context : String
  pub tools : List String
  pub max_steps : ℕ
  pub parent_task : String

abbrev pub submitted : String → ℕ → ℕ → Submission → Task
submitted task_id now retries a = record {
  task_id = task_id;
  goal = a.goal;
  priority = a.priority;
  affinity = a.affinity;
  context = a.context;
  tools = a.tools;
  max_steps = a.max_steps;
  status = TaskStatus.queued;
  assigned_node = "";
  created_at = now;
  assigned_at = none;
  completed_at = none;
  result = "";
  error = none;
  parent_task = a.parent_task;
  subtasks = [];
  max_retries = retries;
  retry_count = 0;
}

unfoldable pub submit_task : String → ℕ → Submission → CoordinatorNode → String × CoordinatorNode
submit_task task_id now a c =
    let t = submitted task_id now c.config.max_task_retries a in
    (task_id, assigned_round now (with_queue (enqueue "" now t c.scheduler.queue).1 c))

-- What a node that is not registered sends with its heartbeat.
pub record Introduction : Type 0 where
  pub hostname : String
  pub capabilities : List String
  pub max_workers : ℕ

abbrev pub introduced : Introduction → Registration
introduced i = record {
  hostname = i.hostname;
  version = "";
  capabilities = some i.capabilities;
  skills = none;
  labels = none;
  max_workers = i.max_workers;
}

unfoldable pub heartbeat : ℕ → String → Beat → Introduction → CoordinatorNode → CoordinatorNode
heartbeat now id b i c =
    let (known, r) = Registry.heartbeat now id b c.scheduler.registry in
    assigned_round now (with_registry (if known then r else register_node id (introduced i) r) c)

abbrev pub primary : List String → String
primary [] = ""
primary (c ∷ cs) = c

abbrev pub either_task :
    Option Task × TaskQueue → (TaskQueue → Option Task × TaskQueue) → Option Task × TaskQueue
either_task (some t, q) other = (some t, q)
either_task (none, q) other = other q

-- A task for the affinity, or else any task.
unfoldable pub dequeue_for : String → TaskQueue → Option Task × TaskQueue
dequeue_for affinity q = either_task (dequeue affinity q) (λ q'. dequeue "" q')

-- The loop of `poll_tasks`.
unfoldable pub poll_loop : ℕ → ℕ → String → String → TaskQueue → List Task × TaskQueue
poll_loop zero now id affinity q = ([], q)
poll_loop (suc rounds) now id affinity q =
    let (found, q') = dequeue_for affinity q in
    elim found [
      | none ↦ ([], q')
      | some t ↦
          let rest = poll_loop rounds now id affinity (acknowledge now t.task_id id q').1 in
          (t ∷ rest.0, rest.1)
    ]

abbrev pub count_of : List Task → ℕ
count_of [] = 0
count_of (t ∷ ts) = suc (count_of ts)

unfoldable pub poll_tasks : ℕ → String → ℕ → CoordinatorNode → List Task × CoordinatorNode
poll_tasks now id max_tasks c = elim (Dict.get c.scheduler.registry.nodes id) [
  | none ↦ ([], c)
  | some n ↦
      let (tasks, q) =
        poll_loop (min max_tasks (available_slots n)) now id (primary n.capabilities)
          c.scheduler.queue in
      (tasks, record (with_queue q c) { tasks_assigned = c.tasks_assigned + count_of tasks })
]

abbrev pub escalates : ℕ → Option Task → Bool
escalates threshold none = false
escalates threshold (some t) = leb threshold t.retry_count

abbrev pub report_success : ℕ → String → String → CoordinatorNode → Bool × CoordinatorNode
report_success now id result c =
    let (ok, q) = complete now id result c.scheduler.queue in
    (
      ok,
      record (with_queue q c) {
        tasks_completed = if ok then c.tasks_completed + 1 else c.tasks_completed;
      },
    )

abbrev pub report_failure : ℕ → String → String → CoordinatorNode → Bool × CoordinatorNode
report_failure now id error c =
    let (ok, q) = fail now id error true c.scheduler.queue in
    (
      ok,
      record (with_queue q c) {
        tasks_failed = if ok then c.tasks_failed + 1 else c.tasks_failed;
        escalated =
            if ok
            then if escalates c.config.escalation_threshold (Dict.get q.tasks id)
              then c.escalated ++ id ∷ []
              else c.escalated
            else c.escalated;
      },
    )

unfoldable pub report_result :
    ℕ → String → Bool → String → String → CoordinatorNode → Bool × CoordinatorNode
report_result now id success result error c =
    if success then report_success now id result c else report_failure now id error c

unfoldable pub cancel_task : String → CoordinatorNode → CoordinatorNode
cancel_task id c = with_queue (cancel id c.scheduler.queue).1 c

abbrev pub is_late : ℕ → ℕ → Option ℕ → Bool
is_late now timeout none = false
is_late now timeout (some at) = ltb timeout (now - at)

-- One round of `_task_timeout_watcher`.
unfoldable pub timeout_loop : ℕ → ℕ → (ℕ → String) → List Task → TaskQueue → TaskQueue
timeout_loop now timeout text [] q = q
timeout_loop now timeout text (t ∷ ts) q =
    timeout_loop now timeout text ts
      (if is_late now timeout t.assigned_at then (fail now t.task_id (text now) true q).1 else q)

unfoldable pub watch_timeouts : ℕ → (ℕ → String) → CoordinatorNode → CoordinatorNode
watch_timeouts now text c =
    with_queue
      (timeout_loop now c.config.task_timeout text
        (list_tasks TaskStatus.running 50 c.scheduler.queue) c.scheduler.queue)
      c

-- `task.assigned_node = ""`, on the task of the queue.
unfoldable pub clear_node : String → TaskQueue → TaskQueue
clear_node id q = elim (Dict.get q.tasks id) [
  | none ↦ q
  | some t ↦ record q { tasks = Dict.put q.tasks id (record t { assigned_node = "" }) }
]

abbrev pub is_lost : ℕ → ℕ → Option NodeInfo → Bool
is_lost now ttl none = false
is_lost now ttl (some n) = not (is_alive now ttl n)

-- One round of `_task_reassign_loop`.
unfoldable pub reassign_loop : ℕ → ℕ → AgentRegistry → List Task → TaskQueue → TaskQueue
reassign_loop now ttl r [] q = q
reassign_loop now ttl r (t ∷ ts) q = reassign_loop now ttl r ts (
    if str_eq t.assigned_node ""
    then q
    else if is_lost now ttl (Dict.get r.nodes t.assigned_node)
    then (fail now t.task_id "Node lost" true (clear_node t.task_id q)).1
    else q)

unfoldable pub reassign : ℕ → CoordinatorNode → CoordinatorNode
reassign now c =
    if c.config.auto_reassign
    then with_queue
        (reassign_loop now c.config.heartbeat_ttl c.scheduler.registry
          (list_tasks TaskStatus.assigned 50 c.scheduler.queue) c.scheduler.queue)
        c
    else c

-- One round of `_stale_node_cleanup`.
unfoldable pub cleanup : ℕ → CoordinatorNode → CoordinatorNode
cleanup now c = with_registry (cleanup_stale_nodes now c.scheduler.registry).1 c
