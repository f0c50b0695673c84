-- ===== src/Tasks/Queue.antt =====
-- `TaskQueue` of engine/agent_runtime/task_queue.py: its state, and each method as a function to the
-- new state. A method that awaits the log is one step; `now` is the clock where it is read. The log
-- is the list of the records in its file.
pub mod Dequeue
pub mod Lifecycle
pub mod Calls
pub mod Order
pub mod Listing
use prodinamik_engine.Prelude.{
  ℕ, ◌+◌, String, Bool, true, false, not, ◌&&◌, Option, none, some, List, [], ◌∷◌, ◌++◌, ltb,
  str_eq, if◌then◌else◌, add, discard, take, length,
}
use prodinamik_engine.Dict
use prodinamik_engine.Dict.{Dict}
use prodinamik_engine.Tasks.Data.{
  TaskStatus, Task, is_terminal, is_queued, PrioritizedTask, EnqueueData, WalEntry,
}
use prodinamik_engine.Tasks.Heap.{heappush, push_all}

pub record TaskQueue : Type 0 where
  pub heap : List PrioritizedTask
  pub tasks : Dict Task
  pub queued_ids : List String
  pub active_ids : List String
  pub completed_ids : List String
  pub wal : List WalEntry
  pub wal_open : Bool

abbrev pub empty : TaskQueue
empty = record {
  heap = [];
  tasks = [];
  queued_ids = [];
  active_ids = [];
  completed_ids = [];
  wal = [];
  wal_open = true;
}

-- A file that is not open takes no record.
unfoldable pub write_wal : WalEntry → TaskQueue → TaskQueue
write_wal entry q = record q { wal = if q.wal_open then q.wal ++ entry ∷ [] else q.wal }

abbrev pub heap_entry : Task → ℕ → PrioritizedTask
heap_entry t now = record { priority = t.priority; timestamp = now; task_id = t.task_id }

-- The task with an id; `fresh_id` is what `uuid` gives where the task has none.
abbrev pub with_id : String → Task → Task
with_id fresh_id t = if str_eq t.task_id "" then record t { task_id = fresh_id } else t

abbrev pub enqueue_record : Task → ℕ → WalEntry
enqueue_record t now = WalEntry.enqueue (record {
  task_id = t.task_id;
  goal = t.goal;
  priority = t.priority;
  affinity = t.affinity;
  context = some t.context;
  tools = some t.tools;
  max_steps = some t.max_steps;
  max_retries = some t.max_retries;
  retry_count = none;
  parent_task = some t.parent_task;
  timestamp = some now;
})

unfoldable pub enqueue : String → ℕ → Task → TaskQueue → String × TaskQueue
unfolding write_wal
enqueue fresh_id now task q =
    let t = record (with_id fresh_id task) { status = TaskStatus.queued; created_at = now } in
    let q' = record q {
      tasks = Dict.put q.tasks t.task_id t;
      heap = heappush (heap_entry t now) q.heap;
      queued_ids = add t.task_id q.queued_ids;
    } in
    (t.task_id, write_wal (enqueue_record t now) q')

-- The task asks for another node or tag.
abbrev pub not_for : String → String → Bool
not_for affinity wanted =
    if str_eq affinity ""
    then false
    else if str_eq wanted ""
    then false
    else if str_eq wanted affinity
    then false
    else true

-- The loop of `dequeue`: the task that is found, the entries passed over, and the heap that is left.
unfoldable pub dequeue_loop :
    Dict Task
    → String
    → List PrioritizedTask
    → Option Task × List PrioritizedTask × List PrioritizedTask
dequeue_loop tasks affinity [] = (none, [], [])
dequeue_loop tasks affinity (entry ∷ heap) =
    let (found, remaining, rest) = dequeue_loop tasks affinity heap in
    elim (Dict.get tasks entry.task_id) [
      | none ↦ (found, remaining, rest)
      | some task ↦
          if is_queued task.status
          then if not_for affinity task.affinity
            then (found, entry ∷ remaining, rest)
            else (some task, [], heap)
          else (found, remaining, rest)
    ]

unfoldable pub dequeue : String → TaskQueue → Option Task × TaskQueue
dequeue affinity q =
    let (found, remaining, rest) = dequeue_loop q.tasks affinity q.heap in
    (found, record q { heap = push_all remaining rest })

-- The tasks of the first entries of the heap, without those that are not queued.
unfoldable pub queued_of : Dict Task → List PrioritizedTask → List Task
queued_of tasks [] = []
queued_of tasks (entry ∷ heap) =
    let rest = queued_of tasks heap in
    elim (Dict.get tasks entry.task_id) [
      | none ↦ rest
      | some task ↦ if is_queued task.status then task ∷ rest else rest
    ]

unfoldable pub peek : ℕ → TaskQueue → List Task
peek count q = queued_of q.tasks (take count q.heap)

unfoldable pub acknowledge : ℕ → String → String → TaskQueue → Bool × TaskQueue
unfolding write_wal
acknowledge now task_id node_id q = elim (Dict.get q.tasks task_id) [
  | none ↦ (false, q)
  | some task ↦ (
    true,
    write_wal (WalEntry.acknowledge task_id node_id) (record q {
      tasks = Dict.put q.tasks task_id (record task {
        status = TaskStatus.assigned;
        assigned_node = node_id;
        assigned_at = some now;
      });
      queued_ids = discard task_id q.queued_ids;
      active_ids = add task_id q.active_ids;
    }),
  )
]

unfoldable pub complete : ℕ → String → String → TaskQueue → Bool × TaskQueue
unfolding write_wal
complete now task_id result q = elim (Dict.get q.tasks task_id) [
  | none ↦ (false, q)
  | some task ↦ (
    true,
    write_wal (WalEntry.complete task_id result now) (record q {
      tasks =
          Dict.put q.tasks task_id (record task {
            status = TaskStatus.completed;
            result = result;
            completed_at = some now;
          });
      active_ids = discard task_id q.active_ids;
      completed_ids = add task_id q.completed_ids;
    }),
  )
]

-- The record of a retry leaves out the count of retries and most of the task.
abbrev pub retry_record : Task → ℕ → WalEntry
retry_record t now = WalEntry.enqueue (record {
  task_id = t.task_id;
  goal = t.goal;
  priority = t.priority;
  affinity = t.affinity;
  context = none;
  tools = none;
  max_steps = none;
  max_retries = none;
  retry_count = none;
  parent_task = none;
  timestamp = some now;
})

unfoldable pub requeue : ℕ → String → Task → TaskQueue → TaskQueue
unfolding write_wal
requeue now task_id task q =
    let t = record task {
      retry_count = task.retry_count + 1;
      status = TaskStatus.queued;
      assigned_node = "";
      assigned_at = none;
    } in
    write_wal (retry_record (record t { task_id = task_id }) now) (record q {
      tasks = Dict.put q.tasks task_id t;
      active_ids = discard task_id q.active_ids;
      queued_ids = add task_id q.queued_ids;
      heap = heappush (record { priority = t.priority; timestamp = now; task_id = task_id }) q.heap;
    })

unfoldable pub give_up : ℕ → String → String → Task → TaskQueue → TaskQueue
unfolding write_wal
give_up now task_id error task q = write_wal (WalEntry.fail task_id error now) (record q {
  tasks =
      Dict.put q.tasks task_id
        (record task { status = TaskStatus.failed; error = some error; completed_at = some now });
  active_ids = discard task_id q.active_ids;
  completed_ids = add task_id q.completed_ids;
})

unfoldable pub fail : ℕ → String → String → Bool → TaskQueue → Bool × TaskQueue
unfolding requeue give_up
fail now task_id error retry q = elim (Dict.get q.tasks task_id) [
  | none ↦ (false, q)
  | some task ↦ (
    true,
    if retry && ltb task.retry_count task.max_retries
        then requeue now task_id task q
        else give_up now task_id error task q,
  )
]

unfoldable pub cancel : String → TaskQueue → Bool × TaskQueue
unfolding write_wal
cancel task_id q = elim (Dict.get q.tasks task_id) [
  | none ↦ (false, q)
  | some task ↦ (
    true,
    write_wal (WalEntry.cancel task_id) (record q {
      tasks = Dict.put q.tasks task_id (record task { status = TaskStatus.cancelled });
      queued_ids = discard task_id q.queued_ids;
      active_ids = discard task_id q.active_ids;
      completed_ids = add task_id q.completed_ids;
    }),
  )
]

-- `cancel_all` over the ids that are there at its start; `chosen` is the test of the status filter.
unfoldable pub cancel_all : (TaskStatus → Bool) → List String → TaskQueue → ℕ × TaskQueue
cancel_all chosen [] q = (0, q)
cancel_all chosen (tid ∷ tids) q =
    let skip = cancel_all chosen tids q in
    let rest = cancel_all chosen tids (cancel tid q).1 in
    elim (Dict.get q.tasks tid) [
      | none ↦ skip
      | some task ↦
          if chosen task.status && not (is_terminal task.status) then (rest.0 + 1, rest.1) else skip
    ]
