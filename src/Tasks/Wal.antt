-- ===== src/Tasks/Wal.antt =====
-- The log of the queue (engine/agent_runtime/task_queue.py): `_replay_wal`, record by record, and
-- `_compact_wal`. Lines that are no record of the queue are skipped by the code and left out here.
pub mod Mirrors
pub mod Recovery
use prodinamik_engine.Prelude.{
  ℕ, String, Bool, true, false, Option, none, some, List, [], ◌∷◌, get_or, add, discard,
  if◌then◌else◌, foldl,
}
use prodinamik_engine.Dict
use prodinamik_engine.Dict.{Dict}
use prodinamik_engine.Tasks.Data.{TaskStatus, Task, is_terminal, EnqueueData, WalEntry}
use prodinamik_engine.Tasks.Heap.{heappush}
use prodinamik_engine.Tasks.Queue.{TaskQueue, empty}

-- `Task(**clean_data)`: what the record leaves out takes the default of the field.
abbrev pub task_of : ℕ → EnqueueData → Task
task_of now d = record {
  task_id = d.task_id;
  goal = d.goal;
  priority = d.priority;
  affinity = d.affinity;
  context = get_or d.context "{}";
  tools = get_or d.tools [];
  max_steps = get_or d.max_steps 20;
  status = TaskStatus.queued;
  assigned_node = "";
  created_at = now;
  assigned_at = none;
  completed_at = none;
  result = "{}";
  error = none;
  parent_task = get_or d.parent_task "";
  subtasks = [];
  max_retries = get_or d.max_retries 3;
  retry_count = get_or d.retry_count 0;
}

-- A record about a task that is there finishes it; any other changes nothing.
unfoldable pub finished : String → (Task → Task) → TaskQueue → TaskQueue
finished id f q = elim (Dict.get q.tasks id) [
  | none ↦ q
  | some t ↦ record q {
    tasks = Dict.put q.tasks id (f t);
    queued_ids = discard id q.queued_ids;
    active_ids = discard id q.active_ids;
    completed_ids = add id q.completed_ids;
  }
]

-- One record of `_replay_wal`; `now` is the clock at the recovery.
unfoldable pub replay_entry : ℕ → TaskQueue → WalEntry → TaskQueue
replay_entry now q (WalEntry.enqueue d) = record q {
  tasks = Dict.put q.tasks d.task_id (task_of now d);
  heap =
      heappush
        (record { priority = d.priority; timestamp = get_or d.timestamp now; task_id = d.task_id })
        q.heap;
  queued_ids = add d.task_id q.queued_ids;
}
replay_entry now q (WalEntry.acknowledge id node) = elim (Dict.get q.tasks id) [
  | none ↦ q
  | some t ↦ record q {
    tasks = Dict.put q.tasks id (record t { status = TaskStatus.assigned; assigned_node = node });
    queued_ids = discard id q.queued_ids;
    active_ids = add id q.active_ids;
  }
]
replay_entry now q (WalEntry.complete id result at) =
    finished id
      (λ t. record t { status = TaskStatus.completed; result = result; completed_at = some at }) q
replay_entry now q (WalEntry.fail id error at) =
    finished id
      (λ t. record t { status = TaskStatus.failed; error = some error; completed_at = some at }) q
replay_entry now q (WalEntry.cancel id) =
    finished id (λ t. record t { status = TaskStatus.cancelled }) q

unfoldable pub replay_wal : ℕ → List WalEntry → TaskQueue
unfolding replay_entry
replay_wal now = foldl (replay_entry now) empty

-- The record that the compacted log keeps of a task.
abbrev pub compact_record : Task → WalEntry
compact_record t = WalEntry.enqueue (record {
  task_id = t.task_id;
  goal = t.goal;
  priority = t.priority;
  affinity = t.affinity;
  context = some t.context;
  tools = some t.tools;
  max_steps = some t.max_steps;
  max_retries = some t.max_retries;
  retry_count = some t.retry_count;
  parent_task = some t.parent_task;
  timestamp = none;
})

unfoldable pub compact_wal : Dict Task → List WalEntry
compact_wal [] = []
compact_wal ((id, t) ∷ tasks) =
    let rest = compact_wal tasks in if is_terminal t.status then rest else compact_record t ∷ rest

-- `close`: the file is closed, then compacted.
unfoldable pub close : TaskQueue → TaskQueue
unfolding compact_wal
close q = record q { wal_open = false; wal = compact_wal q.tasks }
