-- ===== src/Tasks/Data.antt =====
-- The data of engine/agent_runtime/task_queue.py. Times are whole ticks; `context` and `result` are
-- JSON objects that the queue hands on unread, kept as texts.
use prodinamik_engine.Prelude.{ℕ, String, Bool, true, false, Option, List}

pub data TaskStatus : Type 0 where
  queued assigned running completed failed cancelled timeout : TaskStatus

pub record Task : Type 0 where
  pub task_id : String
  pub goal : String
  pub priority : ℕ
  pub affinity : String
  pub context : String
  pub tools : List String
  pub max_steps : ℕ
  pub status : TaskStatus
  pub assigned_node : String
  pub created_at : ℕ
  pub assigned_at : Option ℕ
  pub completed_at : Option ℕ
  pub result : String
  pub error : Option String
  pub parent_task : String
  pub subtasks : List String
  pub max_retries : ℕ
  pub retry_count : ℕ

abbrev pub is_terminal : TaskStatus → Bool
is_terminal TaskStatus.completed = true
is_terminal TaskStatus.failed = true
is_terminal TaskStatus.cancelled = true
is_terminal TaskStatus.timeout = true
is_terminal _ = false

abbrev pub is_queued : TaskStatus → Bool
is_queued TaskStatus.queued = true
is_queued _ = false

-- The entry of the heap: lower comes first, by priority, then time, then id.
pub record PrioritizedTask : Type 0 where
  pub priority : ℕ
  pub timestamp : ℕ
  pub task_id : String

-- The `data` of an "enqueue" record of the log; a key that a record leaves out is `none`.
pub record EnqueueData : Type 0 where
  pub task_id : String
  pub goal : String
  pub priority : ℕ
  pub affinity : String
  pub context : Option String
  pub tools : Option (List String)
  pub max_steps : Option ℕ
  pub max_retries : Option ℕ
  pub retry_count : Option ℕ
  pub parent_task : Option String
  pub timestamp : Option ℕ

pub data WalEntry : Type 0 where
  enqueue : EnqueueData → WalEntry
  acknowledge : String → String → WalEntry
  complete : String → String → ℕ → WalEntry
  fail : String → String → ℕ → WalEntry
  cancel : String → WalEntry
