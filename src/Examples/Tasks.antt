-- ===== src/Examples/Tasks.antt =====
-- Queues with two tasks, and the theorems on engine/agent_runtime/task_queue.py applied to them.
use prodinamik_engine.Prelude.{
  ℕ, ◌≡◌, refl, sym, ap, String, true, none, some, List, [], ◌∷◌, arith, contains,
}
use prodinamik_engine.Dict
use prodinamik_engine.Dict.{Dict}
use prodinamik_engine.Tasks.Data.{TaskStatus, Task, PrioritizedTask, is_queued, is_terminal}
use prodinamik_engine.Tasks.Heap.{In, heappush}
use prodinamik_engine.Tasks.Queue.{
  TaskQueue, empty, enqueue, dequeue, dequeue_loop, acknowledge, requeue, fail, write_wal,
}
use prodinamik_engine.Tasks.Queue.Lifecycle.{status_is, IsConsistent, IsConsistent-empty}
use prodinamik_engine.Tasks.Queue.Calls.{Call, run, run_all, Life, Life-IsConsistent}
use prodinamik_engine.Tasks.Queue.Dequeue.{IsFirst, offer}
use prodinamik_engine.Tasks.Queue.Order.{dequeue_after_runs}
use prodinamik_engine.Tasks.Wal.{replay_wal}
use prodinamik_engine.Tasks.Wal.Mirrors.{Mirrors}
use prodinamik_engine.Tasks.Wal.Recovery.{retry_forgotten}

abbrev task : String → ℕ → String → Task
task id priority affinity = record {
  task_id = id;
  goal = "build";
  priority = priority;
  affinity = affinity;
  context = "{}";
  tools = [];
  max_steps = 50;
  status = TaskStatus.queued;
  assigned_node = "";
  created_at = 0;
  assigned_at = none;
  completed_at = none;
  result = "";
  error = none;
  parent_task = "";
  subtasks = [];
  max_retries = 3;
  retry_count = 0;
}

abbrev some_calls : List Call
some_calls =
    Call.submit "f" 1 (task "t1" 5 "")
    ∷ Call.submit "g" 2 (task "t2" 3 "gpu")
    ∷ Call.take ""
    ∷ Call.ack 3 "t1" "n1"
    ∷ Call.break 4 "t1" "no" true
    ∷ Call.stop "t2"
    ∷ []

abbrev retried : TaskQueue
retried = run (Call.break 4 "t1" "no" true) (
    run (Call.ack 3 "t1" "n1")
      (run (Call.take "") (run (Call.submit "f" 1 (task "t1" 5 "")) empty)))

-- A task is given out, fails, is queued again, and is done at the second attempt.
Life-IsConsistent_example :
    IsConsistent (run (Call.finish 6 "t1" "ok") (run (Call.ack 5 "t1" "n2") retried))
unfolding run enqueue dequeue dequeue_loop heappush acknowledge fail requeue write_wal Dict.get
    Dict.put
Life-IsConsistent_example =
    let submitted : Life empty (run (Call.submit "f" 1 (task "t1" 5 "")) empty) =
      Life.then Life.start (Call.submit "f" 1 (task "t1" 5 "")) (refl, omega arith) refl in
    let taken = Life.then submitted (Call.take "") tt refl in
    let given =
      Life.then taken (Call.ack 3 "t1" "n1") (λ t e. ap (status_is is_terminal) (sym e)) refl in
    let failed =
      Life.then given (Call.break 4 "t1" "no" true)
        (λ t e. (ap (status_is is_terminal) (sym e), ap (status_is is_queued) (sym e))) refl in
    let again =
      Life.then failed (Call.ack 5 "t1" "n2") (λ t e. ap (status_is is_terminal) (sym e)) refl in
    Life-IsConsistent {q = empty} IsConsistent-empty
      (Life.then again (Call.finish 6 "t1" "ok") (λ t e. ap (status_is is_queued) (sym e)) refl)

abbrev item : String → ℕ → PrioritizedTask
item id priority = record { priority = priority; timestamp = 0; task_id = id }

abbrev two_tasks : TaskQueue
two_tasks = record empty {
  heap = item "t2" 3 ∷ item "t1" 5 ∷ [];
  tasks = ("t1", task "t1" 5 "") ∷ ("t2", task "t2" 3 "gpu") ∷ [];
}

dequeue_after_runs_example :
    let q = run_all some_calls empty in
    ((t : Task) → (dequeue "gpu" q).0 ≡ some t → IsFirst q.tasks "gpu" q.heap t)
    × ((dequeue "gpu" q).0 ≡ none
        → (x : PrioritizedTask) → In x q.heap
        → offer q.tasks "gpu" x ≡ none)
dequeue_after_runs_example = dequeue_after_runs some_calls "gpu"

retry_forgotten_example :
    let q' = (fail 4 "t1" "no" true two_tasks).1 in
    let r = replay_wal 9 q'.wal in
    ((u : Task) × (Dict.get q'.tasks "t1" ≡ some u) × (u.retry_count ≡ 1) × (u.max_retries ≡ 3))
    × ((u : Task) × (Dict.get r.tasks "t1" ≡ some u) × (u.retry_count ≡ 0) × (u.max_retries ≡ 3))
    × (contains r.active_ids "t1" ≡ contains (replay_wal 9 two_tasks.wal).active_ids "t1")
unfolding Dict.get
retry_forgotten_example =
    retry_forgotten 9 4 "t1" "no" (task "t1" 5 "") two_tasks refl refl (omega arith)
