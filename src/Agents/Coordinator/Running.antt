-- ===== src/Agents/Coordinator/Running.antt =====
-- The state of the coordinator's queue (engine/agent_runtime/coordinator.py) after any events: its log,
-- its heap, its index of nodes, and the watch for tasks that run too long.
use prodinamik_engine.Prelude.{
  ℕ, ◌≡◌, refl, sym, ap, ◌∙◌, inl, inr, String, false, Option, none, some, eq_iff, eq_refl,
  Bool-cases, Option-cases, List, [], ◌∷◌, arith, str_eq, ◌&&◌, ltb,
}
use prodinamik_engine.Dict
use prodinamik_engine.Dict.{Dict, get, get-put, values, IsDistinct, IsDistinct-put}
use prodinamik_engine.Tasks.Data.{TaskStatus, Task}
use prodinamik_engine.Tasks.Heap.{IsHeap}
use prodinamik_engine.Tasks.Queue.{
  TaskQueue, empty, write_wal, with_id, enqueue, dequeue, acknowledge, complete, requeue, give_up,
  fail, cancel,
}
use prodinamik_engine.Tasks.Queue.Calls.{Call, run}
use prodinamik_engine.Tasks.Queue.Order.{run-IsHeap}
use prodinamik_engine.Tasks.Queue.Listing.{list_tasks, status_eq, with_status, sort_tasks}
use prodinamik_engine.Tasks.Wal.{replay_wal}
use prodinamik_engine.Tasks.Wal.Mirrors.{IsRecoverable, kept_of}
use prodinamik_engine.Tasks.Wal.Recovery.{run-IsRecoverable}
use prodinamik_engine.Agents.Registry.{new_registry}
use prodinamik_engine.Agents.Registry.Index.{registries-IsIndex, run_all}
use prodinamik_engine.Agents.Coordinator.{
  CoordinatorNode, CoordinatorConfig, clear_node, watch_timeouts, timeout_loop,
}
use prodinamik_engine.Agents.Coordinator.Safe.{
  Event, deliver_all, IsKept, IsSafe, deliver_all-IsSafe,
}

abbrev pub new_coordinator : CoordinatorConfig → CoordinatorNode
new_coordinator config = record {
  config = config;
  scheduler = record {
    registry = new_registry config.heartbeat_ttl;
    queue = empty;
    assignments = [];
    total_scheduled = 0;
    total_failed_assign = 0;
  };
  tasks_assigned = 0;
  tasks_completed = 0;
  tasks_failed = 0;
  escalated = [];
}

-- No task has the status `running`. The table of tasks has each id once.
pub record IsIdle (q : TaskQueue) : Type 0 where
  pub idle :
      (id : String) (t : Task)
      → Dict.get q.tasks id ≡ some t
      → status_eq t.status TaskStatus.running ≡ false
  pub distinct : IsDistinct q.tasks

put-IsIdle :
    (q : TaskQueue) (id : String) (t : Task)
    → IsIdle q
    → status_eq t.status TaskStatus.running ≡ false
    → IsIdle (record q { tasks = Dict.put q.tasks id t })
put-IsIdle q id t h s = record {
  idle = λ j u e. elim (Bool-cases (str_eq id j)) [
    | inl same ↦
        let e' : some t ≡ some u = ground (arith, get-put q.tasks id t j) in
        ap (λ o. status_eq (status_or o t) TaskStatus.running) (sym e') ∙ s
    | inr other ↦ h.idle j u (ground (arith, get-put q.tasks id t j))
  ];
  distinct = IsDistinct-put q.tasks id t h.distinct;
}
  where
    status_or : Option Task → Task → TaskStatus
    status_or none t = t.status
    status_or (some u) t = u.status

-- Fields other than the table do not matter.
same-IsIdle : (q r : TaskQueue) → r.tasks ≡ q.tasks → IsIdle q → IsIdle r
same-IsIdle q r e h = record { idle = rw e h.idle; distinct = rw e h.distinct }

run-IsIdle : (c : Call) (q : TaskQueue) → IsIdle q → IsIdle (run c q)
unfolding run enqueue dequeue acknowledge complete cancel fail requeue give_up write_wal
run-IsIdle (Call.submit fresh now t) q h =
    same-IsIdle _ _ refl (put-IsIdle q (with_id fresh t).task_id _ h refl)
run-IsIdle (Call.take affinity) q h = same-IsIdle q _ refl h
run-IsIdle (Call.ack now id node) q h = elim (Option-cases (Dict.get q.tasks id)) [
  | inl gone ↦ rw (gone, run, acknowledge) h
  | inr (t, there) ↦ rw (there, run, acknowledge) (same-IsIdle _ _ refl (put-IsIdle q id _ h refl))
]
run-IsIdle (Call.finish now id result) q h = elim (Option-cases (Dict.get q.tasks id)) [
  | inl gone ↦ rw (gone, run, complete) h
  | inr (t, there) ↦ rw (there, run, complete) (same-IsIdle _ _ refl (put-IsIdle q id _ h refl))
]
run-IsIdle (Call.break now id error retry) q h = elim (Option-cases (Dict.get q.tasks id)) [
  | inl gone ↦ rw (gone, run, fail) h
  | inr (t, there) ↦ elim (Bool-cases (retry && ltb t.retry_count t.max_retries)) [
    | inl again ↦
        rw (there, run, fail)
          (rw (again, run, fail) (same-IsIdle _ _ refl (put-IsIdle q id _ h refl)))
    | inr over ↦
        rw (there, run, fail)
          (rw (over, run, fail) (same-IsIdle _ _ refl (put-IsIdle q id _ h refl)))
  ]
]
run-IsIdle (Call.stop id) q h = elim (Option-cases (Dict.get q.tasks id)) [
  | inl gone ↦ rw (gone, run, cancel) h
  | inr (t, there) ↦ rw (there, run, cancel) (same-IsIdle _ _ refl (put-IsIdle q id _ h refl))
]

clear_node-IsIdle : (id : String) (q : TaskQueue) → IsIdle q → IsIdle (clear_node id q)
unfolding clear_node
clear_node-IsIdle id q h = elim (Option-cases (Dict.get q.tasks id)) [
  | inl gone ↦ rw (gone, clear_node) h
  | inr (t, there) ↦ rw (there, clear_node) (put-IsIdle q id _ h (h.idle id t there))
]

clear_node-IsHeap : (id : String) (q : TaskQueue) → IsHeap q.heap → IsHeap (clear_node id q).heap
unfolding clear_node
clear_node-IsHeap id q h = elim (Option-cases (Dict.get q.tasks id)) [
  | inl gone ↦ rw (gone, clear_node) h
  | inr (t, there) ↦ rw (there, clear_node) h
]

clear_node-IsRecoverable :
    (restart : ℕ) (id : String) (q : TaskQueue)
    → IsRecoverable restart q
    → IsRecoverable restart (clear_node id q)
unfolding clear_node
clear_node-IsRecoverable restart id q h = elim (Option-cases (Dict.get q.tasks id)) [
  | inl gone ↦ rw (gone, clear_node) h
  | inr (t, there) ↦
      rw (there, clear_node)
        (record {
          open_log = h.open_log;
          mirrors = record {
            kept = λ j. h.mirrors.kept j ∙ same_kept j t there;
            completed = h.mirrors.completed;
          };
        })
]
  where
    same_kept :
        (j : String) (t : Task)
        → Dict.get q.tasks id ≡ some t
        → kept_of (Dict.get q.tasks j)
          ≡ kept_of (Dict.get (Dict.put q.tasks id (record t { assigned_node = "" })) j)
    same_kept j t there = elim (Bool-cases (str_eq id j)) [
      | inl same ↦
          let here =
            ap (λ x. kept_of (Dict.get q.tasks x)) (sym ((eq_iff id j).0 same))
            ∙ ap kept_of there in
          rw get-put (rw same here)
      | inr other ↦ rw get-put (rw other refl)
    ]

-- What holds of the coordinator's queue: a restart at any time would recover it from its log, its heap
-- is in order, and no task runs.
pub record IsHealthy (q : TaskQueue) : Type 0 where
  pub recoverable : (restart : ℕ) → IsRecoverable restart q
  pub ordered : IsHeap q.heap
  pub no_running : IsIdle q

IsHealthy-IsKept : IsKept IsHealthy
IsHealthy-IsKept = record {
  step = λ c q h. record {
    recoverable = λ restart. run-IsRecoverable restart c q (h.recoverable restart);
    ordered = run-IsHeap c q h.ordered;
    no_running = run-IsIdle c q h.no_running;
  };
  clear = λ id q h. record {
    recoverable = λ restart. clear_node-IsRecoverable restart id q (h.recoverable restart);
    ordered = clear_node-IsHeap id q h.ordered;
    no_running = clear_node-IsIdle id q h.no_running;
  };
}

new_coordinator-IsSafe : (config : CoordinatorConfig) → IsSafe IsHealthy (new_coordinator config)
unfolding replay_wal get run_all
new_coordinator-IsSafe config = record {
  index = registries-IsIndex config.heartbeat_ttl [];
  queue = record {
    recoverable = λ restart. record {
      open_log = refl;
      mirrors = record { kept = λ id. refl; completed = λ id. refl };
    };
    ordered = tt;
    no_running = record { idle = λ id t e. ground arith; distinct = tt };
  };
}

-- Whatever events a new coordinator goes through, its index of capabilities agrees with its nodes, a
-- restart at any time would find in the log the tasks of its queue with their goals,
-- priorities, affinities and statuses, the heap of the queue is in order, and no task has the status `running`.
pub coordinators-IsSafe :
    (config : CoordinatorConfig) (events : List Event)
    → IsSafe IsHealthy (deliver_all (new_coordinator config) events)
coordinators-IsSafe config events =
    deliver_all-IsSafe IsHealthy IsHealthy-IsKept (new_coordinator config) events
      (new_coordinator-IsSafe config)

with_status_none :
    (d : Dict Task)
    → ((id : String) (t : Task) → get d id ≡ some t → status_eq t.status TaskStatus.running ≡ false)
    → IsDistinct d
    → with_status TaskStatus.running (values d) ≡ []
unfolding with_status get
with_status_none [] h distinct = refl
with_status_none ((k, t) ∷ d) h distinct =
    rw (h k t (rw (eq_refl k) refl)) (with_status_none d later distinct.1)
  where
    later :
        (id : String) (u : Task) → get d id ≡ some u → status_eq u.status TaskStatus.running ≡ false
    later id u e = elim (Bool-cases (str_eq k id)) [
      | inl same ↦
          absurd (none-ne-some u (sym distinct.0 ∙ ap (λ x. get d x) ((eq_iff k id).0 same) ∙ e))
      | inr other ↦ h id u (rw other e)
    ]
      where
        none-ne-some : (u : Task) → none ≡ some u → ⊥
        none-ne-some u e = cc

-- Whatever events a new coordinator goes through, a round of the watch for tasks that have run too long
-- changes nothing: it looks at tasks with the status `running` only, and no event gives a task that
-- status.
pub timeouts_never_fire :
    (config : CoordinatorConfig) (events : List Event) (now : ℕ) (text : ℕ → String)
    → let c = deliver_all (new_coordinator config) events in watch_timeouts now text c ≡ c
unfolding watch_timeouts timeout_loop list_tasks sort_tasks
timeouts_never_fire config events now text =
    let c = deliver_all (new_coordinator config) events in
    let q = c.scheduler.queue in
    let h = (coordinators-IsSafe config events).queue.no_running in
    rw (with_status_none q.tasks h.idle h.distinct) refl
