-- ===== src/Agents/Coordinator/Safe.antt =====
-- Runs of the coordinator (engine/agent_runtime/coordinator.py): what every call of the queue keeps, and
-- the index of the registry.
use mathlib.Core.Path.{subst}
use prodinamik_engine.Prelude.{
  ℕ, zero, suc, sym, min, inl, inr, String, Bool, true, false, Bool-cases, Option-cases, List, [],
  ◌∷◌, str_eq, if◌then◌else◌,
}
use prodinamik_engine.Dict
use prodinamik_engine.Dict.{Dict, get-put}
use prodinamik_engine.Tasks.Data.{TaskStatus, Task}
use prodinamik_engine.Tasks.Queue.{TaskQueue, dequeue}
use prodinamik_engine.Tasks.Queue.Calls.{Call, run}
use prodinamik_engine.Tasks.Queue.Listing.{list_tasks}
use prodinamik_engine.Agents.Registry.{
  AgentRegistry, Beat, NodeInfo, register_node, available_slots, new_registry, cleanup_stale_nodes,
}
use prodinamik_engine.Agents.Registry
use prodinamik_engine.Agents.Registry.Index
use prodinamik_engine.Agents.Registry.Index.{IsIndex, run-IsIndex, registries-IsIndex}
use prodinamik_engine.Agents.Scheduler.Laws.{try_assign-keeps, try_assign_lem}
use prodinamik_engine.Agents.Coordinator.{
  CoordinatorNode, Submission, Introduction, submit_task, submitted, heartbeat, introduced,
  dequeue_for, poll_loop, poll_tasks, primary, report_result, cancel_task, is_late, timeout_loop,
  watch_timeouts, clear_node, is_lost, reassign_loop, reassign, cleanup, assigned_round,
}

pub data Event : Type 0 where
  submit : String → ℕ → Submission → Event
  beat : ℕ → String → Beat → Introduction → Event
  poll : ℕ → String → ℕ → Event
  report : ℕ → String → Bool → String → String → Event
  stop : String → Event
  watch : ℕ → (ℕ → String) → Event
  move : ℕ → Event
  clean : ℕ → Event

unfoldable pub deliver : CoordinatorNode → Event → CoordinatorNode
deliver c (Event.submit id now a) = (submit_task id now a c).1
deliver c (Event.beat now id b i) = heartbeat now id b i c
deliver c (Event.poll now id n) = (poll_tasks now id n c).1
deliver c (Event.report now id success result error) =
    (report_result now id success result error c).1
deliver c (Event.stop id) = cancel_task id c
deliver c (Event.watch now text) = watch_timeouts now text c
deliver c (Event.move now) = reassign now c
deliver c (Event.clean now) = cleanup now c

unfoldable pub deliver_all : CoordinatorNode → List Event → CoordinatorNode
deliver_all c [] = c
deliver_all c (e ∷ events) = deliver_all (deliver c e) events

-- What holds of a queue and is kept by its calls and by the coordinator's own write.
pub record IsKept (P : TaskQueue → Type 0) : Type 0 where
  pub step : (c : Call) (q : TaskQueue) → P q → P (run c q)
  pub clear : (id : String) (q : TaskQueue) → P q → P (clear_node id q)

module _ (P : TaskQueue → Type 0) (k : IsKept P) where
  dequeue_for-keeps : (affinity : String) (q : TaskQueue) → P q → P (dequeue_for affinity q).1
  unfolding dequeue_for run
  dequeue_for-keeps affinity q p = elim (Option-cases (dequeue affinity q).0) [
    | inl e ↦ rw (e, dequeue_for) (k.step (Call.take "") _ (k.step (Call.take affinity) q p))
    | inr (t, e) ↦ rw (e, dequeue_for) (k.step (Call.take affinity) q p)
  ]

  poll_loop-keeps :
      (rounds now : ℕ) (id affinity : String) (q : TaskQueue)
      → P q
      → P (poll_loop rounds now id affinity q).1
  unfolding poll_loop run
  poll_loop-keeps zero now id affinity q p = p
  poll_loop-keeps (suc rounds) now id affinity q p =
      let p' = dequeue_for-keeps affinity q p in
      elim (Option-cases (dequeue_for affinity q).0) [
        | inl e ↦ rw (e, poll_loop) p'
        | inr (t, e) ↦
            rw (e, poll_loop)
              (poll_loop-keeps rounds now id affinity _
                (k.step (Call.ack now t.task_id id) (dequeue_for affinity q).1 p'))
      ]

  timeout_loop-keeps :
      (now timeout : ℕ) (text : ℕ → String) (ts : List Task) (q : TaskQueue)
      → P q
      → P (timeout_loop now timeout text ts q)
  unfolding timeout_loop run
  timeout_loop-keeps now timeout text [] q p = p
  timeout_loop-keeps now timeout text (t ∷ ts) q p =
      elim (Bool-cases (is_late now timeout t.assigned_at)) [
        | inl e ↦
            rw (e, timeout_loop)
              (timeout_loop-keeps now timeout text ts _
                (k.step (Call.break now t.task_id (text now) true) q p))
        | inr e ↦ rw (e, timeout_loop) (timeout_loop-keeps now timeout text ts q p)
      ]

  reassign_loop-keeps :
      (now ttl : ℕ) (r : AgentRegistry) (ts : List Task) (q : TaskQueue)
      → P q
      → P (reassign_loop now ttl r ts q)
  unfolding reassign_loop run
  reassign_loop-keeps now ttl r [] q p = p
  reassign_loop-keeps now ttl r (t ∷ ts) q p = elim (Bool-cases (str_eq t.assigned_node "")) [
    | inl e ↦ rw (e, reassign_loop) (reassign_loop-keeps now ttl r ts q p)
    | inr e ↦ elim (Bool-cases (is_lost now ttl (Dict.get r.nodes t.assigned_node))) [
      | inl lost ↦
          rw (e, reassign_loop)
            (rw (lost, reassign_loop)
              (reassign_loop-keeps now ttl r ts _ (
                k.step (Call.break now t.task_id "Node lost" true) (clear_node t.task_id q)
                  (k.clear t.task_id q p))))
      | inr here ↦
          rw (e, reassign_loop) (rw (here, reassign_loop) (reassign_loop-keeps now ttl r ts q p))
    ]
  ]

-- The registry's index is right, and the queue is as it should be.
pub record IsSafe (P : TaskQueue → Type 0) (c : CoordinatorNode) : Type 0 where
  pub index : IsIndex c.scheduler.registry
  pub queue : P c.scheduler.queue

module _ (P : TaskQueue → Type 0) (k : IsKept P) where
  assigned_round-IsSafe :
      (now : ℕ) (c : CoordinatorNode) → IsSafe P c → IsSafe P (assigned_round now c)
  assigned_round-IsSafe now c s = record {
    index = subst IsIndex (sym ((try_assign_lem now c.scheduler s.index).0)) s.index;
    queue = try_assign-keeps P k.step now c.scheduler s.index s.queue;
  }

  heartbeat-IsSafe :
      (now : ℕ) (id : String) (b : Beat) (i : Introduction) (c : CoordinatorNode)
      → IsSafe P c
      → IsSafe P (heartbeat now id b i c)
  unfolding heartbeat
  heartbeat-IsSafe now id b i c s =
      let r = Registry.heartbeat now id b c.scheduler.registry in
      let beaten : IsIndex r.1 =
        unfold Index.run in run-IsIndex c.scheduler.registry (Index.Call.beat now id b) s.index in
      elim (Bool-cases r.0) [
        | inl e ↦
            rw (e, heartbeat)
              (assigned_round-IsSafe now _ (record { index = beaten; queue = s.queue }))
        | inr e ↦
            let known : IsIndex (register_node id (introduced i) r.1) =
              unfold Index.run in run-IsIndex r.1 (Index.Call.register id (introduced i)) beaten in
            rw (e, heartbeat)
              (assigned_round-IsSafe now _ (record { index = known; queue = s.queue }))
      ]

  poll_tasks-IsSafe :
      (now : ℕ) (id : String) (n : ℕ) (c : CoordinatorNode)
      → IsSafe P c
      → IsSafe P (poll_tasks now id n c).1
  unfolding poll_tasks
  poll_tasks-IsSafe now id n c s = elim (Option-cases (Dict.get c.scheduler.registry.nodes id)) [
    | inl e ↦ rw (e, poll_tasks) s
    | inr (node, e) ↦
        rw (e, poll_tasks)
          (record {
            index = s.index;
            queue =
                poll_loop-keeps P k (min n (available_slots node)) now id
                  (primary node.capabilities) c.scheduler.queue s.queue;
          })
  ]

  report_result-IsSafe :
      (now : ℕ) (id : String) (success : Bool) (result error : String) (c : CoordinatorNode)
      → IsSafe P c
      → IsSafe P (report_result now id success result error c).1
  unfolding report_result run
  report_result-IsSafe now id true result error c s = record {
    index = s.index;
    queue = k.step (Call.finish now id result) c.scheduler.queue s.queue;
  }
  report_result-IsSafe now id false result error c s = record {
    index = s.index;
    queue = k.step (Call.break now id error true) c.scheduler.queue s.queue;
  }

  reassign-IsSafe : (now : ℕ) (c : CoordinatorNode) → IsSafe P c → IsSafe P (reassign now c)
  unfolding reassign
  reassign-IsSafe now c s =
      either_way c.config.auto_reassign _ c
        (record {
          index = s.index;
          queue =
              reassign_loop-keeps P k now c.config.heartbeat_ttl c.scheduler.registry
                (list_tasks TaskStatus.assigned 50 c.scheduler.queue) c.scheduler.queue s.queue;
        })
        s
    where
      either_way :
          (b : Bool) (x y : CoordinatorNode)
          → IsSafe P x
          → IsSafe P y
          → IsSafe P (if b then x else y)
      either_way true x y h h' = h
      either_way false x y h h' = h'

  deliver-IsSafe : (c : CoordinatorNode) (e : Event) → IsSafe P c → IsSafe P (deliver c e)
  unfolding deliver submit_task cancel_task watch_timeouts cleanup run
  deliver-IsSafe c (Event.submit id now a) s = assigned_round-IsSafe now _ (record {
    index = s.index;
    queue =
        k.step (Call.submit "" now (submitted id now c.config.max_task_retries a)) c.scheduler.queue
          s.queue;
  })
  deliver-IsSafe c (Event.beat now id b i) s = heartbeat-IsSafe now id b i c s
  deliver-IsSafe c (Event.poll now id n) s = poll_tasks-IsSafe now id n c s
  deliver-IsSafe c (Event.report now id success result error) s =
      report_result-IsSafe now id success result error c s
  deliver-IsSafe c (Event.stop id) s = record {
    index = s.index;
    queue = k.step (Call.stop id) c.scheduler.queue s.queue;
  }
  deliver-IsSafe c (Event.watch now text) s = record {
    index = s.index;
    queue =
        timeout_loop-keeps P k now c.config.task_timeout text
          (list_tasks TaskStatus.running 50 c.scheduler.queue) c.scheduler.queue s.queue;
  }
  deliver-IsSafe c (Event.move now) s = reassign-IsSafe now c s
  deliver-IsSafe c (Event.clean now) s = record {
    index = unfold Index.run in run-IsIndex c.scheduler.registry (Index.Call.clean now) s.index;
    queue = s.queue;
  }

  -- Every sequence of events keeps what the calls of the queue keep.
  pub deliver_all-IsSafe :
      (c : CoordinatorNode) (events : List Event) → IsSafe P c → IsSafe P (deliver_all c events)
  unfolding deliver_all
  deliver_all-IsSafe c [] s = s
  deliver_all-IsSafe c (e ∷ events) s =
      deliver_all-IsSafe (deliver c e) events (deliver-IsSafe c e s)
