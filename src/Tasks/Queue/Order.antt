-- ===== src/Tasks/Queue/Order.antt =====
-- The order of the heap through calls of the queue (engine/agent_runtime/task_queue.py).
use prodinamik_engine.Prelude.{
  ℕ, ◌≡◌, String, Bool, none, some, List, [], ◌∷◌, ltb, ◌&&◌, inl, inr, Bool-cases, Option-cases,
}
use prodinamik_engine.Dict
use prodinamik_engine.Dict.{Dict}
use prodinamik_engine.Tasks.Data.{Task, is_queued, PrioritizedTask}
use prodinamik_engine.Tasks.Heap.{IsHeap, heappush-IsHeap, push_all-IsHeap, In}
use prodinamik_engine.Tasks.Queue.{
  TaskQueue, empty, write_wal, enqueue, not_for, dequeue_loop, dequeue, acknowledge, complete,
  requeue, give_up, fail, cancel,
}
use prodinamik_engine.Tasks.Queue.Calls.{Call, run, run_all}
use prodinamik_engine.Tasks.Queue.Dequeue.{IsFirst, offer, dequeue-IsFirst, dequeue-none}

-- What the loop leaves is an end of the heap.
dequeue_loop-IsHeap :
    (tasks : Dict Task) (affinity : String) (heap : List PrioritizedTask)
    → IsHeap heap
    → IsHeap (dequeue_loop tasks affinity heap).2
unfolding dequeue_loop
dequeue_loop-IsHeap tasks affinity [] h = tt
dequeue_loop-IsHeap tasks affinity (e ∷ heap) h =
    let rest = dequeue_loop-IsHeap tasks affinity heap h.1 in
    elim (Option-cases (Dict.get tasks e.task_id)) [
      | inl gone ↦ rw (gone, dequeue_loop) rest
      | inr (t, there) ↦ elim (Bool-cases (is_queued t.status)) [
        | inr done ↦ rw (there, dequeue_loop) (rw (done, dequeue_loop) rest)
        | inl waits ↦ elim (Bool-cases (not_for affinity t.affinity)) [
          | inl other ↦
              rw (there, dequeue_loop) (rw (waits, dequeue_loop) (rw (other, dequeue_loop) rest))
          | inr fits ↦
              rw (there, dequeue_loop) (rw (waits, dequeue_loop) (rw (fits, dequeue_loop) h.1))
        ]
      ]
    ]

fail-IsHeap :
    (now : ℕ) (id error : String) (retry : Bool) (q : TaskQueue)
    → IsHeap q.heap
    → IsHeap (fail now id error retry q).1.heap
unfolding fail requeue give_up write_wal
fail-IsHeap now id error retry q h = elim (Option-cases (Dict.get q.tasks id)) [
  | inl gone ↦ rw (gone, fail) h
  | inr (t, there) ↦ elim (Bool-cases (retry && ltb t.retry_count t.max_retries)) [
    | inl again ↦ rw (there, fail) (rw (again, fail) (heappush-IsHeap _ q.heap h))
    | inr over ↦ rw (there, fail) (rw (over, fail) h)
  ]
]

pub run-IsHeap : (c : Call) (q : TaskQueue) → IsHeap q.heap → IsHeap (run c q).heap
unfolding run enqueue dequeue acknowledge complete cancel write_wal
run-IsHeap (Call.submit fresh now t) q h = heappush-IsHeap _ q.heap h
run-IsHeap (Call.take affinity) q h =
    push_all-IsHeap (dequeue_loop q.tasks affinity q.heap).1
      (dequeue_loop q.tasks affinity q.heap).2 (dequeue_loop-IsHeap q.tasks affinity q.heap h)
run-IsHeap (Call.ack now id node) q h = elim (Option-cases (Dict.get q.tasks id)) [
  | inl gone ↦ rw (gone, run, acknowledge) h
  | inr (t, there) ↦ rw (there, run, acknowledge) h
]
run-IsHeap (Call.finish now id result) q h = elim (Option-cases (Dict.get q.tasks id)) [
  | inl gone ↦ rw (gone, run, complete) h
  | inr (t, there) ↦ rw (there, run, complete) h
]
run-IsHeap (Call.break now id error retry) q h = fail-IsHeap now id error retry q h
run-IsHeap (Call.stop id) q h = elim (Option-cases (Dict.get q.tasks id)) [
  | inl gone ↦ rw (gone, run, cancel) h
  | inr (t, there) ↦ rw (there, run, cancel) h
]

run_all-IsHeap : (calls : List Call) (q : TaskQueue) → IsHeap q.heap → IsHeap (run_all calls q).heap
unfolding run_all
run_all-IsHeap [] q h = h
run_all-IsHeap (c ∷ calls) q h = run_all-IsHeap calls (run c q) (run-IsHeap c q h)

-- Whatever calls a new queue has answered: a task that `dequeue` hands out is queued, fits the
-- affinity, and belongs to an entry of the heap that no other eligible entry precedes by priority and
-- time; and where it hands out nothing, no entry of the heap has an eligible task.
pub dequeue_after_runs :
    (calls : List Call) (affinity : String)
    → let q = run_all calls empty in
      ((t : Task) → (dequeue affinity q).0 ≡ some t → IsFirst q.tasks affinity q.heap t)
      × ((dequeue affinity q).0 ≡ none
          → (x : PrioritizedTask) → In x q.heap
          → offer q.tasks affinity x ≡ none)
dequeue_after_runs calls affinity =
    let q = run_all calls empty in
    (
      λ t. dequeue-IsFirst affinity q t (run_all-IsHeap calls empty tt),
      λ h x. dequeue-none affinity q x h,
    )
