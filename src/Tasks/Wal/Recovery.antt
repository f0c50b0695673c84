-- ===== src/Tasks/Wal/Recovery.antt =====
-- Runs of calls of the queue, and a restart after them.
use prodinamik_engine.Prelude.{
  ℕ, ◌+◌, ◌≡◌, refl, String, Bool, true, some, ltb, lt→ltb, ◌<◌, contains, ◌&&◌, Bool-cases,
  Option-cases, inl, inr,
}
use prodinamik_engine.Dict
use prodinamik_engine.Dict.{Dict, get-put, get-put_self}
use prodinamik_engine.Tasks.Data.{Task}
use prodinamik_engine.Tasks.Queue.{TaskQueue, write_wal, enqueue, with_id, dequeue, requeue, fail}
use prodinamik_engine.Tasks.Queue.Calls.{
  Call, submit, take, ack, finish, break, stop, run, acknowledge_gone, complete_gone, fail_gone,
  cancel_gone,
}
use prodinamik_engine.Tasks.Wal.{replay_entry, replay_wal}
use prodinamik_engine.Tasks.Wal.Mirrors.{
  Mirrors, IsRecoverable, replay_wal-append, write_wal-IsRecoverable, kept_put,
  acknowledge-IsRecoverable, complete-IsRecoverable, give_up-IsRecoverable, cancel-IsRecoverable,
  requeue-IsRecoverable,
}

fail-IsRecoverable :
    (now at : ℕ) (id error : String) (retry : Bool) (t : Task) (q : TaskQueue)
    → IsRecoverable now q
    → Dict.get q.tasks id ≡ some t
    → IsRecoverable now (fail at id error retry q).1
unfolding fail
fail-IsRecoverable now at id error retry t q rec there =
    elim (Bool-cases (retry && ltb t.retry_count t.max_retries)) [
      | inl again ↦
          rw (there, fail) (rw (again, fail) (requeue-IsRecoverable now at id t q rec there))
      | inr over ↦
          rw (there, fail) (rw (over, fail) (give_up-IsRecoverable now at id t q rec there error))
    ]

enqueue-IsRecoverable :
    (now at : ℕ) (fresh : String) (t : Task) (q : TaskQueue)
    → IsRecoverable now q
    → IsRecoverable now (enqueue fresh at t q).1
unfolding enqueue replay_entry
enqueue-IsRecoverable now at fresh t q rec = write_wal-IsRecoverable now _ _ rec.open_log (record {
  kept = kept_put rec.mirrors (with_id fresh t).task_id _ _ refl;
  completed = rec.mirrors.completed;
})

dequeue-IsRecoverable :
    (now : ℕ) (affinity : String) (q : TaskQueue)
    → IsRecoverable now q
    → IsRecoverable now (dequeue affinity q).1
unfolding dequeue
dequeue-IsRecoverable now affinity q rec = record {
  open_log = rec.open_log;
  mirrors = record { kept = rec.mirrors.kept; completed = rec.mirrors.completed };
}

pub run-IsRecoverable :
    (now : ℕ) (c : Call) (q : TaskQueue) → IsRecoverable now q → IsRecoverable now (run c q)
unfolding run
run-IsRecoverable now (submit fresh at t) q rec = enqueue-IsRecoverable now at fresh t q rec
run-IsRecoverable now (take affinity) q rec = dequeue-IsRecoverable now affinity q rec
run-IsRecoverable now (ack at id node) q rec = elim (Option-cases (Dict.get q.tasks id)) [
  | inl gone ↦ rw (acknowledge_gone id q gone at node, run) rec
  | inr (t, there) ↦ acknowledge-IsRecoverable now at id t q rec there node
]
run-IsRecoverable now (finish at id result) q rec = elim (Option-cases (Dict.get q.tasks id)) [
  | inl gone ↦ rw (complete_gone id q gone at result, run) rec
  | inr (t, there) ↦ complete-IsRecoverable now at id t q rec there result
]
run-IsRecoverable now (break at id error retry) q rec = elim (Option-cases (Dict.get q.tasks id)) [
  | inl gone ↦ rw (fail_gone id q gone at error retry, run) rec
  | inr (t, there) ↦ fail-IsRecoverable now at id error retry t q rec there
]
run-IsRecoverable now (stop id) q rec = elim (Option-cases (Dict.get q.tasks id)) [
  | inl gone ↦ rw (cancel_gone id q gone, run) rec
  | inr (t, there) ↦ cancel-IsRecoverable now now id t q rec there
]

-- A retry is logged without its count. A failed task that is queued again has used one more retry of
-- its own allowance; a restart then finds it with none used and three allowed, and its id still among
-- the active ones if the log had it there.
pub retry_forgotten :
    (now at : ℕ) (id error : String) (t : Task) (q : TaskQueue)
    → q.wal_open ≡ true
    → Dict.get q.tasks id ≡ some t
    → t.retry_count < t.max_retries
    → let q' = (fail at id error true q).1 in
      let r = replay_wal now q'.wal in
      ((u : Task) × (Dict.get q'.tasks id ≡ some u)
        × (u.retry_count ≡ t.retry_count + 1)
        × (u.max_retries ≡ t.max_retries))
      × ((u : Task) × (Dict.get r.tasks id ≡ some u) × (u.retry_count ≡ 0) × (u.max_retries ≡ 3))
      × (contains r.active_ids id ≡ contains (replay_wal now q.wal).active_ids id)
unfolding fail requeue replay_entry write_wal
retry_forgotten now at id error t q open_log there room =
    rw (there, fail)
      (rw (lt→ltb t.retry_count t.max_retries room) (
        (_, get-put_self q.tasks id _, refl, refl),
        (rw (open_log)
            (rw replay_wal-append (_, get-put_self (replay_wal now q.wal).tasks id _, refl, refl))),
        rw open_log (rw replay_wal-append refl),
      ))
