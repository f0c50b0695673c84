-- ===== src/Tasks/Queue/Calls.antt =====
-- Sequences of calls of the queue's methods, and what they keep.
use prodinamik_engine.Prelude.{
  List, [], ◌∷◌, ℕ, ◌≤◌, ◌≡◌, String, Bool, false, none, some, Option-cases, inl, inr,
}
use prodinamik_engine.Dict
use prodinamik_engine.Dict.{Dict}
use prodinamik_engine.Tasks.Data.{Task, is_terminal, is_queued}
use prodinamik_engine.Tasks.Queue.{
  TaskQueue, enqueue, with_id, dequeue, acknowledge, complete, fail, cancel,
}
use prodinamik_engine.Tasks.Queue.Lifecycle.{
  IsConsistent, acknowledge-IsConsistent, complete-IsConsistent, fail-IsConsistent,
  cancel-IsConsistent, enqueue-IsConsistent,
}

pub data Call : Type 0 where
  submit : String → ℕ → Task → Call
  take : String → Call
  ack : ℕ → String → String → Call
  finish : ℕ → String → String → Call
  break : ℕ → String → String → Bool → Call
  stop : String → Call

unfoldable pub run : Call → TaskQueue → TaskQueue
run (submit fresh now t) q = (enqueue fresh now t q).1
run (take affinity) q = (dequeue affinity q).1
run (ack now id node) q = (acknowledge now id node q).1
run (finish now id result) q = (complete now id result q).1
run (break now id error retry) q = (fail now id error retry q).1
run (stop id) q = (cancel id q).1

-- The queue after some calls.
unfoldable pub run_all : List Call → TaskQueue → TaskQueue
run_all [] q = q
run_all (c ∷ calls) q = run_all calls (run c q)

-- The call fits the life of its task: a new task has a new id, no finished task is acknowledged, and
-- only an acknowledged task completes or fails.
abbrev pub Fits : Call → TaskQueue → Type 0
Fits (submit fresh now t) q =
    (Dict.get q.tasks (with_id fresh t).task_id ≡ none) × (t.retry_count ≤ t.max_retries)
Fits (ack now id node) q = (t : Task) → Dict.get q.tasks id ≡ some t → is_terminal t.status ≡ false
Fits (finish now id result) q =
    (t : Task) → Dict.get q.tasks id ≡ some t → is_queued t.status ≡ false
Fits (break now id error retry) q =
    (t : Task)
    → Dict.get q.tasks id ≡ some t
    → (is_terminal t.status ≡ false) × (is_queued t.status ≡ false)
Fits _ q = Unit

pub data Life (q : TaskQueue) : TaskQueue → Type 0 where
  start : Life q q
  then : {r s : TaskQueue} → Life q r → (c : Call) → Fits c r → s ≡ run c r → Life q s

-- An id with no task: the call answers false and leaves the queue.
module _ (id : String) (q : TaskQueue) (gone : Dict.get q.tasks id ≡ none) where
  pub acknowledge_gone : (now : ℕ) (node : String) → acknowledge now id node q ≡ (false, q)
  unfolding acknowledge
  acknowledge_gone now node = rw (gone, acknowledge)

  pub complete_gone : (now : ℕ) (result : String) → complete now id result q ≡ (false, q)
  unfolding complete
  complete_gone now result = rw (gone, complete)

  pub fail_gone : (now : ℕ) (error : String) (retry : Bool) → fail now id error retry q ≡ (false, q)
  unfolding fail
  fail_gone now error retry = rw (gone, fail)

  pub cancel_gone : cancel id q ≡ (false, q)
  unfolding cancel
  cancel_gone = rw (gone, cancel)

dequeue-IsConsistent :
    (affinity : String) (q : TaskQueue) → IsConsistent q → IsConsistent (dequeue affinity q).1
unfolding dequeue
dequeue-IsConsistent affinity q ok = record {
  queued = ok.queued;
  active = ok.active;
  completed = ok.completed;
  retries = ok.retries;
}

run-IsConsistent : (c : Call) (q : TaskQueue) → Fits c q → IsConsistent q → IsConsistent (run c q)
unfolding run
run-IsConsistent (submit fresh now t) q fits ok =
    enqueue-IsConsistent fresh now t q ok fits.0 fits.1
run-IsConsistent (take affinity) q fits ok = dequeue-IsConsistent affinity q ok
run-IsConsistent (ack now id node) q fits ok = elim (Option-cases (Dict.get q.tasks id)) [
  | inl gone ↦ rw (acknowledge_gone id q gone now node, run) ok
  | inr (t, there) ↦ acknowledge-IsConsistent now id t q ok there node (fits t there)
]
run-IsConsistent (finish now id result) q fits ok = elim (Option-cases (Dict.get q.tasks id)) [
  | inl gone ↦ rw (complete_gone id q gone now result, run) ok
  | inr (t, there) ↦ complete-IsConsistent now id t q ok there result (fits t there)
]
run-IsConsistent (break now id error retry) q fits ok = elim (Option-cases (Dict.get q.tasks id)) [
  | inl gone ↦ rw (fail_gone id q gone now error retry, run) ok
  | inr (t, there) ↦
      fail-IsConsistent now id t q ok there error retry (fits t there).0 (fits t there).1
]
run-IsConsistent (stop id) q fits ok = elim (Option-cases (Dict.get q.tasks id)) [
  | inl gone ↦ rw (cancel_gone id q gone, run) ok
  | inr (t, there) ↦ cancel-IsConsistent 0 id t q ok there
]

-- Through calls that fit their tasks' lives (a task is enqueued under a new id and within its retries,
-- one that is settled is neither acknowledged nor failed, one that is queued neither completed nor
-- failed), the three sets of ids say of every id what the status of its task says, and no task has
-- been retried more often than it may.
pub Life-IsConsistent : {q r : TaskQueue} → IsConsistent q → Life q r → IsConsistent r
Life-IsConsistent ok start = ok
Life-IsConsistent ok (then {r = r} life c fits e) =
    rw e (run-IsConsistent c r fits (Life-IsConsistent ok life))
