-- ===== src/Tasks/Queue/Lifecycle.antt =====
-- The sets of ids of the queue (engine/agent_runtime/task_queue.py) and the states of the tasks.
use prodinamik_engine.Prelude.{
  ℕ, ◌≤◌, ◌<◌, ◌≡◌, refl, ◌∙◌, ap, String, Bool, true, false, ◌&&◌, Option, none, some, arith, inl,
  inr, ltb, str_eq, eq_iff, contains, contains-add, contains-discard, Bool-cases, if◌then◌else◌,
}
use prodinamik_engine.Dict
use prodinamik_engine.Dict.{Dict, get-put}
use prodinamik_engine.Tasks.Data.{TaskStatus, Task, is_terminal, is_queued}
use prodinamik_engine.Tasks.Queue.{
  TaskQueue, empty, enqueue, with_id, acknowledge, complete, requeue, give_up, fail, cancel,
}

abbrev pub is_active : TaskStatus → Bool
is_active TaskStatus.assigned = true
is_active TaskStatus.running = true
is_active _ = false

abbrev pub status_is : (TaskStatus → Bool) → Option Task → Bool
status_is p none = false
status_is p (some t) = p t.status

-- What the three sets say of an id is what the status of its task says, and no task has used more
-- retries than it may.
pub record IsConsistent (q : TaskQueue) : Type 0 where
  pub queued : (id : String) → contains q.queued_ids id ≡ status_is is_queued (Dict.get q.tasks id)
  pub active : (id : String) → contains q.active_ids id ≡ status_is is_active (Dict.get q.tasks id)
  pub completed :
      (id : String) → contains q.completed_ids id ≡ status_is is_terminal (Dict.get q.tasks id)
  pub retries :
      (id : String) (t : Task) → Dict.get q.tasks id ≡ some t → t.retry_count ≤ t.max_retries

pub IsConsistent-empty : IsConsistent empty
unfolding Dict.get
IsConsistent-empty = record {
  queued = λ id. refl;
  active = λ id. refl;
  completed = λ id. refl;
  retries = λ id t h. cc;
}

-- One task is written, and the sets say of its id what its new status says.
record Moves (id : String) (t : Task) (q q' : TaskQueue) : Type 0 where
  tasks : (j : String) → Dict.get q'.tasks j ≡ (if str_eq id j then some t else Dict.get q.tasks j)
  queued :
      (j : String)
      → contains q'.queued_ids j
        ≡ (if str_eq id j then is_queued t.status else contains q.queued_ids j)
  active :
      (j : String)
      → contains q'.active_ids j
        ≡ (if str_eq id j then is_active t.status else contains q.active_ids j)
  completed :
      (j : String)
      → contains q'.completed_ids j
        ≡ (if str_eq id j then is_terminal t.status else contains q.completed_ids j)
  bounded : t.retry_count ≤ t.max_retries

Moves-IsConsistent :
    {id : String} {t : Task} {q q' : TaskQueue} → Moves id t q q' → IsConsistent q → IsConsistent q'
Moves-IsConsistent m ok = record {
  queued = λ j. ground (arith, m.tasks j, m.queued j, ok.queued j);
  active = λ j. ground (arith, m.tasks j, m.active j, ok.active j);
  completed = λ j. ground (arith, m.tasks j, m.completed j, ok.completed j);
  retries = λ j u h. ground (arith, m.tasks j, m.bounded, ok.retries j u);
}

-- What the sets say of the id of a task that is there.
at_id :
    {q : TaskQueue} (ok : IsConsistent q) (id : String) (t : Task)
    → Dict.get q.tasks id ≡ some t
    → (contains q.queued_ids id ≡ is_queued t.status)
      × (contains q.active_ids id ≡ is_active t.status)
      × (contains q.completed_ids id ≡ is_terminal t.status)
at_id ok id t there = (
  ok.queued id ∙ ap (status_is is_queued) there,
  ok.active id ∙ ap (status_is is_active) there,
  ok.completed id ∙ ap (status_is is_terminal) there,
)

module _ (now : ℕ) (id : String) (t : Task) (q : TaskQueue) (ok : IsConsistent q)
    (there : Dict.get q.tasks id ≡ some t) where
  abbrev here :
      (contains q.queued_ids id ≡ is_queued t.status)
      × (contains q.active_ids id ≡ is_active t.status)
      × (contains q.completed_ids id ≡ is_terminal t.status)
  here = at_id ok id t there

  pub acknowledge-IsConsistent :
      (node : String) → is_terminal t.status ≡ false → IsConsistent (acknowledge now id node q).1
  unfolding acknowledge
  acknowledge-IsConsistent node live =
      rw (there, acknowledge)
        (Moves-IsConsistent {id = id}
          (record {
            tasks = λ j. get-put q.tasks id _ j;
            queued = λ j. contains-discard id q.queued_ids j;
            active = λ j. ground (arith, contains-add id q.active_ids j);
            completed = λ j. ground (arith, here, live, eq_iff id j);
            bounded = ok.retries id t there;
          })
          ok)

  pub complete-IsConsistent :
      (result : String) → is_queued t.status ≡ false → IsConsistent (complete now id result q).1
  unfolding complete
  complete-IsConsistent result taken =
      rw (there, complete)
        (Moves-IsConsistent {id = id}
          (record {
            tasks = λ j. get-put q.tasks id _ j;
            queued = λ j. ground (arith, here, taken, eq_iff id j);
            active = λ j. contains-discard id q.active_ids j;
            completed = λ j. ground (arith, contains-add id q.completed_ids j);
            bounded = ok.retries id t there;
          })
          ok)

  give_up-IsConsistent :
      (error : String) → is_queued t.status ≡ false → IsConsistent (give_up now id error t q)
  unfolding give_up
  give_up-IsConsistent error taken =
      Moves-IsConsistent {id = id}
        (record {
          tasks = λ j. get-put q.tasks id _ j;
          queued = λ j. ground (arith, here, taken, eq_iff id j);
          active = λ j. contains-discard id q.active_ids j;
          completed = λ j. ground (arith, contains-add id q.completed_ids j);
          bounded = ok.retries id t there;
        })
        ok

  requeue-IsConsistent :
      is_terminal t.status ≡ false
      → t.retry_count < t.max_retries
      → IsConsistent (requeue now id t q)
  unfolding requeue
  requeue-IsConsistent live room =
      Moves-IsConsistent {id = id}
        (record {
          tasks = λ j. get-put q.tasks id _ j;
          queued = λ j. ground (arith, contains-add id q.queued_ids j);
          active = λ j. contains-discard id q.active_ids j;
          completed = λ j. ground (arith, here, live, eq_iff id j);
          bounded = omega arith;
        })
        ok

  pub fail-IsConsistent :
      (error : String) (retry : Bool)
      → is_terminal t.status ≡ false
      → is_queued t.status ≡ false
      → IsConsistent (fail now id error retry q).1
  unfolding fail
  fail-IsConsistent error retry live taken =
      elim (Bool-cases (retry && ltb t.retry_count t.max_retries)) [
        | inl again ↦ rw (there, fail) (rw (again, fail) (requeue-IsConsistent live (ground arith)))
        | inr over ↦ rw (there, fail) (rw (over, fail) (give_up-IsConsistent error taken))
      ]

  pub cancel-IsConsistent : IsConsistent (cancel id q).1
  unfolding cancel
  cancel-IsConsistent =
      rw (there, cancel)
        (Moves-IsConsistent {id = id}
          (record {
            tasks = λ j. get-put q.tasks id _ j;
            queued = λ j. contains-discard id q.queued_ids j;
            active = λ j. contains-discard id q.active_ids j;
            completed = λ j. ground (arith, contains-add id q.completed_ids j);
            bounded = ok.retries id t there;
          })
          ok)

pub enqueue-IsConsistent :
    (fresh : String) (now : ℕ) (t : Task) (q : TaskQueue)
    → IsConsistent q
    → Dict.get q.tasks (with_id fresh t).task_id ≡ none
    → t.retry_count ≤ t.max_retries
    → IsConsistent (enqueue fresh now t q).1
unfolding enqueue
enqueue-IsConsistent fresh now t q ok new fits =
    let id = (with_id fresh t).task_id in
    Moves-IsConsistent {id = id}
      (record {
        tasks = λ j. get-put q.tasks id _ j;
        queued = λ j. ground (arith, contains-add id q.queued_ids j);
        active = λ j. ground (arith, new, ok.active id, eq_iff id j);
        completed = λ j. ground (arith, new, ok.completed id, eq_iff id j);
        bounded = ground (arith, fits);
      })
      ok
