-- ===== src/Tasks/Wal/Mirrors.antt =====
-- The queue and what a restart would recover from its log, call by call.
use mathlib.Core.List.{foldl-append}
use prodinamik_engine.Prelude.{
  ℕ, ◌≡◌, refl, sym, ◌∙◌, ap, String, true, Option, none, some, List, [], ◌∷◌, ◌++◌, arith,
  contains, add, discard, contains-add, get_or, Option-cases, inl, inr,
}
use prodinamik_engine.Dict
use prodinamik_engine.Dict.{Dict, get-put, get-put_self}
use prodinamik_engine.Tasks.Data.{TaskStatus, Task, WalEntry}
use prodinamik_engine.Tasks.Queue.{
  TaskQueue, empty, write_wal, acknowledge, complete, requeue, give_up, cancel,
}
use prodinamik_engine.Tasks.Wal.{finished, replay_entry, replay_wal}

-- What of a task a restart keeps, a retry included.
pub record Kept : Type 0 where
  pub goal : String
  pub priority : ℕ
  pub affinity : String
  pub status : TaskStatus

abbrev pub kept_task : Task → Kept
kept_task t = record {
  goal = t.goal;
  priority = t.priority;
  affinity = t.affinity;
  status = t.status;
}

abbrev pub kept_of : Option Task → Option Kept
kept_of none = none
kept_of (some t) = some (kept_task t)

-- Another queue has a task where this one has, with the same goal, priority, affinity and status, and
-- the same finished ids.
pub record Mirrors (q r : TaskQueue) : Type 0 where
  pub kept : (id : String) → kept_of (Dict.get r.tasks id) ≡ kept_of (Dict.get q.tasks id)
  pub completed : (id : String) → contains r.completed_ids id ≡ contains q.completed_ids id

-- The log is open, and what a restart makes of it mirrors the queue.
pub record IsRecoverable (now : ℕ) (q : TaskQueue) : Type 0 where
  pub open_log : q.wal_open ≡ true
  pub mirrors : Mirrors q (replay_wal now q.wal)

pub replay_wal-append :
    (now : ℕ) (wal : List WalEntry) (e : WalEntry)
    → replay_wal now (wal ++ e ∷ []) ≡ replay_entry now (replay_wal now wal) e
unfolding replay_wal
replay_wal-append now wal e = foldl-append (replay_entry now) empty wal (e ∷ [])

-- One more record: it is enough that the record does to the mirror what the call did to the queue.
pub write_wal-IsRecoverable :
    (now : ℕ) (e : WalEntry) (q : TaskQueue)
    → q.wal_open ≡ true
    → Mirrors q (replay_entry now (replay_wal now q.wal) e)
    → IsRecoverable now (write_wal e q)
unfolding write_wal
write_wal-IsRecoverable now e q open_log m =
    let logged : (write_wal e q).wal ≡ q.wal ++ e ∷ [] = rw (open_log, write_wal) in
    record {
      open_log = open_log;
      mirrors =
          rw logged (rw replay_wal-append (record { kept = m.kept; completed = m.completed }));
    }

there_too :
    {q r : TaskQueue} (id : String) (t : Task)
    → Mirrors q r
    → Dict.get q.tasks id ≡ some t
    → (u : Task) × (Dict.get r.tasks id ≡ some u) × (kept_task u ≡ kept_task t)
there_too {q} {r} id t m there = elim (Option-cases (Dict.get r.tasks id)) [
  | inr (u, found) ↦ (
    u,
    found,
    ap (λ o. get_or o (kept_task t)) (sym (ap kept_of found) ∙ m.kept id ∙ ap kept_of there),
  )
  | inl gone ↦ absurd (none-ne-some (sym (ap kept_of gone) ∙ m.kept id ∙ ap kept_of there))
]
  where
    none-ne-some : ◌≡◌ {A = Option Kept} none (some (kept_task t)) → ⊥
    none-ne-some e = cc

-- The same task is written in both, as far as it is kept.
module _ {q r : TaskQueue} (m : Mirrors q r) (id : String) (t u : Task)
    (same : kept_task u ≡ kept_task t) where
  pub kept_put :
      (j : String)
      → kept_of (Dict.get (Dict.put r.tasks id u) j) ≡ kept_of (Dict.get (Dict.put q.tasks id t) j)
  kept_put j = ground (arith, get-put r.tasks id u j, get-put q.tasks id t j, m.kept j, same)

  completed_add :
      (j : String) → contains (add id r.completed_ids) j ≡ contains (add id q.completed_ids) j
  completed_add j =
      ground
        (arith, contains-add id r.completed_ids j, contains-add id q.completed_ids j, m.completed j)

-- Both get one status.
with_status :
    (x : TaskStatus) {k l : Kept} → k ≡ l → record k { status = x } ≡ record l { status = x }
with_status x e = ap (λ (k : Kept). record k { status = x }) e

-- A record of the end of a task that is there.
ended : String → Task → TaskQueue → TaskQueue
ended id t q = record q {
  tasks = Dict.put q.tasks id t;
  queued_ids = discard id q.queued_ids;
  active_ids = discard id q.active_ids;
  completed_ids = add id q.completed_ids;
}

finished_there :
    (id : String) (f : Task → Task) (t : Task) (q : TaskQueue)
    → Dict.get q.tasks id ≡ some t
    → finished id f q ≡ ended id (f t) q
unfolding finished ended
finished_there id f t q h = rw (h, finished)

module _ (now at : ℕ) (id : String) (t : Task) (q : TaskQueue) (rec : IsRecoverable now q)
    (there : Dict.get q.tasks id ≡ some t) where
  pub acknowledge-IsRecoverable : (node : String) → IsRecoverable now (acknowledge at id node q).1
  unfolding acknowledge replay_entry
  acknowledge-IsRecoverable node =
      let (u, mirrored, alike) = there_too id t rec.mirrors there in
      rw (there, acknowledge)
        (write_wal-IsRecoverable now (WalEntry.acknowledge id node) _ rec.open_log (
          rw (mirrored, replay_entry)
            (record {
              kept = kept_put rec.mirrors id _ _ (with_status TaskStatus.assigned alike);
              completed = rec.mirrors.completed;
            })))

  pub complete-IsRecoverable : (result : String) → IsRecoverable now (complete at id result q).1
  unfolding complete replay_entry ended
  complete-IsRecoverable result =
      let (u, mirrored, alike) = there_too id t rec.mirrors there in
      rw (there, complete)
        (write_wal-IsRecoverable now (WalEntry.complete id result at) _ rec.open_log (
          rw (finished_there id _ u (replay_wal now q.wal) mirrored) (record {
            kept = kept_put rec.mirrors id _ _ (with_status TaskStatus.completed alike);
            completed = completed_add rec.mirrors id t t refl;
          })))

  pub give_up-IsRecoverable : (error : String) → IsRecoverable now (give_up at id error t q)
  unfolding give_up replay_entry ended
  give_up-IsRecoverable error =
      let (u, mirrored, alike) = there_too id t rec.mirrors there in
      write_wal-IsRecoverable now (WalEntry.fail id error at) _ rec.open_log (
        rw (finished_there id _ u (replay_wal now q.wal) mirrored) (record {
          kept = kept_put rec.mirrors id _ _ (with_status TaskStatus.failed alike);
          completed = completed_add rec.mirrors id t t refl;
        }))

  pub cancel-IsRecoverable : IsRecoverable now (cancel id q).1
  unfolding cancel replay_entry ended
  cancel-IsRecoverable =
      let (u, mirrored, alike) = there_too id t rec.mirrors there in
      rw (there, cancel)
        (write_wal-IsRecoverable now (WalEntry.cancel id) _ rec.open_log (
          rw (finished_there id _ u (replay_wal now q.wal) mirrored) (record {
            kept = kept_put rec.mirrors id _ _ (with_status TaskStatus.cancelled alike);
            completed = completed_add rec.mirrors id t t refl;
          })))

  pub requeue-IsRecoverable : IsRecoverable now (requeue at id t q)
  unfolding requeue replay_entry
  requeue-IsRecoverable =
      write_wal-IsRecoverable now _ _ rec.open_log
        (record { kept = kept_put rec.mirrors id _ _ refl; completed = rec.mirrors.completed })
