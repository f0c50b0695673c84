-- ===== src/Tasks/Queue/Dequeue.antt =====
-- The task that `dequeue` of engine/agent_runtime/task_queue.py hands out, and the entries it
-- passes over.
use prodinamik_engine.Prelude.{
  ◌≡◌, refl, sym, ◌∙◌, ap, String, not, ◌&&◌, Option, none, some, List, [], ◌∷◌, arith, ◌⊎◌, inl,
  inr, Option-cases, if◌then◌else◌,
}
use prodinamik_engine.Dict
use prodinamik_engine.Dict.{Dict}
use prodinamik_engine.Tasks.Data.{Task, is_queued, PrioritizedTask}
use prodinamik_engine.Tasks.Heap.{Before, IsHeap, In, In-Before}
use prodinamik_engine.Tasks.Queue.{TaskQueue, not_for, dequeue_loop, dequeue}

-- The task of an entry, where it may be handed out under the affinity asked for.
abbrev pub offered : String → Option Task → Option Task
offered affinity none = none
offered affinity (some t) =
    if is_queued t.status && not (not_for affinity t.affinity) then some t else none

abbrev pub offer : Dict Task → String → PrioritizedTask → Option Task
offer tasks affinity e = offered affinity (Dict.get tasks e.task_id)

abbrev Loop : Type 0
Loop = Option Task × List PrioritizedTask × List PrioritizedTask

-- The two ways a round goes: the entry is taken, or it is passed over or dropped.
dequeue_loop_takes :
    (tasks : Dict Task) (affinity : String) (e : PrioritizedTask) (heap : List PrioritizedTask)
    (t : Task)
    → offer tasks affinity e ≡ some t
    → dequeue_loop tasks affinity (e ∷ heap) ≡ (some t, [], heap)
unfolding dequeue_loop
dequeue_loop_takes tasks affinity e heap t h = ground arith

dequeue_loop_passes :
    (tasks : Dict Task) (affinity : String) (e : PrioritizedTask) (heap : List PrioritizedTask)
    → offer tasks affinity e ≡ none
    → (dequeue_loop tasks affinity (e ∷ heap)).0 ≡ (dequeue_loop tasks affinity heap).0
unfolding dequeue_loop
dequeue_loop_passes tasks affinity e heap h = ground arith

-- A task that is handed out belongs to an entry that comes before every other eligible entry.
pub record IsFirst (tasks : Dict Task) (affinity : String) (heap : List PrioritizedTask) (t : Task)
    : Type 0 where
  pub entry : PrioritizedTask
  pub within : In entry heap
  pub its_task : offer tasks affinity entry ≡ some t
  pub first :
      (x : PrioritizedTask) (u : Task)
      → In x heap
      → offer tasks affinity x ≡ some u
      → (x ≡ entry) ⊎ Before entry x

dequeue_loop-IsFirst :
    (tasks : Dict Task) (affinity : String) (heap : List PrioritizedTask) (t : Task)
    → IsHeap heap
    → (dequeue_loop tasks affinity heap).0 ≡ some t
    → IsFirst tasks affinity heap t
dequeue_loop-IsFirst tasks affinity [] t h found = unfold dequeue_loop in cc
dequeue_loop-IsFirst tasks affinity (e ∷ heap) t h found =
    elim (Option-cases (offer tasks affinity e)) [
      | inr (u, taken) ↦ record {
        entry = e;
        within = inl refl;
        its_task =
            taken
            ∙ sym (ap (λ (l : Loop). l.0) (dequeue_loop_takes tasks affinity e heap u taken))
            ∙ found;
        first =
            λ x v i o. elim i [ inl same ↦ inl same | inr later ↦ inr (In-Before heap h.0 later) ];
      }
      | inl passed ↦
          let rest =
            dequeue_loop-IsFirst tasks affinity heap t h.1
              (sym (dequeue_loop_passes tasks affinity e heap passed) ∙ found) in
          record {
            entry = rest.entry;
            within = inr rest.within;
            its_task = rest.its_task;
            first = λ x v i o. elim i [
              | inl same ↦
                  absurd (none-ne-some v (sym passed ∙ ap (offer tasks affinity) (sym same) ∙ o))
              | inr later ↦ rest.first x v later o
            ];
          }
    ]
  where
    none-ne-some : (v : Task) → ◌≡◌ {A = Option Task} none (some v) → ⊥
    none-ne-some v e = cc

-- `dequeue` on a heap in order: the task that it hands out is queued, fits the affinity, and belongs
-- to an entry of the heap that no other eligible entry precedes by priority and time.
pub dequeue-IsFirst :
    (affinity : String) (q : TaskQueue) (t : Task)
    → IsHeap q.heap
    → (dequeue affinity q).0 ≡ some t
    → IsFirst q.tasks affinity q.heap t
unfolding dequeue
dequeue-IsFirst affinity q t h found = dequeue_loop-IsFirst q.tasks affinity q.heap t h found

dequeue_loop-none :
    (tasks : Dict Task) (affinity : String) (heap : List PrioritizedTask) (x : PrioritizedTask)
    → (dequeue_loop tasks affinity heap).0 ≡ none
    → In x heap
    → offer tasks affinity x ≡ none
dequeue_loop-none tasks affinity [] x h i = elim i [ ]
dequeue_loop-none tasks affinity (e ∷ heap) x h i = elim (Option-cases (offer tasks affinity e)) [
  | inr (u, taken) ↦ absurd (
      some-ne-none u
        (sym (ap (λ (l : Loop). l.0) (dequeue_loop_takes tasks affinity e heap u taken)) ∙ h))
  | inl passed ↦ elim i [
    | inl same ↦ rw same passed
    | inr later ↦
        dequeue_loop-none tasks affinity heap x
          (sym (dequeue_loop_passes tasks affinity e heap passed) ∙ h) later
  ]
]
  where
    some-ne-none : (u : Task) → ◌≡◌ {A = Option Task} (some u) none → ⊥
    some-ne-none u e = cc

-- It hands out nothing only where no entry of the heap has an eligible task.
pub dequeue-none :
    (affinity : String) (q : TaskQueue) (x : PrioritizedTask)
    → (dequeue affinity q).0 ≡ none
    → In x q.heap
    → offer q.tasks affinity x ≡ none
unfolding dequeue
dequeue-none affinity q x h i = dequeue_loop-none q.tasks affinity q.heap x h i
