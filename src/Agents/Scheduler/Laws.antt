-- ===== src/Agents/Scheduler/Laws.antt =====
-- What the scheduler assigns (engine/agent_runtime/scheduler.py), and what it does to the queue.
use mathlib.Core.Path.{subst}
use prodinamik_engine.Prelude.{
  ℕ, zero, suc, ◌+◌, ◌≤◌, ◌≡◌, refl, sym, ap, ◌∙◌, min, inl, inr, ◌⊎◌, String, true, Option, none,
  some, Bool-cases, Option-cases, arith, str_eq, length,
}
use prodinamik_engine.Dict
use prodinamik_engine.Dict.{Dict, get-put, get-put_self}
use prodinamik_engine.Tasks.Data.{Task, is_queued}
use prodinamik_engine.Tasks.Queue.{TaskQueue, dequeue, acknowledge}
use prodinamik_engine.Tasks.Queue.Calls.{Call, run}
use prodinamik_engine.Agents.Registry.{AgentRegistry}
use prodinamik_engine.Agents.Registry.Index.{IsIndex}
use prodinamik_engine.Agents.Scheduler.{
  Scheduler, assign, choose, assign_to, schedule, assign_loop, try_assign,
}
use prodinamik_engine.Agents.Scheduler.Choice.{IsFitNode, AllFull, choose-IsFitNode, choose-none}

-- What `schedule` does with a queued task: it assigns it to a node that is registered, alive and
-- healthy, notes the assignment, and acknowledges the task for the node in the queue; or it counts a
-- failure and leaves the queue and the assignments alone, and then every node that is alive and
-- healthy is full, or one of them has an empty id.
abbrev pub Scheduled : ℕ → Task → Scheduler → Option String × Scheduler → Type 0
Scheduled now t s (some id, s') =
    IsFitNode now s.registry id
    × (s'.queue ≡ (acknowledge now t.task_id id s.queue).1)
    × (Dict.get s'.assignments t.task_id ≡ some id)
    × (s'.registry ≡ s.registry)
    × (s'.total_scheduled ≡ s.total_scheduled + 1)
Scheduled now t s (none, s') =
    (s'.queue ≡ s.queue)
    × (s'.assignments ≡ s.assignments)
    × (s'.registry ≡ s.registry)
    × (s'.total_failed_assign ≡ s.total_failed_assign + 1)
    × (IsFitNode now s.registry "" ⊎ AllFull now s.registry)

-- `schedule` of a queued task, on a registry whose index is right, does what `Scheduled` says: the
-- task goes to a node that is registered, alive and healthy, and is acknowledged for it; or a failed
-- assignment is counted, queue, assignments and registry stay as they are, and every node that is
-- alive and healthy is full, or a node with an empty id is registered, alive and healthy.
pub schedule_lem :
    (now : ℕ) (t : Task) (s : Scheduler)
    → IsIndex s.registry
    → is_queued t.status ≡ true
    → Scheduled now t s (schedule now t s)
unfolding schedule assign
schedule_lem now t s h waits = rw waits (assigned (choose now s.registry t) refl)
  where
    assigned :
        (o : Option String) → choose now s.registry t ≡ o → Scheduled now t s (assign_to now t o s)
    assigned none e = (refl, refl, refl, refl, choose-none now s.registry h t e)
    assigned (some id) e = (
      choose-IsFitNode now s.registry h t id e,
      refl,
      get-put_self s.assignments t.task_id id,
      refl,
      refl,
    )

assign_to-answer :
    (now : ℕ) (t : Task) (o : Option String) (s : Scheduler) → (assign_to now t o s).0 ≡ o
assign_to-answer now t none s = refl
assign_to-answer now t (some id) s = refl

assign_to-registry :
    (now : ℕ) (t : Task) (o : Option String) (s : Scheduler)
    → (assign_to now t o s).1.registry ≡ s.registry
unfolding assign
assign_to-registry now t none s = refl
assign_to-registry now t (some id) s = refl

pub schedule-registry :
    (now : ℕ) (t : Task) (s : Scheduler) → (schedule now t s).1.registry ≡ s.registry
unfolding schedule
schedule-registry now t s = elim (Bool-cases (is_queued t.status)) [
  | inl e ↦ rw e (assign_to-registry now t (choose now s.registry t) s)
  | inr e ↦ rw e refl
]

schedule-answer :
    (now : ℕ) (t : Task) (s : Scheduler)
    → is_queued t.status ≡ true
    → (schedule now t s).0 ≡ choose now s.registry t
unfolding schedule
schedule-answer now t s e = rw e (assign_to-answer now t (choose now s.registry t) s)

choose_same :
    (now : ℕ) (r : AgentRegistry) (t u : Task)
    → t.affinity ≡ u.affinity
    → t.tools ≡ u.tools
    → choose now r u ≡ choose now r t
unfolding choose
choose_same now r t u same tools = rw (same, tools) refl

-- Two queued tasks with one affinity and the same tools go to one node, if one round schedules them
-- after each other: an assignment does not add to the load of its node.
pub schedule_twice :
    (now : ℕ) (t u : Task) (s : Scheduler)
    → is_queued t.status ≡ true
    → is_queued u.status ≡ true
    → t.affinity ≡ u.affinity
    → t.tools ≡ u.tools
    → (schedule now u (schedule now t s).1).0 ≡ (schedule now t s).0
schedule_twice now t u s h h' same tools =
    schedule-answer now u (schedule now t s).1 h'
    ∙ ap (λ r. choose now r u) (schedule-registry now t s)
    ∙ choose_same now s.registry t u same tools
    ∙ sym (schedule-answer now t s h)

-- The assignments that a round adds are to nodes that may take a task.
abbrev pub AllFitOr : ℕ → Scheduler → Scheduler → Type 0
AllFitOr now s s' =
    (k id : String)
    → Dict.get s'.assignments k ≡ some id
    → (Dict.get s.assignments k ≡ some id) ⊎ IsFitNode now s.registry id

schedule-AllFitOr :
    (now : ℕ) (t : Task) (s : Scheduler) → IsIndex s.registry → AllFitOr now s (schedule now t s).1
unfolding schedule assign
schedule-AllFitOr now t s h k id = elim (Bool-cases (is_queued t.status)) [
  | inr e ↦ rw e (λ p. inl p)
  | inl e ↦ rw e (fits (choose now s.registry t) refl)
]
  where
    fits :
        (o : Option String)
        → choose now s.registry t ≡ o
        → Dict.get (assign_to now t o s).1.assignments k ≡ some id
        → (Dict.get s.assignments k ≡ some id) ⊎ IsFitNode now s.registry id
    fits none e p = inl p
    fits (some n) e p = elim (Bool-cases (str_eq t.task_id k)) [
      | inl same ↦
          let e' : some n ≡ some id = ground (arith, get-put s.assignments t.task_id n k) in
          inr (choose-IsFitNode now s.registry h t id (e ∙ e'))
      | inr other ↦ inl (ground (arith, get-put s.assignments t.task_id n k))
    ]

-- One round: the queue that is left, the number assigned and the assignments.
record Round (P : TaskQueue → Type 0) (now rounds : ℕ) (s : Scheduler) (r : ℕ × Scheduler)
    : Type 0 where
  pub keeps : P r.1.queue
  pub registry : r.1.registry ≡ s.registry
  pub fits : AllFitOr now s r.1
  pub bound : r.0 ≤ rounds

module _ (P : TaskQueue → Type 0) (step : (c : Call) (q : TaskQueue) → P q → P (run c q)) where
  schedule-keeps : (now : ℕ) (t : Task) (s : Scheduler) → P s.queue → P (schedule now t s).1.queue
  unfolding schedule assign run
  schedule-keeps now t s p = elim (Bool-cases (is_queued t.status)) [
    | inr e ↦ rw e p
    | inl e ↦ rw e (keeps (choose now s.registry t))
  ]
    where
      keeps : (o : Option String) → P (assign_to now t o s).1.queue
      keeps none = p
      keeps (some id) = step (Call.ack now t.task_id id) s.queue p

  assign_loop-Round :
      (rounds now : ℕ) (s : Scheduler)
      → IsIndex s.registry
      → P s.queue
      → Round P now rounds s (assign_loop rounds now s)
  unfolding assign_loop
  assign_loop-Round zero now s h p = record {
    keeps = p;
    registry = refl;
    fits = λ k id e. inl e;
    bound = omega arith;
  }
  assign_loop-Round (suc rounds) now s h p =
      let taken : Scheduler = record s { queue = (dequeue "" s.queue).1 } in
      let taken_p : P taken.queue = unfold run in step (Call.take "") s.queue p in
      elim (Option-cases (dequeue "" s.queue).0) [
        | inl e ↦
            rw (e, assign_loop)
              (record {
                keeps = taken_p;
                registry = refl;
                fits = λ k id e. inl e;
                bound = omega arith;
              })
        | inr (t, e) ↦
            let m = (schedule now t taken).1 in
            let same = schedule-registry now t taken in
            let kept = schedule-keeps now t taken taken_p in
            let fits = schedule-AllFitOr now t taken h in
            elim (Option-cases (schedule now t taken).0) [
              | inl e' ↦
                  rw (e, assign_loop)
                    (rw (e', assign_loop)
                      (record {
                        keeps = unfold run in step (Call.submit "" now t) m.queue kept;
                        registry = same;
                        fits = fits;
                        bound = omega arith;
                      }))
              | inr (id, e') ↦
                  let rest = assign_loop-Round rounds now m (subst IsIndex (sym same) h) kept in
                  rw (e, assign_loop)
                    (rw (e', assign_loop)
                      (record {
                        keeps = rest.keeps;
                        registry = rest.registry ∙ same;
                        fits = λ k i q. elim (rest.fits k i q) [
                          | inl old ↦ fits k i old
                          | inr fit ↦ inr (subst (λ r. IsFitNode now r i) same fit)
                        ];
                        bound = omega (arith, rest.bound);
                      }))
            ]
      ]

  pub try_assign-keeps :
      (now : ℕ) (s : Scheduler) → IsIndex s.registry → P s.queue → P (try_assign now s).1.queue
  unfolding try_assign
  try_assign-keeps now s h p =
      (assign_loop-Round (min 50 (length s.queue.queued_ids)) now s h p).keeps

-- A round of assignments leaves the registry as it is, assigns at most fifty tasks and no more than the
-- queue counts as queued, and each assignment that it adds is to a node that is registered, alive and
-- healthy at that time.
pub try_assign_lem :
    (now : ℕ) (s : Scheduler)
    → IsIndex s.registry
    → let (count, s') = try_assign now s in
      (s'.registry ≡ s.registry)
      × (count ≤ 50)
      × (count ≤ length s.queue.queued_ids)
      × AllFitOr now s s'
unfolding try_assign
try_assign_lem now s h =
    let round =
      assign_loop-Round (λ q. Unit {0}) (λ c q p. tt) (min 50 (length s.queue.queued_ids)) now s h
        tt in
    (round.registry, omega (arith, round.bound), omega (arith, round.bound), round.fits)
