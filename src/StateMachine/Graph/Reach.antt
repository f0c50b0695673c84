-- ===== src/StateMachine/Graph/Reach.antt =====
-- The search of `_find_reachable_states` (engine/state_machine.py) against chains of transitions.
use prodinamik_engine.Prelude.{
  ℕ, zero, suc, ◌+◌, ◌≤◌, ◌<◌, ◌≡◌, refl, ap, String, true, false, not, ◌&&◌, ◌||◌, ◌⊎◌, ◌↔◌, inl,
  inr, some, List, [], ◌∷◌, ◌++◌, arith, str_eq, eq_iff, if◌then◌else◌, length, contains,
  contains-append, length-append, select, Bool-cases,
}
use prodinamik_engine.StateMachine.Types.{TransitionDefinition, StateMachineConfig}
use prodinamik_engine.StateMachine.Graph.{
  TransitionMap, outgoing, targets, new_targets, search_loop, initial_names, find_reachable_states,
  build_transition_map, leaves, outgoing-build,
}

-- A chain of transitions leads from one of the roots to the state.
pub data Reachable (m : TransitionMap) (roots : List String) : String → Type 0 where
  root : {s : String} → contains roots s ≡ true → Reachable m roots s
  step :
      {s t : String}
      → Reachable m roots s
      → contains (targets (outgoing m s)) t ≡ true
      → Reachable m roots t

contains-new_targets :
    (r : List String) (ts : List TransitionDefinition) (y : String)
    → contains (new_targets r ts) y ≡ (contains (targets ts) y && not (contains r y))
unfolding new_targets
contains-new_targets r [] y = refl
contains-new_targets r (t ∷ ts) y = ground (arith, contains-new_targets r ts y, eq_iff t.to_state y)

length-new_targets :
    (r : List String) (ts : List TransitionDefinition) → length (new_targets r ts) ≤ length ts
unfolding new_targets
length-new_targets r [] = omega arith
length-new_targets r (t ∷ ts) = ground (arith, length-new_targets r ts)

module _ (m : TransitionMap) (roots : List String) where
  -- Between two rounds: what is listed or reached is reachable, and what is not listed any more has
  -- its targets listed or reached.
  record Explores (queue reachable : List String) : Type 0 where
    sound :
        (x : String)
        → (contains queue x ≡ true) ⊎ (contains reachable x ≡ true)
        → Reachable m roots x
    started :
        (x : String)
        → contains roots x ≡ true
        → (contains queue x ≡ true) ⊎ (contains reachable x ≡ true)
    closed :
        (x y : String)
        → contains reachable x ≡ true
        → contains (targets (outgoing m x)) y ≡ true
        → (contains queue y ≡ true) ⊎ (contains reachable y ≡ true)

  drop_old :
      (current : String) (queue reachable : List String)
      → contains reachable current ≡ true
      → Explores (current ∷ queue) reachable
      → Explores queue reachable
  drop_old current queue reachable old e = record {
    sound = λ x h. e.sound x (ground arith);
    started = λ x h. ground (arith, e.started x h, eq_iff current x);
    closed = λ x y h k. ground (arith, e.closed x y h k, eq_iff current y);
  }

  module _ (current : String) (queue reachable : List String) where
    abbrev reachable' : List String
    reachable' = reachable ++ current ∷ []

    abbrev queue' : List String
    queue' = queue ++ new_targets reachable' (outgoing m current)

    in_reachable :
        (x : String) → contains reachable' x ≡ (contains reachable x || (str_eq current x || false))
    in_reachable x = contains-append reachable (current ∷ []) x

    in_queue :
        (x : String)
        → contains queue' x ≡ (
            contains queue x
            || (contains (targets (outgoing m current)) x && not (contains reachable' x)))
    in_queue x = ground (
      arith,
      contains-append queue (new_targets reachable' (outgoing m current)) x,
      contains-new_targets reachable' (outgoing m current) x,
    )

    -- A state listed or reached after the round was so before, or is a target of the current one.
    from_where :
        (x : String)
        → (contains queue' x ≡ true) ⊎ (contains reachable' x ≡ true)
        → ((contains (current ∷ queue) x ≡ true) ⊎ (contains reachable x ≡ true))
          ⊎ (contains (targets (outgoing m current)) x ≡ true)
    from_where x h = ground (arith, in_reachable x, in_queue x)

    take_new : Explores (current ∷ queue) reachable → Explores queue' reachable'
    take_new e = record {
      sound = λ x h. elim (from_where x h) [
        | inl before ↦ e.sound x before
        | inr target ↦
            Reachable.step (e.sound current (ground (arith, eq_iff current current))) target
      ];
      started = λ x h. ground (arith, e.started x h, in_queue x, in_reachable x);
      closed = λ x y h k. elim (Bool-cases (contains reachable x)) [
        | inl old ↦ ground (arith, e.closed x y old k, in_queue y, in_reachable y)
        | inr new ↦
            let same : current ≡ x = ground (arith, in_reachable x, eq_iff current x) in
            let target = rw (← same) at k in ground (arith, target, in_queue y, in_reachable y)
      ];
    }

module _ (fuel : ℕ) (m : TransitionMap) (current : String) (queue reachable : List String) where
  search_loop_old :
      contains reachable current ≡ true
      → search_loop (suc fuel) m (current ∷ queue) reachable ≡ search_loop fuel m queue reachable
  unfolding search_loop
  search_loop_old h = rw h

  search_loop_new :
      contains reachable current ≡ false
      → search_loop (suc fuel) m (current ∷ queue) reachable
        ≡ search_loop fuel m
            (queue ++ new_targets (reachable ++ current ∷ []) (outgoing m current))
            (reachable ++ current ∷ [])
  unfolding search_loop
  search_loop_new h = rw h

-- The transitions whose source is not reached yet.
open_edges : List String → List TransitionDefinition → ℕ
open_edges reachable [] = 0
open_edges reachable (t ∷ ts) =
    let rest = open_edges reachable ts in if contains reachable t.from_state then rest else suc rest

-- Reaching a new state closes the transitions that leave it.
open_edges_new :
    (current : String) (reachable : List String) (ts : List TransitionDefinition)
    → contains reachable current ≡ false
    → open_edges (reachable ++ current ∷ []) ts + length (select (leaves current) ts)
      ≡ open_edges reachable ts
unfolding open_edges select
open_edges_new current reachable [] new = omega arith
open_edges_new current reachable (t ∷ ts) new = ground (
  arith,
  open_edges_new current reachable ts new,
  contains-append reachable (current ∷ []) t.from_state,
  eq_iff current t.from_state,
  eq_iff t.from_state current,
)

open_edges-le : (ts : List TransitionDefinition) → open_edges [] ts ≤ length ts
unfolding open_edges
open_edges-le [] = omega arith
open_edges-le (t ∷ ts) = omega (arith, open_edges-le ts)

-- With fuel for the list and the open transitions the loop returns, and what it returns has been
-- explored to the end.
search_loop_lem :
    (fuel : ℕ) (m : TransitionMap) (roots : List String) (ts : List TransitionDefinition)
    (queue reachable : List String)
    → ((s : String) → outgoing m s ≡ select (leaves s) ts)
    → Explores m roots queue reachable
    → length queue + open_edges reachable ts < fuel
    → (r : List String) × (search_loop fuel m queue reachable ≡ some r) × Explores m roots [] r
search_loop_lem zero m roots ts queue reachable out e lt = elim lt [ ]
search_loop_lem (suc fuel) m roots ts [] reachable out e lt =
    (reachable, unfold search_loop in refl, e)
search_loop_lem (suc fuel) m roots ts (current ∷ queue) reachable out e lt =
    elim (Bool-cases (contains reachable current)) [
      | inl old ↦ rw (search_loop_old fuel m current queue reachable old) (
          search_loop_lem fuel m roots ts queue reachable out
            (drop_old m roots current queue reachable old e) (omega arith))
      | inr new ↦ rw (search_loop_new fuel m current queue reachable new) (
          search_loop_lem fuel m roots ts (queue' m roots current queue reachable)
            (reachable' m roots current queue reachable) out
            (take_new m roots current queue reachable e)
            (omega (
              arith,
              open_edges_new current reachable ts new,
              ap length (out current),
              length-new_targets (reachable ++ current ∷ []) (outgoing m current),
              length-append queue (new_targets (reachable ++ current ∷ []) (outgoing m current)),
            )))
    ]

explored_all :
    (m : TransitionMap) (roots r : List String)
    → Explores m roots [] r
    → {x : String} → Reachable m roots x
    → contains r x ≡ true
explored_all m roots r e (root {s = s} h) = ground (arith, e.started s h)
explored_all m roots r e (step {s = s} {t = t} p k) =
    ground (arith, e.closed s t (explored_all m roots r e p) k)

-- `_find_reachable_states` returns, and the states that it returns are exactly those that a chain of
-- transitions reaches from an initial state.
pub find_reachable_states_lem :
    (c : StateMachineConfig)
    → (r : List String) × (find_reachable_states c ≡ some r)
      × ((x : String)
          → (contains r x ≡ true) ↔ Reachable (build_transition_map c) (initial_names c) x)
unfolding find_reachable_states
find_reachable_states_lem c =
    let m = build_transition_map c in
    let (r, found, e) =
      search_loop_lem (length (initial_names c) + length c.transitions + 1) m (initial_names c)
        c.transitions (initial_names c) [] (outgoing-build c)
        (record {
          sound = λ x h. elim h [ inl start ↦ Reachable.root start | inr e ↦ cc ];
          started = λ x h. inl h;
          closed = λ x y h k. cc;
        })
        (omega (arith, open_edges-le c.transitions)) in
    (r, found, λ x. (λ h. e.sound x (inr h), λ p. explored_all m (initial_names c) r e p))
