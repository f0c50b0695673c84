-- ===== src/StateMachine/Transition.antt =====
-- `can_transition` of engine/state_machine.py. The evaluators of conditions and of LTL rules are
-- arguments, and the theorems hold for every evaluator; a call with no `ltl_runtime` passes `none`.
-- Only calls with a runtime are modelled: the others, which read and fill a memo, are left out.
pub mod Laws
use prodinamik_engine.Prelude.{
  ℕ, ◌+◌, ◌≤◌, ◌<◌, ◌≡◌, refl, sym, ap, ◌∙◌, Bool-cases, Option-cases, inl, inr, String, Bool, true,
  false, Option, none, some, List, [], ◌∷◌, arith, str_eq, eq_iff, eq_refl, if◌then◌else◌, ltb, leb,
  max, ◌&&◌, select, is_some,
}
use prodinamik_engine.Dict
use prodinamik_engine.Dict.{Dict, get}
use prodinamik_engine.StateMachine.Types.{
  StateDefinition, TransitionDefinition, StateMachineConfig, RuntimeState, is_terminal,
}
use prodinamik_engine.StateMachine.Graph.{
  TransitionMap, build_transition_map, outgoing, leaves, outgoing-build,
}

-- What an evaluator answers, an exception included.
pub data Evaluated : Type 0 where
  holds fails raises : Evaluated

pub data Answer : Type 0 where
  allowed source_not_found target_not_found from_terminal no_transition needs_human : Answer
  max_reentries_exceeded ltl_not_met ltl_failed condition_not_met condition_failed : Answer

-- The transitions to a state, in the order of the table.
unfoldable pub matching : String → List TransitionDefinition → List TransitionDefinition
matching to_state [] = []
matching to_state (t ∷ ts) =
    let rest = matching to_state ts in if str_eq t.to_state to_state then t ∷ rest else rest

-- The runtime with one more re-entry.
abbrev pub reentered : RuntimeState → RuntimeState
reentered r = record {
  current_state = r.current_state;
  reentry_count = r.reentry_count + 1;
  iteration_count = r.iteration_count;
  drift_count = r.drift_count;
  human_approved = r.human_approved;
  consecutive_failures = r.consecutive_failures;
  total_iterations = r.total_iterations;
  changes_requested = r.changes_requested;
  manual_unblock = r.manual_unblock;
  project_abandoned = r.project_abandoned;
}

abbrev pub is_exhausted : Option ℕ → ℕ → Bool
is_exhausted none count = false
is_exhausted (some m) count = leb m count

abbrev pub is_nonempty : Option String → Bool
is_nonempty none = false
is_nonempty (some s) = if str_eq s "" then false else true

module _ (evaluate_condition : Option String → RuntimeState → Evaluated)
    (evaluate_ltl_rules : Option (String → RuntimeState → Evaluated)) where
  abbrev pub ltl_of : String → RuntimeState → Evaluated
  ltl_of from_state r = elim evaluate_ltl_rules [ none ↦ holds | some rules ↦ rules from_state r ]

  -- The checks of a call with a runtime, after the transition is found.
  abbrev pub ask_condition : Evaluated → String → String → RuntimeState → Answer × RuntimeState
  ask_condition fails from_state to_state r = (condition_not_met, r)
  ask_condition raises from_state to_state r = (condition_failed, r)
  ask_condition holds from_state to_state r =
      if str_eq from_state to_state then (allowed, reentered r) else (allowed, r)

  abbrev pub ask_ltl :
      Evaluated → Option String → String → String → RuntimeState → Answer × RuntimeState
  ask_ltl fails condition from_state to_state r = (ltl_not_met, r)
  ask_ltl raises condition from_state to_state r = (ltl_failed, r)
  ask_ltl holds condition from_state to_state r =
      if is_nonempty condition
      then ask_condition (evaluate_condition condition r) from_state to_state r
      else ask_condition holds from_state to_state r

  abbrev pub with_runtime :
      TransitionDefinition
      → StateDefinition
      → String
      → String
      → RuntimeState
      → Answer × RuntimeState
  with_runtime t target from_state to_state r =
      if str_eq from_state to_state && is_exhausted target.max_reentries r.reentry_count
      then (max_reentries_exceeded, r)
      else ask_ltl (ltl_of from_state r) t.condition from_state to_state r

  abbrev pub take_first :
      List TransitionDefinition
      → StateDefinition
      → String
      → String
      → RuntimeState
      → Answer × RuntimeState
  take_first [] target from_state to_state r = (no_transition, r)
  take_first (t ∷ ts) target from_state to_state r =
      if t.requires_human then (needs_human, r) else with_runtime t target from_state to_state r

  abbrev pub between :
      StateMachineConfig
      → Option StateDefinition
      → Option StateDefinition
      → String
      → String
      → RuntimeState
      → Answer × RuntimeState
  between c none target from_state to_state r = (source_not_found, r)
  between c (some source) none from_state to_state r = (target_not_found, r)
  between c (some source) (some target) from_state to_state r =
      if is_terminal source.state_type
      then (from_terminal, r)
      else take_first (matching to_state (outgoing (build_transition_map c) from_state)) target
          from_state to_state r

  -- `can_transition` with a runtime: the answer, and the runtime it leaves.
  unfoldable pub can_transition :
      StateMachineConfig → String → String → RuntimeState → Answer × RuntimeState
  can_transition c from_state to_state r =
      between c (get c.states from_state) (get c.states to_state) from_state to_state r
