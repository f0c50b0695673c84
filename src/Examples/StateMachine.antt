-- ===== src/Examples/StateMachine.antt =====
-- The theorems on engine/state_machine.py applied to a small machine.
use prodinamik_engine.Prelude.{
  ℕ, ◌≡◌, ◌≤◌, ◌↔◌, refl, String, true, false, Option, none, some, List, [], ◌∷◌, contains,
}
use prodinamik_engine.Dict
use prodinamik_engine.Dict.{Dict, get}
use prodinamik_engine.StateMachine.Types.{
  StateType, StateDefinition, TransitionType, TransitionDefinition, StateMachineConfig,
  RuntimeState,
}
use prodinamik_engine.StateMachine.Graph.{
  build_transition_map, add_transitions, add_transition, initial_names, find_reachable_states,
  search_loop, new_targets,
}
use prodinamik_engine.StateMachine.Graph.Reach.{Reachable, find_reachable_states_lem}
use prodinamik_engine.StateMachine.Validate.{
  validate_or_raise, validate, validate_initial_states, report_states, validate_intermediate_states,
  validate_terminal_states, report_terminal, validate_reachability, report_unreachable,
  validate_max_reentries, validate_transition_targets, report_max_reentries, report_targets,
}
use prodinamik_engine.StateMachine.Validate.Clean.{IsWellFormed, validate_or_raise-IsWellFormed}
use prodinamik_engine.StateMachine.Transition.{
  Evaluated, holds, can_transition, no_transition, matching,
}
use prodinamik_engine.StateMachine.Transition.Laws.{
  IsAllowed, after, attempts, can_transition_allowed, attempts_bounded,
}
use prodinamik_engine.StateMachine.Agent.{agent_config, agent_states, agent_transitions}

abbrev place : String → StateType → ℕ → String × StateDefinition
place name type reentries = (
  name,
  record {
    name = name;
    state_type = type;
    max_reentries = some reentries;
    timeout_seconds = none;
    temporal_on_timeout = none;
  },
)

abbrev move : String → String → TransitionDefinition
move a b = record {
  from_state = a;
  to_state = b;
  transition_type = TransitionType.reversible;
  condition = some "drift_count < 3";
  requires_human = false;
}

abbrev draft : StateMachineConfig
draft = record {
  states =
      place "draft" StateType.initial 2
      ∷ place "review" StateType.intermediate 1
      ∷ place "done" StateType.terminal 0
      ∷ [];
  transitions = move "draft" "draft" ∷ move "draft" "review" ∷ move "review" "done" ∷ [];
  ltl_rules = [];
}

abbrev fresh_runtime : RuntimeState
fresh_runtime = record {
  current_state = "draft";
  reentry_count = 0;
  iteration_count = 0;
  drift_count = 0;
  human_approved = false;
  consecutive_failures = 0;
  total_iterations = 0;
  changes_requested = false;
  manual_unblock = false;
  project_abandoned = false;
}

abbrev always : Option String → RuntimeState → Evaluated
always o r = holds

find_reachable_states_lem_example :
    (r : List String) × (find_reachable_states draft ≡ some r)
    × ((x : String)
        → (contains r x ≡ true) ↔ Reachable (build_transition_map draft) (initial_names draft) x)
find_reachable_states_lem_example = find_reachable_states_lem draft

validate_or_raise-IsWellFormed_example : IsWellFormed draft
unfolding validate_or_raise validate validate_initial_states report_states get build_transition_map
    Dict.put validate_intermediate_states validate_terminal_states report_terminal
    validate_reachability report_unreachable find_reachable_states search_loop new_targets
    validate_max_reentries validate_transition_targets add_transition add_transitions
    report_max_reentries report_targets
validate_or_raise-IsWellFormed_example = validate_or_raise-IsWellFormed [] draft refl

can_transition_allowed_example :
    IsAllowed always none draft "draft" "draft" fresh_runtime
    × ((can_transition always none draft "draft" "draft" fresh_runtime).1
        ≡ after "draft" "draft" fresh_runtime)
unfolding can_transition get matching build_transition_map add_transitions add_transition Dict.put
can_transition_allowed_example =
    can_transition_allowed always none draft "draft" "draft" fresh_runtime refl

attempts_bounded_example :
    (attempts always none 9 draft "draft" "draft" fresh_runtime).reentry_count ≤ 2
unfolding get
attempts_bounded_example =
    attempts_bounded always none 9 draft "draft" (place "draft" StateType.initial 2).1 2
      fresh_runtime refl refl

-- The machine of agents has no transition to the target of this timeout.
acting_timeout_test :
    can_transition always none agent_config "agent:acting" "agent:failed" fresh_runtime
    ≡ (no_transition, fresh_runtime)
unfolding agent_config agent_states agent_transitions can_transition get matching
    build_transition_map add_transitions add_transition Dict.put
acting_timeout_test = refl
