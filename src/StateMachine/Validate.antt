-- ===== src/StateMachine/Validate.antt =====
-- The checks of `StateMachine.validate` (engine/state_machine.py), but for the one that looks for
-- cycles without an exit. An error names the state or the transition that it is about; the texts of
-- the messages are left out.
pub mod Clean
use prodinamik_engine.Prelude.{
  ℕ, String, Bool, true, false, not, ◌&&◌, ◌||◌, Option, none, some, List, [], ◌∷◌, ◌++◌, str_eq,
  ◌==◌, if◌then◌else◌, is_some, get_or, contains,
}
use prodinamik_engine.Dict
use prodinamik_engine.Dict.{Dict}
use prodinamik_engine.StateMachine.Types.{
  StateType, StateDefinition, TransitionDefinition, StateMachineConfig, is_initial, is_intermediate,
  is_terminal, is_error, names_of,
}
use prodinamik_engine.StateMachine.Graph.{
  TransitionMap, outgoing, build_transition_map, find_reachable_states,
}

pub data ValidationError : Type 0 where
  initial_without_exit intermediate_without_exit terminal_with_exit terminal_reentries :
      String → ValidationError
  unreachable missing_max_reentries : String → ValidationError
  target_not_found source_not_found : String → String → ValidationError

-- Only a missing `max_reentries` is a warning.
abbrev pub is_critical : ValidationError → Bool
is_critical (ValidationError.missing_max_reentries s) = false
is_critical _ = true

abbrev pub is_empty {ℓ} : {A : Type ℓ} → List A → Bool
is_empty [] = true
is_empty _ = false

-- One error for each state that fails a test.
unfoldable pub report_states :
    (StateDefinition → Bool)
    → (String → ValidationError)
    → List StateDefinition
    → List ValidationError
report_states bad error [] = []
report_states bad error (s ∷ states) =
    let rest = report_states bad error states in if bad s then error s.name ∷ rest else rest

abbrev pub has_exit : TransitionMap → StateDefinition → Bool
has_exit m s = not (is_empty (outgoing m s.name))

unfoldable pub validate_initial_states : StateMachineConfig → List ValidationError
validate_initial_states c =
    report_states (λ s. not (has_exit (build_transition_map c) s))
      ValidationError.initial_without_exit (names_of is_initial c.states)

unfoldable pub validate_intermediate_states : StateMachineConfig → List ValidationError
validate_intermediate_states c =
    report_states (λ s. not (has_exit (build_transition_map c) s))
      ValidationError.intermediate_without_exit (names_of is_intermediate c.states)

-- `max_reentries != 0`, which `None` is too.
abbrev pub nonzero : Option ℕ → Bool
nonzero none = true
nonzero (some n) = not (n == 0)

unfoldable pub report_terminal : TransitionMap → List StateDefinition → List ValidationError
report_terminal m [] = []
report_terminal m (s ∷ states) =
    let rest = report_terminal m states in
    let reentries =
      if nonzero s.max_reentries then ValidationError.terminal_reentries s.name ∷ rest else rest in
    if has_exit m s then ValidationError.terminal_with_exit s.name ∷ reentries else reentries

unfoldable pub validate_terminal_states : StateMachineConfig → List ValidationError
validate_terminal_states c =
    report_terminal (build_transition_map c) (names_of is_terminal c.states)

unfoldable pub report_unreachable : List String → Dict StateDefinition → List ValidationError
report_unreachable reachable [] = []
report_unreachable reachable ((name, s) ∷ states) =
    let rest = report_unreachable reachable states in
    if not (contains reachable name) && not (is_initial s.state_type)
    then ValidationError.unreachable name ∷ rest
    else rest

unfoldable pub validate_reachability : StateMachineConfig → List ValidationError
validate_reachability c = report_unreachable (get_or (find_reachable_states c) []) c.states

unfoldable pub report_max_reentries : Dict StateDefinition → List ValidationError
report_max_reentries [] = []
report_max_reentries ((name, s) ∷ states) =
    let rest = report_max_reentries states in
    if not (is_some s.max_reentries) && not (is_terminal s.state_type || is_error s.state_type)
    then ValidationError.missing_max_reentries name ∷ rest
    else rest

unfoldable pub validate_max_reentries : StateMachineConfig → List ValidationError
unfolding report_max_reentries
validate_max_reentries c = report_max_reentries c.states

unfoldable pub report_targets :
    Dict StateDefinition → List TransitionDefinition → List ValidationError
report_targets states [] = []
report_targets states (t ∷ ts) =
    let rest = report_targets states ts in
    let source =
      if Dict.has states t.from_state
      then rest
      else ValidationError.source_not_found t.from_state t.to_state ∷ rest in
    if Dict.has states t.to_state
    then source
    else ValidationError.target_not_found t.from_state t.to_state ∷ source

unfoldable pub validate_transition_targets : StateMachineConfig → List ValidationError
unfolding report_targets
validate_transition_targets c = report_targets c.states c.transitions

-- `validate`, with the errors that the search for cycles reports handed in.
unfoldable pub validate : List ValidationError → StateMachineConfig → List ValidationError
validate cycle_errors c =
    validate_initial_states c
    ++ (validate_intermediate_states c
        ++ (validate_terminal_states c
            ++ (cycle_errors
                ++ (validate_reachability c
                    ++ (validate_max_reentries c ++ validate_transition_targets c)))))

abbrev pub critical : List ValidationError → List ValidationError
critical [] = []
critical (e ∷ es) = let rest = critical es in if is_critical e then e ∷ rest else rest

-- `_validate_or_raise`: the machine is built only if no error is critical.
unfoldable pub validate_or_raise : List ValidationError → StateMachineConfig → Bool
validate_or_raise cycle_errors c = is_empty (critical (validate cycle_errors c))
