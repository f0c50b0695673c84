-- ===== src/StateMachine/Validate/Clean.antt =====
-- What holds of a configuration that `validate` finds no critical error in.
use prodinamik_engine.Prelude.{
  ◌≡◌, refl, String, Bool, true, false, not, some, List, [], ◌∷◌, ◌++◌, arith, contains, Bool-cases,
  inl, inr,
}
use prodinamik_engine.Dict
use prodinamik_engine.Dict.{Dict}
use prodinamik_engine.StateMachine.Types.{
  StateDefinition, TransitionDefinition, StateMachineConfig, is_initial, is_intermediate,
  is_terminal, names_of,
}
use prodinamik_engine.StateMachine.Graph.{TransitionMap, build_transition_map, initial_names}
use prodinamik_engine.StateMachine.Graph.Reach.{Reachable, find_reachable_states_lem}
use prodinamik_engine.StateMachine.Validate.{
  ValidationError, is_critical, is_empty, critical, report_states, has_exit, report_terminal,
  report_unreachable, report_targets, validate_initial_states, validate_intermediate_states,
  validate_terminal_states, validate_reachability, validate_max_reentries,
  validate_transition_targets, validate, validate_or_raise,
}

abbrev pub All {ℓ κ} : {A : Type ℓ} → (A → Type κ) → List A → Type κ
All P [] = Unit
All P (x ∷ xs) = P x × All P xs

abbrev Clean : List ValidationError → Type 0
Clean es = is_empty (critical es) ≡ true

Clean-append : (es fs : List ValidationError) → Clean (es ++ fs) → Clean es × Clean fs
Clean-append [] fs h = (refl, h)
Clean-append (e ∷ es) fs h = ground (arith, Clean-append es fs)

report_states-Clean :
    (bad : StateDefinition → Bool) (error : String → ValidationError)
    (states : List StateDefinition)
    → ((s : String) → is_critical (error s) ≡ true)
    → Clean (report_states bad error states)
    → All (λ s. bad s ≡ false) states
unfolding report_states
report_states-Clean bad error [] crit h = tt
report_states-Clean bad error (s ∷ states) crit h = elim (Bool-cases (bad s)) [
  | inl t ↦ cc (rw (t, crit s.name) at h)
  | inr f ↦ (f, report_states-Clean bad error states crit (rw f at h))
]

report_terminal-Clean :
    (m : TransitionMap) (states : List StateDefinition)
    → Clean (report_terminal m states)
    → All (λ s. (has_exit m s ≡ false) × (s.max_reentries ≡ some 0)) states
unfolding report_terminal
report_terminal-Clean m [] h = tt
report_terminal-Clean m (s ∷ states) h =
    (ground arith, report_terminal-Clean m states (ground arith))

-- A state of the table is initial or reachable.
abbrev pub AllReachable : TransitionMap → List String → Dict StateDefinition → Type 0
AllReachable m roots [] = Unit
AllReachable m roots ((name, s) ∷ states) =
    (is_initial s.state_type ≡ false → Reachable m roots name) × AllReachable m roots states

report_unreachable-Clean :
    (m : TransitionMap) (roots r : List String) (states : Dict StateDefinition)
    → ((x : String) → contains r x ≡ true → Reachable m roots x)
    → Clean (report_unreachable r states)
    → AllReachable m roots states
unfolding report_unreachable
report_unreachable-Clean m roots r [] sound h = tt
report_unreachable-Clean m roots r ((name, s) ∷ states) sound h = (
  λ later. sound name (ground arith),
  report_unreachable-Clean m roots r states sound (ground arith),
)

report_targets-Clean :
    (states : Dict StateDefinition) (ts : List TransitionDefinition)
    → Clean (report_targets states ts)
    → All (λ t. (Dict.has states t.from_state ≡ true) × (Dict.has states t.to_state ≡ true)) ts
unfolding report_targets
report_targets-Clean states [] h = tt
report_targets-Clean states (t ∷ ts) h =
    ((ground arith, ground arith), report_targets-Clean states ts (ground arith))

-- A well-formed machine: initial and intermediate states have a way out, terminal states have none
-- and no reentries, each state that is not initial is reachable, and each transition joins two states.
pub record IsWellFormed (c : StateMachineConfig) : Type 0 where
  pub initial_exits :
      All (λ s. has_exit (build_transition_map c) s ≡ true) (names_of is_initial c.states)
  pub intermediate_exits :
      All (λ s. has_exit (build_transition_map c) s ≡ true) (names_of is_intermediate c.states)
  pub terminal_ends :
      All
        (λ s. (has_exit (build_transition_map c) s ≡ false) × (s.max_reentries ≡ some 0))
        (names_of is_terminal c.states)
  pub reachable : AllReachable (build_transition_map c) (initial_names c) c.states
  pub joined :
      All
        (λ t. (Dict.has c.states t.from_state ≡ true) × (Dict.has c.states t.to_state ≡ true))
        c.transitions

exits :
    (m : TransitionMap) (states : List StateDefinition)
    → All (λ s. not (has_exit m s) ≡ false) states
    → All (λ s. has_exit m s ≡ true) states
exits m [] h = tt
exits m (s ∷ states) h = (ground arith, exits m states h.1)

-- A configuration that the checks let through, whatever the search for cycles reported, is
-- well-formed.
pub validate_or_raise-IsWellFormed :
    (cycle_errors : List ValidationError) (c : StateMachineConfig)
    → validate_or_raise cycle_errors c ≡ true
    → IsWellFormed c
unfolding validate_or_raise validate validate_initial_states validate_intermediate_states
    validate_terminal_states validate_reachability validate_transition_targets
validate_or_raise-IsWellFormed cycle_errors c h =
    let m = build_transition_map c in
    let (r, found, exact) = find_reachable_states_lem c in
    let (first, h1) = Clean-append (validate_initial_states c) _ h in
    let (second, h2) = Clean-append (validate_intermediate_states c) _ h1 in
    let (third, h3) = Clean-append (validate_terminal_states c) _ h2 in
    let (_, h4) = Clean-append cycle_errors _ h3 in
    let (fifth, h5) = Clean-append (validate_reachability c) _ h4 in
    let (_, last) = Clean-append (validate_max_reentries c) _ h5 in
    record {
      initial_exits = exits m _ (
          report_states-Clean (λ s. not (has_exit m s)) ValidationError.initial_without_exit
            (names_of is_initial c.states) (λ s. refl) first);
      intermediate_exits = exits m _ (
          report_states-Clean (λ s. not (has_exit m s)) ValidationError.intermediate_without_exit
            (names_of is_intermediate c.states) (λ s. refl) second);
      terminal_ends = report_terminal-Clean m (names_of is_terminal c.states) third;
      reachable =
          report_unreachable-Clean m (initial_names c) r c.states (λ x. (exact x).0)
            (rw found at fifth);
      joined = report_targets-Clean c.states c.transitions last;
    }
