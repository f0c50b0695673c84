-- ===== src/StateMachine/Graph.antt =====
-- The graph of a state machine (engine/state_machine.py): the table of transitions by source, and
-- the search for reachable states. Each round of the search takes a state off its list or adds the
-- targets of a state that is new, so the fuel, one more than the initial states and the transitions
-- together, is enough (`Graph.Reach`).
pub mod Reach
use mathlib.Core.List.{append-nil, append_assoc}
use prodinamik_engine.Prelude.{
  ℕ, zero, suc, ◌+◌, ◌≡◌, refl, ap, ◌∙◌, sym, Bool-cases, inl, inr, String, Bool, true, false,
  Option, none, some, List, [], ◌∷◌, ◌++◌, arith, str_eq, eq_iff, if◌then◌else◌, get_or, length,
  contains, select, map,
}
use prodinamik_engine.Dict
use prodinamik_engine.Dict.{Dict, get-put}
use prodinamik_engine.StateMachine.Types.{
  StateDefinition, TransitionDefinition, StateMachineConfig, is_initial, names_of,
}

abbrev pub TransitionMap : Type 0
TransitionMap = Dict (List TransitionDefinition)

abbrev pub outgoing : TransitionMap → String → List TransitionDefinition
outgoing m s = get_or (Dict.get m s) []

-- `self._transition_map.setdefault(t.from_state, []).append(t)`
unfoldable pub add_transition : TransitionMap → TransitionDefinition → TransitionMap
add_transition m t = Dict.put m t.from_state (outgoing m t.from_state ++ t ∷ [])

unfoldable pub add_transitions : TransitionMap → List TransitionDefinition → TransitionMap
unfolding add_transition
add_transitions m [] = m
add_transitions m (t ∷ ts) = add_transitions (add_transition m t) ts

unfoldable pub build_transition_map : StateMachineConfig → TransitionMap
unfolding add_transitions
build_transition_map c = add_transitions [] c.transitions

abbrev pub targets : List TransitionDefinition → List String
targets [] = []
targets (t ∷ ts) = t.to_state ∷ targets ts

-- The targets that are not reached yet, which go to the end of the list.
unfoldable pub new_targets : List String → List TransitionDefinition → List String
new_targets reachable [] = []
new_targets reachable (t ∷ ts) =
    let rest = new_targets reachable ts in
    if contains reachable t.to_state then rest else t.to_state ∷ rest

-- The loop of `_find_reachable_states`; `none` would mean that the fuel ran out.
unfoldable pub search_loop : ℕ → TransitionMap → List String → List String → Option (List String)
search_loop zero m queue reachable = none
search_loop (suc fuel) m [] reachable = some reachable
search_loop (suc fuel) m (current ∷ queue) reachable =
    let old = search_loop fuel m queue reachable in
    let reachable' = reachable ++ current ∷ [] in
    let new =
      search_loop fuel m (queue ++ new_targets reachable' (outgoing m current)) reachable' in
    if contains reachable current then old else new

abbrev pub state_names : List StateDefinition → List String
state_names [] = []
state_names (s ∷ states) = s.name ∷ state_names states

abbrev pub initial_names : StateMachineConfig → List String
initial_names c = state_names (names_of is_initial c.states)

unfoldable pub find_reachable_states : StateMachineConfig → Option (List String)
find_reachable_states c =
    search_loop (length (initial_names c) + length c.transitions + 1) (build_transition_map c)
      (initial_names c) []

-- The transitions that leave a state, in the order of the configuration.
abbrev pub leaves : String → TransitionDefinition → Bool
leaves s t = str_eq t.from_state s

outgoing-add_transition :
    (m : TransitionMap) (t : TransitionDefinition) (s : String)
    → outgoing (add_transition m t) s
      ≡ (if leaves s t then outgoing m s ++ t ∷ [] else outgoing m s)
unfolding add_transition
outgoing-add_transition m t s = elim (Bool-cases (leaves s t)) [
  | inl same ↦
      rw get-put (rw same (ap (λ k. outgoing m k ++ t ∷ []) ((eq_iff t.from_state s).0 same)))
  | inr other ↦ rw get-put (rw other)
]

outgoing-add_transitions :
    (m : TransitionMap) (ts : List TransitionDefinition) (s : String)
    → outgoing (add_transitions m ts) s ≡ outgoing m s ++ select (leaves s) ts
unfolding add_transitions select
outgoing-add_transitions m [] s = sym (append-nil (outgoing m s))
outgoing-add_transitions m (t ∷ ts) s =
    outgoing-add_transitions (add_transition m t) ts s
    ∙ ap (λ l. l ++ select (leaves s) ts) (outgoing-add_transition m t s)
    ∙ elim (Bool-cases (leaves s t)) [
      | inl same ↦ rw same (append_assoc (outgoing m s) (t ∷ []) (select (leaves s) ts))
      | inr other ↦ rw other
    ]

-- The table holds, for each source, its transitions in the order of the configuration.
pub outgoing-build :
    (c : StateMachineConfig) (s : String)
    → outgoing (build_transition_map c) s ≡ select (leaves s) c.transitions
unfolding build_transition_map Dict.get
outgoing-build c s = outgoing-add_transitions [] c.transitions s
