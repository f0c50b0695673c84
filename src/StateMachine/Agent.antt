-- ===== src/StateMachine/Agent.antt =====
-- The state machine of an agent task (engine/agent_runtime/states.py).
use prodinamik_engine.Prelude.{ℕ, String, false, Option, none, some, List, [], ◌∷◌}
use prodinamik_engine.Dict.{Dict}
use prodinamik_engine.StateMachine.Types.{
  StateType, StateDefinition, TransitionType, TransitionDefinition, StateMachineConfig,
}

abbrev state_of : String → StateType → ℕ → Option ℕ → Option String → String × StateDefinition
state_of name type reentries timeout target = (
  name,
  record {
    name = name;
    state_type = type;
    max_reentries = some reentries;
    timeout_seconds = timeout;
    temporal_on_timeout = target;
  },
)

unfoldable pub agent_states : Dict StateDefinition
agent_states =
    state_of "agent:pending" StateType.initial 1 (some 300) (some "agent:failed")
    ∷ state_of "agent:initializing" StateType.intermediate 3 (some 30) (some "agent:failed")
    ∷ state_of "agent:observing" StateType.intermediate 50 (some 15) (some "agent:thinking")
    ∷ state_of "agent:thinking" StateType.intermediate 50 (some 120) (some "agent:failed")
    ∷ state_of "agent:acting" StateType.intermediate 100 (some 60) (some "agent:failed")
    ∷ state_of "agent:reporting" StateType.intermediate 1 (some 30) (some "agent:completed")
    ∷ state_of "agent:completed" StateType.terminal 0 none none
    ∷ state_of "agent:failed" StateType.error 0 none none
    ∷ state_of "agent:cancelled" StateType.error 0 none none
    ∷ []

abbrev normal : String → String → TransitionDefinition
normal from_state to_state = record {
  from_state = from_state;
  to_state = to_state;
  transition_type = TransitionType.reversible;
  condition = none;
  requires_human = false;
}

unfoldable pub agent_transitions : List TransitionDefinition
agent_transitions =
    normal "agent:pending" "agent:initializing"
    ∷ normal "agent:pending" "agent:cancelled"
    ∷ normal "agent:initializing" "agent:observing"
    ∷ normal "agent:initializing" "agent:failed"
    ∷ normal "agent:observing" "agent:thinking"
    ∷ normal "agent:thinking" "agent:acting"
    ∷ normal "agent:acting" "agent:observing"
    ∷ normal "agent:acting" "agent:reporting"
    ∷ normal "agent:reporting" "agent:completed"
    ∷ normal "agent:reporting" "agent:failed"
    ∷ normal "agent:failed" "agent:pending"
    ∷ normal "agent:failed" "agent:cancelled"
    ∷ []

unfoldable pub agent_config : StateMachineConfig
unfolding agent_states agent_transitions
agent_config = record { states = agent_states; transitions = agent_transitions; ltl_rules = [] }
