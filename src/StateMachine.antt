-- ===== src/StateMachine.antt =====
-- engine/sm_types.py, engine/state_machine.py and engine/agent_runtime/states.py.
pub mod Types
pub mod Graph
pub mod Validate
pub mod Transition
pub mod Agent
