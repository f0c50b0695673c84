-- ===== src/Examples.antt =====
-- The theorems at concrete inputs.
mod Raft
mod Tasks
mod StateMachine
mod Services
mod Agents
mod Stores
mod Plugins
