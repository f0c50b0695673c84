-- ===== src/Agents.antt =====
-- The runtime of agents (engine/agent_runtime): the registry of worker nodes.
pub mod Registry
pub mod Scheduler
pub mod Coordinator
pub mod Spending
