-- ===== src/Raft.antt =====
-- engine/raft_types.py and engine/raft_consensus.py.
pub mod Types
pub mod Machine
pub mod Log
pub mod Node
pub mod Merge
pub mod Transport
pub mod Offline
