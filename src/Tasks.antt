-- ===== src/Tasks.antt =====
-- engine/agent_runtime/task_queue.py: the priority queue of tasks and its write-ahead log.
pub mod Data
pub mod Heap
pub mod Queue
pub mod Wal
