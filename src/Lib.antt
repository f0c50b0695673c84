-- ===== src/Lib.antt =====
-- A model of the core of Prodinamik Engine and what it satisfies.
--
-- The program runs projects as state machines. A run of a project is a place in a state machine
-- (engine/state_machine.py); the runs are replicated between nodes by a protocol after Raft with
-- queues for nodes that are offline (engine/raft_consensus.py). The run manager keeps each run with a
-- snapshot and a log (engine/run_manager.py), and what happens in a run goes to its event store
-- (engine/event_store.py). A coordinator (engine/agent_runtime/coordinator.py) takes tasks in, keeps a
-- registry of the nodes that work (engine/agent_runtime/agent_registry.py), and has a scheduler assign
-- tasks to them (engine/agent_runtime/scheduler.py) from a queue with a log
-- (engine/agent_runtime/task_queue.py). Agents wait at a gate for people
-- (engine/agent_runtime/approval_gate.py) and stay within budgets
-- (engine/agent_runtime/budget_controller.py, engine/budget.py), the second of which switches features
-- off through the degradation manager (engine/degradation.py).
--
-- Files:
--   Prelude, Dict, NatDict  shared names, lists and texts, and Python's dictionaries in insertion order,
--                      with texts and with numbers for keys.
--   Raft/Types         the data of engine/raft_types.py.
--   Raft/Machine, Log  `_apply_command`, and the loops over the log.
--   Raft/Node          `DistributedStateMachine`: one function per method. Below it: Apply (the loop of
--                      committed entries), Commit (the commit invariant, the methods that write, and
--                      runs of calls), Election, Proposals, Appends.
--   Raft/Merge         `StateCRDT`: `_find_path`, `_is_on_same_path`, `merge`, and their laws.
--   Raft/Transport     `_handle_raft_message`, `_do_replicate`, `_do_heartbeat`.
--   Raft/Offline       `OfflineManager`, with `apply` of the hybrid node.
--   Tasks/Data, Heap   the data of the queue, and the heap as a sorted list.
--   Tasks/Queue        `TaskQueue`: one function per method. Below it: Dequeue, Lifecycle, Calls,
--                      Listing (`list_tasks`).
--   Tasks/Wal          `_replay_wal`, `_compact_wal`, `close`, and recovery.
--   StateMachine       Types (engine/sm_types.py), Graph (the table of transitions and reachability),
--                      Validate (`validate` and `_validate_or_raise`), Transition (`can_transition`),
--                      Agent (engine/agent_runtime/states.py).
--   Degradation        `DegradationManager`.
--   Approval           `ApprovalGate`. Below it: Audit (settled tasks and the audit trail).
--   Budget             `BudgetEnforcer`, which holds a `DegradationManager`.
--   RateLimit          `RateLimiter` of engine/ratelimit.py, the token bucket.
--   Events             `EventStore`: what is appended and read. Below it: Retention (`purge` and `compact`),
--                      Log (the list of events that it promises, and how a store holds one), Refines.
--   Runs               `RunManager`. Below it: Transitions (`update_state`) and Updates (it on every
--                      branch), Replay (`recover`) and Recovery (what replay of the log makes of a
--                      run, operations in sequence, crashes).
--   Agents/Registry    `AgentRegistry`. Below it: Queries, Index (the index of capabilities), Sort,
--                      Find, Best.
--   Agents/Scheduler   `Scheduler`, which holds a registry and a queue. Below it: Choice (of a node).
--   Agents/Coordinator `CoordinatorNode`, which holds a scheduler. Below it: Safe (what every event keeps,
--                      for any property that the calls of the queue keep) and Running (a coordinator
--                      from its start).
--   Agents/Spending    `BudgetController` of the agents, and its accounts.
--   Plugins            `resolve_dependencies` of engine/plugin_registry.py, and below it its Order.
--   Examples           the theorems at concrete inputs.
--
-- An object is a record, a method a function to its new state, and a method's answer comes first in
-- the pair. A crash is a state between two writes of a method. Locks make each method one step. The
-- clock, random ids and the votes of peers are arguments; a call of a callback is recorded in the
-- node. An exception is a value of `Result`. An index of the log that starts at -1 is kept one
-- higher.
--
-- Four loops run on fuel, and each has enough: the applying of committed entries (one step for each
-- entry of the log), the search for reachable states (one more than the initial states and the
-- transitions together), the search for a path (one more than the states that the table names), and
-- the visit of plugins (one more than there are plugins). Numbers are natural numbers: Python's
-- integers have no bound, and the amounts of money, times and sampling rates, which are floats in
-- the code, are counted in units fine enough for what the code does with them, without the rounding
-- of floats.
--
-- Not modelled: files, sockets, JSON and YAML; `reconnect` and the health reports of the hybrid
-- node; snapshots loaded from files; the text of content-object.md and the slug made from a title;
-- the rebuilding of a lost index of events, and times with a zone; the callbacks, start and stop of the
-- coordinator; the search for cycles of a machine, whose errors are an argument of `validate`; the
-- texts of conditions and LTL rules, whose evaluators are arguments of `can_transition`; the memo
-- of calls without a runtime; the callbacks of the approval gate; the random draw of
-- `should_run_validator`; reports for display. The other parts of the engine (the loop of the
-- engine, the loading of plugins, validators, profiles, the loops of the agents, servers, command line) are not modelled.
pub mod Prelude
pub mod Dict
pub mod Raft
pub mod Tasks
pub mod StateMachine
pub mod Degradation
pub mod Approval
pub mod Budget
pub mod RateLimit
pub mod Agents
pub mod NatDict
pub mod Events
pub mod Runs
pub mod Plugins
pub mod Examples
