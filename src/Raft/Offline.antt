-- ===== src/Raft/Offline.antt =====
-- `OfflineManager` and the offline side of `HybridConsensusNode` (engine/raft_consensus.py). A state
-- is copied where the code shares the object between two nodes; what is modelled here stops before
-- a shared state would be written again.
pub mod Sync
use prodinamik_engine.Prelude.{
  ℕ, ◌+◌, ◌==◌, String, Bool, true, false, not, ◌&&◌, Option, none, some, List, [], ◌∷◌, ◌++◌,
  str_eq, if◌then◌else◌, get_or, length,
}
use prodinamik_engine.Dict
use prodinamik_engine.Dict.{Dict}
use prodinamik_engine.Raft.Types.{
  NodeRole, Command, NodeState, PendingOperation, blank, truthy, is_type, Result, ok, raised,
  key_error,
}
use prodinamik_engine.Raft.Machine.{ensure}
use prodinamik_engine.Raft.Merge.{merge}
use prodinamik_engine.Raft.Node.{Node, and_then, apply_committed, propose, provide_merge}

pub record Offline : Type 0 where
  pub local_node : Node
  pub pending : List PendingOperation
  pub is_offline : Bool

unfoldable pub go_offline : Offline → Offline
go_offline o = record o {
  is_offline = true;
  local_node = record o.local_node { role = NodeRole.offline };
}

-- The optimistic write of a transition to the local table.
abbrev pub local_write : Command → String → NodeState → Dict NodeState → Dict NodeState
local_write c slug old sm =
    if is_type c "transition"
    then Dict.put sm slug
        (record { current_state = get_or c.to_state old.current_state; version = old.version + 1 })
    else sm

unfoldable pub apply_pending : Command → Offline → NodeState × Offline
unfolding ensure
apply_pending c o = elim (truthy c.slug) [
  | none ↦ (blank, o)
  | some slug ↦
      let table = ensure o.local_node.state_machine slug in
      let old = get_or (Dict.get table slug) blank in
      let written = local_write c slug old table in
      (
        get_or (Dict.get written slug) blank,
        record o {
          local_node = record o.local_node { state_machine = written };
          pending =
              o.pending
              ++ record { command = c; local_version = old.version; applied = false } ∷ [];
        },
      )
]

-- After a refused proposal: the merge of both states of the run goes to the leader, if both are there.
unfoldable pub offer_merge : Node → Command → Node → Result (Unit {0}) × Node
offer_merge local c leader = elim c.slug [
  | none ↦ (raised key_error, leader)
  | some slug ↦ elim (Dict.get local.state_machine slug) [
    | none ↦ (ok tt, leader)
    | some mine ↦ elim (Dict.get leader.state_machine slug) [
      | none ↦ (ok tt, leader)
      | some theirs ↦ (ok tt, (provide_merge slug (merge mine theirs local.transitions) leader).1)
    ]
  ]
]

-- One round of `_sync_with_leader`, after the proposal: the operation as it is left, and the leader.
abbrev pub after_propose :
    Node
    → PendingOperation
    → Result (Bool × Option String) × Node
    → Result (Unit {0}) × PendingOperation × Node
after_propose local op (raised f, leader) = (raised f, op, leader)
after_propose local op (ok (true, error), leader) = (ok tt, record op { applied = true }, leader)
after_propose local op (ok (false, error), leader) =
    let (r, leader') = offer_merge local op.command leader in (r, op, leader')

unfoldable pub sync_op :
    Node → PendingOperation → Node → Result (Unit {0}) × PendingOperation × Node
sync_op local op leader =
    if op.applied then (ok tt, op, leader) else after_propose local op (propose op.command leader)

-- The whole loop; an exception leaves the operations behind it as they were.
unfoldable pub sync_with_leader :
    Node → List PendingOperation → Node → Result (Unit {0}) × List PendingOperation × Node
sync_with_leader local [] leader = (ok tt, [], leader)
sync_with_leader local (op ∷ ops) leader =
    let (r, op', leader') = sync_op local op leader in
    let (rest, ops', leader'') = sync_with_leader local ops leader' in
    elim r [ raised f ↦ (raised f, op' ∷ ops, leader') | ok u ↦ (rest, op' ∷ ops', leader'') ]

-- The operations that wait to be sent.
unfoldable pub pending_count : List PendingOperation → ℕ
pending_count [] = 0
pending_count (op ∷ ops) = (if op.applied then 0 else 1) + pending_count ops

-- `go_online`: the node is a follower again, unless an exception leaves it reconnecting.
unfoldable pub go_online : Offline → Node → Result (Unit {0}) × Offline × Node
go_online o leader =
    let local = record o.local_node { role = NodeRole.reconnecting } in
    let (r, ops, leader') = sync_with_leader local o.pending leader in
    let done : Offline = record { local_node = local; pending = ops; is_offline = false } in
    elim r [
      | raised f ↦ (raised f, done, leader')
      | ok u ↦
          (ok tt, record done { local_node = record local { role = NodeRole.follower } }, leader')
    ]

-- `HybridConsensusNode.apply`: offline writes wait, others are proposed.
unfoldable pub apply : Command → Offline → Result (Bool × Option String) × Offline
apply c o =
    if o.is_offline
    then (ok (true, none), (apply_pending c o).1)
    else (let (r, n) = propose c o.local_node in (r, record o { local_node = n }))
