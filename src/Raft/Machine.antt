-- ===== src/Raft/Machine.antt =====
-- `_apply_command` of engine/raft_consensus.py: what a command does to the table of states.
use prodinamik_engine.Prelude.{◌+◌, String, none, some, if◌then◌else◌, get_or}
use prodinamik_engine.Dict
use prodinamik_engine.Dict.{Dict}
use prodinamik_engine.Raft.Types.{Command, NodeState, blank, truthy, is_type}

-- `_apply_command` on the entry of a slug that is there.
unfoldable pub apply_to : Dict NodeState → String → Command → Dict NodeState
apply_to sm slug c =
    let old = get_or (Dict.get sm slug) blank in
    if is_type c "transition"
    then elim (truthy c.to_state) [
      | none ↦ sm
      | some to_state ↦
          Dict.put sm slug (record { current_state = to_state; version = old.version + 1 })
    ]
    else if is_type c "create"
    then Dict.put sm slug (record { current_state = get_or c.initial_state "start"; version = 1 })
    else if is_type c "archive"
    then Dict.put sm slug (record { current_state = "archived"; version = old.version + 1 })
    else sm

-- `if slug not in self.state_machine: self.state_machine[slug] = NodeState()`
unfoldable pub ensure : Dict NodeState → String → Dict NodeState
ensure sm slug = if Dict.has sm slug then sm else Dict.put sm slug blank

unfoldable pub apply_command : Dict NodeState → Command → Dict NodeState
unfolding apply_to ensure
apply_command sm c = elim (truthy c.slug) [
  | none ↦ sm
  | some slug ↦ apply_to (ensure sm slug) slug c
]
