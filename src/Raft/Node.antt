-- ===== src/Raft/Node.antt =====
-- `DistributedStateMachine` of engine/raft_consensus.py: the state of one node, and each method as a
-- function to the new state. An index of the log that starts at -1 (`commit_index`, `last_applied`,
-- `prev_log_index`, `leader_commit`) is kept one higher, as the number of entries up to it.
-- `now` is `time.time()`; the lock makes each method one step.
pub mod Apply
pub mod Commit
pub mod Election
pub mod Proposals
pub mod Appends
use prodinamik_engine.Prelude.{
  ℕ, zero, suc, ◌+◌, ◌-◌, ◌/◌, min, String, Bool, true, false, Option, none, some, List, [], ◌∷◌,
  ◌++◌, map, ltb, leb, ◌==◌, str_eq, if◌then◌else◌, length, get_elem?, add,
}
use prodinamik_engine.Dict
use prodinamik_engine.Dict.{Dict}
use prodinamik_engine.Raft.Types.{
  NodeRole, Command, LogEntry, NodeState, is_leader, index_error, Result, ok, raised,
}
use prodinamik_engine.Raft.Machine.{apply_command}
use prodinamik_engine.Raft.Log.{last_log_term, merge_entries, prev_entry}

-- The calls that a node makes to its callbacks, where they are set.
pub data Call : Type 0 where
  step_down heartbeat : Call
  leader_elected replicate : String → Call

abbrev pub Acks : Type 0
Acks = List (ℕ × List String)

pub record Node : Type 0 where
  pub node_id : String
  pub peers : List String
  pub role : NodeRole
  pub current_term : ℕ
  pub voted_for : Option String
  pub log : List LogEntry
  pub commit_count : ℕ
  pub applied_count : ℕ
  pub state_machine : Dict NodeState
  pub last_heartbeat : ℕ
  pub transitions : Dict (List String)
  pub pending_acks : Acks
  pub saved_log : List LogEntry
  pub saved_snapshot : Dict NodeState
  pub calls : List Call

unfoldable pub become_follower : ℕ → ℕ → Node → Node
become_follower now term n = record n {
  role = NodeRole.follower;
  current_term = term;
  voted_for = none;
  last_heartbeat = now;
  calls = if is_leader n.role then n.calls ++ step_down ∷ [] else n.calls;
}

unfoldable pub become_leader : Node → Node
become_leader n = record n {
  role = NodeRole.leader;
  calls = n.calls ++ (heartbeat ∷ leader_elected n.node_id ∷ []);
}

-- The peers that `_request_vote` says have granted the vote.
unfoldable pub count_votes : (String → Bool) → List String → ℕ
count_votes request_vote [] = 0
count_votes request_vote (peer ∷ peers) =
    let rest = count_votes request_vote peers in if request_vote peer then suc rest else rest

unfoldable pub become_candidate : ℕ → (String → Bool) → Node → Node
become_candidate now request_vote n =
    let m = record n {
      role = NodeRole.candidate;
      current_term = n.current_term + 1;
      voted_for = some n.node_id;
      last_heartbeat = now;
    } in
    let votes = 1 + count_votes request_vote n.peers in
    if ltb (length n.peers / 2) votes then become_leader m else m

unfoldable pub has_voted_other : Option String → String → Bool
has_voted_other none candidate_id = false
has_voted_other (some v) candidate_id = if str_eq v candidate_id then false else true

unfoldable pub request_vote : ℕ → ℕ → String → ℕ → ℕ → Node → Bool × Node
unfolding become_follower has_voted_other
request_vote now candidate_term candidate_id last_log_index last_term n =
    if ltb candidate_term n.current_term
    then (false, n)
    else (let m =
          if ltb n.current_term candidate_term then become_follower now candidate_term n else n in
        if has_voted_other m.voted_for candidate_id
        then (false, m)
        else if leb (last_log_term m.log) last_term
        then (true, record m { voted_for = some candidate_id; last_heartbeat = now })
        else (false, m))

-- The loop of `_apply_committed`; `last_applied` has moved on before the log is read.
unfoldable pub apply_loop : ℕ → Node → Result (Unit {0}) × Node
apply_loop zero n = (ok tt, n)
apply_loop (suc fuel) n = elim (ltb n.applied_count n.commit_count) [
  | false ↦ (ok tt, n)
  | true ↦ elim (get_elem? n.log n.applied_count) [
    | none ↦ (raised index_error, record n { applied_count = n.applied_count + 1 })
    | some entry ↦ apply_loop fuel (record n {
      applied_count = n.applied_count + 1;
      state_machine = apply_command n.state_machine entry.command;
    })
  ]
]

unfoldable pub apply_committed : Node → Result (Unit {0}) × Node
apply_committed n = apply_loop (n.commit_count - n.applied_count) n

-- An exception leaves the method; otherwise it goes on from the new state.
abbrev pub and_then {ℓ} :
    {A : Type ℓ} → Result (Unit {0}) × Node → (Node → Result A × Node) → Result A × Node
and_then (ok u, n) k = k n
and_then (raised f, n) k = (raised f, n)

unfoldable pub save_log : Node → Node
save_log n = record n { saved_log = n.log }

pub record AppendReply : Type 0 where
  pub success : Bool
  pub conflict_index : ℕ
  pub conflict_term : ℕ

unfoldable pub advance_commit : ℕ → Node → Result (Unit {0}) × Node
advance_commit leader_commit n =
    if ltb n.commit_count leader_commit
    then apply_committed (record n { commit_count = min leader_commit (length n.log) })
    else (ok tt, n)

unfoldable pub append_checked : ℕ → List LogEntry → ℕ → ℕ → Node → Result AppendReply × Node
append_checked now entries prev_count leader_commit n =
    and_then
      (advance_commit leader_commit (record n { log = merge_entries prev_count entries n.log }))
      λ m. (
        ok (record { success = true; conflict_index = 0; conflict_term = 0 }),
        save_log (record m { last_heartbeat = now }),
      )

unfoldable pub append_entries : ℕ → List LogEntry → ℕ → ℕ → ℕ → Node → Result AppendReply × Node
append_entries now entries prev_count prev_term leader_commit n =
    let rest = append_checked now entries prev_count leader_commit n in
    elim (prev_entry prev_count n.log) [
      | none ↦ rest
      | some prev ↦ if prev.term == prev_term then rest else (
        ok (record { success = false; conflict_index = prev_count - 1; conflict_term = prev.term }),
        n,
      )
    ]

unfoldable pub acks_of : Acks → ℕ → List String
acks_of [] index = []
acks_of ((i, ids) ∷ acks) index = if i == index then ids else acks_of acks index

unfoldable pub put_acks : Acks → ℕ → List String → Acks
put_acks [] index ids = (index, ids) ∷ []
put_acks ((i, old) ∷ acks) index ids =
    if i == index then (index, ids) ∷ acks else (i, old) ∷ put_acks acks index ids

-- `_check_majority`
unfoldable pub check_majority : ℕ → Node → Bool
check_majority index n = leb (length n.peers / 2 + 1) (length (acks_of n.pending_acks index))

abbrev pub replicate_all : Node → Node
replicate_all n = record n { calls = n.calls ++ map replicate n.peers }

-- The leader's log with the new entry, saved, and its own acknowledgement.
abbrev pub proposed : Command → Node → Node
proposed command n =
    let log =
      n.log ++ record { term = n.current_term; index = length n.log; command = command } ∷ [] in
    record n {
      log = log;
      saved_log = log;
      pending_acks = put_acks n.pending_acks (length n.log) (n.node_id ∷ []);
    }

unfoldable pub propose : Command → Node → Result (Bool × Option String) × Node
propose command n =
    if is_leader n.role
    then (let m = proposed command n in
        if check_majority (length n.log) m
        then and_then (apply_committed (record m { commit_count = length n.log + 1 }))
            (λ k. (ok (true, none), replicate_all (save_log k)))
        else (ok (true, none), replicate_all m))
    else (ok (false, some "Not leader"), n)

abbrev pub acknowledged : ℕ → String → Node → Node
acknowledged index peer_id n = record n {
  pending_acks = put_acks n.pending_acks index (add peer_id (acks_of n.pending_acks index));
}

unfoldable pub ack_entry : ℕ → String → Node → Result Bool × Node
ack_entry index peer_id n =
    let m = acknowledged index peer_id n in
    if check_majority index m
    then if ltb m.commit_count (index + 1)
      then and_then (apply_committed (record m { commit_count = index + 1 }))
          (λ k. (ok true, save_log k))
      else (ok true, m)
    else (ok false, m)

unfoldable pub provide_merge : String → NodeState → Node → (Bool × Option String) × Node
provide_merge slug merged_state n =
    if is_leader n.role
    then (let m = record n { state_machine = Dict.put n.state_machine slug merged_state } in
        ((true, none), record m { saved_snapshot = m.state_machine }))
    else ((false, some "Not leader"), n)
