-- ===== src/Raft/Transport.antt =====
-- `HybridConsensusNode`'s messages (engine/raft_consensus.py): the handler of what arrives, and what
-- the node sends. The sockets and the JSON of engine/raft_transport.py are not modelled; indices that
-- start at -1 are kept one higher.
use prodinamik_engine.Prelude.{ℕ, ◌≡◌, refl, ap, String, Bool, List, ◌++◌, length}
use prodinamik_engine.Dict.{Dict}
use prodinamik_engine.Raft.Types.{LogEntry, NodeState, Result, ok, raised}
use prodinamik_engine.Raft.Log.{last_log_term}
use prodinamik_engine.Raft.Node.{
  Node, AppendReply, and_then, request_vote, append_entries, advance_commit,
}
use prodinamik_engine.Raft.Node.Commit.{IsSound, Extends}
use prodinamik_engine.Raft.Node.Commit.Writes.{advance_commit_lem}
use prodinamik_engine.Raft.Node.Appends.{accepted, append_entries_at_end}

pub data Message : Type 0 where
  vote_request : ℕ → String → ℕ → ℕ → Message
  append_request : ℕ → List LogEntry → ℕ → ℕ → ℕ → Message
  heartbeat_request : ℕ → Message
  other_request : Message

pub data Reply : Type 0 where
  vote_response : ℕ → Bool → Reply
  append_response : ℕ → AppendReply → Reply
  heartbeat_response : ℕ → Reply
  no_reply : Reply

abbrev pub respond : ℕ → Result AppendReply → Result Reply
respond term (ok a) = ok (append_response term a)
respond term (raised f) = raised f

-- `_handle_raft_message`. A request for the node's health, or of no known type, changes nothing.
unfoldable pub handle_raft_message : ℕ → Message → Node → Result Reply × Node
handle_raft_message now (vote_request term sender last_index last_term) n =
    let (granted, m) = request_vote now term sender last_index last_term n in
    (ok (vote_response term granted), m)
handle_raft_message now (append_request term entries prev prev_term leader_commit) n =
    let (r, m) = append_entries now entries prev prev_term leader_commit n in (respond term r, m)
handle_raft_message now (heartbeat_request leader_commit) n =
    and_then (advance_commit leader_commit (record n { last_heartbeat = now }))
      (λ m. (ok (heartbeat_response m.current_term), m))
handle_raft_message now other_request n = (ok no_reply, n)

-- `_do_replicate`: the whole log, and the last entry as the one before it.
abbrev pub do_replicate : Node → Message
do_replicate n =
    append_request n.current_term n.log (length n.log) (last_log_term n.log) n.commit_count

abbrev pub do_heartbeat : Node → Message
do_heartbeat n = heartbeat_request n.commit_count

-- A heartbeat to a sound node is answered with its term; the node stays sound and keeps what it has
-- committed.
pub heartbeat-IsSound :
    (base : Dict NodeState) (now leader_commit : ℕ) (n : Node)
    → IsSound base n
    → let (r, m) = handle_raft_message now (heartbeat_request leader_commit) n in
      (r ≡ ok (heartbeat_response n.current_term)) × IsSound base m × Extends n m
unfolding handle_raft_message
heartbeat-IsSound base now leader_commit n s =
    let m = record n { last_heartbeat = now } in
    let sound : IsSound base m = record { applied = s.applied; bound = s.bound; table = s.table } in
    let (k, le, fits, e) = advance_commit_lem base m sound leader_commit in
    rw e (
      refl,
      record { applied = refl; bound = fits; table = refl },
      record { grows = le; keeps = refl },
    )

-- A leader that replicates sends its whole log as the entries, and names its last entry as the one
-- before them: a sound follower that has that log already accepts it, and then has every entry
-- twice.
pub replicate_twice :
    (base : Dict NodeState) (now : ℕ) (leader n : Node)
    → IsSound base n
    → n.log ≡ leader.log
    → let (r, m) = handle_raft_message now (do_replicate leader) n in
      (r ≡ ok (append_response leader.current_term accepted)) × (m.log ≡ leader.log ++ leader.log)
unfolding handle_raft_message
replicate_twice base now leader n s same =
    let (r, log) =
      append_entries_at_end base now leader.log leader.log leader.commit_count n s same in
    (ap (respond leader.current_term) r, log)
