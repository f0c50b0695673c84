-- ===== src/Examples/Raft.antt =====
-- A small cluster, and the theorems on the nodes of engine/raft_consensus.py applied to it.
use prodinamik_engine.Prelude.{
  ℕ, ◌≡◌, ◌≢◌, refl, inl, String, Bool, true, false, none, some, List, [], ◌∷◌, ◌++◌, arith, length,
  str_eq, contains, discard, ◌&&◌, take,
}
use prodinamik_engine.Dict
use prodinamik_engine.Dict.{Dict}
use prodinamik_engine.Raft.Types.{NodeRole, Command, LogEntry, NodeState, PendingOperation, ok}
use prodinamik_engine.Raft.Log.{last_log_term, prev_entry, merge_entries}
use prodinamik_engine.Raft.Log.Matching.{Holds}
use prodinamik_engine.Raft.Node.{
  Node, become_candidate, become_follower, become_leader, count_votes, request_vote, append_entries,
  propose, append_checked, advance_commit, save_log,
}
use prodinamik_engine.Raft.Node.Apply.{replay}
use prodinamik_engine.Raft.Node.Commit.{IsSound}
use prodinamik_engine.Raft.Node.Commit.Runs.{Event, Runs, Keeps, deliver, Runs-Keeps}
use prodinamik_engine.Raft.Node.Election.{votes_of, election_overlap}
use prodinamik_engine.Raft.Node.Election.Votes.{Calls, one_vote_per_term}
use prodinamik_engine.Raft.Node.Appends.{accepted, append_entries_matches}
use prodinamik_engine.Raft.Node.Proposals.{Accepts, propose-Accepts}
use prodinamik_engine.Raft.Merge.{path_between, merge}
use prodinamik_engine.Raft.Merge.Search.{IsPath}
use prodinamik_engine.Raft.Merge.Search.Complete.{Reaches, here, next, path_between_lem}
use prodinamik_engine.Raft.Merge.Laws.{merge_agrees}
use prodinamik_engine.Raft.Transport.{
  handle_raft_message, append_response, do_replicate, replicate_twice,
}
use prodinamik_engine.Raft.Offline.{Offline, go_online, pending_count}
use prodinamik_engine.Raft.Offline.Sync.{commands_of, go_online_delivers}

abbrev create : Command
create = record {
  slug = some "run";
  type = some "create";
  to_state = none;
  initial_state = some "draft";
}

abbrev entry : ℕ → ℕ → LogEntry
entry term index = record { term = term; index = index; command = create }

abbrev node : String → NodeRole → List String → ℕ → List LogEntry → Node
node id role peers term log = record {
  node_id = id;
  role = role;
  peers = peers;
  current_term = term;
  voted_for = none;
  log = log;
  commit_count = 0;
  applied_count = 0;
  state_machine = [];
  last_heartbeat = 0;
  transitions = [];
  pending_acks = [];
  saved_log = [];
  saved_snapshot = [];
  calls = [];
}

abbrev follower_b : Node
follower_b = node "b" NodeRole.follower ("a" ∷ "c" ∷ []) 1 (entry 1 0 ∷ entry 1 1 ∷ [])

abbrev leader_a : Node
leader_a = node "a" NodeRole.leader ("b" ∷ "c" ∷ []) 1 (entry 1 0 ∷ entry 1 1 ∷ [])

abbrev pair_leader : Node
pair_leader = node "a" NodeRole.leader ("b" ∷ []) 1 (entry 1 0 ∷ [])

follower_b-IsSound : IsSound [] follower_b
unfolding replay
follower_b-IsSound = record { applied = refl; bound = omega arith; table = refl }

leader_a-IsSound : IsSound [] leader_a
unfolding replay
leader_a-IsSound = record { applied = refl; bound = omega arith; table = refl }

pair_leader-IsSound : IsSound [] pair_leader
unfolding replay
pair_leader-IsSound = record { applied = refl; bound = omega arith; table = refl }

Runs-Keeps_example :
    Keeps [] follower_b (
      deliver (Event.vote 6 2 "a" 1 1) (deliver (Event.append 5 (entry 2 1 ∷ []) 1 1 2) follower_b))
Runs-Keeps_example = Runs-Keeps {base = []} {n = follower_b} follower_b-IsSound (
    Runs.then
      (Runs.then Runs.start (Event.append 5 (entry 2 1 ∷ []) 1 1 2) (λ h. ground arith, tt) refl)
      (Event.vote 6 2 "a" 1 1) tt refl)

abbrev says_c : String → Bool
says_c peer = str_eq peer "c"

abbrev voter : String → List String → Node
voter id peers = node id NodeRole.follower peers 1 []

election_overlap_example :
    (x : String) × (contains ("a" ∷ "b" ∷ "c" ∷ []) x ≡ true)
    × ((votes_of "a" says_c x && votes_of "b" says_c x) ≡ true)
unfolding become_candidate count_votes become_leader discard
election_overlap_example =
    election_overlap ("a" ∷ "b" ∷ "c" ∷ []) 1 (voter "a" ("b" ∷ "c" ∷ []))
      (voter "b" ("a" ∷ "c" ∷ [])) 5 says_c says_c refl refl refl refl refl refl refl

abbrev candidate_a : String
candidate_a = "a"

one_vote_per_term_example : candidate_a ≡ candidate_a
unfolding request_vote become_follower last_log_term deliver append_entries prev_entry
    append_checked advance_commit save_log merge_entries
one_vote_per_term_example =
    one_vote_per_term 5 6 2 candidate_a candidate_a 1 1 1 1 follower_b
      (deliver (Event.append 6 [] 2 1 0) (request_vote 5 2 candidate_a 1 1 follower_b).1) refl
      (Calls.then Calls.start (Event.append 6 [] 2 1 0) tt refl) refl

append_entries_matches_example :
    let (r, m) = append_entries 5 (entry 2 1 ∷ entry 2 2 ∷ []) 1 1 2 follower_b in
    (r ≡ ok accepted)
    × Holds 1 (entry 2 1 ∷ entry 2 2 ∷ []) m.log
    × (take 1 m.log ≡ entry 1 0 ∷ [])
    × (m.saved_log ≡ m.log)
unfolding prev_entry
append_entries_matches_example =
    append_entries_matches [] 5 (entry 2 1 ∷ entry 2 2 ∷ []) 1 1 2 follower_b follower_b-IsSound
      (λ h. ground arith, (λ h. ground arith, tt)) (omega arith) (λ e h. ground arith)

abbrev ready_b : Node
ready_b = record follower_b { commit_count = 1 }

propose-Accepts_example : Accepts create leader_a (propose create leader_a)
propose-Accepts_example = propose-Accepts [] create leader_a leader_a-IsSound refl

replicate_twice_example :
    let (r, m) = handle_raft_message 5 (do_replicate leader_a) follower_b in
    (r ≡ ok (append_response 1 accepted)) × (m.log ≡ leader_a.log ++ leader_a.log)
replicate_twice_example = replicate_twice [] 5 leader_a follower_b follower_b-IsSound refl

-- A table of transitions, and states of one run.
abbrev table : Dict (List String)
table = ("draft", "review" ∷ []) ∷ ("review", "done" ∷ []) ∷ []

abbrev at : String → ℕ → NodeState
at place version = record { current_state = place; version = version }

reaches_done : Reaches table "draft" "done"
unfolding Dict.get
reaches_done = Reaches.next {y = "review"} (Reaches.next {y = "draft"} Reaches.here refl) refl

path_between_lem_example :
    ((p : List String) → path_between table "draft" "done" ≡ some p → IsPath table "draft" "done" p)
    × (Reaches table "draft" "done"
        → (p : List String) × (path_between table "draft" "done" ≡ some p))
path_between_lem_example = path_between_lem table "draft" "done"

merge_agrees_example :
    merge (at "draft" 1) (at "review" 2) table ≡ merge (at "review" 2) (at "draft" 1) table
merge_agrees_example = merge_agrees (at "draft" 1) (at "review" 2) table (inl (λ h. ground arith))

alone : (x y : String) → x ≢ y → ¬ Reaches [] x y
unfolding Dict.get
alone x y h here = h refl
alone x y h (next r c) = ground arith

abbrev waiting_op : PendingOperation
waiting_op = record { command = create; local_version = 1; applied = false }

abbrev away : Offline
away = record { local_node = follower_b; pending = waiting_op ∷ []; is_offline = true }

go_online_delivers_example :
    let (r, o, leader) = go_online away leader_a in
    (r ≡ ok tt)
    × (pending_count o.pending ≡ 0)
    × (length leader.log ≡ 3)
    × (commands_of leader.log ≡ commands_of leader_a.log ++ create ∷ [])
    × IsSound [] leader
    × (o.local_node.role ≡ NodeRole.follower)
    × (o.is_offline ≡ false)
unfolding pending_count
go_online_delivers_example = go_online_delivers [] away leader_a leader_a-IsSound refl
