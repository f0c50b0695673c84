-- ===== src/Raft/Node/Commit/Runs.antt =====
-- Every sequence of calls that reach a node, and what it keeps.
use prodinamik_engine.Prelude.{ℕ, ◌<◌, ◌≡◌, String, Bool, List, length}
use prodinamik_engine.Dict.{Dict}
use prodinamik_engine.Raft.Types.{Command, LogEntry, NodeState}
use prodinamik_engine.Raft.Log.Matching.{Agrees}
use prodinamik_engine.Raft.Node.{
  Node, become_follower, become_candidate, become_leader, request_vote, append_entries, propose,
  ack_entry,
}
use prodinamik_engine.Raft.Node.Commit.{
  IsSound, Extends, Extends-trans, IsQuiet-IsSound, IsQuiet-Extends, become_follower-IsQuiet,
  become_candidate-IsQuiet, request_vote-IsQuiet, become_leader-IsQuiet,
}
use prodinamik_engine.Raft.Node.Commit.Writes.{
  Extends-refl, append_entries_lem, propose_lem, ack_entry_lem,
}

-- The calls of the methods, with their arguments and what the clock and the peers answer.
pub data Event : Type 0 where
  follow : ℕ → ℕ → Event
  stand : ℕ → (String → Bool) → Event
  lead : Event
  vote : ℕ → ℕ → String → ℕ → ℕ → Event
  append : ℕ → List LogEntry → ℕ → ℕ → ℕ → Event
  submit : Command → Event
  ack : ℕ → String → Event

unfoldable pub deliver : Event → Node → Node
deliver (follow now term) n = become_follower now term n
deliver (stand now votes) n = become_candidate now votes n
deliver lead n = become_leader n
deliver (vote now term id last_index last_term) n =
    (request_vote now term id last_index last_term n).1
deliver (append now entries prev prev_term leader_commit) n =
    (append_entries now entries prev prev_term leader_commit n).1
deliver (submit command) n = (propose command n).1
deliver (ack index peer) n = (ack_entry index peer n).1

-- Entries sent by a leader agree with what the node has committed, and a peer acknowledges entries
-- that the node has.
abbrev pub Admissible : Event → Node → Type 0
Admissible (append now entries prev prev_term leader_commit) n =
    Agrees n.commit_count prev entries n.log
Admissible (ack index peer) n = index < length n.log
Admissible _ n = Unit

pub data Runs (n : Node) : Node → Type 0 where
  start : Runs n n
  then : {m k : Node} → Runs n m → (e : Event) → Admissible e m → k ≡ deliver e m → Runs n k

-- One call keeps the invariant, and what is committed.
pub record Keeps (base : Dict NodeState) (n m : Node) : Type 0 where
  pub sound : IsSound base m
  pub extends : Extends n m

deliver-Keeps :
    (base : Dict NodeState) (e : Event) (n : Node)
    → Admissible e n
    → IsSound base n
    → Keeps base n (deliver e n)
unfolding deliver
deliver-Keeps base (follow now term) n a s =
    let q = become_follower-IsQuiet now n term in
    record { sound = IsQuiet-IsSound q s; extends = IsQuiet-Extends q }
deliver-Keeps base (stand now votes) n a s =
    let q = become_candidate-IsQuiet now n votes in
    record { sound = IsQuiet-IsSound q s; extends = IsQuiet-Extends q }
deliver-Keeps base lead n a s =
    let q = become_leader-IsQuiet n in
    record { sound = IsQuiet-IsSound q s; extends = IsQuiet-Extends q }
deliver-Keeps base (vote now term id last_index last_term) n a s =
    let q = request_vote-IsQuiet now n term id last_index last_term in
    record { sound = IsQuiet-IsSound q s; extends = IsQuiet-Extends q }
deliver-Keeps base (append now es prev prev_term leader_commit) n a s =
    let w = append_entries_lem base now es prev prev_term leader_commit n s a in
    record { sound = w.sound; extends = w.extends }
deliver-Keeps base (submit command) n a s =
    let w = propose_lem base command n s in record { sound = w.sound; extends = w.extends }
deliver-Keeps base (ack index peer) n a s =
    let w = ack_entry_lem base index peer n s a in record { sound = w.sound; extends = w.extends }

-- From a sound node, whatever admissible calls reach it: the node stays sound, so its table of
-- states is the replay of its committed entries over `base`, its commit index stays within its log,
-- and the entries that were committed at the start are still there, in their places.
pub Runs-Keeps : {base : Dict NodeState} {n m : Node} → IsSound base n → Runs n m → Keeps base n m
Runs-Keeps {n = n} s start = record { sound = s; extends = Extends-refl n }
Runs-Keeps {base} s (then {m = m} r e a eq) =
    let before = Runs-Keeps s r in
    let after = deliver-Keeps base e m a before.sound in
    rw eq (record { sound = after.sound; extends = Extends-trans before.extends after.extends })
