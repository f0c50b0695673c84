-- ===== src/Raft/Node/Commit.antt =====
-- The commit invariant of a node, and the methods that leave the log alone.
pub mod Writes
pub mod Runs
use prodinamik_engine.Prelude.{
  ℕ, ◌+◌, ◌≤◌, ◌<◌, ◌≡◌, refl, sym, ◌∙◌, ap, String, Bool, true, false, Option, none, some, List,
  [], ◌∷◌, ◌++◌, arith, ltb, ◌==◌, length, take, take-append, take-take, length-append, Bool-cases,
  Option-cases, inl, inr, min,
}
use prodinamik_engine.Dict.{Dict}
use prodinamik_engine.Raft.Types.{Command, LogEntry, NodeState, ok}
use prodinamik_engine.Raft.Log.{prev_entry, merge_entries}
use prodinamik_engine.Raft.Log.Matching.{Agrees, Holds, take-merge_entries}
use prodinamik_engine.Raft.Node.{
  Node, become_follower, become_candidate, become_leader, request_vote, apply_committed, save_log,
  advance_commit, append_checked, append_entries, check_majority, propose, ack_entry, replicate_all,
  put_acks,
}
use prodinamik_engine.Raft.Node.Apply.{
  IsReplayed, replay, caught_up, caught_up_id, apply_committed_lem,
}

-- Between two calls: what is committed is applied, it lies in the log, and the table is what the
-- committed entries make of `base`.
pub record IsSound (base : Dict NodeState) (n : Node) : Type 0 where
  pub applied : n.applied_count ≡ n.commit_count
  pub bound : n.commit_count ≤ length n.log
  pub table : n.state_machine ≡ replay base (take n.commit_count n.log)

-- The later node has the committed entries of the earlier one, and perhaps more.
pub record Extends (n m : Node) : Type 0 where
  pub grows : n.commit_count ≤ m.commit_count
  pub keeps : take n.commit_count m.log ≡ take n.commit_count n.log

pub Extends-trans : {n m k : Node} → Extends n m → Extends m k → Extends n k
Extends-trans {n} {m} {k} a b = record {
  grows = omega (arith, a.grows, b.grows);
  keeps =
      sym (take-take n.commit_count m.commit_count k.log a.grows)
      ∙ ap (take n.commit_count) b.keeps
      ∙ take-take n.commit_count m.commit_count m.log a.grows
      ∙ a.keeps;
}

-- A method that leaves the log, the indices and the table alone.
pub record IsQuiet (n m : Node) : Type 0 where
  pub log : m.log ≡ n.log
  pub commit : m.commit_count ≡ n.commit_count
  pub applied : m.applied_count ≡ n.applied_count
  pub table : m.state_machine ≡ n.state_machine

module _ {base : Dict NodeState} {n m : Node} (q : IsQuiet n m) where
  pub IsQuiet-IsSound : IsSound base n → IsSound base m
  IsQuiet-IsSound s = record {
    applied = q.applied ∙ s.applied ∙ sym q.commit;
    bound = rw (q.log, q.commit) s.bound;
    table = rw (q.log, q.commit) (q.table ∙ s.table);
  }

pub IsQuiet-Extends : {n m : Node} → IsQuiet n m → Extends n m
IsQuiet-Extends {n} {m} q = record { grows = omega (arith, q.commit); keeps = rw q.log }

module _ (now : ℕ) (n : Node) where
  pub become_follower-IsQuiet : (term : ℕ) → IsQuiet n (become_follower now term n)
  unfolding become_follower
  become_follower-IsQuiet term = record { log = refl; commit = refl; applied = refl; table = refl }

  pub become_candidate-IsQuiet : (vote : String → Bool) → IsQuiet n (become_candidate now vote n)
  unfolding become_candidate become_leader
  become_candidate-IsQuiet vote = ground arith

  pub request_vote-IsQuiet :
      (term : ℕ) (id : String) (i t : ℕ) → IsQuiet n (request_vote now term id i t n).1
  unfolding request_vote
  request_vote-IsQuiet term id i t = ground arith

pub become_leader-IsQuiet : (n : Node) → IsQuiet n (become_leader n)
unfolding become_leader
become_leader-IsQuiet n = record { log = refl; commit = refl; applied = refl; table = refl }

-- Moving the commit index on within the log applies what is new.
pub commit_to :
    (base : Dict NodeState) (n : Node) (k : ℕ)
    → IsReplayed base n
    → n.applied_count ≤ k
    → k ≤ length n.log
    → apply_committed (record n { commit_count = k })
      ≡ (ok tt, caught_up base (record n { commit_count = k }))
commit_to base n k r le h = apply_committed_lem base (record n { commit_count = k }) r le h

pub IsSound-IsReplayed : {base : Dict NodeState} {n : Node} → IsSound base n → IsReplayed base n
IsSound-IsReplayed s = rw s.applied s.table
