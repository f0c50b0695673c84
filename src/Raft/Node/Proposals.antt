-- ===== src/Raft/Node/Proposals.antt =====
-- What `propose` and `ack_entry` do on each branch.
use prodinamik_engine.Prelude.{
  ℕ, ◌+◌, ◌≤◌, ◌<◌, ◌≡◌, refl, ◌∙◌, ap, String, Bool, true, false, Option, none, some, List, [],
  ◌∷◌, ◌++◌, arith, ltb, length, Bool-cases, inl, inr, length-append, lt→ltb, take-length,
}
use prodinamik_engine.Dict.{Dict}
use prodinamik_engine.Raft.Types.{Command, NodeState, is_leader, Result, ok, raised, index_error}
use prodinamik_engine.Raft.Node.{
  Node, Acks, apply_committed, save_log, check_majority, propose, proposed, ack_entry, acknowledged,
  acks_of, put_acks, replicate_all,
}
use prodinamik_engine.Raft.Node.Apply.{replay, apply_committed_raises, and_then_raised}
use prodinamik_engine.Raft.Node.Commit.{IsSound}
use prodinamik_engine.Raft.Node.Commit.Writes.{commit_to, proposed-IsSound, entry_of}

module _ (index : ℕ) (ids : List String) where
  acks_of-put_acks_self : (acks : Acks) → acks_of (put_acks acks index ids) index ≡ ids
  unfolding acks_of put_acks
  acks_of-put_acks_self [] = ground arith
  acks_of-put_acks_self ((i, old) ∷ acks) = ground (arith, acks_of-put_acks_self acks)

-- The leader's own acknowledgement is a majority exactly if it has at most one peer.
own_ack_majority :
    (c : Command) (n : Node) → check_majority (length n.log) (proposed c n) ≡ ltb (length n.peers) 2
unfolding check_majority
own_ack_majority c n =
    rw (acks_of-put_acks_self (length n.log) (n.node_id ∷ []) n.pending_acks) (ground arith)

-- A node that does not lead refuses a command and is left as it was.
pub propose_refused :
    (c : Command) (n : Node)
    → is_leader n.role ≡ false
    → propose c n ≡ (ok (false, some "Not leader"), n)
unfolding propose
propose_refused c n h = rw h

-- A leader with two peers or more saves the entry, counts its own acknowledgement and sends the
-- entry to every peer, and commits and applies nothing.
pub propose_waits :
    (c : Command) (n : Node)
    → is_leader n.role ≡ true
    → 2 ≤ length n.peers
    → propose c n ≡ (ok (true, none), replicate_all (proposed c n))
unfolding propose
propose_waits c n leads many =
    let few : check_majority (length n.log) (proposed c n) ≡ false =
      own_ack_majority c n ∙ ground arith in
    rw leads (rw few)

-- A leader with one peer or none commits and applies its new entry before any peer has seen it,
-- with all that stood in its log: its table is then the replay of its whole log.
pub propose_alone_commits :
    (base : Dict NodeState) (c : Command) (n : Node)
    → IsSound base n
    → is_leader n.role ≡ true
    → length n.peers < 2
    → ((propose c n).0 ≡ ok (true, none))
      × ((propose c n).1.commit_count ≡ length n.log + 1)
      × ((propose c n).1.state_machine ≡ replay base (propose c n).1.log)
unfolding propose save_log
propose_alone_commits base c n s leads few =
    let enough : check_majority (length n.log) (proposed c n) ≡ true =
      own_ack_majority c n ∙ ground arith in
    let kept = proposed-IsSound base c n s in
    let size : length n.log + 1 ≡ length (proposed c n).log =
      omega (arith, length-append n.log ((entry_of c n) ∷ [])) in
    rw leads (
      rw enough (
        rw
          (commit_to base (proposed c n) kept (length n.log + 1) (omega (arith, s.bound))
            (omega arith))
          (refl, refl, ap (replay base) (rw size (take-length (proposed c n).log)))))

-- The command is accepted, with the role kept and one entry more at the end of the log.
pub record Accepts (c : Command) (n : Node) (r : Result (Bool × Option String) × Node)
    : Type 0 where
  pub answer : r.0 ≡ ok (true, none)
  pub role : r.1.role ≡ n.role
  pub log : r.1.log ≡ n.log ++ entry_of c n ∷ []

-- A leader whose state is sound accepts every command, keeps its role, and puts one entry at the end of
-- its log.
pub propose-Accepts :
    (base : Dict NodeState) (c : Command) (n : Node)
    → IsSound base n
    → is_leader n.role ≡ true
    → Accepts c n (propose c n)
unfolding propose save_log
propose-Accepts base c n s leads =
    let size = length-append n.log (entry_of c n ∷ []) in
    elim (Bool-cases (check_majority (length n.log) (proposed c n))) [
      | inr few ↦ rw leads (rw few (record { answer = refl; role = refl; log = refl }))
      | inl enough ↦ rw leads (
          rw enough (
            rw
              (commit_to base (proposed c n) (proposed-IsSound base c n s) (length n.log + 1)
                (omega (arith, s.bound)) (omega (arith, size)))
              (record { answer = refl; role = refl; log = refl })))
    ]

-- An acknowledgement that makes a majority for an index past the end of the log raises `IndexError`.
pub ack_past_end_raises :
    (base : Dict NodeState) (index : ℕ) (peer : String) (n : Node)
    → IsSound base n
    → length n.log ≤ index
    → check_majority index (acknowledged index peer n) ≡ true
    → (ack_entry index peer n).0 ≡ raised index_error
unfolding ack_entry
ack_past_end_raises base index peer n s past enough = rw enough (
    rw (lt→ltb n.commit_count (index + 1) (omega (arith, s.bound))) (
      and_then_raised (apply_committed _) _ (
        apply_committed_raises (record (acknowledged index peer n) { commit_count = index + 1 })
          (omega (arith, s.applied, s.bound)) (omega arith))))
