-- ===== src/Raft/Node/Election/Votes.antt =====
-- How often a node votes in a term, and for whom.
use prodinamik_engine.Prelude.{
  ℕ, ◌+◌, ◌≤◌, ◌<◌, ◌≡◌, refl, ◌∙◌, inl, inr, String, Bool, true, none, some, arith, ltb, eq_iff,
  Bool-cases, length,
}
use prodinamik_engine.Raft.Log.{last_log_term}
use prodinamik_engine.Raft.Node.{
  Node, request_vote, become_candidate, become_leader, become_follower,
}
use prodinamik_engine.Raft.Node.Commit.Runs.{
  Event, follow, stand, lead, vote, append, submit, ack, deliver,
}
use prodinamik_engine.Raft.Node.Election.Ballots.{
  SameBallot, append_entries-SameBallot, propose-SameBallot, ack_entry-SameBallot,
}

-- The node has voted for `id` in `term`, or has gone on to a later term.
pub data HasVoted (term : ℕ) (id : String) (n : Node) : Type 0 where
  voted : n.current_term ≡ term → n.voted_for ≡ some id → HasVoted term id n
  later : term < n.current_term → HasVoted term id n

SameBallot-HasVoted :
    {n m : Node} (term : ℕ) (id : String) → SameBallot n m → HasVoted term id n → HasVoted term id m
SameBallot-HasVoted term id s (voted t v) = voted (s.term ∙ t) (s.vote ∙ v)
SameBallot-HasVoted term id s (later h) = later (omega (arith, s.term))

-- A granted vote is on record.
request_vote-HasVoted :
    (now term : ℕ) (id : String) (i t : ℕ) (n : Node)
    → (request_vote now term id i t n).0 ≡ true
    → HasVoted term id (request_vote now term id i t n).1
unfolding request_vote
request_vote-HasVoted now term id i t n h = voted (ground arith) (ground arith)

-- Of a node that has voted in the term, only the same candidate gets a vote in it.
request_vote-same :
    (now term : ℕ) (id b : String) (i t : ℕ) (n : Node)
    → HasVoted term id n
    → (request_vote now term b i t n).0 ≡ true
    → id ≡ b
unfolding request_vote
request_vote-same now term id b i t n (voted e v) h = ground (arith, eq_iff id b)
request_vote-same now term id b i t n (later l) h = ground arith

request_vote_keeps :
    (now term ct : ℕ) (id b : String) (i t : ℕ) (n : Node)
    → HasVoted term id n
    → HasVoted term id (request_vote now ct b i t n).1
unfolding request_vote
request_vote_keeps now term ct id b i t n (later l) = later (ground arith)
request_vote_keeps now term ct id b i t n (voted e v) = elim (Bool-cases (ltb n.current_term ct)) [
  | inl up ↦ later (ground arith)
  | inr down ↦ voted (ground arith) (ground (arith, eq_iff id b))
]

become_candidate-later :
    (now : ℕ) (grant : String → Bool) (n : Node)
    → (become_candidate now grant n).current_term ≡ n.current_term + 1
unfolding become_candidate become_leader
become_candidate-later now grant n = ground arith

HasVoted-le : {term : ℕ} {id : String} {n : Node} → HasVoted term id n → term ≤ n.current_term
HasVoted-le (voted e v) = omega arith
HasVoted-le (later l) = omega arith

-- A call that does not force the node's term from outside.
abbrev pub KeepsTerm : Event → Type 0
KeepsTerm (follow now term) = ⊥
KeepsTerm _ = Unit

pub data Calls (n : Node) : Node → Type 0 where
  start : Calls n n
  then : {m k : Node} → Calls n m → (e : Event) → KeepsTerm e → k ≡ deliver e m → Calls n k

deliver-HasVoted :
    (term : ℕ) (id : String) (e : Event) (n : Node)
    → KeepsTerm e
    → HasVoted term id n
    → HasVoted term id (deliver e n)
unfolding deliver become_leader
deliver-HasVoted term id (follow now t) n k h = elim k [ ]
deliver-HasVoted term id (stand now votes) n k h =
    later (omega (arith, become_candidate-later now votes n, HasVoted-le h))
deliver-HasVoted term id lead n k h =
    SameBallot-HasVoted term id (record { term = refl; vote = refl }) h
deliver-HasVoted term id (vote now ct b i t) n k h = request_vote_keeps now term ct id b i t n h
deliver-HasVoted term id (append now es prev prev_term leader_commit) n k h =
    SameBallot-HasVoted term id (append_entries-SameBallot now es prev prev_term leader_commit n) h
deliver-HasVoted term id (submit c) n k h = SameBallot-HasVoted term id (propose-SameBallot c n) h
deliver-HasVoted term id (ack index peer) n k h =
    SameBallot-HasVoted term id (ack_entry-SameBallot index peer n) h

Calls-HasVoted :
    {n m : Node} (term : ℕ) (id : String) → Calls n m → HasVoted term id n → HasVoted term id m
Calls-HasVoted term id start h = h
Calls-HasVoted term id (then {m = m} r e a eq) h =
    rw eq (deliver-HasVoted term id e m a (Calls-HasVoted term id r h))

-- A node that grants its vote in a term grants it to no other candidate in that term, whatever
-- calls come between the two requests, as long as `become_follower` is not called from outside.
pub one_vote_per_term :
    (now now' term : ℕ) (a b : String) (i j t u : ℕ) (n m : Node)
    → (request_vote now term a i t n).0 ≡ true
    → Calls (request_vote now term a i t n).1 m
    → (request_vote now' term b j u m).0 ≡ true
    → a ≡ b
one_vote_per_term now now' term a b i j t u n m first between second =
    request_vote-same now' term a b j u m
      (Calls-HasVoted term a between (request_vote-HasVoted now term a i t n first)) second

-- A call of `become_follower` with the node's own term forgets the vote: the node then grants its
-- vote to any candidate of that term whose last log term is not behind its own.
pub follow_forgets_vote :
    (now now' : ℕ) (b : String) (i t : ℕ) (n : Node)
    → last_log_term n.log ≤ t
    → (request_vote now' n.current_term b i t (become_follower now n.current_term n)).0 ≡ true
unfolding request_vote become_follower
follow_forgets_vote now now' b i t n h = ground arith

-- The length of the candidate's log plays no part: with an empty vote, a candidate of the node's
-- term gets it as soon as its last log term is not behind, however much shorter its log is.
pub shorter_log_wins_vote :
    (now : ℕ) (b : String) (i t : ℕ) (n : Node)
    → n.voted_for ≡ none
    → last_log_term n.log ≤ t
    → i < length n.log
    → (request_vote now n.current_term b i t n).0 ≡ true
unfolding request_vote
shorter_log_wins_vote now b i t n free fresh short = ground arith
