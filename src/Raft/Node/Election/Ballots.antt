-- ===== src/Raft/Node/Election/Ballots.antt =====
-- What the methods do to a node's term and vote.
use prodinamik_engine.Prelude.{
  ℕ, zero, suc, ◌+◌, ◌-◌, ◌≡◌, refl, inl, inr, String, List, ltb, get_elem?, Bool-cases,
  Option-cases, ◌==◌, length,
}
use prodinamik_engine.Raft.Types.{Command, LogEntry, Result, ok, raised, is_leader}
use prodinamik_engine.Raft.Log.{prev_entry}
use prodinamik_engine.Raft.Node.{
  Node, and_then, apply_loop, apply_committed, save_log, advance_commit, append_checked,
  append_entries, check_majority, propose, ack_entry, proposed, acknowledged,
}

-- The later node has the term and the vote of the earlier one.
pub record SameBallot (n m : Node) : Type 0 where
  pub term : m.current_term ≡ n.current_term
  pub vote : m.voted_for ≡ n.voted_for

and_then-SameBallot {ℓ} :
    {A : Type ℓ} (n : Node) (r : Result (Unit {0}) × Node) (k : Node → Result A × Node)
    → SameBallot n r.1
    → ((m : Node) → SameBallot n m → SameBallot n (k m).1)
    → SameBallot n (and_then r k).1
and_then-SameBallot n (ok u, m) k s h = h m s
and_then-SameBallot n (raised f, m) k s h = s

apply_loop-SameBallot :
    (fuel : ℕ) (n m : Node) → SameBallot n m → SameBallot n (apply_loop fuel m).1
unfolding apply_loop
apply_loop-SameBallot zero n m s = s
apply_loop-SameBallot (suc fuel) n m s = elim (Bool-cases (ltb m.applied_count m.commit_count)) [
  | inr done ↦ rw (done, apply_loop) s
  | inl more ↦ elim (Option-cases (get_elem? m.log m.applied_count)) [
    | inl off ↦
        rw (more, apply_loop) (rw (off, apply_loop) (record { term = s.term; vote = s.vote }))
    | inr (e, here) ↦
        rw (more, apply_loop)
          (rw (here, apply_loop)
            (apply_loop-SameBallot fuel n _ (record { term = s.term; vote = s.vote })))
  ]
]

apply_committed-SameBallot : (n m : Node) → SameBallot n m → SameBallot n (apply_committed m).1
unfolding apply_committed
apply_committed-SameBallot n m s = apply_loop-SameBallot (m.commit_count - m.applied_count) n m s

advance_commit-SameBallot :
    (leader_commit : ℕ) (n m : Node)
    → SameBallot n m
    → SameBallot n (advance_commit leader_commit m).1
unfolding advance_commit
advance_commit-SameBallot leader_commit n m s =
    elim (Bool-cases (ltb m.commit_count leader_commit)) [
      | inl more ↦
          rw more (apply_committed-SameBallot n _ (record { term = s.term; vote = s.vote }))
      | inr less ↦ rw less s
    ]

append_checked-SameBallot :
    (now : ℕ) (es : List LogEntry) (prev leader_commit : ℕ) (n : Node)
    → SameBallot n (append_checked now es prev leader_commit n).1
unfolding append_checked save_log
append_checked-SameBallot now es prev leader_commit n =
    and_then-SameBallot n (advance_commit leader_commit _) _
      (advance_commit-SameBallot leader_commit n _ (record { term = refl; vote = refl }))
      (λ m s. record { term = s.term; vote = s.vote })

pub append_entries-SameBallot :
    (now : ℕ) (es : List LogEntry) (prev prev_term leader_commit : ℕ) (n : Node)
    → SameBallot n (append_entries now es prev prev_term leader_commit n).1
unfolding append_entries
append_entries-SameBallot now es prev prev_term leader_commit n =
    let checked = append_checked-SameBallot now es prev leader_commit n in
    elim (Option-cases (prev_entry prev n.log)) [
      | inl p ↦ rw (p, append_entries) checked
      | inr (old, p) ↦ elim (Bool-cases (old.term == prev_term)) [
        | inl same ↦ rw (p, append_entries) (rw same checked)
        | inr ne ↦ rw (p, append_entries) (rw ne (record { term = refl; vote = refl }))
      ]
    ]

pub propose-SameBallot : (c : Command) (n : Node) → SameBallot n (propose c n).1
unfolding propose save_log
propose-SameBallot c n = elim (Bool-cases (is_leader n.role)) [
  | inr other ↦ rw other (record { term = refl; vote = refl })
  | inl leads ↦ elim (Bool-cases (check_majority (length n.log) (proposed c n))) [
    | inl enough ↦ rw leads (
        rw enough (
          and_then-SameBallot n (apply_committed _) _
            (apply_committed-SameBallot n _ (record { term = refl; vote = refl }))
            (λ m s. record { term = s.term; vote = s.vote })))
    | inr few ↦ rw leads (rw few (record { term = refl; vote = refl }))
  ]
]

pub ack_entry-SameBallot :
    (index : ℕ) (peer : String) (n : Node) → SameBallot n (ack_entry index peer n).1
unfolding ack_entry save_log
ack_entry-SameBallot index peer n =
    let m = acknowledged index peer n in
    elim (Bool-cases (check_majority index m)) [
      | inr few ↦ rw few (record { term = refl; vote = refl })
      | inl enough ↦ elim (Bool-cases (ltb n.commit_count (index + 1))) [
        | inr less ↦ rw enough (rw less (record { term = refl; vote = refl }))
        | inl more ↦ rw enough (
            rw more (
              and_then-SameBallot n (apply_committed (record m { commit_count = index + 1 })) _
                (apply_committed-SameBallot n _ (record { term = refl; vote = refl }))
                (λ k s. record { term = s.term; vote = s.vote })))
      ]
    ]
