-- ===== src/Raft/Node/Commit/Writes.antt =====
-- The methods that write the log (`append_entries`, `propose`, `ack_entry`) and the commit
-- invariant.
use prodinamik_engine.Prelude.{
  ℕ, ◌+◌, ◌≤◌, ◌<◌, ◌≡◌, refl, ap, String, List, [], ◌∷◌, arith, ltb, ◌==◌, length, take-append,
  length-append, Bool-cases, Option-cases, inl, inr, min, ltb→lt,
}
use prodinamik_engine.Dict.{Dict}
use prodinamik_engine.Raft.Types.{Command, LogEntry, NodeState, Result, ok, is_leader}
use prodinamik_engine.Raft.Log.{prev_entry, merge_entries}
use prodinamik_engine.Raft.Log.Matching.{Agrees, take-merge_entries}
use prodinamik_engine.Raft.Node.{
  Node, apply_committed, save_log, advance_commit, append_checked, append_entries, check_majority,
  propose, ack_entry, proposed, acknowledged,
}
use prodinamik_engine.Raft.Node.Apply.{caught_up, caught_up_id, apply_committed_lem}
use prodinamik_engine.Raft.Node.Commit.{IsSound, Extends, IsSound-IsReplayed}

-- A node with all of `k` committed entries applied is sound.
caught_up-IsSound :
    (base : Dict NodeState) (n : Node) (k : ℕ)
    → k ≤ length n.log
    → IsSound base (caught_up base (record n { commit_count = k }))
caught_up-IsSound base n k h = record { applied = refl; bound = h; table = refl }

-- What the methods that write promise: they return, and keep the invariant and what is committed.
pub record Writes {ℓ} (base : Dict NodeState) (A : Type ℓ) (n : Node) (r : Result A × Node)
    : Type ℓ where
  pub answer : A
  pub returns : r.0 ≡ ok answer
  pub sound : IsSound base r.1
  pub extends : Extends n r.1

module _ (base : Dict NodeState) (n : Node) (sound : IsSound base n) where
  -- Moving the commit index on within the log applies what is new.
  pub commit_to :
      (k : ℕ)
      → n.commit_count ≤ k
      → k ≤ length n.log
      → apply_committed (record n { commit_count = k })
        ≡ (ok tt, caught_up base (record n { commit_count = k }))
  commit_to k le h =
      apply_committed_lem base (record n { commit_count = k }) (IsSound-IsReplayed sound)
        (omega (arith, sound.applied)) h

  pub advance_commit_lem :
      (leader_commit : ℕ)
      → (k : ℕ) × (n.commit_count ≤ k)
        × (k ≤ length n.log)
        × (advance_commit leader_commit n ≡ (ok tt, caught_up base (record n { commit_count = k })))
  unfolding advance_commit
  advance_commit_lem leader_commit = elim (Bool-cases (ltb n.commit_count leader_commit)) [
    | inl more ↦ (
      min leader_commit (length n.log),
      omega (arith, sound.bound, ltb→lt n.commit_count leader_commit more),
      omega arith,
      rw more (
          commit_to (min leader_commit (length n.log))
            (omega (arith, sound.bound, ltb→lt n.commit_count leader_commit more)) (omega arith)),
    )
    | inr less ↦ (
      n.commit_count,
      omega arith,
      sound.bound,
      rw less (ap (λ m. (ok tt, m)) (caught_up_id base n (IsSound-IsReplayed sound) sound.applied)),
    )
  ]

append_checked_lem :
    (base : Dict NodeState) (now : ℕ) (es : List LogEntry) (prev leader_commit : ℕ) (n : Node)
    → IsSound base n
    → Agrees n.commit_count prev es n.log
    → Writes base _ n (append_checked now es prev leader_commit n)
unfolding append_checked save_log
append_checked_lem base now es prev leader_commit n s agree =
    let kept = take-merge_entries n.commit_count prev es n.log s.bound agree in
    let m = record n { log = merge_entries prev es n.log } in
    let sound : IsSound base m = record {
      applied = s.applied;
      bound = kept.1;
      table = rw kept.0 s.table;
    } in
    let (k, le, fits, e) = advance_commit_lem base m sound leader_commit in
    rw e (record {
      answer = _;
      returns = refl;
      sound = record { applied = refl; bound = fits; table = refl };
      extends = record { grows = le; keeps = kept.0 };
    })

pub Extends-refl : (n : Node) → Extends n n
Extends-refl n = record { grows = omega arith; keeps = refl }

-- `append_entries`, where the entries do not contradict what is committed.
pub append_entries_lem :
    (base : Dict NodeState) (now : ℕ) (es : List LogEntry) (prev prev_term leader_commit : ℕ)
    (n : Node)
    → IsSound base n
    → Agrees n.commit_count prev es n.log
    → Writes base _ n (append_entries now es prev prev_term leader_commit n)
unfolding append_entries
append_entries_lem base now es prev prev_term leader_commit n s agree =
    elim (Option-cases (prev_entry prev n.log)) [
      | inl p ↦ rw (p, append_entries) (append_checked_lem base now es prev leader_commit n s agree)
      | inr (old, p) ↦ elim (Bool-cases (old.term == prev_term)) [
        | inl same ↦
            rw (p, append_entries)
              (rw same (append_checked_lem base now es prev leader_commit n s agree))
        | inr ne ↦
            rw (p, append_entries)
              (rw ne (record { answer = _; returns = refl; sound = s; extends = Extends-refl n }))
      ]
    ]

abbrev pub entry_of : Command → Node → LogEntry
entry_of c n = record { term = n.current_term; index = length n.log; command = c }

-- The leader with its new entry.
pub proposed-IsSound :
    (base : Dict NodeState) (c : Command) (n : Node) → IsSound base n → IsSound base (proposed c n)
proposed-IsSound base c n s =
    let kept = take-append n.commit_count n.log (entry_of c n ∷ []) s.bound in
    record {
      applied = s.applied;
      bound = omega (arith, s.bound, length-append n.log (entry_of c n ∷ []));
      table = rw kept s.table;
    }

proposed-Extends :
    (base : Dict NodeState) (c : Command) (n : Node) → IsSound base n → Extends n (proposed c n)
proposed-Extends base c n s = record {
  grows = omega arith;
  keeps = take-append n.commit_count n.log (entry_of c n ∷ []) s.bound;
}

pub propose_lem :
    (base : Dict NodeState) (c : Command) (n : Node)
    → IsSound base n
    → Writes base _ n (propose c n)
unfolding propose save_log
propose_lem base c n s =
    let m = proposed c n in
    let sound = proposed-IsSound base c n s in
    let keeps = (proposed-Extends base c n s).keeps in
    elim (Bool-cases (is_leader n.role)) [
      | inl leads ↦ elim (Bool-cases (check_majority (length n.log) m)) [
        | inl enough ↦
            let size : length m.log ≡ length n.log + 1 =
              omega (arith, length-append n.log (entry_of c n ∷ [])) in
            rw leads (
              rw enough (
                rw
                  (commit_to base m sound (length n.log + 1) (omega (arith, s.bound)) (omega arith))
                  (record {
                    answer = _;
                    returns = refl;
                    sound = record { applied = refl; bound = omega arith; table = refl };
                    extends = record { grows = omega (arith, s.bound); keeps = keeps };
                  })))
        | inr few ↦ rw leads (
            rw few (record {
              answer = _;
              returns = refl;
              sound = record { applied = sound.applied; bound = sound.bound; table = sound.table };
              extends = record { grows = omega arith; keeps = keeps };
            }))
      ]
      | inr other ↦
          rw other (record { answer = _; returns = refl; sound = s; extends = Extends-refl n })
    ]

-- `ack_entry`, for an index that the log has.
pub ack_entry_lem :
    (base : Dict NodeState) (index : ℕ) (peer : String) (n : Node)
    → IsSound base n
    → index < length n.log
    → Writes base _ n (ack_entry index peer n)
unfolding ack_entry save_log
ack_entry_lem base index peer n s h =
    let m = acknowledged index peer n in
    let sound : IsSound base m = record { applied = s.applied; bound = s.bound; table = s.table } in
    elim (Bool-cases (check_majority index m)) [
      | inl enough ↦ elim (Bool-cases (ltb n.commit_count (index + 1))) [
        | inl more ↦ rw enough (
            rw more (
              rw
                (commit_to base m sound (index + 1)
                  (omega (arith, ltb→lt n.commit_count (index + 1) more)) (omega arith))
                (record {
                  answer = _;
                  returns = refl;
                  sound = record { applied = refl; bound = omega arith; table = refl };
                  extends = record {
                    grows = omega (arith, ltb→lt n.commit_count (index + 1) more);
                    keeps = refl;
                  };
                })))
        | inr less ↦ rw enough (
            rw less (record {
              answer = _;
              returns = refl;
              sound = sound;
              extends = record { grows = omega arith; keeps = refl };
            }))
      ]
      | inr few ↦ rw few (record {
        answer = _;
        returns = refl;
        sound = sound;
        extends = record { grows = omega arith; keeps = refl };
      })
    ]
