-- ===== src/Raft/Node/Appends.antt =====
-- What `append_entries` does on each branch, to the log and to the answer.
use prodinamik_engine.Prelude.{
  ℕ, zero, suc, ◌-◌, ◌≤◌, ◌<◌, ◌≡◌, refl, sym, ◌∙◌, ap, true, false, none, some, List, [], ◌∷◌,
  ◌++◌, arith, ◌==◌, length, get_elem?, take, Option-cases, inl, inr,
}
use prodinamik_engine.Dict.{Dict}
use prodinamik_engine.Raft.Types.{LogEntry, NodeState, Result, ok}
use prodinamik_engine.Raft.Log.{merge_entries, prev_entry, last_log_term}
use prodinamik_engine.Raft.Log.Matching.{
  Agrees, Agrees-above, Holds, Holds-merge_entries, take-merge_entries, merge_entries-end,
  get_elem?-past,
}
use prodinamik_engine.Raft.Node.{Node, AppendReply, append_entries, append_checked, save_log}
use prodinamik_engine.Raft.Node.Commit.{IsSound}
use prodinamik_engine.Raft.Node.Commit.Writes.{advance_commit_lem}

abbrev pub accepted : AppendReply
accepted = record { success = true; conflict_index = 0; conflict_term = 0 }

-- The entry at `prev_log_index`, where the log has one, has the term that the leader names.
abbrev pub PrevMatches : ℕ → ℕ → List LogEntry → Type 0
PrevMatches prev prev_term log = (e : LogEntry) → prev_entry prev log ≡ some e → e.term ≡ prev_term

append_entries_unrefused :
    (now : ℕ) (es : List LogEntry) (prev prev_term leader_commit : ℕ) (n : Node)
    → PrevMatches prev prev_term n.log
    → append_entries now es prev prev_term leader_commit n
      ≡ append_checked now es prev leader_commit n
unfolding append_entries
append_entries_unrefused now es prev prev_term leader_commit n match =
    elim (Option-cases (prev_entry prev n.log)) [
      | inl p ↦ rw (p, append_entries)
      | inr (old, p) ↦
          let same : (old.term == prev_term) ≡ true = ground (arith, match old p) in
          rw (p, append_entries) (rw same)
    ]

-- Where the terms at `prev_log_index` differ, the answer names that index and the term that stands
-- there, and the node is left as it was.
pub append_entries_refused :
    (now : ℕ) (es : List LogEntry) (prev prev_term leader_commit : ℕ) (e : LogEntry) (n : Node)
    → prev_entry prev n.log ≡ some e
    → (e.term == prev_term) ≡ false
    → append_entries now es prev prev_term leader_commit n
      ≡ (ok (record { success = false; conflict_index = prev - 1; conflict_term = e.term }), n)
unfolding append_entries
append_entries_refused now es prev prev_term leader_commit e n p ne = rw (p, append_entries) (rw ne)

-- What an accepted call answers, and the log that it leaves and saves.
record Accepts (base : Dict NodeState) (log : List LogEntry) (r : Result AppendReply × Node)
    : Type 0 where
  answer : r.0 ≡ ok accepted
  log_is : r.1.log ≡ log
  saved : r.1.saved_log ≡ log

append_checked-Accepts :
    (base : Dict NodeState) (now : ℕ) (es : List LogEntry) (prev leader_commit : ℕ) (n : Node)
    → IsSound base n
    → Agrees n.commit_count prev es n.log
    → Accepts base (merge_entries prev es n.log) (append_checked now es prev leader_commit n)
unfolding append_checked save_log
append_checked-Accepts base now es prev leader_commit n s agree =
    let kept = take-merge_entries n.commit_count prev es n.log s.bound agree in
    let m = record n { log = merge_entries prev es n.log } in
    let sound : IsSound base m = record {
      applied = s.applied;
      bound = kept.1;
      table = rw kept.0 s.table;
    } in
    let (k, le, fits, e) = advance_commit_lem base m sound leader_commit in
    rw e (record { answer = refl; log_is = refl; saved = refl })

-- A sound node that gets entries which start within its log, after an entry of the named term, and
-- do not contradict what it has committed: it accepts, it has the terms of the entries from
-- `prev_log_index + 1` on, it keeps the log below them, and it has saved the log.
pub append_entries_matches :
    (base : Dict NodeState) (now : ℕ) (es : List LogEntry) (prev prev_term leader_commit : ℕ)
    (n : Node)
    → IsSound base n
    → Agrees n.commit_count prev es n.log
    → prev ≤ length n.log
    → PrevMatches prev prev_term n.log
    → let (r, m) = append_entries now es prev prev_term leader_commit n in
      (r ≡ ok accepted)
      × Holds prev es m.log
      × (take prev m.log ≡ take prev n.log)
      × (m.saved_log ≡ m.log)
append_entries_matches base now es prev prev_term leader_commit n s agree le match =
    let a = append_checked-Accepts base now es prev leader_commit n s agree in
    rw (append_entries_unrefused now es prev prev_term leader_commit n match) (
      a.answer,
      rw a.log_is (Holds-merge_entries prev es n.log le),
      rw a.log_is
          (take-merge_entries prev prev es n.log le
            (Agrees-above prev prev es n.log (omega arith))).0,
      a.saved ∙ sym a.log_is,
    )

prev_entry_past : (prev : ℕ) (log : List LogEntry) → length log < prev → prev_entry prev log ≡ none
unfolding prev_entry
prev_entry_past zero log h = elim h [ ]
prev_entry_past (suc i) log h = get_elem?-past log i (omega arith)

-- Entries that start past the end of the log are accepted all the same: no check asks for the entry
-- at `prev_log_index`, and the entries are put at the end of the log, below the index that they were
-- sent for.
pub append_entries_gap :
    (base : Dict NodeState) (now : ℕ) (es : List LogEntry) (prev prev_term leader_commit : ℕ)
    (n : Node)
    → IsSound base n
    → length n.log < prev
    → let (r, m) = append_entries now es prev prev_term leader_commit n in
      (r ≡ ok accepted) × (m.log ≡ n.log ++ es)
append_entries_gap base now es prev prev_term leader_commit n s gap =
    let a =
      append_checked-Accepts base now es prev leader_commit n s
        (Agrees-above n.commit_count prev es n.log (omega (arith, s.bound))) in
    rw
      (append_entries_unrefused now es prev prev_term leader_commit n
        (λ e p. absurd (none-ne-some (sym (prev_entry_past prev n.log gap) ∙ p))))
      (a.answer, a.log_is ∙ merge_entries-end prev es n.log (omega arith))
  where
    none-ne-some : {e : LogEntry} → none ≡ some e → ⊥
    none-ne-some h = cc

last_entry :
    (x : LogEntry) (log : List LogEntry) (e : LogEntry)
    → get_elem? (x ∷ log) (length log) ≡ some e
    → e.term ≡ last_log_term (x ∷ log)
unfolding last_log_term
last_entry x [] e h = ground arith
last_entry x (y ∷ log) e h = last_entry y log e h

prev_entry_last :
    (log : List LogEntry) (e : LogEntry)
    → prev_entry (length log) log ≡ some e
    → e.term ≡ last_log_term log
unfolding prev_entry
prev_entry_last [] e h = cc
prev_entry_last (x ∷ log) e h = last_entry x log e h

-- Entries sent for the end of the log, after its last entry, go behind it.
pub append_entries_at_end :
    (base : Dict NodeState) (now : ℕ) (es log : List LogEntry) (leader_commit : ℕ) (n : Node)
    → IsSound base n
    → n.log ≡ log
    → let (r, m) = append_entries now es (length log) (last_log_term log) leader_commit n in
      (r ≡ ok accepted) × (m.log ≡ log ++ es)
append_entries_at_end base now es log leader_commit n s same =
    let size : length n.log ≡ length log = ap length same in
    let a =
      append_checked-Accepts base now es (length log) leader_commit n s
        (Agrees-above n.commit_count (length log) es n.log (omega (arith, s.bound, size))) in
    rw
      (append_entries_unrefused now es (length log) (last_log_term log) leader_commit n
        (λ e p. prev_entry_last log e (ap (prev_entry (length log)) (sym same) ∙ p)))
      (
        a.answer,
        a.log_is
            ∙ merge_entries-end (length log) es n.log (omega (arith, size))
            ∙ ap (λ l. l ++ es) same,
      )
