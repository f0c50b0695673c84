-- ===== src/Raft/Log.antt =====
-- The log of `DistributedStateMachine`: what `append_entries` does to it, entry by entry.
-- `prev_log_index` is kept one higher, as the number of entries up to it.
pub mod Matching
use prodinamik_engine.Prelude.{
  ℕ, zero, suc, ◌+◌, Option, none, some, List, [], ◌∷◌, ◌++◌, ◌==◌, if◌then◌else◌, get_elem?, take,
}
use prodinamik_engine.Raft.Types.{LogEntry}

unfoldable pub last_log_term : List LogEntry → ℕ
last_log_term [] = 0
last_log_term (e ∷ []) = e.term
last_log_term (e ∷ f ∷ log) = last_log_term (f ∷ log)

-- One round of the loop of `append_entries`.
unfoldable pub put_entry : ℕ → LogEntry → List LogEntry → List LogEntry
put_entry idx entry log = elim (get_elem? log idx) [
  | none ↦ log ++ entry ∷ []
  | some old ↦ if old.term == entry.term then log else take idx log ++ entry ∷ []
]

unfoldable pub merge_entries : ℕ → List LogEntry → List LogEntry → List LogEntry
merge_entries idx [] log = log
merge_entries idx (entry ∷ entries) log = merge_entries (idx + 1) entries (put_entry idx entry log)

-- The entry at `prev_log_index`, if that is in the log.
unfoldable pub prev_entry : ℕ → List LogEntry → Option LogEntry
prev_entry zero log = none
prev_entry (suc i) log = get_elem? log i
