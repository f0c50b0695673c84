-- ===== src/Raft/Log/Matching.antt =====
-- The log after `append_entries` (engine/raft_consensus.py): terms by index, and the part below an
-- index.
use mathlib.Core.List.{append-nil, append_assoc}
use prodinamik_engine.Prelude.{
  ℕ, zero, suc, ◌+◌, ◌≤◌, ◌<◌, ◌≡◌, refl, sym, ◌∙◌, ap, Option, none, some, List, [], ◌∷◌, ◌++◌,
  arith, true, false, ◌==◌, length, get_elem?, take, length-append, length-take, take-append,
  take-take, get_elem?-append_end, get_elem?-take, Option-cases, Bool-cases, inl, inr,
}
use prodinamik_engine.Raft.Types.{LogEntry}
use prodinamik_engine.Raft.Log.{put_entry, merge_entries}

abbrev pub term_of : Option LogEntry → Option ℕ
term_of none = none
term_of (some e) = some e.term

abbrev pub term_at : List LogEntry → ℕ → Option ℕ
term_at log i = term_of (get_elem? log i)

-- From position `idx` on, the log has the terms of the entries.
abbrev pub Holds : ℕ → List LogEntry → List LogEntry → Type 0
Holds idx [] log = Unit
Holds idx (e ∷ es) log = (term_at log idx ≡ some e.term) × Holds (idx + 1) es log

-- The entries do not contradict the first `c` entries of the log.
abbrev pub Agrees : ℕ → ℕ → List LogEntry → List LogEntry → Type 0
Agrees c idx [] log = Unit
Agrees c idx (e ∷ es) log = (idx < c → term_at log idx ≡ some e.term) × Agrees c (idx + 1) es log

pub get_elem?-none : (log : List LogEntry) (i : ℕ) → get_elem? log i ≡ none → length log ≤ i
get_elem?-none [] i h = omega arith
get_elem?-none (x ∷ log) zero h = ground arith
get_elem?-none (x ∷ log) (suc i) h = omega (arith, get_elem?-none log i h)

pub get_elem?-past : (log : List LogEntry) (i : ℕ) → length log ≤ i → get_elem? log i ≡ none
get_elem?-past [] i h = refl
get_elem?-past (x ∷ log) zero h = absurd (omega arith)
get_elem?-past (x ∷ log) (suc i) h = get_elem?-past log i (omega arith)

pub get_elem?-lt :
    (log : List LogEntry) (i : ℕ) {e : LogEntry} → get_elem? log i ≡ some e → i < length log
get_elem?-lt [] i h = ground arith
get_elem?-lt (x ∷ log) zero h = omega arith
get_elem?-lt (x ∷ log) (suc i) h = omega (arith, get_elem?-lt log i h)

-- A list cut at `idx`, with an entry behind, keeps the first `c` entries for `c ≤ idx`.
cut_keeps :
    (c idx : ℕ) (e : LogEntry) (log : List LogEntry)
    → c ≤ idx
    → idx < length log
    → (take c (take idx log ++ e ∷ []) ≡ take c log) × (c ≤ length (take idx log ++ e ∷ []))
cut_keeps c idx e log h k = (
  take-append c (take idx log) (e ∷ []) (omega (arith, length-take idx log))
      ∙ take-take c idx log h,
  omega (arith, length-take idx log, length-append (take idx log) (e ∷ [])),
)

differs :
    (c idx : ℕ) (e old : LogEntry)
    → (idx < c → some old.term ≡ some e.term)
    → (old.term == e.term) ≡ false
    → c ≤ idx
differs c idx e old agree ne = ground arith

-- The three branches of a round.
module _ (idx : ℕ) (e : LogEntry) (log : List LogEntry) where
  pub put_entry-end : get_elem? log idx ≡ none → put_entry idx e log ≡ log ++ e ∷ []
  unfolding put_entry
  put_entry-end p = ground arith

  put_entry-same :
      (old : LogEntry)
      → get_elem? log idx ≡ some old
      → (old.term == e.term) ≡ true
      → put_entry idx e log ≡ log
  unfolding put_entry
  put_entry-same old p t = rw (p, put_entry) (rw t)

  put_entry-cut :
      (old : LogEntry)
      → get_elem? log idx ≡ some old
      → (old.term == e.term) ≡ false
      → put_entry idx e log ≡ take idx log ++ e ∷ []
  unfolding put_entry
  put_entry-cut old p t = rw (p, put_entry) (rw t)

-- One round leaves the first `c` entries alone, if the new entry does not contradict them.
pub take-put_entry :
    (c idx : ℕ) (e : LogEntry) (log : List LogEntry)
    → c ≤ length log
    → (idx < c → term_at log idx ≡ some e.term)
    → (take c (put_entry idx e log) ≡ take c log) × (c ≤ length (put_entry idx e log))
take-put_entry c idx e log h agree = elim (Option-cases (get_elem? log idx)) [
  | inl p ↦
      rw (put_entry-end idx e log p)
        (take-append c log (e ∷ []) h, omega (arith, length-append log (e ∷ [])))
  | inr (old, p) ↦ elim (Bool-cases (old.term == e.term)) [
    | inl same ↦ rw (put_entry-same idx e log old p same) (refl, h)
    | inr ne ↦
        rw (put_entry-cut idx e log old p ne)
          (cut_keeps c idx e log (differs c idx e old (rw p at agree) ne) (get_elem?-lt log idx p))
  ]
]

-- The new entry stands at its position, by its term, unless there was a gap below it.
pub term_at-put_entry :
    (idx : ℕ) (e : LogEntry) (log : List LogEntry)
    → idx ≤ length log
    → (term_at (put_entry idx e log) idx ≡ some e.term) × (suc idx ≤ length (put_entry idx e log))
term_at-put_entry idx e log h = elim (Option-cases (get_elem? log idx)) [
  | inl p ↦ rw (put_entry-end idx e log p) (
    at_end log (omega (arith, get_elem?-none log idx p)),
    omega (arith, length-append log (e ∷ []), get_elem?-none log idx p),
  )
  | inr (old, p) ↦
      let fits = get_elem?-lt log idx p in
      let size : length (take idx log) ≡ idx = omega (arith, length-take idx log) in
      elim (Bool-cases (old.term == e.term)) [
        | inl same ↦ rw (put_entry-same idx e log old p same) (ground (arith, p), fits)
        | inr ne ↦
            rw (put_entry-cut idx e log old p ne)
              (at_end (take idx log) size, omega (arith, length-append (take idx log) (e ∷ [])))
      ]
]
  where
    at_end : (xs : List LogEntry) → length xs ≡ idx → term_at (xs ++ e ∷ []) idx ≡ some e.term
    at_end xs size = rw (← size) (ap term_of (get_elem?-append_end xs e))

-- Two logs with the same first `c` entries are contradicted alike.
term_at-take : (c i : ℕ) (log : List LogEntry) → i < c → term_at (take c log) i ≡ term_at log i
term_at-take c i log h = ap term_of (get_elem?-take c log i h)

pub Agrees-same :
    (c idx : ℕ) (es log log' : List LogEntry)
    → take c log ≡ take c log'
    → Agrees c idx es log
    → Agrees c idx es log'
Agrees-same c idx [] log log' eq a = tt
Agrees-same c idx (e ∷ es) log log' eq a = (
  λ h.
      sym (term_at-take c idx log' h)
      ∙ ap (λ l. term_at l idx) (sym eq)
      ∙ term_at-take c idx log h
      ∙ a.0 h,
  Agrees-same c (idx + 1) es log log' eq a.1,
)

-- Entries from position `c` on contradict nothing below it.
pub Agrees-above : (c idx : ℕ) (es log : List LogEntry) → c ≤ idx → Agrees c idx es log
Agrees-above c idx [] log h = tt
Agrees-above c idx (e ∷ es) log h =
    (λ lt. absurd (omega arith), Agrees-above c (idx + 1) es log (omega arith))

-- The whole loop leaves the first `c` entries alone, if no entry contradicts them.
pub take-merge_entries :
    (c idx : ℕ) (es log : List LogEntry)
    → c ≤ length log
    → Agrees c idx es log
    → (take c (merge_entries idx es log) ≡ take c log) × (c ≤ length (merge_entries idx es log))
unfolding merge_entries
take-merge_entries c idx [] log h a = (refl, h)
take-merge_entries c idx (e ∷ es) log h a =
    let one = take-put_entry c idx e log h a.0 in
    let rest =
      take-merge_entries c (idx + 1) es (put_entry idx e log) one.1
        (Agrees-same c (idx + 1) es log (put_entry idx e log) (sym one.0) a.1) in
    (rest.0 ∙ one.0, rest.1)

-- After the loop the log has the terms of the entries, from the first position on.
pub Holds-merge_entries :
    (idx : ℕ) (es log : List LogEntry) → idx ≤ length log → Holds idx es (merge_entries idx es log)
unfolding merge_entries
Holds-merge_entries idx [] log h = tt
Holds-merge_entries idx (e ∷ es) log h =
    let put = term_at-put_entry idx e log h in
    let size : idx + 1 ≤ length (put_entry idx e log) = omega (arith, put) in
    let rest =
      take-merge_entries (idx + 1) (idx + 1) es (put_entry idx e log) size
        (Agrees-above (idx + 1) (idx + 1) es (put_entry idx e log) (omega arith)) in
    (
      sym (
            term_at-take (idx + 1) idx (merge_entries (idx + 1) es (put_entry idx e log))
              (omega arith))
          ∙ ap (λ l. term_at l idx) rest.0
          ∙ term_at-take (idx + 1) idx (put_entry idx e log) (omega arith)
          ∙ put.0,
      Holds-merge_entries (idx + 1) es (put_entry idx e log) size,
    )

put_entry_id :
    (idx : ℕ) (e : LogEntry) (log : List LogEntry)
    → term_at log idx ≡ some e.term
    → put_entry idx e log ≡ log
unfolding put_entry
put_entry_id idx e log h = ground arith

-- Where the log has the terms already, the loop changes nothing.
pub merge_entries-Holds :
    (idx : ℕ) (es log : List LogEntry) → Holds idx es log → merge_entries idx es log ≡ log
unfolding merge_entries
merge_entries-Holds idx [] log h = refl
merge_entries-Holds idx (e ∷ es) log h =
    rw (put_entry_id idx e log h.0) (merge_entries-Holds (idx + 1) es log h.1)

-- At the end of the log or past it, the entries go to the end: a gap is not seen.
pub merge_entries-end :
    (idx : ℕ) (es log : List LogEntry) → length log ≤ idx → merge_entries idx es log ≡ log ++ es
unfolding merge_entries
merge_entries-end idx [] log h = sym (append-nil log)
merge_entries-end idx (e ∷ es) log h =
    rw (put_entry-end idx e log (get_elem?-past log idx (omega arith))) (
      merge_entries-end (idx + 1) es (log ++ e ∷ []) (omega (arith, length-append log (e ∷ [])))
      ∙ append_assoc log (e ∷ []) es)
