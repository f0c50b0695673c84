-- ===== src/Events/Retention.antt =====
-- `purge` and `compact` of the event store (engine/event_store.py). An event's time is compared with
-- the cutoff by adding the age to it.
use prodinamik_engine.Prelude.{
  ℕ, ◌+◌, ◌*◌, min, max, String, Bool, true, false, Option, none, some, List, [], ◌∷◌, ltb, ◌==◌,
  if◌then◌else◌, length, select, not, ◌&&◌, ◌||◌,
}
use prodinamik_engine.NatDict
use prodinamik_engine.NatDict.{NatDict, has, exclude}
use prodinamik_engine.Events.{
  Event, Passed, flag, tally, known, EventStore, EventRetentionPolicy, Outcome, ok, raised, Fault,
  attribute_error, key_error, should_purge, save_index, append, is_detail, weekly_summary,
}

-- A number to delete, with `n` more events purged.
abbrev pub deleted :
    ℕ
    → ℕ
    → Outcome (List ℕ × ℕ) × NatDict (Option Event)
    → Outcome (List ℕ × ℕ) × NatDict (Option Event)
deleted seq n (ok (seqs, m), files) = (ok (seq ∷ seqs, n + m), files)
deleted seq n (raised f, files) = (raised f, files)

-- What an event's verdict means for its file; `purge` does not catch a `ValueError`.
abbrev pub by_verdict :
    Outcome Bool
    → NatDict (Option Event)
    → Outcome (List ℕ × ℕ) × NatDict (Option Event)
    → Outcome (List ℕ × ℕ) × NatDict (Option Event)
    → Outcome (List ℕ × ℕ) × NatDict (Option Event)
by_verdict (raised f) files purged kept = (raised f, files)
by_verdict (ok true) files purged kept = purged
by_verdict (ok false) files purged kept = kept

-- The loop of `purge`: the numbers to delete and how many events were purged, or the exception that a
-- file raises which cannot be parsed, or whose type or time cannot; and the files that are left.
unfoldable pub purge_loop :
    EventRetentionPolicy
    → ℕ
    → List ℕ
    → NatDict (Option Event)
    → Outcome (List ℕ × ℕ) × NatDict (Option Event)
purge_loop p now [] files = (ok ([], 0), files)
purge_loop p now (seq ∷ seqs) files =
    let kept = purge_loop p now seqs files in
    let purged = deleted seq 1 (purge_loop p now seqs (NatDict.remove files seq)) in
    elim (NatDict.get files seq) [
      | none ↦ deleted seq 0 kept
      | some none ↦ (raised attribute_error, files)
      | some (some e) ↦ by_verdict (should_purge p now e) files purged kept
    ]

abbrev pub exclude_all : List ℕ → List ℕ → List ℕ
exclude_all [] xs = xs
exclude_all (a ∷ bs) xs = exclude_all bs (exclude a xs)

abbrev pub purged :
    EventStore → Outcome (List ℕ × ℕ) × NatDict (Option Event) → Outcome ℕ × EventStore
purged s (raised f, files) = (raised f, record s { files = files })
purged s (ok (seqs, n), files) =
    let left = record s { files = files; index = exclude_all seqs s.index } in
    (ok n, if ltb 0 n || not (length seqs == 0) then save_index left else left)

unfoldable pub purge : ℕ → EventStore → Outcome ℕ × EventStore
purge now s = purged s (purge_loop s.retention now s.index s.files)

-- Older than `COMPACTION_AGE`; `compact` passes over a time that cannot be read.
unfoldable pub is_old : EventRetentionPolicy → ℕ → Event → Bool
is_old p now e = e.is_iso && ltb (e.timestamp + 30 * p.day) now

abbrev pub with_old : Event → Outcome (List Event) → Outcome (List Event)
with_old e (ok es) = ok (e ∷ es)
with_old e (raised f) = raised f

-- The loop of `compact` that collects `old_events`.
unfoldable pub old_loop :
    EventRetentionPolicy → ℕ → List ℕ → NatDict (Option Event) → Outcome (List Event)
old_loop p now [] files = ok []
old_loop p now (seq ∷ seqs) files =
    let rest = old_loop p now seqs files in
    elim (NatDict.get files seq) [
      | none ↦ rest
      | some none ↦ raised attribute_error
      | some (some e) ↦ if is_old p now e then with_old e rest else rest
    ]

-- The loop that deletes the detailed events, and the exception of `del` where the index has no such number.
unfoldable pub delete_details : List Event → EventStore → Option Fault × EventStore
delete_details [] s = (none, s)
delete_details (e ∷ es) s =
    let files = NatDict.remove s.files e.sequence in
    let next = delete_details es (record s { files = files; index = exclude e.sequence s.index }) in
    if has s.index e.sequence then next else (some key_error, record s { files = files })

-- `data.get("passed", True)` as a condition: a number counts as failed if it is 0.
abbrev pub is_true : Option Passed → Bool
is_true none = true
is_true (some (flag b)) = b
is_true (some (tally n)) = not (n == 0)

abbrev pub has_passed : Event → Bool
has_passed e = is_true e.passed

unfoldable pub costs : List Event → ℕ
costs [] = 0
costs (e ∷ es) = e.cost_usd + costs es

abbrev pub earliest : ℕ → List Event → ℕ
earliest t [] = t
earliest t (e ∷ es) = earliest (min t e.timestamp) es

abbrev pub latest : ℕ → List Event → ℕ
latest t [] = t
latest t (e ∷ es) = latest (max t e.timestamp) es

-- `_summarize` of the events `e ∷ es`.
unfoldable pub summarize : ℕ → String → Event → List Event → Event
summarize now slug e es = record {
  sequence = 0;
  run_slug = slug;
  timestamp = now;
  is_iso = true;
  event_type = known weekly_summary;
  validator = none;
  passed = some (tally (length (select has_passed (e ∷ es))));
  summary = some (record {
    compacted_events = length (e ∷ es);
    period_start = earliest e.timestamp es;
    period_end = latest e.timestamp es;
    total_cost = costs (e ∷ es);
    passed = length (select has_passed (e ∷ es));
    failed = length (select (λ x. not (has_passed x)) (e ∷ es));
  });
  cost_usd = 0;
}

-- The summary is appended once the details are deleted; `append` writes its number into it.
abbrev pub summarized : Event → Option Fault × EventStore → Outcome (Option Event) × EventStore
summarized e (some f, s) = (raised f, s)
summarized e (none, s) =
    let r = append e s in (ok (some (record e { sequence = r.0 })), save_index r.1)

abbrev pub compact_old :
    ℕ → String → Outcome (List Event) → EventStore → Outcome (Option Event) × EventStore
compact_old now slug (raised f) s = (raised f, s)
compact_old now slug (ok []) s = (ok none, s)
compact_old now slug (ok (e ∷ es)) s =
    let details = select (λ x. is_detail x.event_type) (e ∷ es) in
    let done = summarized (summarize now slug e es) (delete_details details s) in
    if ltb (length (e ∷ es)) 10 then (ok none, s) else done

unfoldable pub compact : ℕ → String → EventStore → Outcome (Option Event) × EventStore
compact now slug s = compact_old now slug (old_loop s.retention now s.index s.files) s
