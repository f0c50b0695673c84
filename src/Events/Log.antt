-- ===== src/Events/Log.antt =====
-- What an event store promises, without files or an index: a list of the events in the order of their
-- numbers, and the last number given out. The calls of engine/event_store.py, and their answers.
pub mod Ascending
pub mod Delete
pub mod Append
pub mod Range
pub mod Latest
pub mod Compact
pub mod Reopen
use prodinamik_engine.Prelude.{
  max, ℕ, ◌+◌, ◌-◌, String, Bool, true, false, Option, none, some, List, [], ◌∷◌, ◌++◌, ltb, leb,
  ◌==◌, if◌then◌else◌, length, select, take, not, ◌&&◌,
}
use prodinamik_engine.Events.{
  open_store, greatest_of, Event, EventStore, EventRetentionPolicy, Outcome, ok, raised, Fault,
  EventName, known, unknown, is_older, is_detail, append, append_many, get, get_range, get_all,
  Filter, fits, query,
}
use prodinamik_engine.Events.Retention.{is_old, summarize, purge, compact}

pub record Log : Type 0 where
  pub events : List Event
  pub last : ℕ

abbrev pub empty_log : Log
empty_log = record { events = []; last = 0 }

pub data Call : Type 0 where
  append_event : Event → Call
  append_events : List Event → Call
  get_event : ℕ → Call
  range : ℕ → ℕ → Call
  all_events : Call
  reopen : List ℕ → Call
  query_events : Filter → ℕ → Call
  purge_events : ℕ → Call
  compact_events : ℕ → String → Call

pub data Answer : Type 0 where
  number : ℕ → Answer
  numbers : List ℕ → Answer
  found : Option Event → Answer
  listed : List Event → Answer
  count : Outcome ℕ → Answer
  summary : Outcome (Option Event) → Answer
  opened : Answer

-- The store's answer to a call, and the store after it.
abbrev pub call : Call → EventStore → Answer × EventStore
call (append_event e) s = let r = append e s in (number r.0, r.1)
call (append_events es) s = let r = append_many es s in (numbers r.0, r.1)
call (get_event k) s = (found (get k s), s)
call (range start limit) s = (listed (get_range start limit s), s)
call all_events s = (listed (get_all s), s)
call (reopen archived) s = (opened, open_store archived s)
call (query_events f limit) s = (listed (query f limit s), s)
call (purge_events now) s = let r = purge now s in (count r.0, r.1)
call (compact_events now slug) s = let r = compact now slug s in (summary r.0, r.1)

-- The event under a number.
unfoldable pub find : ℕ → List Event → Option Event
find k [] = none
find k (e ∷ es) = if e.sequence == k then some e else find k es

-- The latest event first.
abbrev pub reversed : List Event → List Event
reversed [] = []
reversed (e ∷ es) = reversed es ++ e ∷ []

abbrev pub push : Event → Log → Log
push e l = record {
  events = l.events ++ (record e { sequence = l.last + 1 }) ∷ [];
  last = l.last + 1;
}

-- The numbers of `n` events after number `k`.
abbrev pub next_numbers : ℕ → List Event → List ℕ
next_numbers k [] = []
next_numbers k (e ∷ es) = (k + 1) ∷ next_numbers (k + 1) es

abbrev pub push_all : List Event → Log → Log
push_all [] l = l
push_all (e ∷ es) l = push_all es (push e l)

-- The number of the latest event, or `low`.
abbrev pub top : ℕ → List Event → ℕ
top low [] = low
top low (e ∷ es) = top e.sequence es

-- After a restart the last number is that of the latest event that is left, or in the archive.
abbrev pub reopened : List ℕ → Log → Log
reopened archived l = record l { last = max (top 0 l.events) (greatest_of archived) }

-- The events that a purge drops.
abbrev pub has_expired : EventRetentionPolicy → ℕ → Event → EventName → Bool
has_expired p now e (known t) = is_older (now - e.timestamp) p.day (p.days t)
has_expired p now e (unknown name) = false

unfoldable pub is_expired : EventRetentionPolicy → ℕ → Event → Bool
is_expired p now e = has_expired p now e e.event_type

abbrev pub is_compacted : EventRetentionPolicy → ℕ → Event → Bool
is_compacted p now e = is_old p now e && is_detail e.event_type

-- Compaction of the log whose old events are given.
abbrev pub compacted :
    EventRetentionPolicy → ℕ → String → List Event → Log → Outcome (Option Event) × Log
compacted p now slug [] l = (ok none, l)
compacted p now slug (e ∷ es) l =
    let sum = summarize now slug e es in
    let kept = select (λ x. not (is_compacted p now x)) l.events in
    if ltb (length (e ∷ es)) 10 then (ok none, l) else (
      ok (some (record sum { sequence = l.last + 1 })),
      push sum (record { events = kept; last = l.last }),
    )

-- What the log answers to a call, and the log after it.
abbrev pub log_call : EventRetentionPolicy → Call → Log → Answer × Log
log_call p (append_event e) l = (number (l.last + 1), push e l)
log_call p (append_events es) l = (numbers (next_numbers l.last es), push_all es l)
log_call p (get_event k) l = (found (find k l.events), l)
log_call p (range start limit) l =
    (listed (take limit (select (λ e. leb start e.sequence) l.events)), l)
log_call p all_events l = (listed l.events, l)
log_call p (reopen archived) l = (opened, reopened archived l)
log_call p (query_events f limit) l = (listed (take limit (select (fits f) (reversed l.events))), l)
log_call p (purge_events now) l = (
  count (ok (length (select (is_expired p now) l.events))),
  record l { events = select (λ e. not (is_expired p now e)) l.events },
)
log_call p (compact_events now slug) l =
    let r = compacted p now slug (select (is_old p now) l.events) l in (summary r.0, r.1)

unfoldable pub answers : List Call → EventStore → List Answer
answers [] s = []
answers (c ∷ cs) s = let r = call c s in r.0 ∷ answers cs r.1

unfoldable pub log_answers : EventRetentionPolicy → List Call → Log → List Answer
log_answers p [] l = []
log_answers p (c ∷ cs) l = let r = log_call p c l in r.0 ∷ log_answers p cs r.1
