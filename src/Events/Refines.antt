-- ===== src/Events/Refines.antt =====
-- The event store (engine/event_store.py) against its log.
use prodinamik_engine.Prelude.{◌≡◌, refl, ap, ◌∙◌, Option, List, [], ◌∷◌, arith}
use prodinamik_engine.NatDict
use prodinamik_engine.NatDict.{NatDict}
use prodinamik_engine.Events.{Event, EventRetentionPolicy, new_store}
use prodinamik_engine.Events.Log.{
  is_expired, Log, Call, append_event, append_events, get_event, range, all_events, query_events,
  reopen, opened, purge_events, compact_events, number, numbers, found, listed, count, summary,
  call, log_call, answers, log_answers, empty_log,
}
use prodinamik_engine.Events.Log.Ascending.{All, sequences}
use prodinamik_engine.Events.Log.Append.{
  stored, IsStored, append_lem, push-IsStored, put_event, put_all, append_each_lem, append_many_lem,
}
use prodinamik_engine.Events.Log.Range.{get_lem, get_range_lem, get_all_lem}
use prodinamik_engine.Events.Log.Reopen.{open_store_lem, reopened-IsStored}
use prodinamik_engine.Events.Log.Latest.{query_lem}
use prodinamik_engine.Events.Log.Delete.{IsPlain, remove_all}
use prodinamik_engine.Events.Log.Compact.{purge_lem, compact_lem, gone, left-IsStored}

-- The events that a call appends have a type of `EventType` and a time that can be read.
abbrev pub IsPlainCall : Call → Type 0
IsPlainCall (append_event e) = IsPlain e
IsPlainCall (append_events es) = All IsPlain es
IsPlainCall _ = Unit

abbrev pub ArePlain : List Call → Type 0
ArePlain [] = Unit
ArePlain (c ∷ cs) = IsPlainCall c × ArePlain cs

-- A call on a store that holds a log gives the log's answer, and the store holds the new log.
abbrev Simulates : EventRetentionPolicy → NatDict (Option Event) → Log → Call → Type 0
Simulates p files l c =
    (files' : NatDict (Option Event)) × IsStored files' (log_call p c l).1
    × (call c (stored p files l) ≡ ((log_call p c l).0, stored p files' (log_call p c l).1))

simulates :
    (p : EventRetentionPolicy) (files : NatDict (Option Event)) (l : Log) (c : Call)
    → IsStored files l
    → IsPlainCall c
    → Simulates p files l c
simulates p files l (append_event e) h plain =
    let saved = sequences l.events in
    (
      put_event files l e,
      push-IsStored files l e h plain,
      ap (λ r. (number r.0, r.1)) (append_lem p files saved l e h),
    )
simulates p files l (append_events es) h plain =
    let each = append_each_lem p files l es h plain in
    (
      put_all files l es,
      each.1,
      ap (λ r. (numbers r.0, r.1)) (append_many_lem es (stored p files l) ∙ each.0),
    )
simulates p files l (get_event k) h plain =
    (files, h, ap (λ o. (found o, stored p files l)) (get_lem p files l k h))
simulates p files l (range start limit) h plain =
    (files, h, ap (λ es. (listed es, stored p files l)) (get_range_lem p files l start limit h))
simulates p files l all_events h plain =
    (files, h, ap (λ es. (listed es, stored p files l)) (get_all_lem p files l h))
simulates p files l (reopen archived) h plain = (
  files,
  reopened-IsStored files l archived h,
  ap (λ s. (opened, s)) (open_store_lem p files l archived h),
)
simulates p files l (query_events f limit) h plain =
    (files, h, ap (λ es. (listed es, stored p files l)) (query_lem p files l f limit h))
simulates p files l (purge_events now) h plain = (
  remove_all (gone (is_expired p now) l) files,
  left-IsStored (is_expired p now) files l h,
  ap (λ r. (count r.0, r.1)) (purge_lem p files l now h),
)
simulates p files l (compact_events now slug) h plain =
    let done = compact_lem p files l now slug h in
    (done.0, done.1, ap (λ r. (summary r.0, r.1)) done.2)

answers_from :
    (p : EventRetentionPolicy) (files : NatDict (Option Event)) (l : Log) (cs : List Call)
    → IsStored files l
    → ArePlain cs
    → answers cs (stored p files l) ≡ log_answers p cs l
unfolding answers log_answers
answers_from p files l [] h plain = refl
answers_from p files l (c ∷ cs) h plain =
    let s = simulates p files l c h plain.0 in
    ap (λ r. r.0 ∷ answers cs r.1) s.2
    ∙ ap (λ t. (log_call p c l).0 ∷ t) (answers_from p s.0 (log_call p c l).1 cs s.1 plain.1)

-- A store that starts on an empty directory answers every sequence of calls (`append`, `append_many`,
-- `get`, `get_range`, `get_all`, `query`, `purge` and `compact`, at any times, and restarts, with any
-- numbers of files in the archive) as a plain list of events does, to which an event is appended under
-- the next number, from which the events past their retention are dropped, and whose old details are
-- dropped for a summary of all old events once there are ten; a restart goes on from the number of the
-- latest event that is left, or of the archive. This holds where each event that is appended has one
-- of the types of `EventType` and a time that can be read; then no call raises an exception.
pub answers_lem :
    (p : EventRetentionPolicy) (cs : List Call)
    → ArePlain cs
    → answers cs (new_store p) ≡ log_answers p cs empty_log
unfolding NatDict.get
answers_lem p cs plain = answers_from p [] empty_log cs (omega arith, tt, (λ k. refl), tt) plain
