-- ===== src/Events/Log/Append.antt =====
-- Appending (engine/event_store.py, `append` and `append_many`) as pushing onto the log.
use prodinamik_engine.Prelude.{
  ℕ, ◌+◌, ◌<◌, ◌≡◌, refl, ap, sym, ◌∙◌, false, Option, some, List, [], ◌∷◌, ◌++◌, arith, is_some,
}
use prodinamik_engine.NatDict
use prodinamik_engine.NatDict.{NatDict, has, include, get-put, has-append}
use prodinamik_engine.Events.{
  Event, EventStore, EventRetentionPolicy, append, append_many, append_loop, save_index,
  write_event,
}
use prodinamik_engine.Events.Log.{Log, push, push_all, next_numbers}
use prodinamik_engine.Events.Log.Ascending.{
  All, All-append, IsAscending, sequences, IsAscending-append, IsAscending-bound,
}
use prodinamik_engine.Events.Log.Delete.{OnFile, IsPlain}

-- The store that holds a log in some files, with its index saved, or another one.
abbrev pub stored_as : EventRetentionPolicy → NatDict (Option Event) → List ℕ → Log → EventStore
stored_as p files saved l = record {
  retention = p;
  files = files;
  index = sequences l.events;
  last_sequence = l.last;
  saved_index = saved;
}

abbrev pub stored : EventRetentionPolicy → NatDict (Option Event) → Log → EventStore
stored p files l = stored_as p files (sequences l.events) l

abbrev pub IsStored : NatDict (Option Event) → Log → Type 0
IsStored files l =
    IsAscending 0 l.last l.events
    × All (OnFile files) l.events
    × ((k : ℕ) → is_some (NatDict.get files k) ≡ has (sequences l.events) k)
    × All IsPlain l.events

put-OnFile :
    (files : NatDict (Option Event)) (k : ℕ) (v : Option Event) (low high : ℕ) (es : List Event)
    → high < k
    → IsAscending low high es
    → All (OnFile files) es
    → All (OnFile (NatDict.put files k v)) es
put-OnFile files k v low high [] l a h = tt
put-OnFile files k v low high (e ∷ es) l a h = (
  ground (arith, get-put files k v e.sequence, IsAscending-bound e.sequence high es a.1, h.0),
  put-OnFile files k v e.sequence high es l a.1 h.1,
)

has-beyond :
    (low high k : ℕ) (es : List Event)
    → high < k
    → IsAscending low high es
    → has (sequences es) k ≡ false
has-beyond low high k [] l a = refl
has-beyond low high k (e ∷ es) l a =
    ground (arith, IsAscending-bound e.sequence high es a.1, has-beyond e.sequence high k es l a.1)

include-fresh : (k : ℕ) (xs : List ℕ) → has xs k ≡ false → include k xs ≡ xs ++ k ∷ []
unfolding include
include-fresh k xs h = rw h refl

sequences-append :
    (es : List Event) (e : Event) → sequences (es ++ e ∷ []) ≡ sequences es ++ e.sequence ∷ []
sequences-append [] e = refl
sequences-append (d ∷ es) e = ap (λ t. d.sequence ∷ t) (sequences-append es e)

abbrev pub put_event : NatDict (Option Event) → Log → Event → NatDict (Option Event)
put_event files l e = NatDict.put files (l.last + 1) (some (record e { sequence = l.last + 1 }))

pub append_lem :
    (p : EventRetentionPolicy) (files : NatDict (Option Event)) (saved : List ℕ) (l : Log)
    (e : Event)
    → IsStored files l
    → append e (stored_as p files saved l) ≡ (l.last + 1, stored p (put_event files l e) (push e l))
unfolding append
append_lem p files saved l e h =
    ap
      (λ i. (
        l.last + 1,
        record {
          retention = p;
          files = put_event files l e;
          index = i;
          last_sequence = l.last + 1;
          saved_index = i;
        },
      ))
      (include-fresh (l.last + 1) (sequences l.events)
          (has-beyond 0 l.last (l.last + 1) l.events (omega arith) h.0)
        ∙ sym (sequences-append l.events (record e { sequence = l.last + 1 })))

pub push-IsStored :
    (files : NatDict (Option Event)) (l : Log) (e : Event)
    → IsStored files l
    → IsPlain e
    → IsStored (put_event files l e) (push e l)
push-IsStored files l e h plain =
    let d = record e { sequence = l.last + 1 } in
    (
      IsAscending-append 0 l.last l.events d h.0 refl,
      All-append (OnFile (put_event files l e)) l.events d
          (put-OnFile files (l.last + 1) (some d) 0 l.last l.events (omega arith) h.0 h.1)
          (ground (arith, get-put files (l.last + 1) (some d) (l.last + 1))),
      λ k. ground (
        arith,
        get-put files (l.last + 1) (some d) k,
        h.2 k,
        ap (λ ks. has ks k) (sequences-append l.events d),
        has-append (sequences l.events) ((l.last + 1) ∷ []) k,
      ),
      All-append IsPlain l.events d h.3 plain,
    )

-- Events appended one by one.
unfoldable pub append_each : List Event → EventStore → List ℕ × EventStore
append_each [] s = ([], s)
append_each (e ∷ es) s =
    let rest = append_each es (append e s).1 in ((append e s).0 ∷ rest.0, rest.1)

-- A batch with its index saved.
abbrev saved_batch : List ℕ × EventStore → List ℕ × EventStore
saved_batch r = (r.0, save_index r.1)

append_loop_saved :
    (es : List Event) (s : EventStore) (i : List ℕ)
    → saved_batch (append_loop es (record s { saved_index = i })) ≡ saved_batch (append_loop es s)
unfolding append_loop
append_loop_saved [] s i = refl
append_loop_saved (e ∷ es) s i =
    ap (λ r. ((s.last_sequence + 1) ∷ r.0, r.1)) (append_loop_saved es (write_event e s) i)

append_loop_lem :
    (e : Event) (es : List Event) (s : EventStore)
    → saved_batch (append_loop (e ∷ es) s) ≡ append_each (e ∷ es) s
unfolding append_loop append_each append
append_loop_lem e [] s = refl
append_loop_lem e (d ∷ es) s =
    let s' = write_event e s in
    ap (λ r. ((s.last_sequence + 1) ∷ r.0, r.1))
      (sym (append_loop_saved (d ∷ es) s' s'.index) ∙ append_loop_lem d es (save_index s'))

-- `append_many` gives the same numbers and leaves the same store as appending the events one by one,
-- also where the list is empty.
pub append_many_lem : (es : List Event) (s : EventStore) → append_many es s ≡ append_each es s
unfolding append_many append_each
append_many_lem [] s = refl
append_many_lem (e ∷ es) s = append_loop_lem e es s

-- The files after a batch.
abbrev pub put_all : NatDict (Option Event) → Log → List Event → NatDict (Option Event)
put_all files l [] = files
put_all files l (e ∷ es) = put_all (put_event files l e) (push e l) es

pub append_each_lem :
    (p : EventRetentionPolicy) (files : NatDict (Option Event)) (l : Log) (es : List Event)
    → IsStored files l
    → All IsPlain es
    → (append_each es (stored p files l)
        ≡ (next_numbers l.last es, stored p (put_all files l es) (push_all es l)))
      × IsStored (put_all files l es) (push_all es l)
unfolding append_each
append_each_lem p files l [] h plain = (refl, h)
append_each_lem p files l (e ∷ es) h plain =
    let head = append_lem p files (sequences l.events) l e h in
    let rest =
      append_each_lem p (put_event files l e) (push e l) es (push-IsStored files l e h plain.0)
        plain.1 in
    (
      ap (λ r. (r.0 ∷ (append_each es r.1).0, (append_each es r.1).1)) head
          ∙ ap (λ r. ((l.last + 1) ∷ r.0, r.1)) rest.0,
      rest.1,
    )
