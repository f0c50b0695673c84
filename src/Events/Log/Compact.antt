-- ===== src/Events/Log/Compact.antt =====
-- `purge` and `compact` (engine/event_store.py) on a store that holds a log.
use prodinamik_engine.Prelude.{
  ℕ, suc, ◌≡◌, refl, ap, sym, ◌∙◌, String, Bool, true, false, if◌then◌else◌, Option, none, some,
  List, [], ◌∷◌, arith, ltb, length, select, not, ◌&&◌, Bool-cases, inl, inr,
}
use prodinamik_engine.NatDict.{NatDict, has}
use prodinamik_engine.Events.{Event, EventRetentionPolicy, ok, is_detail, save_index}
use prodinamik_engine.Events.Retention.{
  purge, purged, compact, compact_old, summarized, summarize, exclude_all, is_old, delete_details,
}
use prodinamik_engine.Events.Log.{Log, is_expired, is_compacted, compacted}
use prodinamik_engine.Events.Log.Ascending.{
  All, All-select, IsAscending, sequences, IsAscending-select, has-above,
}
use prodinamik_engine.Events.Log.Delete.{
  IsPlain, Indexed, remove_all, purge_loop_lem, old_loop_lem, delete_details_lem, exclude_all_lem,
  left-OnFile, get-remove_all,
}
use prodinamik_engine.Events.Log.Append.{
  stored, stored_as, IsStored, put_event, append_lem, push-IsStored,
}

-- The files and the log that are left when the events that pass a test are deleted.
abbrev pub gone : (Event → Bool) → Log → List ℕ
gone p l = sequences (select p l.events)

abbrev pub left : (Event → Bool) → Log → Log
left p l = record l { events = select (λ e. not (p e)) l.events }

has_left :
    (p : Event → Bool) (low high : ℕ) (es : List Event) (k : ℕ)
    → IsAscending low high es
    → has (sequences (select (λ e. not (p e)) es)) k
      ≡ (if has (sequences (select p es)) k then false else has (sequences es) k)
unfolding select
has_left p low high [] k a = refl
has_left p low high (e ∷ es) k a =
    let ih = has_left p e.sequence high es k a.1 in
    let kept = IsAscending-select e.sequence high (λ d. not (p d)) es a.1 in
    let dead = IsAscending-select e.sequence high p es a.1 in
    elim (Bool-cases (p e)) [
      | inl t ↦ rw t (
          ground (
            arith,
            ih,
            has-above e.sequence high e.sequence (select (λ d. not (p d)) es) (omega arith) kept,
          ))
      | inr t ↦ rw t (
          ground (arith, ih, has-above e.sequence high e.sequence (select p es) (omega arith) dead))
    ]

pub left-IsStored :
    (p : Event → Bool) (files : NatDict (Option Event)) (l : Log)
    → IsStored files l
    → IsStored (remove_all (gone p l) files) (left p l)
left-IsStored p files l h = (
  IsAscending-select 0 l.last (λ e. not (p e)) l.events h.0,
  left-OnFile p 0 l.last l.events files h.0 h.1,
  λ k. ground (arith, get-remove_all (gone p l) files k, h.2 k, has_left p 0 l.last l.events k h.0),
  All-select IsPlain (λ e. not (p e)) l.events h.3,
)

-- The index that `purge` leaves, saved where anything was deleted.
settled :
    (p : EventRetentionPolicy) (files files' : NatDict (Option Event)) (l : Log)
    (dead kept : List Event)
    → exclude_all (sequences dead) (sequences l.events) ≡ sequences kept
    → purged (stored p files l) (ok (sequences dead, length dead), files')
      ≡ (ok (length dead), stored p files' (record l { events = kept }))
settled p files files' l [] kept h =
    ap
      (λ i. (
        ok 0,
        record {
          retention = p;
          files = files';
          index = i;
          last_sequence = l.last;
          saved_index = i;
        },
      ))
      h
settled p files files' l (e ∷ es) kept h = rw (some_purged es) (
    ap
      (λ i. (
        ok (suc (length es)),
        record {
          retention = p;
          files = files';
          index = i;
          last_sequence = l.last;
          saved_index = i;
        },
      ))
      h)
  where
    some_purged : (es : List Event) → ltb 0 (suc (length es)) ≡ true
    some_purged es = ground arith

pub purge_lem :
    (p : EventRetentionPolicy) (files : NatDict (Option Event)) (l : Log) (now : ℕ)
    → IsStored files l
    → purge now (stored p files l) ≡ (
      ok (length (select (is_expired p now) l.events)),
      stored p (remove_all (gone (is_expired p now) l) files) (left (is_expired p now) l),
    )
unfolding purge
purge_lem p files l now h =
    let dead = is_expired p now in
    ap (purged (stored p files l)) (purge_loop_lem p now 0 l.last l.events files h.0 h.1 h.3)
    ∙ settled p files (remove_all (gone dead l) files) l (select dead l.events)
        (select (λ e. not (dead e)) l.events) (exclude_all_lem dead 0 l.last l.events h.0)

select-select :
    (p q : Event → Bool) (es : List Event) → select q (select p es) ≡ select (λ e. p e && q e) es
unfolding select
select-select p q [] = refl
select-select p q (e ∷ es) = ground (arith, select-select p q es)

All-Indexed :
    (es : List Event) (index : List ℕ)
    → ((k : ℕ) → has (sequences es) k ≡ true → has index k ≡ true)
    → All (Indexed index) es
All-Indexed [] index f = tt
All-Indexed (e ∷ es) index f =
    (f e.sequence (ground arith), All-Indexed es index (λ k h. f k (ground (arith, h))))

abbrev details : Event → Bool
details e = is_detail e.event_type

-- The deletion of the detailed events among the old ones.
details_lem :
    (p : EventRetentionPolicy) (files : NatDict (Option Event)) (l : Log) (now : ℕ)
    → IsStored files l
    → delete_details (select details (select (is_old p now) l.events)) (stored p files l) ≡ (
      none,
      stored_as p
          (remove_all (gone (is_compacted p now) l) files)
          (sequences l.events)
          (left (is_compacted p now) l),
    )
details_lem p files l now h =
    ap (λ es. delete_details es (stored p files l)) (select-select (is_old p now) details l.events)
    ∙ delete_details_lem (select (is_compacted p now) l.events) (stored p files l) 0 l.last
        (IsAscending-select 0 l.last (is_compacted p now) l.events h.0)
        (All-select (Indexed (sequences l.events)) (is_compacted p now) l.events
          (All-Indexed l.events (sequences l.events) (λ k t. t)))
    ∙ ap
        (λ i. (
          none,
          record {
            retention = p;
            files = remove_all (gone (is_compacted p now) l) files;
            index = i;
            last_sequence = l.last;
            saved_index = sequences l.events;
          },
        ))
        (exclude_all_lem (is_compacted p now) 0 l.last l.events h.0)

-- The store that a compaction of old events leaves, and its log.
abbrev Compacts :
    EventRetentionPolicy → NatDict (Option Event) → Log → ℕ → String → List Event → Type 0
Compacts p files l now slug old =
    (files' : NatDict (Option Event)) × IsStored files' (compacted p now slug old l).1
    × (compact_old now slug (ok old) (stored p files l)
        ≡ ((compacted p now slug old l).0, stored p files' (compacted p now slug old l).1))

summarize-IsPlain :
    (now : ℕ) (slug : String) (e : Event) (es : List Event) → IsPlain (summarize now slug e es)
unfolding summarize
summarize-IsPlain now slug e es = (refl, refl)

compact_old_lem :
    (p : EventRetentionPolicy) (files : NatDict (Option Event)) (l : Log) (now : ℕ) (slug : String)
    (old : List Event)
    → select (is_old p now) l.events ≡ old
    → IsStored files l
    → Compacts p files l now slug old
compact_old_lem p files l now slug [] o h = (files, h, refl)
compact_old_lem p files l now slug (e ∷ es) o h =
    let sum = summarize now slug e es in
    let rest = left (is_compacted p now) l in
    let files' = remove_all (gone (is_compacted p now) l) files in
    let is_stored = left-IsStored (is_compacted p now) files l h in
    elim (Bool-cases (ltb (length (e ∷ es)) 10)) [
      | inl t ↦ rw t (files, h, refl)
      | inr t ↦ rw t (
        put_event files' rest sum,
        push-IsStored files' rest sum is_stored (summarize-IsPlain now slug e es),
        ap (summarized sum) (
              ap (λ d. delete_details (select details d) (stored p files l)) (sym o)
              ∙ details_lem p files l now h)
            ∙ ap (λ r. (ok (some (record sum { sequence = r.0 })), save_index r.1))
                (append_lem p files' (sequences l.events) rest sum is_stored),
      )
    ]

pub compact_lem :
    (p : EventRetentionPolicy) (files : NatDict (Option Event)) (l : Log) (now : ℕ) (slug : String)
    → IsStored files l
    → (files' : NatDict (Option Event)) × IsStored files'
        (compacted p now slug (select (is_old p now) l.events) l).1
      × (compact now slug (stored p files l) ≡ (
        (compacted p now slug (select (is_old p now) l.events) l).0,
        stored p files' (compacted p now slug (select (is_old p now) l.events) l).1,
      ))
unfolding compact
compact_lem p files l now slug h =
    let done = compact_old_lem p files l now slug (select (is_old p now) l.events) refl h in
    (
      done.0,
      done.1,
      ap (λ o. compact_old now slug o (stored p files l)) (old_loop_lem p now l.events files h.1)
          ∙ done.2,
    )
