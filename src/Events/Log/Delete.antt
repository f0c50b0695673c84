-- ===== src/Events/Log/Delete.antt =====
-- The loops of `purge` and `compact` (engine/event_store.py) as selections of events, where the index
-- is the ascending list of the numbers of events that are on file.
use prodinamik_engine.Prelude.{
  ℕ, ◌-◌, ◌≡◌, refl, ap, ◌∙◌, Bool, true, false, Option, none, some, List, [], ◌∷◌, arith,
  if◌then◌else◌, length, select, not, Bool-cases, inl, inr,
}
use prodinamik_engine.NatDict
use prodinamik_engine.NatDict.{NatDict, has, exclude, get-remove, has-exclude}
use prodinamik_engine.Events.{
  Event, EventStore, EventRetentionPolicy, EventName, known, unknown, is_known, is_older, ok,
  purge_known, purge_named, should_purge,
}
use prodinamik_engine.Events.Log.{has_expired, is_expired}
use prodinamik_engine.Events.Retention.{
  purge_loop, deleted, exclude_all, old_loop, with_old, is_old, delete_details,
}
use prodinamik_engine.Events.Log.Ascending.{
  All, All-above, IsAscending, sequences, has-above, IsAscending-select,
}

abbrev pub remove_all : List ℕ → NatDict (Option Event) → NatDict (Option Event)
remove_all [] files = files
remove_all (k ∷ ks) files = remove_all ks (NatDict.remove files k)

pub get-remove_all :
    (ks : List ℕ) (files : NatDict (Option Event)) (k : ℕ)
    → NatDict.get (remove_all ks files) k ≡ (if has ks k then none else NatDict.get files k)
get-remove_all [] files k = refl
get-remove_all (j ∷ ks) files k =
    ground (arith, get-remove_all ks (NatDict.remove files j) k, get-remove files j k)

-- An event is on file, and its number is in the index.
abbrev pub OnFile : NatDict (Option Event) → Event → Type 0
OnFile files e = NatDict.get files e.sequence ≡ some (some e)

abbrev pub Indexed : List ℕ → Event → Type 0
Indexed index e = has index e.sequence ≡ true

-- Removing a number leaves the later events on file and indexed.
remove-OnFile :
    (files : NatDict (Option Event)) (k high : ℕ) (es : List Event)
    → IsAscending k high es
    → All (OnFile files) es
    → All (OnFile (NatDict.remove files k)) es
remove-OnFile files k high es a h =
    All-above (OnFile files) (OnFile (NatDict.remove files k)) k high es
      (λ e l q. ground (arith, get-remove files k e.sequence, l, q)) a h

exclude-Indexed :
    (index : List ℕ) (k high : ℕ) (es : List Event)
    → IsAscending k high es
    → All (Indexed index) es
    → All (Indexed (exclude k index)) es
exclude-Indexed index k high es a h =
    All-above (Indexed index) (Indexed (exclude k index)) k high es
      (λ e l q. ground (arith, has-exclude k index e.sequence, l, q)) a h

-- The type of an event is one of `EventType`, and its time can be read.
abbrev pub IsPlain : Event → Type 0
IsPlain e = (is_known e.event_type ≡ true) × (e.is_iso ≡ true)

should_purge_lem :
    (p : EventRetentionPolicy) (now : ℕ) (e : Event)
    → IsPlain e
    → should_purge p now e ≡ ok (is_expired p now e)
unfolding should_purge is_expired
should_purge_lem p now e h = named e.event_type h.0
  where
    aged : (o : Option ℕ) → purge_known now p e o ≡ ok (is_older (now - e.timestamp) p.day o)
    aged none = refl
    aged (some days) = rw h.1 refl

    named : (n : EventName) → is_known n ≡ true → purge_named now p e n ≡ ok (has_expired p now e n)
    named (known t) h = aged (p.days t)
    named (unknown name) h = ground arith

pub purge_loop_lem :
    (p : EventRetentionPolicy) (now low high : ℕ) (es : List Event) (files : NatDict (Option Event))
    → IsAscending low high es
    → All (OnFile files) es
    → All IsPlain es
    → let gone = select (is_expired p now) es in
      purge_loop p now (sequences es) files
      ≡ (ok (sequences gone, length gone), remove_all (sequences gone) files)
unfolding purge_loop select
purge_loop_lem p now low high [] files a h plain = refl
purge_loop_lem p now low high (e ∷ es) files a h plain =
    let ih = purge_loop_lem p now e.sequence high es files a.1 h.1 plain.1 in
    let ih' =
      purge_loop_lem p now e.sequence high es (NatDict.remove files e.sequence) a.1
        (remove-OnFile files e.sequence high es a.1 h.1) plain.1 in
    let verdict = should_purge_lem p now e plain.0 in
    let gone = select (is_expired p now) es in
    let left = remove_all (sequences gone) (NatDict.remove files e.sequence) in
    elim (Bool-cases (is_expired p now e)) [
      | inl t ↦
          rw (h.0, verdict, t, purge_loop, select)
            (ap (deleted e.sequence 1) ih'
              ∙ ap (λ n. (ok (e.sequence ∷ sequences gone, n), left)) (omega arith))
      | inr t ↦ rw (h.0, verdict, t, purge_loop, select) ih
    ]

pub old_loop_lem :
    (p : EventRetentionPolicy) (now : ℕ) (es : List Event) (files : NatDict (Option Event))
    → All (OnFile files) es
    → old_loop p now (sequences es) files ≡ ok (select (is_old p now) es)
unfolding old_loop select
old_loop_lem p now [] files h = refl
old_loop_lem p now (e ∷ es) files h =
    let ih = old_loop_lem p now es files h.1 in
    elim (Bool-cases (is_old p now e)) [
      | inl t ↦ rw (h.0, t, old_loop, select) (ap (with_old e) ih)
      | inr t ↦ rw (h.0, t, old_loop, select) ih
    ]

pub delete_details_lem :
    (es : List Event) (s : EventStore) (low high : ℕ)
    → IsAscending low high es
    → All (Indexed s.index) es
    → delete_details es s ≡ (
      none,
      record s {
        files = remove_all (sequences es) s.files;
        index = exclude_all (sequences es) s.index;
      },
    )
unfolding delete_details
delete_details_lem [] s low high a h = refl
delete_details_lem (e ∷ es) s low high a h =
    let s' = record s {
      files = NatDict.remove s.files e.sequence;
      index = exclude e.sequence s.index;
    } in
    rw h.0 (
      delete_details_lem es s' e.sequence high a.1
        (exclude-Indexed s.index e.sequence high es a.1 h.1))

exclude-absent : (k : ℕ) (xs : List ℕ) → has xs k ≡ false → exclude k xs ≡ xs
unfolding exclude
exclude-absent k [] h = refl
exclude-absent k (x ∷ xs) h = ground (arith, exclude-absent k xs, h)

exclude_all_other :
    (ks : List ℕ) (x : ℕ) (xs : List ℕ)
    → has ks x ≡ false
    → exclude_all ks (x ∷ xs) ≡ x ∷ exclude_all ks xs
unfolding exclude
exclude_all_other [] x xs h = refl
exclude_all_other (k ∷ ks) x xs h = ground (arith, exclude_all_other ks x (exclude k xs), h)

exclude_head : (k : ℕ) (xs : List ℕ) → has xs k ≡ false → exclude k (k ∷ xs) ≡ xs
unfolding exclude
exclude_head k xs h = ground (arith, exclude-absent k xs h)

-- The numbers that are left when those of the selected events are deleted.
pub exclude_all_lem :
    (p : Event → Bool) (low high : ℕ) (es : List Event)
    → IsAscending low high es
    → exclude_all (sequences (select p es)) (sequences es) ≡ sequences (select (λ e. not (p e)) es)
unfolding select
exclude_all_lem p low high [] a = refl
exclude_all_lem p low high (e ∷ es) a =
    let ih = exclude_all_lem p e.sequence high es a.1 in
    let absent = has-above e.sequence high e.sequence es (omega arith) a.1 in
    elim (Bool-cases (p e)) [
      | inl t ↦ rw t (
          ap (exclude_all (sequences (select p es))) (exclude_head e.sequence (sequences es) absent)
          ∙ ih)
      | inr t ↦ rw t (
          exclude_all_other (sequences (select p es)) e.sequence (sequences es) (
            has-above e.sequence high e.sequence (select p es) (omega arith)
              (IsAscending-select e.sequence high p es a.1))
          ∙ ap (λ t. e.sequence ∷ t) ih)
    ]

-- The events that are left are still on file.
pub left-OnFile :
    (p : Event → Bool) (low high : ℕ) (es : List Event) (files : NatDict (Option Event))
    → IsAscending low high es
    → All (OnFile files) es
    → All (OnFile (remove_all (sequences (select p es)) files)) (select (λ e. not (p e)) es)
unfolding select
left-OnFile p low high [] files a h = tt
left-OnFile p low high (e ∷ es) files a h =
    let kept = left-OnFile p e.sequence high es files a.1 h.1 in
    let removed =
      left-OnFile p e.sequence high es (NatDict.remove files e.sequence) a.1
        (remove-OnFile files e.sequence high es a.1 h.1) in
    let absent =
      has-above e.sequence high e.sequence (select p es) (omega arith)
        (IsAscending-select e.sequence high p es a.1) in
    elim (Bool-cases (p e)) [
      | inl t ↦ rw t removed
      | inr t ↦
          rw t (rw (get-remove_all (sequences (select p es)) files e.sequence, absent) h.0, kept)
    ]
