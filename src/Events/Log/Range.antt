-- ===== src/Events/Log/Range.antt =====
-- Reading (engine/event_store.py, `get`, `get_range` and `get_all`) from a store that holds a log.
use prodinamik_engine.Prelude.{
  ℕ, zero, suc, ◌+◌, ◌-◌, ◌≤◌, ◌<◌, ◌≡◌, refl, ap, sym, ◌∙◌, true, false, Option, none, List, [],
  ◌∷◌, arith, ◌==◌, if◌then◌else◌, length, select, take, leb, Bool-cases, inl, inr,
}
use prodinamik_engine.NatDict
use prodinamik_engine.NatDict.{NatDict, has}
use prodinamik_engine.Events.{
  Event, EventStore, EventRetentionPolicy, get, get_range, get_all, range_loop, parsed,
}
use prodinamik_engine.Events.Log.{Log, find}
use prodinamik_engine.Events.Log.Ascending.{
  All, IsAscending, sequences, IsAscending-select, IsAscending-bound, find-above,
}
use prodinamik_engine.Events.Log.Delete.{OnFile}
use prodinamik_engine.Events.Log.Append.{stored, IsStored}

read_lem :
    (files : NatDict (Option Event)) (es : List Event) (k : ℕ)
    → All (OnFile files) es
    → (if has (sequences es) k then parsed (NatDict.get files k) else none) ≡ find k es
unfolding find
read_lem files [] k h = refl
read_lem files (e ∷ es) k h = ground (arith, h.0, read_lem files es k h.1)

pub get_lem :
    (p : EventRetentionPolicy) (files : NatDict (Option Event)) (l : Log) (k : ℕ)
    → IsStored files l
    → get k (stored p files l) ≡ find k l.events
unfolding get
get_lem p files l k h = read_lem files l.events k h.1

abbrev IsFrom : ℕ → ℕ → List Event → Type 0
IsFrom seq high [] = Unit
IsFrom seq high (e ∷ es) = (seq ≤ e.sequence) × IsAscending e.sequence high es

after-IsFrom : (low high : ℕ) (es : List Event) → IsAscending low high es → IsFrom (low + 1) high es
after-IsFrom low high [] a = tt
after-IsFrom low high (e ∷ es) a = (omega (arith, a.0), a.1)

-- A number that is not that of the first event is none's.
range_skips :
    (seq high : ℕ) (e : Event) (es : List Event)
    → IsFrom seq high (e ∷ es)
    → (e.sequence == seq) ≡ false
    → (find seq (e ∷ es) ≡ none) × IsFrom (seq + 1) high (e ∷ es)
range_skips seq high e es a n =
    let l : seq < e.sequence = ground (arith, a.0, n) in
    (find-above seq high seq (e ∷ es) (omega arith) (l, a.1), (omega arith, a.1))

pub take-nil : (n : ℕ) → take {A = Event} n [] ≡ []
take-nil zero = refl
take-nil (suc n) = refl

pub positive : (n : ℕ) → (suc n == 0) ≡ false
positive n = ground arith

after_head :
    (seq high : ℕ) (e : Event) (es : List Event)
    → IsFrom seq high (e ∷ es)
    → (e.sequence == seq) ≡ true
    → IsFrom (seq + 1) high es
after_head seq high e [] a t = tt
after_head seq high e (d ∷ es) a t = (ground (arith, a.1.0, t), a.1.1)

find_other : (k : ℕ) (e : Event) (es : List Event) → e.sequence < k → find k (e ∷ es) ≡ find k es
unfolding find
find_other k e es l = ground (arith, l)

-- The loop over `n` numbers from `seq` on, where they are the numbers of the events `es`.
pub range_loop_lem :
    (n seq limit high : ℕ) (es : List Event) (s : EventStore)
    → high < seq + n
    → IsFrom seq high es
    → ((k : ℕ) → seq ≤ k → get k s ≡ find k es)
    → range_loop n seq limit s ≡ take limit es
unfolding range_loop find
range_loop_lem zero seq zero high es s b a h = refl
range_loop_lem (suc n) seq zero high es s b a h = refl
range_loop_lem zero seq (suc limit) high [] s b a h = refl
range_loop_lem zero seq (suc limit) high (e ∷ es) s b a h =
    absurd (omega (arith, b, a.0, IsAscending-bound e.sequence high es a.1))
range_loop_lem (suc n) seq (suc limit) high [] s b a h =
    let ih =
      range_loop_lem n (seq + 1) (suc limit) high [] s (omega arith) tt
        (λ k l. h k (omega arith)) in
    rw (positive limit, h seq (omega arith)) ih
range_loop_lem (suc n) seq (suc limit) high (e ∷ es) s b a h =
    elim (Bool-cases (e.sequence == seq)) [
      | inl t ↦
          let ih =
            range_loop_lem n (seq + 1) limit high es s (omega arith) (after_head seq high e es a t)
              (λ k l. h k (omega arith) ∙ find_other k e es (ground (arith, t, l))) in
          let step : suc limit - 1 ≡ limit = omega arith in
          rw (positive limit, h seq (omega arith), t, step) (ap (λ t. e ∷ t) ih)
      | inr t ↦
          let skipped = range_skips seq high e es a t in
          let ih =
            range_loop_lem n (seq + 1) (suc limit) high (e ∷ es) s (omega arith) skipped.1
              (λ k l. h k (omega arith)) in
          rw (positive limit, h seq (omega arith), skipped.0) ih
    ]

pub select-IsFrom :
    (start low high : ℕ) (es : List Event)
    → IsAscending low high es
    → IsFrom start high (select (λ e. leb start e.sequence) es)
unfolding select
select-IsFrom start low high [] a = tt
select-IsFrom start low high (e ∷ es) a = elim (Bool-cases (leb start e.sequence)) [
  | inl t ↦
      rw t
        (ground (arith, t), IsAscending-select e.sequence high (λ d. leb start d.sequence) es a.1)
  | inr t ↦ rw t (select-IsFrom start e.sequence high es a.1)
]

pub find_from :
    (start k : ℕ) (es : List Event)
    → start ≤ k
    → find k (select (λ e. leb start e.sequence) es) ≡ find k es
unfolding select find
find_from start k [] l = refl
find_from start k (e ∷ es) l = ground (arith, find_from start k es l)

take-all : (n : ℕ) (es : List Event) → length es ≤ n → take n es ≡ es
take-all n [] h = take-nil n
take-all zero (e ∷ es) h = absurd (omega (arith, h))
take-all (suc n) (e ∷ es) h = ap (λ t. e ∷ t) (take-all n es (omega arith))

lt→leb1 : (n : ℕ) → 0 < n → leb 1 n ≡ true
lt→leb1 n h = ground (arith, h)

select_all :
    (low high : ℕ) (es : List Event)
    → IsAscending low high es
    → select (λ e. leb 1 e.sequence) es ≡ es
unfolding select
select_all low high [] a = refl
select_all low high (e ∷ es) a =
    rw (lt→leb1 e.sequence (omega (arith, a.0)))
      (ap (λ t. e ∷ t) (select_all e.sequence high es a.1))

pub get_range_lem :
    (p : EventRetentionPolicy) (files : NatDict (Option Event)) (l : Log) (start limit : ℕ)
    → IsStored files l
    → get_range start limit (stored p files l)
      ≡ take limit (select (λ e. leb start e.sequence) l.events)
unfolding get_range
get_range_lem p files l start limit h =
    range_loop_lem (l.last + 1 - start) start limit l.last
      (select (λ e. leb start e.sequence) l.events) (stored p files l) (omega arith)
      (select-IsFrom start 0 l.last l.events h.0)
      (λ k g. get_lem p files l k h ∙ sym (find_from start k l.events g))

-- All events are read, in order.
pub get_all_lem :
    (p : EventRetentionPolicy) (files : NatDict (Option Event)) (l : Log)
    → IsStored files l
    → get_all (stored p files l) ≡ l.events
unfolding get_all
get_all_lem p files l h =
    get_range_lem p files l 1 (l.last + 1) h
    ∙ ap (take (l.last + 1)) (select_all 0 l.last l.events h.0)
    ∙ take-all (l.last + 1) l.events (omega (arith, IsAscending-bound 0 l.last l.events h.0))
