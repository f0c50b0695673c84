-- ===== src/Events/Log/Latest.antt =====
-- Queries (engine/event_store.py, `query`) to a store that holds a log: the latest events come first.
use prodinamik_engine.Prelude.{
  ℕ, zero, suc, ◌-◌, ◌≤◌, ◌≡◌, refl, ap, sym, ◌∙◌, Option, none, some, List, [], ◌∷◌, ◌++◌, arith,
  ◌==◌, if◌then◌else◌, select, take, leb, Bool-cases, Option-cases, inl, inr,
}
use prodinamik_engine.NatDict.{NatDict}
use prodinamik_engine.Events.{
  Event, EventStore, EventRetentionPolicy, Filter, fits, query, query_loop, get,
}
use prodinamik_engine.Events.Log.{Log, find, reversed}
use prodinamik_engine.Events.Log.Ascending.{IsAscending, IsAscending-bound}
use prodinamik_engine.Events.Log.Append.{stored, IsStored}
use prodinamik_engine.Events.Log.Range.{get_lem, take-nil, positive}

-- The events up to a number.
abbrev below : ℕ → List Event → List Event
below n es = select (λ e. leb e.sequence n) es

below_none :
    (n low high : ℕ) (es : List Event) → n ≤ low → IsAscending low high es → below n es ≡ []
unfolding select
below_none n low high [] h a = refl
below_none n low high (e ∷ es) h a =
    ground (arith, a.0, below_none n e.sequence high es (omega (arith, a.0)) a.1)

below_all : (low high : ℕ) (es : List Event) → IsAscending low high es → below high es ≡ es
unfolding select
below_all low high [] a = refl
below_all low high (e ∷ es) a =
    ground (arith, IsAscending-bound e.sequence high es a.1, below_all e.sequence high es a.1)

-- The event under the next number, if there is one, comes last.
abbrev last_of : Option Event → List Event
last_of none = []
last_of (some e) = e ∷ []

below-suc :
    (n low high : ℕ) (es : List Event)
    → IsAscending low high es
    → below (suc n) es ≡ below n es ++ last_of (find (suc n) es)
unfolding select find
below-suc n low high [] a = refl
below-suc n low high (e ∷ es) a = elim (Bool-cases (e.sequence == suc n)) [
  | inl t ↦ ground (
    arith,
    t,
    below_none (suc n) e.sequence high es (ground (arith, t)) a.1,
    below_none n e.sequence high es (ground (arith, t)) a.1,
  )
  | inr t ↦ elim (Bool-cases (leb e.sequence n)) [
    | inl u ↦ ground (arith, t, u, below-suc n e.sequence high es a.1)
    | inr u ↦ ground (arith, t, u, below-suc n e.sequence high es a.1)
  ]
]

reversed-append : (es : List Event) (e : Event) → reversed (es ++ e ∷ []) ≡ e ∷ reversed es
reversed-append [] e = refl
reversed-append (d ∷ es) e = ap (λ t. t ++ d ∷ []) (reversed-append es e)

append_nil : (es : List Event) → es ++ [] ≡ es
append_nil [] = refl
append_nil (e ∷ es) = ap (λ t. e ∷ t) (append_nil es)

-- One more number: its event, if there is one and it fits, comes first.
abbrev with_first : Filter → Option Event → List Event → List Event
with_first f none es = es
with_first f (some e) es = if fits f e then e ∷ es else es

select_cons :
    (f : Filter) (e : Event) (es : List Event)
    → select (fits f) (e ∷ es) ≡ (if fits f e then e ∷ select (fits f) es else select (fits f) es)
unfolding select
select_cons f e es = refl

fitting_suc :
    (f : Filter) (n high : ℕ) (es : List Event) (o : Option Event)
    → IsAscending 0 high es
    → find (suc n) es ≡ o
    → select (fits f) (reversed (below (suc n) es))
      ≡ with_first f o (select (fits f) (reversed (below n es)))
fitting_suc f n high es none a h =
    ap (λ t. select (fits f) (reversed t))
      (below-suc n 0 high es a ∙ ap (λ o. below n es ++ last_of o) h ∙ append_nil (below n es))
fitting_suc f n high es (some e) a h =
    ap (λ t. select (fits f) (reversed t))
      (below-suc n 0 high es a ∙ ap (λ o. below n es ++ last_of o) h)
    ∙ ap (select (fits f)) (reversed-append (below n es) e)
    ∙ select_cons f e (reversed (below n es))

no_take : (f : Filter) (limit : ℕ) → take limit (select (fits f) []) ≡ []
unfolding select
no_take f limit = take-nil limit

query_loop_lem :
    (f : Filter) (n limit high : ℕ) (es : List Event) (s : EventStore)
    → IsAscending 0 high es
    → ((k : ℕ) → get k s ≡ find k es)
    → query_loop n f limit s ≡ take limit (select (fits f) (reversed (below n es)))
unfolding query_loop
query_loop_lem f zero limit high es s a h = sym (
    ap (λ t. take limit (select (fits f) (reversed t))) (below_none 0 0 high es (omega arith) a)
    ∙ no_take f limit)
query_loop_lem f (suc n) zero high es s a h = refl
query_loop_lem f (suc n) (suc limit) high es s a h =
    let ih = λ (l : ℕ). query_loop_lem f n l high es s a h in
    let step : suc limit - 1 ≡ limit = omega arith in
    elim (Option-cases (find (suc n) es)) [
      | inl o ↦ rw (positive limit, h (suc n), o, fitting_suc f n high es none a o) (ih (suc limit))
      | inr e ↦ elim (Bool-cases (fits f e.0)) [
        | inl t ↦
            rw (positive limit, h (suc n), e.1, fitting_suc f n high es (some e.0) a e.1, t, step)
              (ap (λ t. e.0 ∷ t) (ih limit))
        | inr t ↦
            rw (positive limit, h (suc n), e.1, fitting_suc f n high es (some e.0) a e.1, t)
              (ih (suc limit))
      ]
    ]

pub query_lem :
    (p : EventRetentionPolicy) (files : NatDict (Option Event)) (l : Log) (f : Filter) (limit : ℕ)
    → IsStored files l
    → query f limit (stored p files l) ≡ take limit (select (fits f) (reversed l.events))
unfolding query
query_lem p files l f limit h =
    query_loop_lem f l.last limit l.last l.events (stored p files l) h.0
      (λ k. get_lem p files l k h)
    ∙ ap (λ es. take limit (select (fits f) (reversed es))) (below_all 0 l.last l.events h.0)
