-- ===== src/Events/Log/Ascending.antt =====
-- Lists of events in the order of their numbers, and what holds of all events of a list.
use prodinamik_engine.Prelude.{
  ℕ, ◌+◌, ◌≤◌, ◌<◌, ◌≡◌, refl, Bool, false, none, List, [], ◌∷◌, ◌++◌, arith, length, select,
  Bool-cases, inl, inr,
}
use prodinamik_engine.NatDict.{has}
use prodinamik_engine.Events.{Event}
use prodinamik_engine.Events.Log.{find}

abbrev pub All : (Event → Type 0) → List Event → Type 0
All P [] = Unit
All P (e ∷ es) = P e × All P es

-- The numbers are above `low`, ascending, and at most `high`.
abbrev pub IsAscending : ℕ → ℕ → List Event → Type 0
IsAscending low high [] = low ≤ high
IsAscending low high (e ∷ es) = (low < e.sequence) × IsAscending e.sequence high es

abbrev pub sequences : List Event → List ℕ
sequences [] = []
sequences (e ∷ es) = e.sequence ∷ sequences es

pub IsAscending-weaken :
    (low low' high : ℕ) (es : List Event)
    → low' ≤ low
    → IsAscending low high es
    → IsAscending low' high es
IsAscending-weaken low low' high [] h a = omega arith
IsAscending-weaken low low' high (e ∷ es) h a = (omega arith, a.1)

pub IsAscending-bound :
    (low high : ℕ) (es : List Event) → IsAscending low high es → low + length es ≤ high
IsAscending-bound low high [] a = omega arith
IsAscending-bound low high (e ∷ es) a = omega (arith, IsAscending-bound e.sequence high es a.1, a.0)

pub IsAscending-append :
    (low high : ℕ) (es : List Event) (e : Event)
    → IsAscending low high es
    → e.sequence ≡ high + 1
    → IsAscending low (high + 1) (es ++ e ∷ [])
IsAscending-append low high [] e a h = (omega arith, omega arith)
IsAscending-append low high (d ∷ es) e a h = (a.0, IsAscending-append d.sequence high es e a.1 h)

pub All-map :
    (P Q : Event → Type 0) (es : List Event) → ((e : Event) → P e → Q e) → All P es → All Q es
All-map P Q [] f h = tt
All-map P Q (e ∷ es) f h = (f e h.0, All-map P Q es f h.1)

-- What holds of the events above a number holds of all that follow it.
pub All-above :
    (P Q : Event → Type 0) (low high : ℕ) (es : List Event)
    → ((e : Event) → low < e.sequence → P e → Q e)
    → IsAscending low high es
    → All P es
    → All Q es
All-above P Q low high [] f a h = tt
All-above P Q low high (e ∷ es) f a h =
    (f e a.0 h.0, All-above P Q e.sequence high es (λ d l q. f d (omega (arith, l, a.0)) q) a.1 h.1)

pub All-select :
    (P : Event → Type 0) (p : Event → Bool) (es : List Event) → All P es → All P (select p es)
unfolding select
All-select P p [] h = tt
All-select P p (e ∷ es) h = elim (Bool-cases (p e)) [
  | inl t ↦ rw t (h.0, All-select P p es h.1)
  | inr t ↦ rw t (All-select P p es h.1)
]

pub All-append :
    (P : Event → Type 0) (es : List Event) (e : Event) → All P es → P e → All P (es ++ e ∷ [])
All-append P [] e h x = (x, tt)
All-append P (d ∷ es) e h x = (h.0, All-append P es e h.1 x)

pub IsAscending-select :
    (low high : ℕ) (p : Event → Bool) (es : List Event)
    → IsAscending low high es
    → IsAscending low high (select p es)
unfolding select
IsAscending-select low high p [] a = a
IsAscending-select low high p (e ∷ es) a =
    let rest = IsAscending-select e.sequence high p es a.1 in
    elim (Bool-cases (p e)) [
      | inl t ↦ rw t (a.0, rest)
      | inr t ↦
          rw t (IsAscending-weaken e.sequence low high (select p es) (omega (arith, a.0)) rest)
    ]

pub has-above :
    (low high k : ℕ) (es : List Event)
    → k ≤ low
    → IsAscending low high es
    → has (sequences es) k ≡ false
has-above low high k [] h a = refl
has-above low high k (e ∷ es) h a =
    ground (arith, a.0, has-above e.sequence high k es (omega (arith, a.0)) a.1)

pub find-above :
    (low high k : ℕ) (es : List Event) → k ≤ low → IsAscending low high es → find k es ≡ none
unfolding find
find-above low high k [] h a = refl
find-above low high k (e ∷ es) h a =
    ground (arith, a.0, find-above e.sequence high k es (omega (arith, a.0)) a.1)
