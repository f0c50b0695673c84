-- ===== src/Tasks/Heap.antt =====
-- `heapq` over `PrioritizedTask`, as a list in order: `heappush` inserts, `heappop` takes the first.
-- Entries that no comparison tells apart are equal, so the order of pops is that of the real heap.
use Prim.Native.Nat.{Ordering}
use Prim.Native.String
use prodinamik_engine.Prelude.{
  ◌≤◌, ◌≡◌, Bool, true, false, ◌⊎◌, List, [], ◌∷◌, arith, ltb, String, if◌then◌else◌, Bool-cases,
  inl, inr,
}
use prodinamik_engine.Tasks.Data.{PrioritizedTask}

abbrev pub text_lt : String → String → Bool
text_lt s t = elim (String.compare s t) [ Ordering.lt ↦ true | _ ↦ false ]

-- `<` of `@dataclass(order=True)`.
unfoldable pub entry_lt : PrioritizedTask → PrioritizedTask → Bool
entry_lt a b =
    if ltb a.priority b.priority
    then true
    else if ltb b.priority a.priority
    then false
    else if ltb a.timestamp b.timestamp
    then true
    else if ltb b.timestamp a.timestamp
    then false
    else text_lt a.task_id b.task_id

unfoldable pub heappush : PrioritizedTask → List PrioritizedTask → List PrioritizedTask
heappush e [] = e ∷ []
heappush e (x ∷ heap) = if entry_lt e x then e ∷ x ∷ heap else x ∷ heappush e heap

unfoldable pub push_all : List PrioritizedTask → List PrioritizedTask → List PrioritizedTask
push_all [] heap = heap
push_all (e ∷ es) heap = push_all es (heappush e heap)

-- `a` comes no later than `b` by priority and time.
pub record Before (a b : PrioritizedTask) : Type 0 where
  pub by_priority : a.priority ≤ b.priority
  pub by_time : a.priority ≡ b.priority → a.timestamp ≤ b.timestamp

abbrev pub AllBefore : PrioritizedTask → List PrioritizedTask → Type 0
AllBefore a [] = Unit
AllBefore a (b ∷ heap) = Before a b × AllBefore a heap

abbrev pub IsHeap : List PrioritizedTask → Type 0
IsHeap [] = Unit
IsHeap (a ∷ heap) = AllBefore a heap × IsHeap heap

pub Before-trans : {a b c : PrioritizedTask} → Before a b → Before b c → Before a c
Before-trans p q = record {
  by_priority = omega (arith, p.by_priority, q.by_priority);
  by_time = λ e. omega (
    arith,
    e,
    p.by_priority,
    q.by_priority,
    p.by_time (omega (arith, e, p.by_priority, q.by_priority)),
    q.by_time (omega (arith, e, p.by_priority, q.by_priority)),
  );
}

entry_lt-Before : (a b : PrioritizedTask) → entry_lt a b ≡ true → Before a b
unfolding entry_lt
entry_lt-Before a b h = ground arith

not-entry_lt-Before : (a b : PrioritizedTask) → entry_lt a b ≡ false → Before b a
unfolding entry_lt
not-entry_lt-Before a b h = ground arith

AllBefore-heappush :
    (a e : PrioritizedTask) (heap : List PrioritizedTask)
    → Before a e
    → AllBefore a heap
    → AllBefore a (heappush e heap)
unfolding heappush
AllBefore-heappush a e [] b h = (b, tt)
AllBefore-heappush a e (x ∷ heap) b h = elim (Bool-cases (entry_lt e x)) [
  | inl first ↦ rw first (b, h)
  | inr later ↦ rw later (h.0, AllBefore-heappush a e heap b h.1)
]

AllBefore-trans :
    {a b : PrioritizedTask} (heap : List PrioritizedTask)
    → Before a b
    → AllBefore b heap
    → AllBefore a heap
AllBefore-trans [] p h = tt
AllBefore-trans (x ∷ heap) p h = (Before-trans p h.0, AllBefore-trans heap p h.1)

pub heappush-IsHeap :
    (e : PrioritizedTask) (heap : List PrioritizedTask) → IsHeap heap → IsHeap (heappush e heap)
unfolding heappush
heappush-IsHeap e [] h = (tt, tt)
heappush-IsHeap e (x ∷ heap) h = elim (Bool-cases (entry_lt e x)) [
  | inl first ↦ let p = entry_lt-Before e x first in rw first ((p, AllBefore-trans heap p h.0), h)
  | inr later ↦
      rw later (
        AllBefore-heappush x e heap (not-entry_lt-Before e x later) h.0,
        heappush-IsHeap e heap h.1,
      )
]

pub push_all-IsHeap : (es heap : List PrioritizedTask) → IsHeap heap → IsHeap (push_all es heap)
unfolding push_all
push_all-IsHeap [] heap h = h
push_all-IsHeap (e ∷ es) heap h = push_all-IsHeap es (heappush e heap) (heappush-IsHeap e heap h)

-- An entry stands in the heap.
abbrev pub In : PrioritizedTask → List PrioritizedTask → Type 0
In x [] = ⊥
In x (y ∷ heap) = (x ≡ y) ⊎ In x heap

pub In-Before :
    {a x : PrioritizedTask} (heap : List PrioritizedTask)
    → AllBefore a heap
    → In x heap
    → Before a x
In-Before [] h i = elim i [ ]
In-Before {a} (y ∷ heap) h (inl e) = rw e h.0
In-Before (y ∷ heap) h (inr i) = In-Before heap h.1 i
