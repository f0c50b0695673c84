-- ===== src/Raft/Merge/Search/Complete.antt =====
-- `_find_path` (engine/raft_consensus.py) against reachability in the table, and its fuel.
use prodinamik_engine.Prelude.{
  ℕ, zero, suc, ◌≤◌, ◌<◌, ◌≡◌, ◌≢◌, refl, sym, ◌∙◌, ◌⊎◌, inl, inr, String, true, false, Option,
  none, some, List, [], ◌∷◌, arith, str_eq, eq_iff, if◌then◌else◌, length, contains, contains-add,
  add, Bool-cases, Option-cases,
}
use prodinamik_engine.Dict
use prodinamik_engine.Dict.{Dict}
use prodinamik_engine.Raft.Merge.{Visited, successors, try_each, find_path, fuel_for, path_between}
use prodinamik_engine.Raft.Merge.Search.{
  Find, descent, IsPath, try_each-some, try_each-none, find_path_at_end, find_path_again,
  find_path_down, prepend-none, find_path_sound,
}

-- From the first state one comes to the second along the table.
pub data Reaches (t : Dict (List String)) (x : String) : String → Type 0 where
  here : Reaches t x x
  next : {y z : String} → Reaches t x y → contains (successors t y) z ≡ true → Reaches t x z

Reaches-cons :
    {t : Dict (List String)} {x y z : String}
    → contains (successors t x) y ≡ true
    → Reaches t y z
    → Reaches t x z
Reaches-cons e here = next here e
Reaches-cons e (next r f) = next (Reaches-cons e r) f

pub IsPath-Reaches :
    (t : Dict (List String)) (a b : String) (p : List String) → IsPath t a b p → Reaches t a b
IsPath-Reaches t a b [] h = elim h [ ]
IsPath-Reaches t a b (x ∷ []) h = rw (sym h.0 ∙ h.1) here
IsPath-Reaches t a b (x ∷ y ∷ p) h =
    rw (← h.0) (Reaches-cons h.1 (IsPath-Reaches t y b (y ∷ p) h.2))

-- The keys that are not visited yet.
unvisited : Dict (List String) → Visited → ℕ
unvisited [] v = 0
unvisited ((k, ys) ∷ t) v = let rest = unvisited t v in if contains v k then rest else suc rest

unvisited_le :
    (t : Dict (List String)) (v w : Visited)
    → ((x : String) → contains v x ≡ true → contains w x ≡ true)
    → unvisited t w ≤ unvisited t v
unfolding unvisited
unvisited_le [] v w h = omega arith
unvisited_le ((k, ys) ∷ t) v w h = ground (arith, unvisited_le t v w h, h k)

unvisited-le-length : (t : Dict (List String)) (v : Visited) → unvisited t v ≤ length t
unfolding unvisited
unvisited-le-length [] v = omega arith
unvisited-le-length ((k, ys) ∷ t) v = ground (arith, unvisited-le-length t v)

contains_keeps :
    (s : String) (v : Visited) (x : String) → contains v x ≡ true → contains (add s v) x ≡ true
contains_keeps s v x h = ground (arith, contains-add s v x)

contains_self : (s : String) (v : Visited) → contains (add s v) s ≡ true
contains_self s v = ground (arith, contains-add s v s, eq_iff s s)

-- Visiting a key that has an entry leaves fewer.
unvisited_lt :
    (t : Dict (List String)) (v : Visited) (s : String) (ys : List String)
    → contains v s ≡ false
    → Dict.get t s ≡ some ys
    → unvisited t (add s v) < unvisited t v
unfolding unvisited Dict.get
unvisited_lt [] v s ys new h = cc
unvisited_lt ((k, zs) ∷ t) v s ys new h = elim (Bool-cases (str_eq k s)) [
  | inl same ↦ ground (
    arith,
    unvisited_le t v (add s v) (contains_keeps s v),
    contains-add s v k,
    eq_iff k s,
    eq_iff s k,
  )
  | inr other ↦
      ground (
        arith,
        unvisited_lt t v s ys new (rw other at h),
        contains-add s v k,
        eq_iff k s,
        eq_iff s k,
      )
]

-- What a search that found nothing has visited: nothing is lost, and each new state is not the end
-- and has its successors among the visited.
record Explored (t : Dict (List String)) (end : String) (v w : Visited) : Type 0 where
  grows : (x : String) → contains v x ≡ true → contains w x ≡ true
  closed :
      (x : String)
      → contains w x ≡ true
      → (contains v x ≡ true)
        ⊎ ((x ≢ end) × ((y : String) → contains (successors t x) y ≡ true → contains w y ≡ true))

Explored-refl : (t : Dict (List String)) (end : String) (v : Visited) → Explored t end v v
Explored-refl t end v = record { grows = λ x h. h; closed = λ x h. inl h }

Explored-trans :
    {t : Dict (List String)} {end : String} {u v w : Visited}
    → Explored t end u v
    → Explored t end v w
    → Explored t end u w
Explored-trans a b = record {
  grows = λ x h. b.grows x (a.grows x h);
  closed = λ x h. elim (b.closed x h) [
    | inr new ↦ inr new
    | inl old ↦ elim (a.closed x old) [
      | inl older ↦ inl older
      | inr (ne, all) ↦ inr (ne, λ y e. b.grows y (all y e))
    ]
  ];
}

-- A search from each state, with fuel for what is not visited, that explores and visits its start.
abbrev Explores : Dict (List String) → String → ℕ → Find → Type 0
Explores t end f find =
    (s : String) (v : Visited)
    → unvisited t v < f
    → (find s v).0 ≡ none
    → Explored t end v (find s v).1 × (contains (find s v).1 s ≡ true)

try_each-Explores :
    (t : Dict (List String)) (end : String) (f : ℕ) (find : Find)
    → Explores t end f find
    → (nexts : List String) (v : Visited) → unvisited t v < f
    → (try_each find nexts v).0 ≡ none
    → Explored t end v (try_each find nexts v).1
      × ((y : String) → contains nexts y ≡ true → contains (try_each find nexts v).1 y ≡ true)
try_each-Explores t end f find ex [] v lt h = unfold try_each in (Explored-refl t end v, λ y e. cc)
try_each-Explores t end f find ex (n ∷ nexts) v lt h = elim (Option-cases (find n v).0) [
  | inr (p, found) ↦ absurd (none-ne-some p (sym h ∙ try_each-some find n nexts v p found))
  | inl missed ↦
      let (first, there) = ex n v lt missed in
      let eq = try_each-none find n nexts v missed in
      let (rest, all) =
        try_each-Explores t end f find ex nexts (find n v).1 (fewer first) (rw eq at h) in
      rw eq (
        Explored-trans first rest,
        λ y e. elim (Bool-cases (str_eq n y)) [
          | inl same ↦ rest.grows y (ground (arith, there, eq_iff n y))
          | inr other ↦ all y (ground arith)
        ],
      )
]
  where
    none-ne-some : (p : List String) → ◌≡◌ {A = Option (List String)} none (some p) → ⊥
    none-ne-some p e = cc

    fewer : Explored t end v (find n v).1 → unvisited t (find n v).1 < f
    fewer ex = omega (arith, unvisited_le t v (find n v).1 ex.grows)

try_each_nothing : (find : Find) (v : Visited) → try_each find [] v ≡ (none, v)
unfolding try_each
try_each_nothing find v = refl

-- The search below a new state: a state with no entry has nothing below it, and one with an entry
-- leaves fewer keys than the fuel.
descent-Explores :
    (f : ℕ) (t : Dict (List String)) (end s : String) (v : Visited)
    → Explores t end f (find_path f t end)
    → unvisited t v < suc f
    → contains v s ≡ false
    → (descent f t end s v).0 ≡ none
    → Explored t end (add s v) (descent f t end s v).1
      × ((y : String)
          → contains (successors t s) y ≡ true
          → contains (descent f t end s v).1 y ≡ true)
descent-Explores f t end s v ih lt new missed = elim (Option-cases (Dict.get t s)) [
  | inl leaf ↦ rw leaf (
      rw (try_each_nothing (find_path f t end) (add s v))
        (Explored-refl t end (add s v), λ y e. cc))
  | inr (ys, entry) ↦
      try_each-Explores t end f (find_path f t end) ih (successors t s) (add s v)
        (omega (arith, unvisited_lt t v s ys new entry)) missed
]

-- What was explored with the start visited was explored without.
with_start :
    (t : Dict (List String)) (end s : String) (v : Visited) {w : Visited}
    → str_eq s end ≡ false
    → Explored t end (add s v) w
    → ((y : String) → contains (successors t s) y ≡ true → contains w y ≡ true)
    → Explored t end v w
with_start t end s v e below all = record {
  grows = λ x h. below.grows x (contains_keeps s v x h);
  closed = λ x h. elim (below.closed x h) [
    | inr new ↦ inr new
    | inl old ↦ elim (Bool-cases (str_eq s x)) [
      | inr other ↦ inl (ground (arith, contains-add s v x))
      | inl same ↦
          let eq = (eq_iff s x).0 same in
          inr ((λ x_end. ground (arith, e, eq, x_end, eq_iff s end)), λ y edge. all y (rw eq edge))
    ]
  ];
}

find_path-Explores :
    (f : ℕ) (t : Dict (List String)) (end : String) → Explores t end f (find_path f t end)
find_path-Explores zero t end s v lt h = elim lt [ ]
find_path-Explores (suc f) t end s v lt h = elim (Bool-cases (str_eq s end)) [
  | inl e ↦ absurd (some-ne-none (rw (find_path_at_end f t end s v e) at h))
  | inr e ↦ elim (Bool-cases (contains v s)) [
    | inl seen ↦ rw (find_path_again f t end s v e seen) (Explored-refl t end v, seen)
    | inr new ↦
        let eq = find_path_down f t end s v e new in
        let (missed, same) = prepend-none s (descent f t end s v) (rw eq at h) in
        let (below, all) =
          descent-Explores f t end s v (find_path-Explores f t end) lt new missed in
        rw eq (rw same (with_start t end s v e below all, below.grows s (contains_self s v)))
  ]
]
  where
    some-ne-none : ◌≡◌ {A = Option (List String)} (some (end ∷ [])) none → ⊥
    some-ne-none h = cc

-- Where the search finds nothing, nothing that the start reaches is the end.
closed_reaches :
    (t : Dict (List String)) (end a : String) (w : Visited)
    → Explored t end [] w
    → contains w a ≡ true
    → {x : String} → Reaches t a x
    → contains w x ≡ true
closed_reaches t end a w ex start here = start
closed_reaches t end a w ex start (next {y = y} {z = z} r e) =
    elim (ex.closed y (closed_reaches t end a w ex start r)) [
      | inl old ↦ cc
      | inr (ne, all) ↦ all z e
    ]

-- `_find_path` with nothing visited, on the fuel that the model gives it: what it returns is a path
-- of the table from the first state to the second, and it returns one wherever the first reaches the
-- second.
pub path_between_lem :
    (t : Dict (List String)) (a b : String)
    → ((p : List String) → path_between t a b ≡ some p → IsPath t a b p)
      × (Reaches t a b → (p : List String) × (path_between t a b ≡ some p))
unfolding path_between
path_between_lem t a b = (
  find_path_sound (fuel_for t) t b a [],
  λ r. elim (Option-cases (find_path (fuel_for t) t b a []).0) [
    | inr found ↦ found
    | inl missed ↦ absurd (unreached r missed)
  ],
)
  where
    unreached : Reaches t a b → (find_path (fuel_for t) t b a []).0 ≡ none → ⊥
    unreached r missed =
        let (ex, start) =
          find_path-Explores (fuel_for t) t b a [] (omega (arith, unvisited-le-length t []))
            missed in
        elim (ex.closed b (closed_reaches t b a (find_path (fuel_for t) t b a []).1 ex start r)) [
          | inl old ↦ cc
          | inr (ne, all) ↦ ne refl
        ]
