-- ===== src/Raft/Merge/Search.antt =====
-- The steps of `_find_path` (engine/raft_consensus.py), and the paths of a table of transitions.
pub mod Complete
use prodinamik_engine.Prelude.{
  ℕ, zero, suc, ◌+◌, ◌≤◌, ◌<◌, ◌≡◌, ◌≢◌, refl, sym, ◌∙◌, ap, ◌⊎◌, inl, inr, String, Bool, true,
  false, ◌||◌, Option, none, some, List, [], ◌∷◌, arith, str_eq, eq_iff, if◌then◌else◌, is_some,
  get_or, length, contains, contains-add, add, Bool-cases, Option-cases, get_or,
}
use mathlib.Core.Path.{subst}
use prodinamik_engine.Dict
use prodinamik_engine.Dict.{Dict}
use prodinamik_engine.Raft.Merge.{
  Visited, successors, try_each, prepend, find_path, fuel_for, path_between,
}

abbrev pub Find : Type 0
Find = String → Visited → Option (List String) × Visited

-- A list of states that starts at one, ends at the other, and goes by the table.
abbrev pub IsPath : Dict (List String) → String → String → List String → Type 0
IsPath t start end [] = ⊥
IsPath t start end (x ∷ []) = (x ≡ start) × (x ≡ end)
IsPath t start end (x ∷ y ∷ path) =
    (x ≡ start) × (contains (successors t x) y ≡ true) × IsPath t y end (y ∷ path)

IsPath-cons :
    (t : Dict (List String)) (start next end : String) (path : List String)
    → contains (successors t start) next ≡ true
    → IsPath t next end path
    → IsPath t start end (start ∷ path)
IsPath-cons t start next end [] e p = elim p [ ]
IsPath-cons t start next end (x ∷ []) e p = (refl, rw p.0 e, (refl, p.1))
IsPath-cons t start next end (x ∷ y ∷ path) e p = (refl, rw p.0 e, (refl, p.1, p.2))

pub try_each-some :
    (find : Find) (next : String) (rest : List String) (v : Visited) (p : List String)
    → (find next v).0 ≡ some p
    → (try_each find (next ∷ rest) v).0 ≡ some p
unfolding try_each
try_each-some find next rest v p h = ground arith

pub try_each-none :
    (find : Find) (next : String) (rest : List String) (v : Visited)
    → (find next v).0 ≡ none
    → try_each find (next ∷ rest) v ≡ try_each find rest (find next v).1
unfolding try_each
try_each-none find next rest v h = ground arith

-- A path that the loop finds is a path from one of the successors.
try_each_sound :
    (t : Dict (List String)) (end : String) (find : Find)
    → ((s : String) (v : Visited) (p : List String) → (find s v).0 ≡ some p → IsPath t s end p)
    → (nexts : List String) (v : Visited) (p : List String) → (try_each find nexts v).0 ≡ some p
    → (next : String) × (contains nexts next ≡ true) × IsPath t next end p
try_each_sound t end find sound [] v p h = unfold try_each in cc
try_each_sound t end find sound (n ∷ nexts) v p h = elim (Option-cases (find n v).0) [
  | inr (q, found) ↦ (
    n,
    ground (arith, eq_iff n n),
    sound n v p (found ∙ sym (try_each-some find n nexts v q found) ∙ h),
  )
  | inl missed ↦
      let (next, there, path) =
        try_each_sound t end find sound nexts (find n v).1 p
          (rw (try_each-none find n nexts v missed) at h) in
      (next, ground arith, path)
]

module _ (f : ℕ) (t : Dict (List String)) (end start : String) (v : Visited) where
  abbrev pub descent : Option (List String) × Visited
  descent = try_each (find_path f t end) (successors t start) (add start v)

  pub find_path_at_end :
      str_eq start end ≡ true → find_path (suc f) t end start v ≡ (some (end ∷ []), v)
  unfolding find_path
  find_path_at_end e = rw e

  pub find_path_again :
      str_eq start end ≡ false
      → contains v start ≡ true
      → find_path (suc f) t end start v ≡ (none, v)
  unfolding find_path
  find_path_again e seen = rw e (rw seen)

  pub find_path_down :
      str_eq start end ≡ false
      → contains v start ≡ false
      → find_path (suc f) t end start v ≡ prepend start descent
  unfolding find_path
  find_path_down e new = rw e (rw new)

pub prepend-some :
    (start : String) (r : Option (List String) × Visited) (p : List String)
    → (prepend start r).0 ≡ some p
    → (q : List String) × (r.0 ≡ some q) × (p ≡ start ∷ q)
prepend-some start (none, v) p h = cc
prepend-some start (some q, v) p h = (q, refl, ground arith)

pub prepend-none :
    (start : String) (r : Option (List String) × Visited)
    → (prepend start r).0 ≡ none
    → (r.0 ≡ none) × ((prepend start r).1 ≡ r.1)
prepend-none start (none, v) h = (refl, refl)
prepend-none start (some q, v) h = cc

some_eq : (end : String) (p : List String) → some (end ∷ []) ≡ some p → end ∷ [] ≡ p
some_eq end p h = cc

-- What the search returns is a path.
pub find_path_sound :
    (f : ℕ) (t : Dict (List String)) (end start : String) (v : Visited) (p : List String)
    → (find_path f t end start v).0 ≡ some p
    → IsPath t start end p
find_path_sound zero t end start v p h = unfold find_path in cc
find_path_sound (suc f) t end start v p h = elim (Bool-cases (str_eq start end)) [
  | inl e ↦ at_end (rw (find_path_at_end f t end start v e) at h) ((eq_iff start end).0 e)
  | inr e ↦ elim (Bool-cases (contains v start)) [
    | inl seen ↦ absurd (none-ne-some (rw (find_path_again f t end start v e seen) at h))
    | inr new ↦
        let (q, found, eq) =
          prepend-some start (descent f t end start v) p
            (rw (find_path_down f t end start v e new) at h) in
        let (next, edge, path) =
          try_each_sound t end (find_path f t end) (find_path_sound f t end) (successors t start)
            (add start v) q found in
        rw eq (IsPath-cons t start next end q edge path)
  ]
]
  where
    at_end : some (end ∷ []) ≡ some p → start ≡ end → IsPath t start end p
    at_end h e = subst (λ q. IsPath t start end q) (some_eq end p h) (sym e, refl)

    none-ne-some : ◌≡◌ {A = Option (List String)} none (some p) → ⊥
    none-ne-some h = cc
