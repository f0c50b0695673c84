-- ===== src/Raft/Merge.antt =====
-- `StateCRDT` of engine/raft_consensus.py: the merge of two states of one run.
-- The search for a path goes depth first and shares its set of visited states between branches.
-- Fuel bounds its depth: each call that goes down from a state with successors has visited one more
-- key of the table, so one more than the number of keys is enough (`Merge.Search`).
pub mod Search
pub mod Laws
use prodinamik_engine.Prelude.{
  ℕ, zero, suc, ◌+◌, String, Bool, true, false, ◌||◌, Option, none, some, List, [], ◌∷◌, ltb,
  str_eq, if◌then◌else◌, is_some, get_or, length, contains, add,
}
use prodinamik_engine.Dict
use prodinamik_engine.Dict.{Dict}
use prodinamik_engine.Raft.Types.{NodeState}

abbrev pub Visited : Type 0
Visited = List String

abbrev pub successors : Dict (List String) → String → List String
successors transitions start = get_or (Dict.get transitions start) []

-- The loop over the successors: the first path that is found.
unfoldable pub try_each :
    (String → Visited → Option (List String) × Visited)
    → List String
    → Visited
    → Option (List String) × Visited
try_each find [] visited = (none, visited)
try_each find (next_state ∷ rest) visited =
    let (path, visited') = find next_state visited in
    elim path [ some p ↦ (some p, visited') | none ↦ try_each find rest visited' ]

abbrev pub prepend : String → Option (List String) × Visited → Option (List String) × Visited
prepend start (none, visited) = (none, visited)
prepend start (some path, visited) = (some (start ∷ path), visited)

-- `if path:` also asks that the path is not empty, which every path here is.
unfoldable pub find_path :
    ℕ → Dict (List String) → String → String → Visited → Option (List String) × Visited
find_path zero transitions end start visited = (none, visited)
find_path (suc fuel) transitions end start visited =
    let down =
      try_each (find_path fuel transitions end) (successors transitions start)
        (add start visited) in
    if str_eq start end
    then (some (end ∷ []), visited)
    else if contains visited start
    then (none, visited)
    else prepend start down

abbrev pub fuel_for : Dict (List String) → ℕ
fuel_for transitions = length transitions + 1

-- `_find_path(a, b, transitions)` with nothing visited.
unfoldable pub path_between : Dict (List String) → String → String → Option (List String)
path_between transitions a b = (find_path (fuel_for transitions) transitions b a []).0

abbrev pub is_empty : Dict (List String) → Bool
is_empty [] = true
is_empty _ = false

unfoldable pub is_on_same_path : String → String → Dict (List String) → Bool
is_on_same_path a b transitions =
    if is_empty transitions
    then false
    else is_some (path_between transitions a b) || is_some (path_between transitions b a)

unfoldable pub ends_in : Option (List String) → String → Bool
ends_in none s = false
ends_in (some []) s = false
ends_in (some (x ∷ [])) s = str_eq x s
ends_in (some (x ∷ y ∷ path)) s = ends_in (some (y ∷ path)) s

unfoldable pub merge : NodeState → NodeState → Dict (List String) → NodeState
merge local remote transitions =
    if ltb local.version remote.version
    then remote
    else if ltb remote.version local.version
    then local
    else if str_eq remote.current_state local.current_state
    then local
    else if is_on_same_path local.current_state remote.current_state transitions
    then (if ends_in (path_between transitions local.current_state remote.current_state)
          remote.current_state
        then remote
        else local)
    else local
