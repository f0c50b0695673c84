-- ===== src/Agents/Scheduler/Choice.antt =====
-- The node that `schedule` chooses (engine/agent_runtime/scheduler.py).
use prodinamik_engine.Prelude.{
  ℕ, ◌≡◌, refl, ap, inl, inr, ◌⊎◌, String, true, false, Option, none, some, Bool-cases, List, [],
  ◌∷◌, arith, str_eq, eq_iff, if◌then◌else◌, take,
}
use prodinamik_engine.Dict
use prodinamik_engine.Dict.{Dict, get-put, get-put_self}
use prodinamik_engine.Tasks.Data.{Task}
use prodinamik_engine.Agents.Registry.{NodeInfo, AgentRegistry, available_slots}
use prodinamik_engine.Agents.Registry.Queries.{find_best_node, is_fit}
use prodinamik_engine.Agents.Registry.Index.{IsIndex}
use prodinamik_engine.Agents.Registry.Best.{find_best_node_sound, find_best_node-none}
use prodinamik_engine.Agents.Scheduler.{first_some, by_tools, choose}

-- A node that is registered, alive and healthy.
pub record IsFitNode (now : ℕ) (r : AgentRegistry) (id : String) : Type 0 where
  pub node : NodeInfo
  pub registered : Dict.get r.nodes id ≡ some node
  pub fit : is_fit now r.heartbeat_ttl node ≡ true

-- Every node that is alive and healthy is full.
abbrev pub AllFull : ℕ → AgentRegistry → Type 0
AllFull now r =
    (id : String) (n : NodeInfo)
    → Dict.get r.nodes id ≡ some n
    → is_fit now r.heartbeat_ttl n ≡ true
    → available_slots n ≡ 0

first_some_cases :
    (a b : Option String) (id : String) → first_some a b ≡ some id → (a ≡ some id) ⊎ (b ≡ some id)
first_some_cases none b id e = inr e
first_some_cases (some a) b id e = elim (Bool-cases (str_eq a "")) [
  | inl empty ↦ inr (ground arith)
  | inr named ↦ inl (ground arith)
]

first_some-none : (a b : Option String) → first_some a b ≡ none → b ≡ none
first_some-none none b e = e
first_some-none (some a) b e = ground arith

-- A node that is not taken is none at all, or its id is empty.
empty_or_none : (a : Option String) → first_some a none ≡ none → (a ≡ none) ⊎ (a ≡ some "")
empty_or_none none e = inl refl
empty_or_none (some a) e = elim (Bool-cases (str_eq a "")) [
  | inl empty ↦ inr (ap some ((eq_iff a "").0 empty))
  | inr named ↦ ground arith
]

module _ (now : ℕ) (r : AgentRegistry) (h : IsIndex r) where
  best-IsFitNode :
      (affinity cap id : String) → find_best_node now r affinity cap ≡ some id → IsFitNode now r id
  best-IsFitNode affinity cap id e =
      let (n, there, fit) = find_best_node_sound now r h affinity cap id e in
      record { node = n; registered = there; fit = fit }

  by_tools-IsFitNode :
      (tools : List String) (id : String) → by_tools now r tools ≡ some id → IsFitNode now r id
  unfolding by_tools
  by_tools-IsFitNode [] id e = ground arith
  by_tools-IsFitNode (tool ∷ tools) id e =
      elim (first_some_cases (find_best_node now r "" tool) (by_tools now r tools) id e) [
        | inl e' ↦ best-IsFitNode "" tool id e'
        | inr e' ↦ by_tools-IsFitNode tools id e'
      ]

  pub choose-IsFitNode : (t : Task) (id : String) → choose now r t ≡ some id → IsFitNode now r id
  unfolding choose
  choose-IsFitNode t id e =
      elim (first_some_cases
        (if str_eq t.affinity "" then none else find_best_node now r t.affinity "") _ id e) [
          | inl e' ↦ by_affinity (Bool-cases (str_eq t.affinity "")) e'
          | inr e' ↦ elim (first_some_cases (by_tools now r (take 3 t.tools)) _ id e') [
            | inl e'' ↦ by_tools-IsFitNode (take 3 t.tools) id e''
            | inr e'' ↦ elim (first_some_cases (find_best_node now r "" "") none id e'') [
              | inl e3 ↦ best-IsFitNode "" "" id e3
              | inr e3 ↦ ground arith
            ]
          ]
        ]
    where
      by_affinity :
          (str_eq t.affinity "" ≡ true) ⊎ (str_eq t.affinity "" ≡ false)
          → (if str_eq t.affinity "" then none else find_best_node now r t.affinity "") ≡ some id
          → IsFitNode now r id
      by_affinity (inl a) e = ground arith
      by_affinity (inr a) e = best-IsFitNode t.affinity "" id (ground arith)

  pub choose-none : (t : Task) → choose now r t ≡ none → IsFitNode now r "" ⊎ AllFull now r
  unfolding choose
  choose-none t e =
      let by_load = first_some-none (by_tools now r (take 3 t.tools)) _ (
        first_some-none (if str_eq t.affinity "" then none else find_best_node now r t.affinity "")
          _ e) in
      elim (empty_or_none (find_best_node now r "" "") by_load) [
        | inl e' ↦ inr (find_best_node-none now r h "" "" e')
        | inr e' ↦ inl (best-IsFitNode "" "" "" e')
      ]
