-- ===== src/Agents/Registry/Queries.antt =====
-- The queries of engine/agent_runtime/agent_registry.py.
use prodinamik_engine.Prelude.{
  ℕ, String, Bool, ◌&&◌, Option, none, some, List, [], ◌∷◌, ltb, str_eq, if◌then◌else◌, contains,
}
use prodinamik_engine.Dict
use prodinamik_engine.Dict.{Dict, values}
use prodinamik_engine.Agents.Registry.{
  NodeInfo, AgentRegistry, available_slots, load_ratio, ratio_lt, is_alive, nodes_with,
}

pub record CapabilityQuery : Type 0 where
  pub node_id : String
  pub hostname : String
  pub slots : ℕ
  pub ratio : ℕ × ℕ
  pub capabilities : List String
  pub skills : List String

abbrev pub query_of : NodeInfo → CapabilityQuery
query_of n = record {
  node_id = n.node_id;
  hostname = n.hostname;
  slots = available_slots n;
  ratio = load_ratio n;
  capabilities = n.capabilities;
  skills = n.skills;
}

abbrev pub is_fit : ℕ → ℕ → NodeInfo → Bool
is_fit now ttl n = is_alive now ttl n && n.is_healthy

-- The nodes of a set that are registered, alive and healthy.
unfoldable pub queries_of : ℕ → AgentRegistry → List String → List CapabilityQuery
queries_of now r [] = []
queries_of now r (id ∷ ids) =
    let rest = queries_of now r ids in
    elim (Dict.get r.nodes id) [
      | none ↦ rest
      | some n ↦ if is_fit now r.heartbeat_ttl n then query_of n ∷ rest else rest
    ]

-- `sorted(…, key=load_ratio)`, which keeps the order of equal loads.
unfoldable pub insert_by_load : CapabilityQuery → List CapabilityQuery → List CapabilityQuery
insert_by_load q [] = q ∷ []
insert_by_load q (x ∷ xs) =
    let rest = insert_by_load q xs in if ratio_lt x.ratio q.ratio then x ∷ rest else q ∷ x ∷ xs

unfoldable pub sort_by_load : List CapabilityQuery → List CapabilityQuery
sort_by_load [] = []
sort_by_load (q ∷ qs) = insert_by_load q (sort_by_load qs)

unfoldable pub find_by_capability : ℕ → AgentRegistry → String → List CapabilityQuery
find_by_capability now r cap = sort_by_load (queries_of now r (nodes_with r.capability_index cap))

unfoldable pub with_skill : ℕ → ℕ → String → List NodeInfo → List CapabilityQuery
with_skill now ttl skill [] = []
with_skill now ttl skill (n ∷ ns) =
    let rest = with_skill now ttl skill ns in
    if contains n.skills skill && is_fit now ttl n then query_of n ∷ rest else rest

unfoldable pub find_by_skill : ℕ → AgentRegistry → String → List CapabilityQuery
find_by_skill now r skill = sort_by_load (with_skill now r.heartbeat_ttl skill (values r.nodes))

unfoldable pub with_slots : ℕ → ℕ → List NodeInfo → List CapabilityQuery
with_slots now ttl [] = []
with_slots now ttl (n ∷ ns) =
    let rest = with_slots now ttl ns in
    if is_fit now ttl n && ltb 0 (available_slots n) then query_of n ∷ rest else rest

abbrev pub or_else : List CapabilityQuery → List CapabilityQuery → List CapabilityQuery
or_else [] other = other
or_else (q ∷ qs) other = q ∷ qs

abbrev pub first_of : List CapabilityQuery → Option String
first_of [] = none
first_of (q ∷ qs) = some q.node_id

-- The candidates of `find_best_node` before the last sort.
unfoldable pub candidates : ℕ → AgentRegistry → String → String → List CapabilityQuery
candidates now r affinity capability =
    let wanted = if str_eq capability "" then affinity else capability in
    let matching = if str_eq wanted "" then [] else find_by_capability now r wanted in
    or_else matching (with_slots now r.heartbeat_ttl (values r.nodes))

unfoldable pub find_best_node : ℕ → AgentRegistry → String → String → Option String
find_best_node now r affinity capability =
    first_of (sort_by_load (candidates now r affinity capability))
