-- ===== src/Agents/Registry.antt =====
-- The registry of worker nodes (engine/agent_runtime/agent_registry.py). Times are whole ticks; a
-- load ratio is kept as its two numbers and compared without division; a set of names is a list in
-- the order of insertion. Log messages, first-seen times and the counter of heartbeats are left out.
pub mod Queries
pub mod Index
pub mod Sort
pub mod Find
pub mod Best
use prodinamik_engine.Prelude.{
  ℕ, zero, ◌+◌, ◌-◌, ◌*◌, String, Bool, true, false, ◌&&◌, Option, none, some, List, [], ◌∷◌, ltb,
  ◌==◌, str_eq, if◌then◌else◌, get_or, contains, add, discard,
}
use prodinamik_engine.Dict
use prodinamik_engine.Dict.{Dict, values}

pub record NodeInfo : Type 0 where
  pub node_id : String
  pub hostname : String
  pub version : String
  pub capabilities : List String
  pub skills : List String
  pub labels : Dict String
  pub max_workers : ℕ
  pub active_workers : ℕ
  pub last_heartbeat : Option ℕ
  pub is_healthy : Bool
  pub last_error : Option String

-- Subtraction stops at 0, which is the `max(0, …)` of the code.
abbrev pub available_slots : NodeInfo → ℕ
available_slots n = n.max_workers - n.active_workers

-- The load as a fraction with a denominator that is not 0.
abbrev pub load_ratio : NodeInfo → ℕ × ℕ
load_ratio n = if n.max_workers == 0 then (0, 1) else (n.active_workers, n.max_workers)

abbrev pub ratio_lt : ℕ × ℕ → ℕ × ℕ → Bool
ratio_lt (a, b) (c, d) = ltb (a * d) (c * b)

abbrev pub beats_within : ℕ → ℕ → Option ℕ → Bool
beats_within now ttl none = false
beats_within now ttl (some t) = ltb (now - t) ttl

abbrev pub is_alive : ℕ → ℕ → NodeInfo → Bool
is_alive now ttl n = beats_within now ttl n.last_heartbeat

pub record AgentRegistry : Type 0 where
  pub heartbeat_ttl : ℕ
  pub nodes : Dict NodeInfo
  pub capability_index : Dict (List String)

abbrev pub new_registry : ℕ → AgentRegistry
new_registry ttl = record { heartbeat_ttl = ttl; nodes = []; capability_index = [] }

-- The set of a capability, empty where the index has none.
abbrev pub nodes_with : Dict (List String) → String → List String
nodes_with index cap = get_or (Dict.get index cap) []

-- `index.setdefault(cap, set()).add(node_id)`, for each capability.
unfoldable pub index_all : String → List String → Dict (List String) → Dict (List String)
index_all id [] index = index
index_all id (cap ∷ caps) index =
    index_all id caps (Dict.put index cap (add id (nodes_with index cap)))

unfoldable pub discard_at : String → String → Dict (List String) → Dict (List String)
discard_at id cap index = elim (Dict.get index cap) [
  | none ↦ index
  | some ids ↦ Dict.put index cap (discard id ids)
]

unfoldable pub unindex_all : String → List String → Dict (List String) → Dict (List String)
unfolding discard_at
unindex_all id [] index = index
unindex_all id (cap ∷ caps) index = unindex_all id caps (discard_at id cap index)

-- `set(xs) - set(ys)`, as a list.
unfoldable pub difference : List String → List String → List String
difference [] ys = []
difference (x ∷ xs) ys = let rest = difference xs ys in if contains ys x then rest else x ∷ rest

unfoldable pub update_capability_index :
    String → List String → List String → Dict (List String) → Dict (List String)
update_capability_index id old new index =
    index_all id (difference new old) (unindex_all id (difference old new) index)

-- The arguments of `register_node` after the id.
pub record Registration : Type 0 where
  pub hostname : String
  pub version : String
  pub capabilities : Option (List String)
  pub skills : Option (List String)
  pub labels : Option (Dict String)
  pub max_workers : ℕ

abbrev pub text_or : String → String → String
text_or a b = if str_eq a "" then b else a

abbrev pub number_or : ℕ → ℕ → ℕ
number_or a b = if a == 0 then b else a

-- `labels.update(new)`
abbrev pub update_labels : Dict String → Dict String → Dict String
update_labels d [] = d
update_labels d ((k, v) ∷ new) = update_labels (Dict.put d k v) new

abbrev pub update_labels_of : Dict String → Option (Dict String) → Dict String
update_labels_of d none = d
update_labels_of d (some new) = update_labels d new

abbrev pub updated_info : NodeInfo → Registration → NodeInfo
updated_info n a = record n {
  hostname = text_or a.hostname n.hostname;
  version = text_or a.version n.version;
  max_workers = number_or a.max_workers n.max_workers;
  capabilities = get_or a.capabilities n.capabilities;
  skills = get_or a.skills n.skills;
  labels = update_labels_of n.labels a.labels;
  is_healthy = true;
}

abbrev pub new_info : String → Registration → NodeInfo
new_info id a = record {
  node_id = id;
  hostname = a.hostname;
  version = a.version;
  capabilities = get_or a.capabilities [];
  skills = get_or a.skills [];
  labels = get_or a.labels [];
  max_workers = number_or a.max_workers 3;
  active_workers = 0;
  last_heartbeat = none;
  is_healthy = true;
  last_error = none;
}

abbrev pub reindexed :
    String → NodeInfo → Option (List String) → Dict (List String) → Dict (List String)
reindexed id n none index = index
reindexed id n (some caps) index = update_capability_index id n.capabilities caps index

unfoldable pub register_node : String → Registration → AgentRegistry → AgentRegistry
register_node id a r = elim (Dict.get r.nodes id) [
  | none ↦ record r {
    nodes = Dict.put r.nodes id (new_info id a);
    capability_index = index_all id (get_or a.capabilities []) r.capability_index;
  }
  | some n ↦ record r {
    nodes = Dict.put r.nodes id (updated_info n a);
    capability_index = reindexed id n a.capabilities r.capability_index;
  }
]

unfoldable pub unregister_node : String → AgentRegistry → Bool × AgentRegistry
unregister_node id r = elim (Dict.get r.nodes id) [
  | none ↦ (false, r)
  | some n ↦ (
    true,
    record r {
      nodes = Dict.remove r.nodes id;
      capability_index = unindex_all id n.capabilities r.capability_index;
    },
  )
]

-- The keys of a heartbeat's `data`.
pub record Beat : Type 0 where
  pub active_workers : Option ℕ
  pub worker_slots_available : Option ℕ

abbrev pub slots_of : Option ℕ → ℕ → ℕ → ℕ
slots_of none active max_workers = max_workers
slots_of (some slots) active max_workers = active + slots

abbrev pub beaten : ℕ → Beat → NodeInfo → NodeInfo
beaten now b n =
    let active = get_or b.active_workers n.active_workers in
    record n {
      last_heartbeat = some now;
      is_healthy = true;
      active_workers = active;
      max_workers = slots_of b.worker_slots_available active n.max_workers;
    }

unfoldable pub heartbeat : ℕ → String → Beat → AgentRegistry → Bool × AgentRegistry
heartbeat now id b r = elim (Dict.get r.nodes id) [
  | none ↦ (false, r)
  | some n ↦ (true, record r { nodes = Dict.put r.nodes id (beaten now b n) })
]

unfoldable pub mark_unhealthy : String → String → AgentRegistry → AgentRegistry
mark_unhealthy id error r = elim (Dict.get r.nodes id) [
  | none ↦ r
  | some n ↦ record r {
    nodes =
        Dict.put r.nodes id
          (record n { is_healthy = false; last_error = some (text_or error "Unknown") });
  }
]

-- A heartbeat at time 0 counts as none.
abbrev pub is_stale : ℕ → ℕ → Option ℕ → Bool
is_stale now ttl none = false
is_stale now ttl (some t) = if t == 0 then false else ltb (ttl * 3) (now - t)

-- The loop of `cleanup_stale_nodes`, over a copy of the nodes.
unfoldable pub cleanup_loop : ℕ → Dict NodeInfo → AgentRegistry → ℕ × AgentRegistry
cleanup_loop now [] r = (0, r)
cleanup_loop now ((id, n) ∷ items) r =
    let gone = cleanup_loop now items (unregister_node id r).1 in
    let kept = cleanup_loop now items r in
    if is_stale now r.heartbeat_ttl n.last_heartbeat then (gone.0 + 1, gone.1) else kept

unfoldable pub cleanup_stale_nodes : ℕ → AgentRegistry → ℕ × AgentRegistry
cleanup_stale_nodes now r = cleanup_loop now r.nodes r
