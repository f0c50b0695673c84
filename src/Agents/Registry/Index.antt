-- ===== src/Agents/Registry/Index.antt =====
-- The capability index of the registry (engine/agent_runtime/agent_registry.py) and the capabilities
-- that the nodes have, through calls of the registry.
use prodinamik_engine.Prelude.{
  ℕ, ◌≡◌, refl, sym, ap, ◌∙◌, inl, inr, String, Bool, true, false, not, ◌&&◌, ◌||◌, Option, none,
  some, Bool-cases, Option-cases, List, [], ◌∷◌, arith, str_eq, eq_iff, if◌then◌else◌, get_or,
  contains, contains-add, contains-discard, add, discard,
}
use prodinamik_engine.Dict
use prodinamik_engine.Dict.{
  Dict, get, get-put, get-remove, IsDistinct, IsDistinct-put, IsDistinct-remove,
}
use prodinamik_engine.Agents.Registry.{
  NodeInfo, AgentRegistry, Registration, Beat, new_registry, nodes_with, index_all, discard_at,
  unindex_all, difference, update_capability_index, updated_info, new_info, reindexed, beaten,
  register_node, unregister_node, heartbeat, mark_unhealthy, is_stale, cleanup_loop,
  cleanup_stale_nodes,
}

-- The index has the node under the capability.
abbrev pub is_indexed : Dict (List String) → String → String → Bool
is_indexed index id cap = contains (nodes_with index cap) id

is_indexed-put :
    (index : Dict (List String)) (c : String) (ids : List String) (j d : String)
    → is_indexed (Dict.put index c ids) j d
      ≡ (if str_eq c d then contains ids j else is_indexed index j d)
is_indexed-put index c ids j d = ground (arith, get-put index c ids d)

index_all_lem :
    (id : String) (caps : List String) (index : Dict (List String)) (j c : String)
    → is_indexed (index_all id caps index) j c
      ≡ (is_indexed index j c || (str_eq id j && contains caps c))
unfolding index_all
index_all_lem id [] index j c = ground arith
index_all_lem id (cap ∷ caps) index j c =
    index_all_lem id caps (Dict.put index cap (add id (nodes_with index cap))) j c
    ∙ ground (
      arith,
      is_indexed-put index cap (add id (nodes_with index cap)) j c,
      contains-add id (nodes_with index cap) j,
      eq_iff cap c,
    )

discard_at_lem :
    (id cap : String) (index : Dict (List String)) (j c : String)
    → is_indexed (discard_at id cap index) j c
      ≡ (if str_eq id j && str_eq cap c then false else is_indexed index j c)
unfolding discard_at
discard_at_lem id cap index j c = elim (Option-cases (Dict.get index cap)) [
  | inl e ↦ rw (e, discard_at) (ground (arith, eq_iff cap c, ap (λ o. contains (get_or o []) j) e))
  | inr (ids, e) ↦
      rw (e, discard_at)
        (ground (
          arith,
          is_indexed-put index cap (discard id ids) j c,
          contains-discard id ids j,
          eq_iff cap c,
          ap (λ o. contains (get_or o []) j) e,
        ))
]

unindex_all_lem :
    (id : String) (caps : List String) (index : Dict (List String)) (j c : String)
    → is_indexed (unindex_all id caps index) j c
      ≡ (if str_eq id j && contains caps c then false else is_indexed index j c)
unfolding unindex_all
unindex_all_lem id [] index j c = ground arith
unindex_all_lem id (cap ∷ caps) index j c =
    unindex_all_lem id caps (discard_at id cap index) j c
    ∙ ground (arith, discard_at_lem id cap index j c)

contains-difference :
    (xs ys : List String) (c : String)
    → contains (difference xs ys) c ≡ (contains xs c && not (contains ys c))
unfolding difference
contains-difference [] ys c = refl
contains-difference (x ∷ xs) ys c = ground (arith, contains-difference xs ys c, eq_iff x c)

abbrev pub has_capability : Option NodeInfo → String → Bool
has_capability none cap = false
has_capability (some n) cap = contains n.capabilities cap

abbrev pub AllNamed : Dict NodeInfo → Type 0
AllNamed nodes = (id : String) (n : NodeInfo) → Dict.get nodes id ≡ some n → n.node_id ≡ id

AllNamed-put :
    (nodes : Dict NodeInfo) (id : String) (m : NodeInfo)
    → AllNamed nodes
    → m.node_id ≡ id
    → AllNamed (Dict.put nodes id m)
AllNamed-put nodes id m h named j n e = elim (Bool-cases (str_eq id j)) [
  | inl same ↦
      let e' : some m ≡ some n = ground (arith, get-put nodes id m j) in
      sym (ap (λ (o : Option NodeInfo). (get_or o m).node_id) e') ∙ named ∙ (eq_iff id j).0 same
  | inr other ↦ h j n (ground (arith, get-put nodes id m j))
]

-- The index is the nodes' capabilities read the other way round.
pub record IsIndex (r : AgentRegistry) : Type 0 where
  pub agrees :
      (id cap : String)
      → is_indexed r.capability_index id cap ≡ has_capability (Dict.get r.nodes id) cap
  pub named : AllNamed r.nodes
  pub distinct : IsDistinct r.nodes

module _ (r : AgentRegistry) (h : IsIndex r) where
  -- The node is set, and the index has it under its capabilities and every other node as before.
  set-IsIndex :
      (id : String) (m : NodeInfo) (index : Dict (List String))
      → m.node_id ≡ id
      → ((j c : String)
          → is_indexed index j c ≡ (
              if str_eq id j then contains m.capabilities c else is_indexed r.capability_index j c))
      → IsIndex (record r { nodes = Dict.put r.nodes id m; capability_index = index })
  set-IsIndex id m index named sets = record {
    agrees = λ j c. sets j c ∙ ground (arith, get-put r.nodes id m j, h.agrees j c);
    named = AllNamed-put r.nodes id m h.named named;
    distinct = IsDistinct-put r.nodes id m h.distinct;
  }

  -- The index as it stands says of a node what the node says.
  is_indexed_self :
      (id : String) (o : Option NodeInfo)
      → Dict.get r.nodes id ≡ o
      → (j c : String) → str_eq id j ≡ true
      → is_indexed r.capability_index j c ≡ has_capability o c
  is_indexed_self id o e j c same =
      h.agrees j c
      ∙ ap (λ x. has_capability (Dict.get r.nodes x) c) (sym ((eq_iff id j).0 same))
      ∙ ap (λ x. has_capability x c) e

  register_node-IsIndex : (id : String) (a : Registration) → IsIndex (register_node id a r)
  unfolding register_node update_capability_index
  register_node-IsIndex id a = elim (Option-cases (Dict.get r.nodes id)) [
    | inl gone ↦
        rw (gone, register_node)
          (set-IsIndex id (new_info id a)
            (index_all id (get_or a.capabilities []) r.capability_index) refl
            (λ j c. elim (Bool-cases (str_eq id j)) [
              | inl same ↦ rw (same) (
                  index_all_lem id (get_or a.capabilities []) r.capability_index j c
                  ∙ ground (arith, is_indexed_self id none gone j c same))
              | inr other ↦ rw other (
                  index_all_lem id (get_or a.capabilities []) r.capability_index j c ∙ ground arith)
            ]))
    | inr (n, there) ↦
        rw (there, register_node)
          (set-IsIndex id (updated_info n a) (reindexed id n a.capabilities r.capability_index)
            (h.named id n there) (λ j c. reindexed_lem id n a j c there))
  ]
    where
      reindexed_lem :
          (id : String) (n : NodeInfo) (a : Registration) (j c : String)
          → Dict.get r.nodes id ≡ some n
          → is_indexed (reindexed id n a.capabilities r.capability_index) j c ≡ (
              if str_eq id j
              then contains (get_or a.capabilities n.capabilities) c
              else is_indexed r.capability_index j c)
      reindexed_lem id n a j c there = elim (Option-cases a.capabilities) [
        | inl e ↦ rw e (ground (arith, is_indexed_self id (some n) there j c))
        | inr (caps, e) ↦ rw e (
            index_all_lem id (difference caps n.capabilities)
              (unindex_all id (difference n.capabilities caps) r.capability_index) j c
            ∙ ground (
              arith,
              unindex_all_lem id (difference n.capabilities caps) r.capability_index j c,
              contains-difference caps n.capabilities c,
              contains-difference n.capabilities caps c,
              is_indexed_self id (some n) there j c,
            ))
      ]

  -- A change of a node that keeps its name and its capabilities.
  change-IsIndex :
      (id : String) (n m : NodeInfo)
      → Dict.get r.nodes id ≡ some n
      → m.node_id ≡ n.node_id
      → m.capabilities ≡ n.capabilities
      → IsIndex (record r { nodes = Dict.put r.nodes id m })
  change-IsIndex id n m there named same =
      set-IsIndex id m r.capability_index (named ∙ h.named id n there)
        (λ j c. ground (arith, is_indexed_self id (some n) there j c, ap (λ l. contains l c) same))

  unregister_node-IsIndex : (id : String) → IsIndex (unregister_node id r).1
  unfolding unregister_node
  unregister_node-IsIndex id = elim (Option-cases (Dict.get r.nodes id)) [
    | inl gone ↦ rw (gone, unregister_node) h
    | inr (n, there) ↦
        rw (there, unregister_node)
          (record {
            agrees = λ j c.
                unindex_all_lem id n.capabilities r.capability_index j c
                ∙ ground (
                  arith,
                  get-remove r.nodes id j,
                  h.agrees j c,
                  is_indexed_self id (some n) there j c,
                );
            named = λ j m e. h.named j m (ground (arith, get-remove r.nodes id j));
            distinct = IsDistinct-remove r.nodes id h.distinct;
          })
  ]

  heartbeat-IsIndex : (now : ℕ) (id : String) (b : Beat) → IsIndex (heartbeat now id b r).1
  unfolding heartbeat
  heartbeat-IsIndex now id b = elim (Option-cases (Dict.get r.nodes id)) [
    | inl gone ↦ rw (gone, heartbeat) h
    | inr (n, there) ↦ rw (there, heartbeat) (change-IsIndex id n (beaten now b n) there refl refl)
  ]

  mark_unhealthy-IsIndex : (id error : String) → IsIndex (mark_unhealthy id error r)
  unfolding mark_unhealthy
  mark_unhealthy-IsIndex id error = elim (Option-cases (Dict.get r.nodes id)) [
    | inl gone ↦ rw (gone, mark_unhealthy) h
    | inr (n, there) ↦ rw (there, mark_unhealthy) (change-IsIndex id n _ there refl refl)
  ]

cleanup_loop-IsIndex :
    (now : ℕ) (items : Dict NodeInfo) (r : AgentRegistry)
    → IsIndex r
    → IsIndex (cleanup_loop now items r).1
unfolding cleanup_loop
cleanup_loop-IsIndex now [] r h = h
cleanup_loop-IsIndex now ((id, n) ∷ items) r h =
    elim (Bool-cases (is_stale now r.heartbeat_ttl n.last_heartbeat)) [
      | inl e ↦ rw e (cleanup_loop-IsIndex now items _ (unregister_node-IsIndex r h id))
      | inr e ↦ rw e (cleanup_loop-IsIndex now items r h)
    ]

pub data Call : Type 0 where
  register : String → Registration → Call
  unregister : String → Call
  beat : ℕ → String → Beat → Call
  fail : String → String → Call
  clean : ℕ → Call

unfoldable pub run : AgentRegistry → Call → AgentRegistry
run r (Call.register id a) = register_node id a r
run r (Call.unregister id) = (unregister_node id r).1
run r (Call.beat now id b) = (heartbeat now id b r).1
run r (Call.fail id error) = mark_unhealthy id error r
run r (Call.clean now) = (cleanup_stale_nodes now r).1

unfoldable pub run_all : AgentRegistry → List Call → AgentRegistry
run_all r [] = r
run_all r (c ∷ calls) = run_all (run r c) calls

pub run-IsIndex : (r : AgentRegistry) (c : Call) → IsIndex r → IsIndex (run r c)
unfolding run cleanup_stale_nodes
run-IsIndex r (Call.register id a) h = register_node-IsIndex r h id a
run-IsIndex r (Call.unregister id) h = unregister_node-IsIndex r h id
run-IsIndex r (Call.beat now id b) h = heartbeat-IsIndex r h now id b
run-IsIndex r (Call.fail id error) h = mark_unhealthy-IsIndex r h id error
run-IsIndex r (Call.clean now) h = cleanup_loop-IsIndex now r.nodes r h

run_all-IsIndex : (r : AgentRegistry) (calls : List Call) → IsIndex r → IsIndex (run_all r calls)
unfolding run_all
run_all-IsIndex r [] h = h
run_all-IsIndex r (c ∷ calls) h = run_all-IsIndex (run r c) calls (run-IsIndex r c h)

-- Whatever calls a new registry has answered, its index has a node under a capability exactly if the
-- node is registered with that capability, and every node is stored under its own name.
pub registries-IsIndex : (ttl : ℕ) (calls : List Call) → IsIndex (run_all (new_registry ttl) calls)
unfolding get
registries-IsIndex ttl calls =
    run_all-IsIndex (new_registry ttl) calls
      (record { agrees = λ id c. refl; named = λ id n e. ground arith; distinct = tt })
