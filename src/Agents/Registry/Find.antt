-- ===== src/Agents/Registry/Find.antt =====
-- The query for a capability (engine/agent_runtime/agent_registry.py), by way of the index.
use prodinamik_engine.Prelude.{
  ℕ, ◌≡◌, refl, sym, ap, ◌∙◌, inl, inr, String, true, some, Bool-cases, Option-cases, List, [], ◌∷◌,
  arith, str_eq, eq_iff, contains,
}
use prodinamik_engine.Dict
use prodinamik_engine.Dict.{Dict, get, values, IsDistinct}
use prodinamik_engine.Agents.Registry.{NodeInfo, AgentRegistry, new_registry, nodes_with}
use prodinamik_engine.Agents.Registry.Queries.{
  CapabilityQuery, query_of, is_fit, queries_of, find_by_capability,
}
use prodinamik_engine.Agents.Registry.Index.{
  IsIndex, AllNamed, has_capability, Call, run_all, registries-IsIndex,
}
use prodinamik_engine.Agents.Registry.Sort.{
  In, HasRatio, IsSorted, AllRatios, In-sort_by_load, sort_by_load-IsSorted, query_of-HasRatio,
}

-- A query about a node that is registered, alive and healthy.
pub record IsFit (now : ℕ) (r : AgentRegistry) (q : CapabilityQuery) : Type 0 where
  pub node : NodeInfo
  pub registered : Dict.get r.nodes q.node_id ≡ some node
  pub fit : is_fit now r.heartbeat_ttl node ≡ true
  pub about : q ≡ query_of node

pub IsFit-HasRatio :
    {now : ℕ} {r : AgentRegistry} {q : CapabilityQuery} → IsFit now r q → HasRatio q
IsFit-HasRatio f = rw f.about (query_of-HasRatio f.node)

pub queries_of-IsFit :
    (now : ℕ) (r : AgentRegistry) (ids : List String) (q : CapabilityQuery)
    → AllNamed r.nodes
    → In q (queries_of now r ids)
    → IsFit now r q × (contains ids q.node_id ≡ true)
unfolding queries_of
queries_of-IsFit now r [] q named = λ i. elim i [ ]
queries_of-IsFit now r (id ∷ ids) q named = elim (Option-cases (Dict.get r.nodes id)) [
  | inl gone ↦ rw (gone, queries_of) (λ i. later (queries_of-IsFit now r ids q named i))
  | inr (n, there) ↦ elim (Bool-cases (is_fit now r.heartbeat_ttl n)) [
    | inr unfit ↦
        rw (there, queries_of)
          (rw (unfit, queries_of) (λ i. later (queries_of-IsFit now r ids q named i)))
    | inl fit ↦
        rw (there, queries_of)
          (rw (fit, queries_of)
            (λ i. elim i [
              | inr j ↦ later (queries_of-IsFit now r ids q named j)
              | inl same ↦
                  let name = named id n there in
                  let q_name = ap (λ (x : CapabilityQuery). x.node_id) same ∙ name in
                  (
                    record {
                      node = n;
                      registered = ap (λ x. Dict.get r.nodes x) q_name ∙ there;
                      fit = fit;
                      about = same;
                    },
                    ground (arith, eq_iff id q.node_id, q_name),
                  )
            ]))
  ]
]
  where
    later :
        IsFit now r q × (contains ids q.node_id ≡ true)
        → IsFit now r q × (contains (id ∷ ids) q.node_id ≡ true)
    later h = (h.0, ground arith)

pub IsFit-queries_of :
    (now : ℕ) (r : AgentRegistry) (ids : List String) (id : String) (n : NodeInfo)
    → Dict.get r.nodes id ≡ some n
    → is_fit now r.heartbeat_ttl n ≡ true
    → contains ids id ≡ true
    → In (query_of n) (queries_of now r ids)
unfolding queries_of
IsFit-queries_of now r [] id n there fit c = ground arith
IsFit-queries_of now r (j ∷ ids) id n there fit c = elim (Bool-cases (str_eq j id)) [
  | inl same ↦
      let there' = ap (λ x. Dict.get r.nodes x) ((eq_iff j id).0 same) ∙ there in
      rw (there', queries_of) (rw (fit, queries_of) (inl refl))
  | inr other ↦
      let rest = IsFit-queries_of now r ids id n there fit (ground arith) in
      elim (Option-cases (Dict.get r.nodes j)) [
        | inl gone ↦ rw (gone, queries_of) rest
        | inr (m, found) ↦ elim (Bool-cases (is_fit now r.heartbeat_ttl m)) [
          | inl f ↦ rw (found, queries_of) (rw (f, queries_of) (inr rest))
          | inr f ↦ rw (found, queries_of) (rw (f, queries_of) rest)
        ]
      ]
]

-- A node with the capability that may take a task.
pub record IsCandidate (now : ℕ) (r : AgentRegistry) (cap id : String) : Type 0 where
  pub node : NodeInfo
  pub registered : Dict.get r.nodes id ≡ some node
  pub fit : is_fit now r.heartbeat_ttl node ≡ true
  pub capable : contains node.capabilities cap ≡ true

module _ (now : ℕ) (r : AgentRegistry) (h : IsIndex r) (cap : String) where
  pub find_by_capability_sound :
      (q : CapabilityQuery)
      → In q (find_by_capability now r cap)
      → (c : IsCandidate now r cap q.node_id) × (q ≡ query_of c.node)
  unfolding find_by_capability
  find_by_capability_sound q i =
      let ids = nodes_with r.capability_index cap in
      let (f, c) =
        queries_of-IsFit now r ids q h.named ((In-sort_by_load (queries_of now r ids) q).0 i) in
      (
        record {
          node = f.node;
          registered = f.registered;
          fit = f.fit;
          capable =
              sym (ap (λ o. has_capability o cap) f.registered) ∙ sym (h.agrees q.node_id cap) ∙ c;
        },
        f.about,
      )

  pub find_by_capability_complete :
      (id : String) (c : IsCandidate now r cap id)
      → In (query_of c.node) (find_by_capability now r cap)
  unfolding find_by_capability
  find_by_capability_complete id c =
      let ids = nodes_with r.capability_index cap in
      (In-sort_by_load (queries_of now r ids) (query_of c.node)).1 (
        IsFit-queries_of now r ids id c.node c.registered c.fit
          (h.agrees id cap ∙ ap (λ o. has_capability o cap) c.registered ∙ c.capable))

  pub find_by_capability-AllRatios : AllRatios (find_by_capability now r cap)
  find_by_capability-AllRatios q i =
      rw ((find_by_capability_sound q i).1)
        (query_of-HasRatio (find_by_capability_sound q i).0.node)

  pub find_by_capability-IsSorted : IsSorted (find_by_capability now r cap)
  unfolding find_by_capability
  find_by_capability-IsSorted =
      let ids = nodes_with r.capability_index cap in
      sort_by_load-IsSorted (queries_of now r ids)
        (λ q i. IsFit-HasRatio ((queries_of-IsFit now r ids q h.named i).0))

-- Whatever calls a new registry has answered: a query for a capability lists exactly the nodes that
-- are registered with it, alive and healthy, each with its own data, and the less loaded first.
pub find_by_capability_lem :
    (ttl now : ℕ) (calls : List Call) (cap : String)
    → let r = run_all (new_registry ttl) calls in
      ((q : CapabilityQuery)
        → In q (find_by_capability now r cap)
        → (c : IsCandidate now r cap q.node_id) × (q ≡ query_of c.node))
      × ((id : String) (c : IsCandidate now r cap id)
          → In (query_of c.node) (find_by_capability now r cap))
      × IsSorted (find_by_capability now r cap)
find_by_capability_lem ttl now calls cap =
    let r = run_all (new_registry ttl) calls in
    let h = registries-IsIndex ttl calls in
    (
      find_by_capability_sound now r h cap,
      find_by_capability_complete now r h cap,
      find_by_capability-IsSorted now r h cap,
    )
