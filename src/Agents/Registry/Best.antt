-- ===== src/Agents/Registry/Best.antt =====
-- The choice of a node for a task (engine/agent_runtime/agent_registry.py).
use mathlib.Core.Path.{subst}
use prodinamik_engine.Prelude.{
  ℕ, ◌<◌, ◌≡◌, refl, sym, ap, ◌∙◌, inl, inr, ◌⊎◌, String, true, false, ◌&&◌, none, some, Bool-cases,
  List, [], ◌∷◌, arith, ltb, lt→ltb, ltb→lt, str_eq, eq_iff, eq_refl, if◌then◌else◌, get_or,
}
use prodinamik_engine.Dict
use prodinamik_engine.Dict.{Dict, get, values, IsDistinct}
use prodinamik_engine.Agents.Registry.{
  NodeInfo, AgentRegistry, new_registry, load_ratio, ratio_lt, available_slots,
}
use prodinamik_engine.Agents.Registry.Queries.{
  CapabilityQuery, query_of, is_fit, sort_by_load, find_by_capability, first_of, candidates,
  find_best_node, with_slots, or_else,
}
use prodinamik_engine.Agents.Registry.Index.{IsIndex, AllNamed, Call, run_all, registries-IsIndex}
use prodinamik_engine.Agents.Registry.Sort.{
  In, Lighter, IsSorted, AllRatios, In-sort_by_load, sort_by_load-IsSorted,
}
use prodinamik_engine.Agents.Registry.Find.{
  IsFit, IsCandidate, find_by_capability_sound, find_by_capability_complete,
  find_by_capability-AllRatios,
}

first_of-sort_by_load :
    (qs : List CapabilityQuery) (x : CapabilityQuery)
    → In x qs
    → AllRatios qs
    → (q : CapabilityQuery) × (first_of (sort_by_load qs) ≡ some q.node_id)
      × In q qs
      × ((y : CapabilityQuery) → In y qs → Lighter q y)
first_of-sort_by_load qs x i all =
    head (sort_by_load qs) (sort_by_load-IsSorted qs all) (λ y. (In-sort_by_load qs y).0)
      (λ y. (In-sort_by_load qs y).1)
  where
    head :
        (s : List CapabilityQuery)
        → IsSorted s
        → ((y : CapabilityQuery) → In y s → In y qs)
        → ((y : CapabilityQuery) → In y qs → In y s)
        → (q : CapabilityQuery) × (first_of s ≡ some q.node_id)
          × In q qs
          × ((y : CapabilityQuery) → In y qs → Lighter q y)
    head [] s from to = absurd (to x i)
    head (q ∷ s) sorted from to = (
      q,
      refl,
      from q (inl refl),
      λ y j. elim (to y j) [ inl same ↦ rw same (ground arith) | inr later ↦ sorted.0 y later ],
    )

or_else_first :
    (qs other : List CapabilityQuery) (x : CapabilityQuery) → In x qs → or_else qs other ≡ qs
or_else_first [] other x i = elim i [ ]
or_else_first (q ∷ qs) other x i = refl

-- The least loaded of the nodes that may take a task.
pub record IsBest (now : ℕ) (r : AgentRegistry) (cap id : String) : Type 0 where
  pub candidate : IsCandidate now r cap id
  pub least :
      (j : String) (c : IsCandidate now r cap j)
      → ratio_lt (load_ratio c.node) (load_ratio candidate.node) ≡ false

-- Whatever calls a new registry has answered: where some node is registered with the capability that
-- is asked for, alive and healthy, `find_best_node` chooses such a node, and none of them is less
-- loaded.
pub find_best_node_lem :
    (ttl now : ℕ) (calls : List Call) (affinity cap id : String)
    → str_eq cap "" ≡ false
    → IsCandidate now (run_all (new_registry ttl) calls) cap id
    → let r = run_all (new_registry ttl) calls in
      (best : String) × (find_best_node now r affinity cap ≡ some best) × IsBest now r cap best
unfolding find_best_node candidates
find_best_node_lem ttl now calls affinity cap id named c =
    let r = run_all (new_registry ttl) calls in
    let h = registries-IsIndex ttl calls in
    let qs = find_by_capability now r cap in
    let i = find_by_capability_complete now r h cap id c in
    let (q, first, within, least) =
      first_of-sort_by_load qs (query_of c.node) i (find_by_capability-AllRatios now r h cap) in
    let (found, about) = find_by_capability_sound now r h cap q within in
    (
      q.node_id,
      rw (named, named, or_else_first qs _ (query_of c.node) i) first,
      record {
        candidate = found;
        least = λ j d.
            subst (λ (p : CapabilityQuery). ratio_lt (load_ratio d.node) p.ratio ≡ false) about
              (least (query_of d.node) (find_by_capability_complete now r h cap j d));
      },
    )

module _ (now ttl : ℕ) where
  -- Of the nodes of a table, those with a free slot that may take a task.
  with_slots_sound :
      (d : Dict NodeInfo) (q : CapabilityQuery)
      → AllNamed d
      → IsDistinct d
      → In q (with_slots now ttl (values d))
      → (n : NodeInfo) × (get d q.node_id ≡ some n) × (is_fit now ttl n ≡ true) × (q ≡ query_of n)
  unfolding with_slots get
  with_slots_sound [] q named distinct = λ i. elim i [ ]
  with_slots_sound ((k, v) ∷ d) q named distinct =
      let rest = with_slots_sound d q tail-AllNamed distinct.1 in
      elim (Bool-cases (is_fit now ttl v && ltb 0 (available_slots v))) [
        | inl fit ↦ rw fit (λ i. elim i [ inl same ↦ first fit same | inr j ↦ later (rest j) ])
        | inr unfit ↦ rw unfit (λ i. later (rest i))
      ]
    where
      v_name : v.node_id ≡ k
      v_name = named k v (rw (eq_refl k) refl)

      none-ne-some : (n : NodeInfo) → none ≡ some n → ⊥
      none-ne-some n e = cc

      apart : (j : String) (n : NodeInfo) → get d j ≡ some n → str_eq k j ≡ false
      apart j n e = elim (Bool-cases (str_eq k j)) [
        | inl same ↦
            absurd (none-ne-some n (sym distinct.0 ∙ ap (λ x. get d x) ((eq_iff k j).0 same) ∙ e))
        | inr other ↦ other
      ]

      tail-AllNamed : AllNamed d
      tail-AllNamed j n e = named j n (rw (apart j n e) e)

      later :
          (n : NodeInfo) × (get d q.node_id ≡ some n) × (is_fit now ttl n ≡ true) × (q ≡ query_of n)
          → (n : NodeInfo) × (get ((k, v) ∷ d) q.node_id ≡ some n)
            × (is_fit now ttl n ≡ true)
            × (q ≡ query_of n)
      later (n, e, f, a) = (n, rw (apart q.node_id n e) e, f, a)

      first :
          (is_fit now ttl v && ltb 0 (available_slots v)) ≡ true
          → q ≡ query_of v
          → (n : NodeInfo) × (get ((k, v) ∷ d) q.node_id ≡ some n)
            × (is_fit now ttl n ≡ true)
            × (q ≡ query_of n)
      first fit same =
          let name : k ≡ q.node_id = sym (ap (λ (x : CapabilityQuery). x.node_id) same ∙ v_name) in
          (v, rw ((eq_iff k q.node_id).1 name) refl, ground arith, same)

  with_slots_complete :
      (d : Dict NodeInfo) (id : String) (n : NodeInfo)
      → get d id ≡ some n
      → is_fit now ttl n ≡ true
      → 0 < available_slots n
      → In (query_of n) (with_slots now ttl (values d))
  unfolding with_slots get
  with_slots_complete [] id n e fit free = ground arith
  with_slots_complete ((k, v) ∷ d) id n e fit free = elim (Bool-cases (str_eq k id)) [
    | inl same ↦
        let e' : some v ≡ some n = ground arith in
        let same_node : v ≡ n = ap (λ o. get_or o v) e' in
        rw same_node (rw (fit, lt→ltb 0 (available_slots n) free) (inl refl))
    | inr other ↦
        let rest = with_slots_complete d id n (ground arith) fit free in
        elim (Bool-cases (is_fit now ttl v && ltb 0 (available_slots v))) [
          | inl f ↦ rw f (inr rest)
          | inr f ↦ rw f rest
        ]
  ]

module _ (now : ℕ) (r : AgentRegistry) (h : IsIndex r) (affinity cap : String) where
  -- Each candidate is about a node that may take a task.
  candidates-IsFit : (q : CapabilityQuery) → In q (candidates now r affinity cap) → IsFit now r q
  unfolding candidates
  candidates-IsFit q = elim (Bool-cases (str_eq (if str_eq cap "" then affinity else cap) "")) [
    | inl e ↦ rw e any_node
    | inr e ↦ rw e (λ i. one_of _ i)
  ]
    where
      any_node : In q (with_slots now r.heartbeat_ttl (values r.nodes)) → IsFit now r q
      any_node i =
          let (n, e, f, a) = with_slots_sound now r.heartbeat_ttl r.nodes q h.named h.distinct i in
          record { node = n; registered = e; fit = f; about = a }

      one_of :
          (wanted : String)
          → In q (
              or_else
                (find_by_capability now r wanted)
                (with_slots now r.heartbeat_ttl (values r.nodes)))
          → IsFit now r q
      one_of wanted i = elim (from (find_by_capability now r wanted) i) [
        | inl j ↦
            let (c, about) = find_by_capability_sound now r h wanted q j in
            record { node = c.node; registered = c.registered; fit = c.fit; about = about }
        | inr j ↦ any_node j
      ]
        where
          from :
              (qs : List CapabilityQuery)
              → In q (or_else qs (with_slots now r.heartbeat_ttl (values r.nodes)))
              → In q qs ⊎ In q (with_slots now r.heartbeat_ttl (values r.nodes))
          from [] i = inr i
          from (x ∷ xs) i = inl i

  -- The node that is chosen is registered, alive and healthy.
  pub find_best_node_sound :
      (id : String)
      → find_best_node now r affinity cap ≡ some id
      → (n : NodeInfo) × (Dict.get r.nodes id ≡ some n) × (is_fit now r.heartbeat_ttl n ≡ true)
  unfolding find_best_node
  find_best_node_sound id e =
      chosen (sort_by_load (candidates now r affinity cap))
        (λ q i. candidates-IsFit q ((In-sort_by_load (candidates now r affinity cap) q).0 i)) e
    where
      chosen :
          (s : List CapabilityQuery)
          → ((q : CapabilityQuery) → In q s → IsFit now r q)
          → first_of s ≡ some id
          → (n : NodeInfo) × (Dict.get r.nodes id ≡ some n) × (is_fit now r.heartbeat_ttl n ≡ true)
      chosen [] fits e = ground arith
      chosen (q ∷ s) fits e =
          let f = fits q (inl refl) in
          let name : q.node_id ≡ id = ap (λ o. get_or o id) e in
          (f.node, ap (λ x. Dict.get r.nodes x) (sym name) ∙ f.registered, f.fit)

  -- Where no node is chosen, no node that may take a task has a free slot.
  pub find_best_node-none :
      find_best_node now r affinity cap ≡ none
      → (id : String) (n : NodeInfo) → Dict.get r.nodes id ≡ some n
      → is_fit now r.heartbeat_ttl n ≡ true
      → available_slots n ≡ 0
  unfolding find_best_node candidates
  find_best_node-none e id n there fit = elim (Bool-cases (ltb 0 (available_slots n))) [
    | inr full ↦ ground arith
    | inl free ↦ absurd (
        none-is-empty (candidates now r affinity cap) e (
          or_else-In _ (with_slots now r.heartbeat_ttl (values r.nodes)) (query_of n) (
            with_slots_complete now r.heartbeat_ttl r.nodes id n there fit
              (ltb→lt 0 (available_slots n) free))))
  ]
    where
      or_else-In :
          (qs other : List CapabilityQuery) (x : CapabilityQuery)
          → In x other
          → (y : CapabilityQuery) × In y (or_else qs other)
      or_else-In [] other x i = (x, i)
      or_else-In (q ∷ qs) other x i = (q, inl refl)

      none-is-empty :
          (qs : List CapabilityQuery)
          → first_of (sort_by_load qs) ≡ none
          → (y : CapabilityQuery) × In y qs
          → ⊥
      none-is-empty qs e (y, i) = no_first (sort_by_load qs) e ((In-sort_by_load qs y).1 i)
        where
          no_first : (s : List CapabilityQuery) → first_of s ≡ none → In y s → ⊥
          no_first [] e i = i
          no_first (q ∷ s) e i = some-ne-none e
            where
              some-ne-none : {x : String} → some x ≡ none → ⊥
              some-ne-none e = cc
