-- ===== src/Plugins/Order.antt =====
-- What the order of plugins (engine/plugin_registry.py) promises where nothing is unresolved.
use prodinamik_engine.Prelude.{
  ℕ, zero, suc, ◌+◌, ◌≤◌, ◌<◌, ◌≡◌, refl, ap, sym, ◌∙◌, ◌⊎◌, inl, inr, String, true, false, some,
  List, [], ◌∷◌, ◌++◌, arith, if◌then◌else◌, str_eq, eq_iff, length, contains, contains-append,
  contains-add, Bool-cases, Option-cases,
}
use mathlib.Core.Path.{subst}
use prodinamik_engine.Dict
use prodinamik_engine.Dict.{Dict, keys}
use prodinamik_engine.Plugins.{
  PluginManifest, Unresolved, Resolution, unresolved_at, finished, visit_each, visit,
  visit_unvisited, resolve_dependencies, cycle_detected, missing_dependency,
}

abbrev pub AllIn : List String → List String → Type 0
AllIn ds xs = (d : String) → contains ds d ≡ true → contains xs d ≡ true

-- Every id is that of a plugin, is new, and comes after all its dependencies.
pub data IsOrdered (plugins : Dict PluginManifest) : List String → Type 0 where
  start : IsOrdered plugins []
  further :
      {xs : List String}
      → IsOrdered plugins xs
      → (id : String) (m : PluginManifest) → Dict.get plugins id ≡ some m
      → AllIn m.dependencies xs
      → contains xs id ≡ false
      → IsOrdered plugins (xs ++ id ∷ [])

-- The plugins that are not open.
abbrev outside : Dict PluginManifest → List String → ℕ
outside [] path = 0
outside ((k, m) ∷ d) path = let rest = outside d path in if contains path k then rest else suc rest

outside_le :
    (d : Dict PluginManifest) (path : List String) (id : String)
    → outside d (id ∷ path) ≤ outside d path
outside_le [] path id = omega arith
outside_le ((k, m) ∷ d) path id = ground (arith, outside_le d path id)

outside_lt :
    (d : Dict PluginManifest) (path : List String) (id : String) (m : PluginManifest)
    → Dict.get d id ≡ some m
    → contains path id ≡ false
    → outside d (id ∷ path) < outside d path
unfolding Dict.get
outside_lt [] path id m h n = ground (arith, h)
outside_lt ((k, x) ∷ d) path id m h n = elim (Bool-cases (str_eq k id)) [
  | inl t ↦ ground (arith, t, n, outside_le d path id, eq_iff k id, eq_iff id k)
  | inr t ↦
      ground (arith, t, n, outside_lt d path id m (ground (arith, t, h)), eq_iff k id, eq_iff id k)
]

outside-le-length : (d : Dict PluginManifest) (path : List String) → outside d path ≤ length d
outside-le-length [] path = omega arith
outside-le-length ((k, m) ∷ d) path = ground (arith, outside-le-length d path)

noted : (u : Unresolved) (us : List Unresolved) → us ++ u ∷ [] ≡ [] → ⊥
noted u [] h = ground (arith, h)
noted u (v ∷ us) h = ground (arith, h)

module _ (plugins : Dict PluginManifest) where
  -- The two lists agree, the order is right so far, and no open plugin has been visited.
  record IsSound (path : List String) (r : Resolution) : Type 0 where
    same : (x : String) → contains r.visited x ≡ contains r.sorted_ids x
    ordered : IsOrdered plugins r.sorted_ids
    apart : (x : String) → contains path x ≡ true → contains r.visited x ≡ false

  abbrev Grows : Resolution → Resolution → Type 0
  Grows r r' = (x : String) → contains r.visited x ≡ true → contains r'.visited x ≡ true

  -- A function visits an id under a path: if it leaves nothing unresolved, nothing was before, and it
  -- keeps the resolution sound, grows it and has the id visited.
  record Visits (path : List String) (id : String) (f : Resolution → Resolution) : Type 0 where
    clean : (r : Resolution) → (f r).unresolved ≡ [] → r.unresolved ≡ []
    sound :
        (r : Resolution)
        → IsSound path r
        → (f r).unresolved ≡ []
        → IsSound path (f r) × Grows r (f r) × (contains (f r).visited id ≡ true)

  each_clean :
      (path : List String) (f : String → Resolution → Resolution)
      → ((d : String) → Visits path d (f d))
      → (ds : List String) (r : Resolution) → (visit_each f ds r).unresolved ≡ []
      → r.unresolved ≡ []
  unfolding visit_each
  each_clean path f v [] r h = h
  each_clean path f v (d ∷ ds) r h = (v d).clean r (each_clean path f v ds (f d r) h)

  each-IsSound :
      (path : List String) (f : String → Resolution → Resolution)
      → ((d : String) → Visits path d (f d))
      → (ds : List String) (r : Resolution) → IsSound path r
      → (visit_each f ds r).unresolved ≡ []
      → IsSound path (visit_each f ds r)
        × Grows r (visit_each f ds r)
        × AllIn ds (visit_each f ds r).visited
  unfolding visit_each
  each-IsSound path f v [] r s h = (s, λ x g. g, λ d e. ground (arith, e))
  each-IsSound path f v (d ∷ ds) r s h =
      let one = (v d).sound r s (each_clean path f v ds (f d r) h) in
      let rest = each-IsSound path f v ds (f d r) one.0 h in
      (
        rest.0,
        λ x g. rest.1 x (one.1 x g),
        λ x e. ground (arith, e, rest.1 x, one.2, rest.2 x, eq_iff d x),
      )

  -- A plugin whose dependencies have been visited goes to the end.
  finish-IsSound :
      (path : List String) (id : String) (m : PluginManifest) (r : Resolution)
      → Dict.get plugins id ≡ some m
      → contains path id ≡ false
      → IsSound (id ∷ path) r
      → AllIn m.dependencies r.visited
      → IsSound path (finished id r)
  finish-IsSound path id m r there out s deps = record {
    same = λ x.
        ground
          (arith, contains-add id r.visited x, contains-append r.sorted_ids (id ∷ []) x, s.same x);
    ordered =
        IsOrdered.further s.ordered id m there (λ d e. sym (s.same d) ∙ deps d e)
          (sym (s.same id) ∙ s.apart id (ground (arith, eq_iff id id)));
    apart = λ x e.
        ground
          (arith, contains-add id r.visited x, s.apart x (ground (arith, e)), e, out, eq_iff id x);
  }

  -- A visit changes nothing, or notes something, or visits the dependencies and finishes.
  visit_cases :
      (n : ℕ) (path : List String) (id : String) (r : Resolution)
      → ((visit plugins (suc n) path id r ≡ r) × (contains r.visited id ≡ true))
        ⊎ (((u : Unresolved) × (visit plugins (suc n) path id r ≡ unresolved_at u r))
            ⊎ ((m : PluginManifest) × (Dict.get plugins id ≡ some m)
                × (contains r.visited id ≡ false)
                × (contains path id ≡ false)
                × (visit plugins (suc n) path id r
                    ≡ finished id (visit_each (visit plugins n (id ∷ path)) m.dependencies r))))
  unfolding visit
  visit_cases n path id r = elim (Bool-cases (contains r.visited id)) [
    | inl t ↦ inl (rw (t, visit) refl, t)
    | inr t ↦ elim (Bool-cases (contains path id)) [
      | inl u ↦ inr (inl (cycle_detected path id, rw (t, u, visit) refl))
      | inr u ↦ elim (Option-cases (Dict.get plugins id)) [
        | inl e ↦ inr (inl (missing_dependency id, rw (t, u, e, visit) refl))
        | inr (m, e) ↦ inr (inr (m, e, t, u, rw (t, u, e, visit) refl))
      ]
    ]
  ]

  abbrev Soundly : List String → String → Resolution → Resolution → Type 0
  Soundly path id r r' = IsSound path r' × Grows r r' × (contains r'.visited id ≡ true)

  abbrev Deeper : ℕ → List String → String → Type 0
  Deeper n path id =
      (m : PluginManifest)
      → Dict.get plugins id ≡ some m
      → contains path id ≡ false
      → (d : String) → Visits (id ∷ path) d (visit plugins n (id ∷ path) d)

  visit_once :
      (n : ℕ) (path : List String) (id : String)
      → Deeper n path id
      → Visits path id (visit plugins (suc n) path id)
  visit_once n path id deeper = record {
    clean = λ r h. elim (visit_cases n path id r) [
      | inl (e, t) ↦ sym (ap unresolved_of e) ∙ h
      | inr (inl (u, e)) ↦ absurd (noted u r.unresolved (sym (ap unresolved_of e) ∙ h))
      | inr (inr (m, there, t, out, e)) ↦
          each_clean (id ∷ path) (visit plugins n (id ∷ path)) (deeper m there out) m.dependencies r
            (sym (ap unresolved_of e) ∙ h)
    ];
    sound = λ r s h. elim (visit_cases n path id r) [
      | inl (e, t) ↦ subst (Soundly path id r) (sym e) (s, λ x g. g, t)
      | inr (inl (u, e)) ↦ absurd (noted u r.unresolved (sym (ap unresolved_of e) ∙ h))
      | inr (inr (m, there, t, out, e)) ↦
          let each =
            each-IsSound (id ∷ path) (visit plugins n (id ∷ path)) (deeper m there out)
              m.dependencies r
              (record {
                same = s.same;
                ordered = s.ordered;
                apart = λ x g. ground (arith, g, t, s.apart x, eq_iff id x);
              })
              (sym (ap unresolved_of e) ∙ h) in
          let r' = visit_each (visit plugins n (id ∷ path)) m.dependencies r in
          subst (Soundly path id r) (sym e) (
            finish-IsSound path id m r' there out each.0 each.2,
            λ x g. ground (arith, contains-add id r'.visited x, each.1 x g),
            ground (arith, contains-add id r'.visited id, eq_iff id id),
          )
    ];
  }
    where
      unresolved_of : Resolution → List Unresolved
      unresolved_of r = r.unresolved

  -- On enough fuel, which is more than there are plugins that are not open.
  visit-Visits :
      (n : ℕ) (path : List String) (id : String)
      → outside plugins path < n
      → Visits path id (visit plugins n path id)
  visit-Visits zero path id b = absurd (omega (arith, b))
  visit-Visits (suc n) path id b = visit_once n path id (λ m there out d.
      visit-Visits n (id ∷ path) d (omega (arith, b, outside_lt plugins path id m there out)))

  unvisited-Visits : (id : String) → Visits [] id (visit_unvisited plugins id)
  unfolding visit_unvisited
  unvisited-Visits id =
      let v =
        visit-Visits (length plugins + 1) [] id (omega (arith, outside-le-length plugins [])) in
      record {
        clean = λ r h. elim (Bool-cases (contains r.visited id)) [
          | inl t ↦ ground (arith, t, h)
          | inr t ↦ v.clean r (ground (arith, t, h))
        ];
        sound = λ r s h. elim (Bool-cases (contains r.visited id)) [
          | inl t ↦ rw (t, visit_unvisited) (s, λ x g. g, t)
          | inr t ↦ rw (t, visit_unvisited) (v.sound r s (ground (arith, t, h)))
        ];
      }

in_keys :
    (d : Dict PluginManifest) (id : String) (m : PluginManifest)
    → Dict.get d id ≡ some m
    → contains (keys d) id ≡ true
unfolding Dict.get
in_keys [] id m h = ground (arith, h)
in_keys ((k, x) ∷ d) id m h = elim (Bool-cases (str_eq k id)) [
  | inl t ↦ ground (arith, t)
  | inr t ↦ ground (arith, t, in_keys d id m (ground (arith, t, h)))
]

-- `resolve_dependencies` of any plugins, where it reports no cycle and no missing dependency: its list has
-- every plugin, once, and each comes after all its dependencies.
pub resolve_dependencies_lem :
    (plugins : Dict PluginManifest)
    → (resolve_dependencies plugins).unresolved ≡ []
    → IsOrdered plugins (resolve_dependencies plugins).sorted_ids
      × ((id : String) (m : PluginManifest)
          → Dict.get plugins id ≡ some m
          → contains (resolve_dependencies plugins).sorted_ids id ≡ true)
unfolding resolve_dependencies
resolve_dependencies_lem plugins h =
    let all =
      each-IsSound plugins [] (visit_unvisited plugins) (unvisited-Visits plugins) (keys plugins)
        (record { visited = []; sorted_ids = []; unresolved = [] })
        (record { same = λ x. refl; ordered = IsOrdered.start; apart = λ x e. ground (arith, e) })
        h in
    (all.0.ordered, λ id m there. sym (all.0.same id) ∙ all.2 id (in_keys plugins id m there))
