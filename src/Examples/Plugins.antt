-- ===== src/Examples/Plugins.antt =====
-- The theorem on engine/plugin_registry.py applied to three plugins.
use prodinamik_engine.Prelude.{add, ◌≡◌, refl, String, true, some, List, [], ◌∷◌, contains}
use prodinamik_engine.Dict
use prodinamik_engine.Dict.{Dict}
use prodinamik_engine.Plugins.{
  PluginManifest, resolve_dependencies, visit_each, visit, visit_unvisited,
}
use prodinamik_engine.Plugins.Order.{IsOrdered, resolve_dependencies_lem}

abbrev needs : List String → PluginManifest
needs ds = record { dependencies = ds }

abbrev three : Dict PluginManifest
three = ("web", needs ("log" ∷ "db" ∷ [])) ∷ ("db", needs ("log" ∷ [])) ∷ ("log", needs []) ∷ []

resolve_dependencies_lem_example :
    IsOrdered three (resolve_dependencies three).sorted_ids
    × ((id : String) (m : PluginManifest)
        → Dict.get three id ≡ some m
        → contains (resolve_dependencies three).sorted_ids id ≡ true)
unfolding resolve_dependencies visit_each visit visit_unvisited Dict.get add
resolve_dependencies_lem_example = resolve_dependencies_lem three refl
