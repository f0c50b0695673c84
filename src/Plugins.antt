-- ===== src/Plugins.antt =====
-- The order in which plugins are loaded (engine/plugin_registry.py, `resolve_dependencies`). A set of ids is a
-- list; a message is kept as what it is about.
pub mod Order
use prodinamik_engine.Prelude.{
  ℕ, zero, suc, ◌+◌, String, Bool, true, false, Option, none, some, List, [], ◌∷◌, ◌++◌,
  if◌then◌else◌, length, contains, add,
}
use prodinamik_engine.Dict
use prodinamik_engine.Dict.{Dict, keys}

-- What the order needs of a manifest.
pub record PluginManifest : Type 0 where
  pub dependencies : List String

pub data Unresolved : Type 0 where
  cycle_detected : List String → String → Unresolved
  missing_dependency : String → Unresolved

-- The variables of `resolve_dependencies`.
pub record Resolution : Type 0 where
  pub visited : List String
  pub sorted_ids : List String
  pub unresolved : List Unresolved

abbrev pub unresolved_at : Unresolved → Resolution → Resolution
unresolved_at u r = record r { unresolved = r.unresolved ++ u ∷ [] }

abbrev pub finished : String → Resolution → Resolution
finished id r = record r { visited = add id r.visited; sorted_ids = r.sorted_ids ++ id ∷ [] }

unfoldable pub visit_each :
    (String → Resolution → Resolution) → List String → Resolution → Resolution
visit_each f [] r = r
visit_each f (d ∷ ds) r = visit_each f ds (f d r)

-- The visit of a plugin that is not open, by what there is under its id.
abbrev pub open_plugin :
    (String → Resolution → Resolution) → String → Option PluginManifest → Resolution → Resolution
open_plugin f id none r = unresolved_at (missing_dependency id) r
open_plugin f id (some m) r = finished id (visit_each f m.dependencies r)

-- `visit`, on fuel; the path is the set of the plugins that are open.
unfoldable pub visit : Dict PluginManifest → ℕ → List String → String → Resolution → Resolution
visit plugins zero path id r = r
visit plugins (suc n) path id r =
    let opened = open_plugin (visit plugins n (id ∷ path)) id (Dict.get plugins id) r in
    if contains r.visited id
    then r
    else if contains path id
    then unresolved_at (cycle_detected path id) r
    else opened

unfoldable pub visit_unvisited : Dict PluginManifest → String → Resolution → Resolution
visit_unvisited plugins id r =
    if contains r.visited id then r else visit plugins (length plugins + 1) [] id r

unfoldable pub resolve_dependencies : Dict PluginManifest → Resolution
resolve_dependencies plugins =
    visit_each (visit_unvisited plugins) (keys plugins)
      (record { visited = []; sorted_ids = []; unresolved = [] })
