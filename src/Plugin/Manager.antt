-- ===== src/Plugin/Manager.antt =====
-- `PluginManager` of napcat-rs/crates/plugin: the registry of loaded plugins and its operations.
-- `load` is in three parts, since it holds the lock of the registry in the first and in the last
-- only.
pub mod Loading
pub mod Registry
mod Race
mod Dispatch
mod Tests
use nap_cat_qq_rs.Prelude.{
  String, Bool, true, false, Option, none, some, List, [], ◌∷◌, map, Result, ok, err, ◌>>=◌, ◌>>◌,
  if◌then◌else◌, length, is_some, ok_or,
}
use nap_cat_qq_rs.Text.{is_blank}
use nap_cat_qq_rs.Text.Sort.{sort}
use nap_cat_qq_rs.HashMap
use nap_cat_qq_rs.HashMap.{HashMap}
use nap_cat_qq_rs.Plugin.{
  PluginBackendKind, PluginMetadata, PluginEvent, PluginAction, PluginDefinition, PluginError,
  already_loaded, disabled, not_found, empty_name, PluginBackend, metadata_of, kind,
}
use nap_cat_qq_rs.Plugin.Sources.{Files, backend_from_definition}
use nap_cat_qq_rs.Plugin.Backends.{Host, load_backend, unload_backend, dispatch_backend}

pub record PluginManager : Type 0 where
  pub plugins : HashMap PluginBackend

abbrev pub empty : PluginManager
empty = record { plugins = [] }

-- The first part of `load`, under the read lock.
unfoldable pub check_load : PluginDefinition → PluginManager → Result PluginError (Unit {0})
check_load definition manager =
    let name = definition.metadata.name in
    if is_blank name
    then err empty_name
    else if definition.enabled
    then (if HashMap.contains_key name manager.plugins then err (already_loaded name) else ok tt)
    else err (disabled name)

module _ {Bytes Value : Type 0} (host : Host Bytes Value) where
  -- The second part of `load`, without a lock.
  unfoldable pub start_backend : Files → PluginDefinition → Result PluginError PluginBackend
  start_backend files definition = do
    backend ← backend_from_definition files definition
    load_backend host backend
    ok backend

-- The third part of `load`, under the write lock.
unfoldable pub without : String → PluginManager → PluginManager
without name manager = record { plugins = HashMap.remove name manager.plugins }

unfoldable pub enter : String → PluginBackend → PluginManager → PluginManager
enter name backend manager = record { plugins = HashMap.insert name backend manager.plugins }

module _ {Bytes Value : Type 0} (host : Host Bytes Value) where
  unfoldable pub load :
      Files → PluginDefinition → PluginManager → Result PluginError String × PluginManager
  unfolding check_load start_backend enter
  load files definition manager =
      elim (check_load definition manager >> start_backend host files definition) [
        | err e ↦ (err e, manager)
        | ok backend ↦ (ok definition.metadata.name, enter definition.metadata.name backend manager)
      ]

  unfoldable pub unload : String → PluginManager → Result PluginError (Unit {0}) × PluginManager
  unfolding without
  unload name manager =
      let after = without name manager in
      elim (HashMap.get name manager.plugins) [
        | some plugin ↦ (unload_backend host plugin, after)
        | none ↦ (err (not_found name), after)
      ]

  -- What a plugin's answer adds to the actions.
  abbrev pub with_action :
      String
      → Option (PluginAction Value)
      → List (String × PluginAction Value)
      → List (String × PluginAction Value)
  with_action name none actions = actions
  with_action name (some action) actions = (name, action) ∷ actions

  dispatch_all :
      PluginEvent Value
      → HashMap PluginBackend
      → Result PluginError (List (String × PluginAction Value))
  dispatch_all event [] = ok []
  dispatch_all event ((name, plugin) ∷ plugins) = do
    answer ← dispatch_backend host event plugin
    actions ← dispatch_all event plugins
    ok (with_action name answer actions)

  unfoldable pub dispatch :
      PluginEvent Value → PluginManager → Result PluginError (List (String × PluginAction Value))
  unfolding dispatch_all
  dispatch event manager = dispatch_all event manager.plugins

unfoldable pub list : PluginManager → List String
list manager = sort (HashMap.keys manager.plugins)

unfoldable pub kinds : PluginManager → HashMap PluginBackendKind
kinds manager = map (λ entry. (entry.0, kind entry.1)) manager.plugins

unfoldable pub metadata : String → PluginManager → Result PluginError PluginMetadata
metadata name manager = do
  plugin ← ok_or (HashMap.get name manager.plugins) (not_found name)
  ok (metadata_of plugin)
