-- ===== src/Plugin/Manager/Loading.antt =====
-- The parts of a `load` of `PluginManager` (napcat-rs/crates/plugin), and its undoing.
use nap_cat_qq_rs.Prelude.{
  ◌⊎◌, ap, sym, String, ◌≡◌, refl, true, false, none, Result, ok, err, arith, ◌>>◌, Result-cases,
  inl, inr, eq_refl,
}
use nap_cat_qq_rs.Text.{is_blank}
use nap_cat_qq_rs.HashMap
use nap_cat_qq_rs.HashMap.{
  HashMap, HasUniqueKeys, get-insert, get-remove, insert-HasUniqueKeys, remove-HasUniqueKeys,
  remove_fresh,
}
use nap_cat_qq_rs.Plugin.{PluginDefinition, PluginError, PluginBackend}
use nap_cat_qq_rs.Plugin.Sources.{Files, IsBuilt, backend-Builds}
use nap_cat_qq_rs.Plugin.Backends.{Host}
use nap_cat_qq_rs.Plugin.Manager.{
  PluginManager, check_load, start_backend, enter, without, load, unload,
}

-- What a successful test of `load` has found.
pub check-fresh :
    (definition : PluginDefinition) (manager : PluginManager)
    → check_load definition manager ≡ ok tt
    → (is_blank definition.metadata.name ≡ false)
      × (definition.enabled ≡ true)
      × (HashMap.get definition.metadata.name manager.plugins ≡ none)
unfolding check_load
check-fresh definition manager h = ground arith

abbrev pub of_plugins : HashMap PluginBackend → PluginManager
of_plugins plugins = record { plugins = plugins }

pub without-enter :
    (name : String) (plugin : PluginBackend) (manager : PluginManager)
    → HashMap.get name manager.plugins ≡ none
    → without name (enter name plugin manager) ≡ manager
unfolding without enter HashMap.insert HashMap.remove
without-enter name plugin manager h =
    rw (eq_refl name, remove_fresh name manager.plugins h)
      (ap of_plugins (remove_fresh name manager.plugins h))

pub unload-registry :
    {Bytes Value : Type 0} (host : Host Bytes Value) (name : String) (manager : PluginManager)
    → (unload host name manager).1 ≡ without name manager
unfolding unload
unload-registry host name manager = ground arith

module _ {Bytes Value : Type 0} (host : Host Bytes Value) (files : Files) where
  start-IsBuilt :
      (definition : PluginDefinition) (backend : PluginBackend)
      → start_backend host files definition ≡ ok backend
      → IsBuilt definition.metadata backend
  unfolding start_backend
  start-IsBuilt definition backend h = ground (arith, backend-Builds files definition)

  -- A `load` that succeeds, in its parts.
  pub record IsLoaded (definition : PluginDefinition) (manager : PluginManager)
      (plugin : PluginBackend) : Type 0 where
    pub named : is_blank definition.metadata.name ≡ false
    pub fresh : HashMap.get definition.metadata.name manager.plugins ≡ none
    pub built : IsBuilt definition.metadata plugin
    pub loaded :
        load host files definition manager
        ≡ (ok definition.metadata.name, enter definition.metadata.name plugin manager)

  pub loaded-parts :
      (definition : PluginDefinition) (manager : PluginManager)
      (check : Result PluginError (Unit {0})) (begun : Result PluginError PluginBackend)
      → check_load definition manager ≡ check
      → start_backend host files definition ≡ begun
      → load host files definition manager ≡ elim (check >> begun) [
        | err e ↦ (err e, manager)
        | ok plugin ↦ (ok definition.metadata.name, enter definition.metadata.name plugin manager)
      ]
  unfolding load
  loaded-parts definition manager check begun c s = rw (sym c, sym s) refl

  pub load-cases :
      (definition : PluginDefinition) (manager : PluginManager)
      → ((e : PluginError) × (load host files definition manager ≡ (err e, manager)))
        ⊎ ((plugin : PluginBackend) × IsLoaded definition manager plugin)
  load-cases definition manager = elim (Result-cases (check_load definition manager)) [
    | inr (e, refused) ↦ inl (e, loaded-parts definition manager (err e) _ refused refl)
    | inl (u, passed) ↦ elim (Result-cases (start_backend host files definition)) [
      | inr (e, failed) ↦ inl (e, loaded-parts definition manager (ok u) (err e) passed failed)
      | inl (plugin, begun) ↦
          let (named, enabled, fresh) = check-fresh definition manager passed in
          inr (
            plugin,
            record {
              named = named;
              fresh = fresh;
              built = start-IsBuilt definition plugin begun;
              loaded = loaded-parts definition manager (ok u) (ok plugin) passed begun;
            },
          )
    ]
  ]
