-- ===== src/Plugin/Manager/Registry.antt =====
-- What the registry holds after any calls, and what `load` and `unload` do to it.
use nap_cat_qq_rs.Prelude.{
  ◌⊎◌, ap, ◌∙◌, ◌≤◌, String, ◌≡◌, ◌≢◌, refl, false, List, [], ◌∷◌, ok, err, arith, inl, inr, eq_iff,
}
use nap_cat_qq_rs.Text.{is_blank}
use nap_cat_qq_rs.HashMap
use nap_cat_qq_rs.HashMap.{
  HashMap, HasUniqueKeys, get-insert, get-remove, insert-HasUniqueKeys, remove-HasUniqueKeys,
  remove_fresh,
}
use nap_cat_qq_rs.Plugin.{
  PluginDefinition, PluginError, not_found, PluginBackend, metadata_of, timeout_of,
}
use nap_cat_qq_rs.Plugin.Sources.{Files}
use nap_cat_qq_rs.Plugin.Backends.{Host}
use nap_cat_qq_rs.Plugin.Manager.{PluginManager, enter, without, load, unload, metadata}
use nap_cat_qq_rs.Plugin.Manager.Loading.{load-cases, unload-registry, without-enter}

-- An entry stands under the name of its metadata, which is not blank, and its backend has a time
-- limit between 10 ms and 60 s.
abbrev pub IsEntry : String → PluginBackend → Type 0
IsEntry name plugin =
    ((metadata_of plugin).name ≡ name)
    × (is_blank name ≡ false)
    × (10 ≤ timeout_of plugin)
    × (timeout_of plugin ≤ 60000)

abbrev pub AreEntries : HashMap PluginBackend → Type 0
AreEntries [] = Unit {0}
AreEntries ((name, plugin) ∷ plugins) = IsEntry name plugin × AreEntries plugins

abbrev pub IsRegistry : PluginManager → Type 0
IsRegistry manager = HasUniqueKeys manager.plugins × AreEntries manager.plugins

AreEntries-remove :
    (name : String) (plugins : HashMap PluginBackend)
    → AreEntries plugins
    → AreEntries (HashMap.remove name plugins)
unfolding HashMap.remove
AreEntries-remove name [] h = tt
AreEntries-remove name ((other, plugin) ∷ plugins) h =
    ground (arith, h.0, AreEntries-remove name plugins h.1)

AreEntries-insert :
    (name : String) (plugin : PluginBackend) (plugins : HashMap PluginBackend)
    → IsEntry name plugin
    → AreEntries plugins
    → AreEntries (HashMap.insert name plugin plugins)
unfolding HashMap.insert
AreEntries-insert name plugin plugins e h = (e, AreEntries-remove name plugins h)

module _ {Bytes Value : Type 0} (host : Host Bytes Value) (files : Files) where
  -- A `load` that succeeds answers the definition's name and enters a backend with its metadata
  -- under it, where none stood before; one that fails leaves the registry as it was. What stands
  -- under another name is not touched.
  pub load-outcome :
      (definition : PluginDefinition) (manager : PluginManager) (other : String)
      → definition.metadata.name ≢ other
      → let (r, after) = load host files definition manager in
        let name = definition.metadata.name in
        (((e : PluginError) × (r ≡ err e) × (after ≡ manager))
          ⊎ ((r ≡ ok name)
              × (metadata name manager ≡ err (not_found name))
              × (metadata name after ≡ ok definition.metadata)))
        × (metadata other after ≡ metadata other manager)
  unfolding metadata enter
  load-outcome definition manager other differ = elim (load-cases host files definition manager) [
    | inl (e, failed) ↦ rw failed (inl (e, refl, refl), refl)
    | inr (plugin, h) ↦
        let name = definition.metadata.name in
        rw h.loaded (
          ground (
            arith,
            h.fresh,
            h.built.0,
            get-insert name name plugin manager.plugins,
            get-insert name other plugin manager.plugins,
            eq_iff name name,
            eq_iff name other,
          ))
  ]

  -- Whatever the plugin answers, `unload` of a plugin that was just loaded leaves the registry that
  -- the `load` found.
  pub unload-load :
      (later : Host Bytes Value) (definition : PluginDefinition) (manager : PluginManager)
      → (load host files definition manager).0 ≡ ok definition.metadata.name
      → (unload later definition.metadata.name (load host files definition manager).1).1 ≡ manager
  unload-load later definition manager h = elim (load-cases host files definition manager) [
    | inl (e, failed) ↦ ground (arith, h, failed)
    | inr (plugin, l) ↦
        let name = definition.metadata.name in
        rw l.loaded (
          unload-registry later name (enter name plugin manager)
          ∙ without-enter name plugin manager l.fresh)
  ]

  load-IsRegistry :
      (definition : PluginDefinition) (manager : PluginManager)
      → IsRegistry manager
      → IsRegistry (load host files definition manager).1
  unfolding enter
  load-IsRegistry definition manager h = elim (load-cases host files definition manager) [
    | inl (e, failed) ↦ rw failed h
    | inr (plugin, l) ↦
        let name = definition.metadata.name in
        rw l.loaded (
          insert-HasUniqueKeys name plugin manager.plugins h.0,
          AreEntries-insert name plugin manager.plugins
              (ap (λ m. m.name) l.built.0, l.named, l.built.1, l.built.2) h.1,
        )
  ]

-- One call that changes the registry, with what its surroundings answer.
pub data Call (Bytes Value : Type 0) : Type 0 where
  loads : Host Bytes Value → Files → PluginDefinition → Call Bytes Value
  unloads : Host Bytes Value → String → Call Bytes Value

module _ {Bytes Value : Type 0} where
  unfoldable pub step : PluginManager → Call Bytes Value → PluginManager
  unfolding load unload
  step manager (loads host files definition) = (load host files definition manager).1
  step manager (unloads host name) = (unload host name manager).1

  unfoldable pub run : PluginManager → List (Call Bytes Value) → PluginManager
  run manager [] = manager
  run manager (call ∷ calls) = run (step manager call) calls

  step-IsRegistry :
      (manager : PluginManager) (call : Call Bytes Value)
      → IsRegistry manager
      → IsRegistry (step manager call)
  unfolding step without
  step-IsRegistry manager (loads host files definition) h =
      load-IsRegistry host files definition manager h
  step-IsRegistry manager (unloads host name) h =
      rw (unload-registry host name manager)
        (remove-HasUniqueKeys name manager.plugins h.0, AreEntries-remove name manager.plugins h.1)

  -- After any calls of `load` and `unload`, whatever files, processes and servers answer, the names
  -- of the registry differ, and each plugin stands under the name of its metadata, which is not
  -- blank, with a time limit between 10 ms and 60 s, if this held before.
  pub run-IsRegistry :
      (manager : PluginManager) (calls : List (Call Bytes Value))
      → IsRegistry manager
      → IsRegistry (run manager calls)
  unfolding run
  run-IsRegistry manager [] h = h
  run-IsRegistry manager (call ∷ calls) h =
      run-IsRegistry (step manager call) calls (step-IsRegistry manager call h)
