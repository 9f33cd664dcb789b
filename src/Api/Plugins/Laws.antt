-- ===== src/Api/Plugins/Laws.antt =====
-- The life of a plugin as the handlers show it.
use nap_cat_qq_rs.Prelude.{
  suc, String, ◌<>◌, ◌≡◌, ◌∙◌, ◌⊎◌, inl, inr, refl, sym, ap, none, [], ◌∷◌, ok, err, length,
  eq_refl,
}
use nap_cat_qq_rs.HashMap
use nap_cat_qq_rs.HashMap.{HashMap, remove_fresh, get-insert}
use nap_cat_qq_rs.Text.Sort.{length-sort}
use nap_cat_qq_rs.Plugin.{
  PluginMetadata, PluginDefinition, PluginError, not_found, PluginBackend, metadata_of,
}
use nap_cat_qq_rs.Plugin.Sources.{Files}
use nap_cat_qq_rs.Plugin.Backends.{Host}
use nap_cat_qq_rs.Plugin.Manager
use nap_cat_qq_rs.Plugin.Manager.{PluginManager, enter, without}
use nap_cat_qq_rs.Plugin.Manager.Loading.{load-cases, unload-registry, without-enter}
use nap_cat_qq_rs.Api.{protocol_send, ok_envelope, ApiState}
use nap_cat_qq_rs.Api.Plugins.{
  describe, answer_of, plugin_load, plugin_unload, plugin_metadata, plugin_status,
}

length-keys : {V : Type 0} (m : HashMap V) → length (HashMap.keys m) ≡ length m
length-keys [] = refl
length-keys (e ∷ m) = ap suc (length-keys m)

-- The number of plugins after one more was entered.
count-enter :
    (name : String) (plugin : PluginBackend) (manager : PluginManager)
    → HashMap.get name manager.plugins ≡ none
    → length (Manager.list (enter name plugin manager)) ≡ suc (length (Manager.list manager))
unfolding Manager.list enter HashMap.insert
count-enter name plugin manager fresh =
    length-sort (HashMap.keys (enter name plugin manager).plugins)
    ∙ ap (λ m. suc (length (HashMap.keys m))) (remove_fresh name manager.plugins fresh)
    ∙ ap suc (sym (length-sort (HashMap.keys manager.plugins)))

metadata-fresh :
    (name : String) (manager : PluginManager)
    → HashMap.get name manager.plugins ≡ none
    → Manager.metadata name manager ≡ err (not_found name)
unfolding Manager.metadata
metadata-fresh name manager fresh = rw fresh refl

metadata-enter :
    (name : String) (plugin : PluginBackend) (described : PluginMetadata) (manager : PluginManager)
    → metadata_of plugin ≡ described
    → Manager.metadata name (enter name plugin manager) ≡ ok described
unfolding Manager.metadata enter HashMap.insert HashMap.get
metadata-enter name plugin described manager h = rw (eq_refl name) (ap ok h)

module _ {Backend Value Bytes : Type 0} (host later : Host Bytes Value) (files : Files) where
  -- `plugin_load` either answers an error and leaves the state as it was, or answers the name of
  -- the definition, under which `plugin_metadata` found nothing before and now finds its metadata,
  -- and `plugin_status` counts one plugin more; then `plugin_unload` of that name, whatever it
  -- answers, gives back the state before.
  pub plugin_load-lifecycle :
      (definition : PluginDefinition) (state : ApiState Backend Value)
      → let (r, after) = plugin_load host files definition state in
        let name = definition.metadata.name in
        ((e : PluginError) × (r ≡ err (protocol_send (describe e))) × (after ≡ state))
        ⊎ ((r ≡ ok (ok_envelope name))
            × (plugin_metadata state name ≡ err (protocol_send ("plugin not found: " <> name)))
            × (plugin_metadata after name ≡ ok (ok_envelope definition.metadata))
            × ((plugin_status after).data'.plugin_count
                ≡ suc (plugin_status state).data'.plugin_count)
            × ((plugin_unload later name after).1 ≡ state))
  unfolding plugin_load plugin_unload plugin_metadata plugin_status answer_of
  plugin_load-lifecycle definition state =
      elim (load-cases host files definition state.plugin_manager) [
        | inl (e, failed) ↦ rw failed (inl (e, refl, refl))
        | inr (plugin, l) ↦
            let name = definition.metadata.name in
            let manager = state.plugin_manager in
            rw l.loaded (
              inr (
                refl,
                ap answer_of (metadata-fresh name manager l.fresh),
                ap answer_of (metadata-enter name plugin definition.metadata manager l.built.0),
                count-enter name plugin manager l.fresh,
                ap (λ m. record state { plugin_manager = m })
                    (unload-registry later name (enter name plugin manager)
                      ∙ without-enter name plugin manager l.fresh),
              ))
      ]
