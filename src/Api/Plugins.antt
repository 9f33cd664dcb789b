-- ===== src/Api/Plugins.antt =====
-- The handlers of napcat-rs/crates/api that manage plugins.
mod Laws
mod Tests
use nap_cat_qq_rs.Prelude.{
  ℕ, String, ◌<>◌, Bool, Option, none, some, List, [], ◌∷◌, Result, ok, err, map_err, length,
}
use nap_cat_qq_rs.HashMap.{HashMap}
use nap_cat_qq_rs.Text.Decimal.{to_decimal}
use nap_cat_qq_rs.Plugin.{
  PluginBackendKind, PluginMetadata, PluginDefinition, PluginError, already_loaded, disabled,
  not_found, empty_name, io, serialize, deserialize, invalid_utf8, runtime_unavailable, transport,
  invalid_source, timeout,
}
use nap_cat_qq_rs.Plugin.Sources.{Files}
use nap_cat_qq_rs.Plugin.Backends.{Host}
use nap_cat_qq_rs.Plugin.Manager
use nap_cat_qq_rs.Plugin.Manager.{PluginManager}
use nap_cat_qq_rs.Api.{ApiEnvelope, ApiError, protocol_send, ok_envelope, ApiState}

-- The text of an error of the plugins.
unfoldable pub describe : PluginError → String
describe (already_loaded name) = "plugin already loaded: " <> name
describe empty_name = "plugin name cannot be empty"
describe (disabled name) = "plugin disabled: " <> name
describe (io e) = "io failure: " <> e
describe (serialize e) = "json failure: " <> e
describe (deserialize e) = "json decode failure: " <> e
describe (invalid_utf8 e) = "invalid utf-8: " <> e
describe (runtime_unavailable e) = "plugin runtime unavailable: " <> e
describe (timeout timeout_ms) = "plugin action timeout after " <> (to_decimal timeout_ms <> "ms")
describe (not_found name) = "plugin not found: " <> name
describe (transport e) = "plugin transport failure: " <> e
describe (invalid_source e) = "invalid plugin source: " <> e

pub record PluginStatusResponse : Type 0 where
  pub running : Bool
  pub plugin_count : ℕ

answer_of : {T : Type 0} → Result PluginError T → Result ApiError (ApiEnvelope T)
unfolding describe
answer_of (ok payload) = ok (ok_envelope payload)
answer_of (err e) = err (protocol_send (describe e))

module _ {Backend Value : Type 0} {Bytes : Type 0} (host : Host Bytes Value) where
  unfoldable pub plugin_load :
      Files
      → PluginDefinition
      → ApiState Backend Value
      → Result ApiError (ApiEnvelope String) × ApiState Backend Value
  unfolding answer_of
  plugin_load files definition state =
      let (r, manager) = Manager.load host files definition state.plugin_manager in
      (answer_of r, record state { plugin_manager = manager })

  unfoldable pub plugin_unload :
      String
      → ApiState Backend Value
      → Result ApiError (ApiEnvelope (Unit {0})) × ApiState Backend Value
  unfolding answer_of
  plugin_unload name state =
      let (r, manager) = Manager.unload host name state.plugin_manager in
      (answer_of r, record state { plugin_manager = manager })

module _ {Backend Value : Type 0} (state : ApiState Backend Value) where
  unfoldable pub plugin_list : ApiEnvelope (List String)
  plugin_list = ok_envelope (Manager.list state.plugin_manager)

  unfoldable pub plugin_kinds : ApiEnvelope (HashMap PluginBackendKind)
  plugin_kinds = ok_envelope (Manager.kinds state.plugin_manager)

  unfoldable pub plugin_metadata : String → Result ApiError (ApiEnvelope PluginMetadata)
  unfolding answer_of
  plugin_metadata name = answer_of (Manager.metadata name state.plugin_manager)

  unfoldable pub plugin_status : ApiEnvelope PluginStatusResponse
  plugin_status = ok_envelope (record {
    running = state.runtime_running;
    plugin_count = length (Manager.list state.plugin_manager);
  })
