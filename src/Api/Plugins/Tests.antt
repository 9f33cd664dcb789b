-- ===== src/Api/Plugins/Tests.antt =====
-- The plugin handlers at a concrete definition.
use nap_cat_qq_rs.Text.Sort.{sort}
use nap_cat_qq_rs.Plugin.Manager.{list}
use nap_cat_qq_rs.Plugin.Manager.{kinds}
use nap_cat_qq_rs.Prelude.{
  ℕ, suc, String, ◌<>◌, ◌≡◌, ◌⊎◌, refl, true, false, none, some, [], ok, err,
}
use nap_cat_qq_rs.Plugin.{PluginSource, PluginDefinition, PluginError, continue}
use nap_cat_qq_rs.Plugin.Sources.{Files}
use nap_cat_qq_rs.Plugin.Backends.{Host}
use nap_cat_qq_rs.Api.{ApiState, protocol_send, ok_envelope}
use nap_cat_qq_rs.Api.Plugins.{
  describe, plugin_load, plugin_unload, plugin_list, plugin_kinds, plugin_metadata, plugin_status,
}
use nap_cat_qq_rs.Api.Plugins.Laws.{plugin_load-lifecycle}

-- Every path is an executable file.
abbrev files : Files
files = record {
  canonicalize = λ path. ok path;
  stat = λ path. ok true;
  mode = λ path. ok 493;
  extension = λ path. some "wasm";
  parse_url = λ text. ok (record { scheme = "http"; text = text });
}

-- Every process succeeds and prints nothing.
abbrev host : Host String ℕ
host = record {
  from_utf8 = λ bytes. ok bytes;
  parse_action = λ text. ok continue;
  encode_event = λ event. ok "{}";
  spawn = λ command. ok (record {
    write_all = λ text. ok tt;
    wait = λ written. some (ok (record { success = true; stdout = "" }));
  });
  output = λ limit command. some (ok (record { success = true; stdout = "" }));
  parse_base = λ text. ok text;
  join = λ base path. ok base;
  build_client = λ limit. ok tt;
  post = λ target event. ok (record { is_success = false; status = "500"; bytes = ok "" });
}

abbrev script : PluginDefinition
script = record {
  metadata = record { name = "echo"; version = "1.0.0"; description = none; author = none };
  source = PluginSource.rust "/bin/echo" [] 500;
  enabled = true;
}

abbrev bare : ApiState ℕ ℕ
bare = record {
  plugin_manager = record { plugins = [] };
  dispatched = [];
  protocol = none;
  runtime_running = true;
  runtime_groups = [];
  runtime_users = [];
}

nothing_listed : ((plugin_list bare).data' ≡ []) × ((plugin_kinds bare).data' ≡ [])
unfolding plugin_list plugin_kinds list sort kinds
nothing_listed = (refl, refl)

plugin_load-lifecycle_example :
    let (r, after) = plugin_load host files script bare in
    ((e : PluginError) × (r ≡ err (protocol_send (describe e))) × (after ≡ bare))
    ⊎ ((r ≡ ok (ok_envelope "echo"))
        × (plugin_metadata bare "echo" ≡ err (protocol_send ("plugin not found: " <> "echo")))
        × (plugin_metadata after "echo" ≡ ok (ok_envelope script.metadata))
        × ((plugin_status after).data'.plugin_count ≡ suc (plugin_status bare).data'.plugin_count)
        × ((plugin_unload host "echo" after).1 ≡ bare))
plugin_load-lifecycle_example = plugin_load-lifecycle host host files script bare
