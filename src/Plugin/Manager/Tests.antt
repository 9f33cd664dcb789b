-- ===== src/Plugin/Manager/Tests.antt =====
-- Runs of the plugin manager, and the theorems on it at concrete inputs.
use nap_cat_qq_rs.Plugin.Sources.{backend_from_definition}
use nap_cat_qq_rs.Plugin.Backends.{load_backend}
use nap_cat_qq_rs.Plugin.Backends.{dispatch_backend}
use mathlib.Core.Bool.{false≢true}
use nap_cat_qq_rs.Prelude.{
  eq_iff, ℕ, String, ◌≡◌, ◌⊎◌, refl, true, false, none, some, [], ◌∷◌, ok, err,
}
use nap_cat_qq_rs.Text.{is_blank}
use nap_cat_qq_rs.HashMap
use nap_cat_qq_rs.Plugin.{
  health_check, PluginSource, PluginDefinition, PluginError, already_loaded, not_found, transport,
  PluginBackend, continue,
}
use nap_cat_qq_rs.Plugin.Sources.{Files}
use nap_cat_qq_rs.Plugin.Backends.{Host}
use nap_cat_qq_rs.Plugin.Manager.{
  PluginManager, empty, check_load, start_backend, enter, load, dispatch, metadata,
}
use nap_cat_qq_rs.Plugin.Manager.Registry.{
  loads, unloads, run, IsRegistry, run-IsRegistry, load-outcome,
}
use nap_cat_qq_rs.Plugin.Manager.Race.{tested, started, answered, Steps, racing_loads}
use nap_cat_qq_rs.Plugin.Manager.Dispatch.{Dispatches, dispatch-Dispatches}

-- Every path is an executable file, and every URL is `http`.
abbrev files : Files
files = record {
  canonicalize = λ path. ok path;
  stat = λ path. ok true;
  mode = λ path. ok 493;
  extension = λ path. some "wasm";
  parse_url = λ text. ok (record { scheme = "http"; text = text });
}

-- Every process succeeds and prints nothing; every request is answered with status 500.
abbrev host : Host String ℕ
host = record {
  from_utf8 = λ bytes. ok bytes;
  parse_action = λ text. ok continue;
  encode_event = λ event. ok "{}";
  spawn = λ command. ok (record {
    write_all = λ text. ok tt;
    wait = λ written. some (ok (record { success = true; stdout = "" }));
  });
  output = λ limit command. some (ok (record { success = true; stdout = "" }));
  parse_base = λ text. ok text;
  join = λ base path. ok base;
  build_client = λ limit. ok tt;
  post = λ target event. ok (record { is_success = false; status = "500"; bytes = ok "" });
}

abbrev script : PluginDefinition
script = record {
  metadata = record { name = "echo"; version = "1.0.0"; description = none; author = none };
  source = PluginSource.rust "/bin/echo" [] 500;
  enabled = true;
}

abbrev backend : PluginBackend
backend = PluginBackend.rust script.metadata "/bin/echo" [] 500

-- One local and one remote plugin.
abbrev two_plugins : PluginManager
two_plugins = record {
  plugins = ("echo", backend) ∷ ("bot", PluginBackend.http script.metadata "http://h" 100) ∷ [];
}

script_loads : (load host files script empty).0 ≡ ok "echo"
unfolding load is_blank HashMap.get backend_from_definition load_backend
script_loads = refl

remote_fails : dispatch host health_check two_plugins ≡ err (transport "http plugin status 500")
unfolding dispatch dispatch_backend is_blank
remote_fails = refl

run-IsRegistry_example :
    IsRegistry
      (run empty (loads host files script ∷ loads host files script ∷ unloads host "echo" ∷ []))
run-IsRegistry_example = run-IsRegistry empty _ (tt, tt)

load-outcome_example :
    let (r, after) = load host files script empty in
    (((e : PluginError) × (r ≡ err e) × (after ≡ empty))
      ⊎ ((r ≡ ok "echo")
          × (metadata "echo" empty ≡ err (not_found "echo"))
          × (metadata "echo" after ≡ ok script.metadata)))
    × (metadata "bot" after ≡ metadata "bot" empty)
load-outcome_example =
    load-outcome host files script empty "bot" (λ same. false≢true ((eq_iff "echo" "bot").1 same))

racing_loads_example :
    ((load host files script (load host files script empty).1).0 ≡ err (already_loaded "echo"))
    × Steps host files
        (empty, [])
        (tested script
          ∷ tested script
          ∷ started backend
          ∷ started backend
          ∷ answered (ok "echo")
          ∷ answered (ok "echo")
          ∷ [])
        (enter "echo" backend empty, [])
unfolding check_load is_blank HashMap.get start_backend backend_from_definition load_backend
racing_loads_example =
    racing_loads host files script script empty backend backend refl refl refl refl refl

dispatch-Dispatches_example :
    Dispatches host health_check two_plugins.plugins (dispatch host health_check two_plugins)
dispatch-Dispatches_example = dispatch-Dispatches host health_check two_plugins
