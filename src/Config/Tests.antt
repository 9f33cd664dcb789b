-- ===== src/Config/Tests.antt =====
-- Runs of the configuration loader, and the theorems on it at concrete inputs.
use nap_cat_qq_rs.Prelude.{String, ◌==◌, ◌≡◌, refl, Option, none, some, ok, err, if◌then◌else◌}
use nap_cat_qq_rs.Text.Decimal.{parse_uint, describe}
use nap_cat_qq_rs.Config.{AppConfig, AppConfigPatch, env_parse}
use nap_cat_qq_rs.Config.Env.{parse_var, load_env}
use nap_cat_qq_rs.Config.Load.{Files, validate_config_path, load_file, load}
use nap_cat_qq_rs.Config.Laws.{IsOverlay, no_patch, load_precedence}

-- One readable file, which sets the host and the port.
abbrev file_values : AppConfigPatch
file_values = record no_patch { host = some "0.0.0.0"; port = some 4000 }

abbrev one_file : Files
one_file = record {
  canonicalize = λ path. if path == "napcat.json" then ok "/etc/napcat.json" else err "not found";
  is_file = λ path. path == "/etc/napcat.json";
  read_to_string = λ path. ok "{}";
  parse_patch = λ content. ok file_values;
}

abbrev env_values : String → Option String
env_values key =
    if key == "NAPCAT_CONFIG_PATH"
    then some "napcat.json"
    else if key == "NAPCAT_PORT"
    then some "8080"
    else none

abbrev bad_env : String → Option String
bad_env key = if key == "NAPCAT_PORT" then some "70000" else none

abbrev port_patch : AppConfigPatch
port_patch = record no_patch { port = some 8080 }

env_port : load_env env_values ≡ ok port_patch
unfolding load_env parse_var parse_uint
env_port = refl

bad_port : load_env bad_env ≡ err (env_parse "NAPCAT_PORT" "number too large to fit in target type")
unfolding load_env parse_var parse_uint describe
bad_port = refl

load_precedence_example :
    (config : AppConfig) × (load one_file env_values ≡ ok config)
    × IsOverlay config file_values port_patch
unfolding load_file validate_config_path
load_precedence_example = load_precedence one_file env_values file_values port_patch refl env_port
