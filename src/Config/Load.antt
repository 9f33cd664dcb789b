-- ===== src/Config/Load.antt =====
-- `AppConfig::load`, `load_file` and `validate_config_path` of napcat-rs/crates/config.
use nap_cat_qq_rs.Prelude.{
  String, Bool, Option, none, some, Result, ok, err, ◌>>=◌, map_err, if◌then◌else◌,
}
use nap_cat_qq_rs.Config.{
  AppConfig, AppConfigPatch, default, apply_patch, ConfigError, file_read, file_parse, invalid_path,
}
use nap_cat_qq_rs.Config.Env.{load_env}

-- `std::fs` and `serde_json::from_str`, with the text of their errors.
pub record Files : Type 0 where
  pub canonicalize : String → Result String String
  pub is_file : String → Bool
  pub read_to_string : String → Result String String
  pub parse_patch : String → Result String AppConfigPatch

unfoldable pub validate_config_path : Files → String → Result ConfigError String
validate_config_path files path = do
  canonical ← map_err (invalid_path path) (files.canonicalize path)
  if files.is_file canonical
      then ok canonical
      else err (invalid_path canonical "target is not a regular file")

unfoldable pub load_file : Files → String → Result ConfigError AppConfigPatch
unfolding validate_config_path
load_file files path = do
  safe_path ← validate_config_path files path
  content ← map_err (file_read safe_path) (files.read_to_string safe_path)
  map_err (file_parse safe_path) (files.parse_patch content)

-- The defaults, with the file's patch if `NAPCAT_CONFIG_PATH` is set.
unfoldable pub with_file : Files → Option String → Result ConfigError AppConfig
with_file files none = ok default
with_file files (some path) = do patch ← load_file files path; ok (apply_patch default patch)

unfoldable pub load : Files → (String → Option String) → Result ConfigError AppConfig
load files env = do
  config ← with_file files (env "NAPCAT_CONFIG_PATH")
  patch ← load_env env
  ok (apply_patch config patch)
