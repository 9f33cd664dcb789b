-- ===== src/Config/Laws.antt =====
-- What `load` of napcat-rs/crates/config makes of the file and the environment.
use nap_cat_qq_rs.Prelude.{
  String, ◌≡◌, refl, Option, none, some, Result, ok, ◌>>=◌, unwrap_or, or_else,
}
use nap_cat_qq_rs.Config.{AppConfig, AppConfigPatch, default, apply_patch, ConfigError}
use nap_cat_qq_rs.Config.Env.{load_env}
use nap_cat_qq_rs.Config.Load.{Files, load_file, with_file, load}

-- A value is the environment's if that sets it, else the file's if that sets it, else the default.
abbrev pub Chosen {ℓ} : {A : Type ℓ} → A → Option A → Option A → A → Type ℓ
Chosen value env file fallback = value ≡ unwrap_or (or_else env file) fallback

pub record IsOverlay (config : AppConfig) (file env : AppConfigPatch) : Type 0 where
  pub host : Chosen config.host env.host file.host "127.0.0.1"
  pub port : Chosen config.port env.port file.port 3000
  pub log_level : Chosen config.log_level env.log_level file.log_level "info"
  pub database_url :
      Chosen config.database_url env.database_url file.database_url "sqlite://./napcat.db"
  pub protocol_mode : Chosen config.protocol_mode env.protocol_mode file.protocol_mode "mock"
  pub protocol_endpoint :
      Chosen config.protocol_endpoint env.protocol_endpoint file.protocol_endpoint ""
  pub protocol_access_token :
      Chosen config.protocol_access_token env.protocol_access_token file.protocol_access_token none
  pub qq_account : Chosen config.qq_account env.qq_account file.qq_account none
  pub qq_password : Chosen config.qq_password env.qq_password file.qq_password none
  pub protocol_listen_timeout_ms :
      Chosen config.protocol_listen_timeout_ms env.protocol_listen_timeout_ms
        file.protocol_listen_timeout_ms 600
  pub protocol_listen_max_events :
      Chosen config.protocol_listen_max_events env.protocol_listen_max_events
        file.protocol_listen_max_events 8

abbrev pub no_patch : AppConfigPatch
no_patch = record {
  host = none;
  port = none;
  log_level = none;
  database_url = none;
  protocol_mode = none;
  protocol_endpoint = none;
  protocol_access_token = none;
  qq_account = none;
  qq_password = none;
  protocol_listen_timeout_ms = none;
  protocol_listen_max_events = none;
}

choose {ℓ} :
    {A : Type ℓ} (env file : Option A) (fallback : A)
    → Chosen (unwrap_or env (unwrap_or file fallback)) env file fallback
choose none file fallback = refl
choose (some a) file fallback = refl

overlay :
    (file env : AppConfigPatch) → IsOverlay (apply_patch (apply_patch default file) env) file env
unfolding apply_patch default
overlay file env = record {
  host = choose env.host file.host _;
  port = choose env.port file.port _;
  log_level = choose env.log_level file.log_level _;
  database_url = choose env.database_url file.database_url _;
  protocol_mode = choose env.protocol_mode file.protocol_mode _;
  protocol_endpoint = choose env.protocol_endpoint file.protocol_endpoint _;
  protocol_access_token = choose env.protocol_access_token file.protocol_access_token _;
  qq_account = choose env.qq_account file.qq_account _;
  qq_password = choose env.qq_password file.qq_password _;
  protocol_listen_timeout_ms =
      choose env.protocol_listen_timeout_ms file.protocol_listen_timeout_ms _;
  protocol_listen_max_events =
      choose env.protocol_listen_max_events file.protocol_listen_max_events _;
}

-- The patch of the configuration file: none is set without `NAPCAT_CONFIG_PATH`.
abbrev pub file_patch : Files → Option String → Result ConfigError AppConfigPatch
file_patch files none = ok no_patch
file_patch files (some path) = load_file files path

with_file-file_patch :
    (files : Files) (path : Option String)
    → with_file files path ≡ (file_patch files path >>= λ patch. ok (apply_patch default patch))
unfolding with_file apply_patch
with_file-file_patch files none = refl
with_file-file_patch files (some path) = refl

-- If the file's patch, where one is named, and the environment's patch load, then `load` succeeds,
-- and every field of the result is the environment's, else the file's, else the default.
pub load_precedence :
    (files : Files) (env : String → Option String) (file patch : AppConfigPatch)
    → file_patch files (env "NAPCAT_CONFIG_PATH") ≡ ok file
    → load_env env ≡ ok patch
    → (config : AppConfig) × (load files env ≡ ok config) × IsOverlay config file patch
unfolding load
load_precedence files env file patch e f = (
  apply_patch (apply_patch default file) patch,
  rw (with_file-file_patch files (env "NAPCAT_CONFIG_PATH"), e, f),
  overlay file patch,
)
