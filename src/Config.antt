-- ===== src/Config.antt =====
-- napcat-rs/crates/config: `AppConfig`, its patches from a file and from the environment, and how
-- they are laid over the defaults. The file system and `serde_json` are a parameter, `Files`; the
-- environment is a function from names to values; `usize` has 64 bits.
pub mod Env
pub mod Load
mod Laws
mod Ranges
mod Tests
use nap_cat_qq_rs.Prelude.{ℕ, String, Option, none, some, unwrap_or}

pub record AppConfig : Type 0 where
  pub host : String
  pub port : ℕ
  pub log_level : String
  pub database_url : String
  pub protocol_mode : String
  pub protocol_endpoint : String
  pub protocol_access_token : Option String
  pub qq_account : Option String
  pub qq_password : Option String
  pub protocol_listen_timeout_ms : ℕ
  pub protocol_listen_max_events : ℕ

pub record AppConfigPatch : Type 0 where
  pub host : Option String
  pub port : Option ℕ
  pub log_level : Option String
  pub database_url : Option String
  pub protocol_mode : Option String
  pub protocol_endpoint : Option String
  pub protocol_access_token : Option (Option String)
  pub qq_account : Option (Option String)
  pub qq_password : Option (Option String)
  pub protocol_listen_timeout_ms : Option ℕ
  pub protocol_listen_max_events : Option ℕ

unfoldable pub default : AppConfig
default = record {
  host = "127.0.0.1";
  port = 3000;
  log_level = "info";
  database_url = "sqlite://./napcat.db";
  protocol_mode = "mock";
  protocol_endpoint = "";
  protocol_access_token = none;
  qq_account = none;
  qq_password = none;
  protocol_listen_timeout_ms = 600;
  protocol_listen_max_events = 8;
}

unfoldable pub apply_patch : AppConfig → AppConfigPatch → AppConfig
apply_patch config patch = record {
  host = unwrap_or patch.host config.host;
  port = unwrap_or patch.port config.port;
  log_level = unwrap_or patch.log_level config.log_level;
  database_url = unwrap_or patch.database_url config.database_url;
  protocol_mode = unwrap_or patch.protocol_mode config.protocol_mode;
  protocol_endpoint = unwrap_or patch.protocol_endpoint config.protocol_endpoint;
  protocol_access_token = unwrap_or patch.protocol_access_token config.protocol_access_token;
  qq_account = unwrap_or patch.qq_account config.qq_account;
  qq_password = unwrap_or patch.qq_password config.qq_password;
  protocol_listen_timeout_ms =
      unwrap_or patch.protocol_listen_timeout_ms config.protocol_listen_timeout_ms;
  protocol_listen_max_events =
      unwrap_or patch.protocol_listen_max_events config.protocol_listen_max_events;
}

pub data ConfigError : Type 0 where
  file_read file_parse env_parse invalid_path : String → String → ConfigError
