-- ===== src/Config/Env.antt =====
-- `AppConfig::load_env` of napcat-rs/crates/config.
use mathlib.Core.Option
use nap_cat_qq_rs.Prelude.{ℕ, ◌^◌, String, Option, none, some, Result, ok, ◌>>=◌, map_err}
use nap_cat_qq_rs.Text.Decimal.{parse_uint, describe}
use nap_cat_qq_rs.Config.{AppConfigPatch, ConfigError, env_parse}

-- `parse::<u16>`, `parse::<u64>` and `parse::<usize>` of a variable that may be unset.
unfoldable pub parse_var : (String → Option String) → String → ℕ → Result ConfigError (Option ℕ)
parse_var env key bound = elim (env key) [
  | none ↦ ok none
  | some text ↦ do
    parsed ← map_err (λ e. env_parse key (describe e)) (parse_uint bound text)
    ok (some parsed)
]

-- The parse errors return in the order of the source: port, timeout, batch size.
unfoldable pub load_env : (String → Option String) → Result ConfigError AppConfigPatch
load_env env = do
  port ← parse_var env "NAPCAT_PORT" (2 ^ 16)
  timeout ← parse_var env "NAPCAT_PROTOCOL_LISTEN_TIMEOUT_MS" (2 ^ 64)
  max_events ← parse_var env "NAPCAT_PROTOCOL_LISTEN_MAX_EVENTS" (2 ^ 64)
  ok (record {
    host = env "NAPCAT_HOST";
    port = port;
    log_level = env "NAPCAT_LOG_LEVEL";
    database_url = env "NAPCAT_DATABASE_URL";
    protocol_mode = env "NAPCAT_PROTOCOL_MODE";
    protocol_endpoint = env "NAPCAT_PROTOCOL_ENDPOINT";
    protocol_access_token = Option.map some (env "NAPCAT_PROTOCOL_ACCESS_TOKEN");
    qq_account = Option.map some (env "NAPCAT_QQ_ACCOUNT");
    qq_password = Option.map some (env "NAPCAT_QQ_PASSWORD");
    protocol_listen_timeout_ms = timeout;
    protocol_listen_max_events = max_events;
  })
