-- ===== src/Cli.antt =====
-- napcat-rs/crates/cli: how `run_app` overlays the arguments on the configuration and chooses and
-- connects the protocol backend. The API server that it then runs is a parameter.
mod Startup
mod Tests
use nap_cat_qq_rs.Prelude.{
  ℕ, String, ◌<>◌, ◌==◌, ◌≡◌, Bool, true, false, ◌||◌, Option, none, some, Result, ok, err, ◌>>=◌,
  map_err, ok_or, or_else, unwrap_or, starts_with, if◌then◌else◌,
}
use nap_cat_qq_rs.Text.{is_blank, trim_start}
use nap_cat_qq_rs.Text.Decimal.{to_decimal}
use nap_cat_qq_rs.Config.{AppConfig}
use nap_cat_qq_rs.Protocol.{ProtocolError, describe}
use nap_cat_qq_rs.Protocol.Qq
use nap_cat_qq_rs.Protocol.Qq.{QqClientBackendConfig}
use nap_cat_qq_rs.Protocol.OneBot
use nap_cat_qq_rs.Protocol.OneBot.{OneBotBackendConfig}

pub record Args : Type 0 where
  pub host : Option String
  pub port : Option ℕ
  pub debug : Bool
  pub protocol_mode : Option String
  pub protocol_endpoint : Option String
  pub protocol_access_token : Option String

unfoldable pub overlay : Args → AppConfig → AppConfig
overlay args config = record config {
  host = unwrap_or args.host config.host;
  port = unwrap_or args.port config.port;
  log_level = if args.debug then "debug" else config.log_level;
  protocol_mode = unwrap_or args.protocol_mode config.protocol_mode;
  protocol_endpoint = unwrap_or args.protocol_endpoint config.protocol_endpoint;
  protocol_access_token = or_else args.protocol_access_token config.protocol_access_token;
}

-- Which client `qq` mode uses.
pub data ClientKind : Type 0 where
  tcp mock : ClientKind

-- The backend that is built, before it is connected.
pub data Backend : Type 0 where
  absent : Backend
  onebot : OneBotBackendConfig → Backend
  qq : QqClientBackendConfig → ClientKind → Backend

is_onebot_mode : String → Bool
is_onebot_mode mode = mode == "onebot" || mode == "onebot-http" || mode == "onebot_http"

is_qq_mode : String → Bool
is_qq_mode mode = mode == "qq" || mode == "qq-client" || mode == "qq_client"

onebot_backend : AppConfig → Result String Backend
onebot_backend config =
    if is_blank config.protocol_endpoint
    then err "protocol endpoint is required for onebot mode"
    else ok (
        onebot (record (OneBot.new_config config.protocol_endpoint) {
          access_token = config.protocol_access_token;
          listen_timeout_ms = config.protocol_listen_timeout_ms;
          listen_max_events = config.protocol_listen_max_events;
        }))

unfoldable pub client_kind : String → ClientKind
client_kind endpoint = if starts_with (trim_start endpoint) "tcp://" then tcp else mock

unfoldable pub qq_backend : AppConfig → Result String Backend
unfolding client_kind
qq_backend config =
    if is_blank config.protocol_endpoint
    then err "protocol endpoint is required for qq mode"
    else (do
      account ← ok_or config.qq_account "qq account is required for qq mode"
      password ← ok_or config.qq_password "qq password is required for qq mode"
      ok (
          qq
            (record (Qq.with_credentials account password
              (Qq.new_config config.protocol_endpoint)) {
                connect_timeout_ms = 2000;
                listen_poll_ms = config.protocol_listen_timeout_ms;
              })
            (client_kind config.protocol_endpoint)))

unfoldable pub choose_backend : AppConfig → Result String Backend
unfolding is_onebot_mode is_qq_mode onebot_backend qq_backend
choose_backend config =
    if is_onebot_mode config.protocol_mode
    then onebot_backend config
    else if is_qq_mode config.protocol_mode
    then qq_backend config
    else ok absent

-- Without a backend, nothing is connected.
open_backend :
    (Backend → String → Result ProtocolError (Unit {0}))
    → Backend
    → String
    → Result ProtocolError (Unit {0})
open_backend connect absent endpoint = ok tt
open_backend connect backend endpoint = connect backend endpoint

-- `run_app` after the configuration is loaded: `connect` opens the backend at the endpoint, and
-- `serve` runs the server at the address.
unfoldable pub run_app :
    (connect : Backend → String → Result ProtocolError (Unit {0}))
    → (serve : String → Backend → Result String (Unit {0})) → Args
    → AppConfig
    → Result String (Unit {0})
unfolding overlay choose_backend open_backend describe
run_app connect serve args loaded = do
  backend ← choose_backend (overlay args loaded)
  opened ←
      map_err (λ e. "protocol connect failed: " <> describe e)
        (open_backend connect backend (overlay args loaded).protocol_endpoint)
  map_err (λ e. "api runtime failed: " <> e)
      (serve ((overlay args loaded).host <> (":" <> to_decimal (overlay args loaded).port)) backend)
