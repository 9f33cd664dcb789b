-- ===== src/Cli/Tests.antt =====
-- Runs of the command line, and the theorem on it at a concrete input.
use nap_cat_qq_rs.Text.Decimal.{to_decimal}
use nap_cat_qq_rs.Prelude.{◌≡◌, refl, true, false, none, some, ok, err}
use nap_cat_qq_rs.Text.{is_blank}
use nap_cat_qq_rs.Config.{AppConfig}
use nap_cat_qq_rs.QqClient.{ConnectionState}
use nap_cat_qq_rs.QqClient.Mock
use nap_cat_qq_rs.Protocol.Qq
use nap_cat_qq_rs.Protocol.Qq.{QqClientBackendConfig}
use nap_cat_qq_rs.Protocol.Qq.Connect.{mock_client}
use nap_cat_qq_rs.Cli.{Args, ClientKind, qq, choose_backend, run_app}
use nap_cat_qq_rs.Cli.Startup.{IsChosen, qq_mode_mocks}

-- An endpoint that `TcpQQClient` would accept, without its scheme.
abbrev config : AppConfig
config = record {
  host = "127.0.0.1";
  port = 3000;
  log_level = "info";
  database_url = "";
  protocol_mode = "qq";
  protocol_endpoint = "10.0.0.1:4000";
  protocol_access_token = none;
  qq_account = some "alice";
  qq_password = some "secret";
  protocol_listen_timeout_ms = 600;
  protocol_listen_max_events = 8;
}

abbrev args : Args
args = record {
  host = none;
  port = some 80;
  debug = false;
  protocol_mode = some "off";
  protocol_endpoint = none;
  protocol_access_token = none;
}

-- A server that tells its address.
address_served :
    run_app (λ backend endpoint. ok tt) (λ address backend. err address) args config
    ≡ err "api runtime failed: 127.0.0.1:80"
unfolding run_app to_decimal
address_served = refl

qq_mode_mocks_example :
    (chosen : QqClientBackendConfig) × (kind : ClientKind) × (choose_backend config
      ≡ ok (qq chosen kind))
    × IsChosen "10.0.0.1:4000" kind
    × (let (r, after) = Qq.connect mock_client "10.0.0.1:4000" (Qq.new Mock.default chosen) in
        (r ≡ ok tt)
        × (after.connected ≡ true)
        × (after.logged_in ≡ true)
        × (after.client.state ≡ ConnectionState.logged_in)
        × (after.client.endpoint ≡ some "10.0.0.1:4000"))
unfolding is_blank
qq_mode_mocks_example = qq_mode_mocks config "alice" "secret" refl refl refl refl refl refl
