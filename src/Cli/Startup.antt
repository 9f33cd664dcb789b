-- ===== src/Cli/Startup.antt =====
-- What `run_app` starts in `qq` mode.
use mathlib.Core.Bool.{false≢true}
use text.Mathlib.TextEquality.{starts_with_iff}
use nap_cat_qq_rs.Prelude.{
  Bool-cases, sym, ◌∙◌, inl, inr, String, ◌<>◌, ◌≡◌, ◌≢◌, refl, starts_with, true, false, some, ok,
}
use nap_cat_qq_rs.Text.{is_blank, trim_start}
use nap_cat_qq_rs.Config.{AppConfig}
use nap_cat_qq_rs.QqClient.{ConnectionState}
use nap_cat_qq_rs.QqClient.Mock
use nap_cat_qq_rs.QqClient.Mock.{MockQqClient}
use nap_cat_qq_rs.Protocol.Qq
use nap_cat_qq_rs.Protocol.Qq.{QqClientBackendConfig}
use nap_cat_qq_rs.Protocol.Qq.Connect.{mock_client, session-mock}
use nap_cat_qq_rs.Cli.{ClientKind, tcp, mock, qq, client_kind, qq_backend, choose_backend}

-- The TCP client is for the texts that go on with `tcp://` after white space, the mock for all
-- others.
abbrev pub IsChosen : String → ClientKind → Type 0
IsChosen endpoint tcp = (rest : String) × (trim_start endpoint ≡ "tcp://" <> rest)
IsChosen endpoint mock = (rest : String) → trim_start endpoint ≢ "tcp://" <> rest

client_kind-IsChosen : (endpoint : String) → IsChosen endpoint (client_kind endpoint)
unfolding client_kind
client_kind-IsChosen endpoint =
    let iff = starts_with_iff (trim_start endpoint) "tcp://" in
    elim (Bool-cases (starts_with (trim_start endpoint) "tcp://")) [
      | inl begins ↦ rw (client_kind, begins) (let (rest, e) = iff.0 begins in (rest, sym e))
      | inr other ↦ rw (client_kind, other) (λ rest e. false≢true (sym other ∙ iff.1 (rest, sym e)))
    ]

chosen-qq :
    (config : AppConfig) (account password : String)
    → config.protocol_mode ≡ "qq"
    → is_blank config.protocol_endpoint ≡ false
    → config.qq_account ≡ some account
    → config.qq_password ≡ some password
    → choose_backend config
      ≡ ok (
          qq
            (record {
              endpoint = config.protocol_endpoint;
              account = some account;
              password = some password;
              connect_timeout_ms = 2000;
              listen_poll_ms = config.protocol_listen_timeout_ms;
            })
            (client_kind config.protocol_endpoint))
unfolding choose_backend qq_backend Qq.with_credentials Qq.new_config
chosen-qq config account password m e a p = rw (m, e, a, p) refl

-- The defect: in `qq` mode with an account and a password, an endpoint that is not blank starts on
-- `TcpQQClient` exactly if `tcp://` stands at its beginning, after white space; every other
-- endpoint starts on a `MockQQClient`, with which the backend connects and logs in at once, though
-- no network is touched.
pub qq_mode_mocks :
    (config : AppConfig) (account password : String)
    → config.protocol_mode ≡ "qq"
    → is_blank config.protocol_endpoint ≡ false
    → config.qq_account ≡ some account
    → config.qq_password ≡ some password
    → is_blank account ≡ false
    → is_blank password ≡ false
    → (chosen : QqClientBackendConfig) × (kind : ClientKind) × (choose_backend config
        ≡ ok (qq chosen kind))
      × IsChosen config.protocol_endpoint kind
      × (let (r, after) =
            Qq.connect mock_client config.protocol_endpoint (Qq.new Mock.default chosen) in
          (r ≡ ok tt)
          × (after.connected ≡ true)
          × (after.logged_in ≡ true)
          × (after.client.state ≡ ConnectionState.logged_in)
          × (after.client.endpoint ≡ some config.protocol_endpoint))
unfolding Qq.new
qq_mode_mocks config account password m e a p an pn =
    let chosen : QqClientBackendConfig = record {
      endpoint = config.protocol_endpoint;
      account = some account;
      password = some password;
      connect_timeout_ms = 2000;
      listen_poll_ms = config.protocol_listen_timeout_ms;
    } in
    (
      chosen,
      client_kind config.protocol_endpoint,
      chosen-qq config account password m e a p,
      client_kind-IsChosen config.protocol_endpoint,
      session-mock config.protocol_endpoint account password (Qq.new Mock.default chosen) e refl
          refl an pn,
    )
