-- ===== src/Api/Server/Tests.antt =====
-- Servers over a QQ backend, at concrete inputs.
use nap_cat_qq_rs.Prelude.{ℕ, refl, Bool, true, false, some, [], ok, err}
use nap_cat_qq_rs.QqClient.{ConnectionState}
use nap_cat_qq_rs.QqClient.Mock
use nap_cat_qq_rs.QqClient.Mock.{MockQqClient}
use nap_cat_qq_rs.Protocol.{Codec}
use nap_cat_qq_rs.Protocol.Qq.{QqClientBackend}
use nap_cat_qq_rs.Protocol.Qq.Connect.{mock_client}
use nap_cat_qq_rs.Protocol.Backends.{qq_backend}
use nap_cat_qq_rs.Api.{ApiState}
use nap_cat_qq_rs.Api.Server.{Socket, run_with_state}
use nap_cat_qq_rs.Api.Server.Laws.{IsClosed, run_with_state-IsClosed}

abbrev codec : Codec ℕ
codec = record { encode = λ message. ok "hi"; decode = λ payload. err "no message" }

abbrev online : Bool → QqClientBackend MockQqClient
online listening = record {
  client = record Mock.default { state = ConnectionState.logged_in };
  config = record {
    endpoint = "mock://localhost";
    account = some "alice";
    password = some "secret";
    connect_timeout_ms = 2000;
    listen_poll_ms = 150;
  };
  connected = true;
  logged_in = true;
  listening = listening;
  stop_requested = false;
  has_task = listening;
  aborted = 0;
}

abbrev served : Bool → ApiState (QqClientBackend MockQqClient) ℕ
served listening = record {
  plugin_manager = record { plugins = [] };
  dispatched = [];
  protocol = some (online listening);
  runtime_running = false;
  runtime_groups = [];
  runtime_users = [];
}

abbrev socket : Socket
socket = record { bound = ok tt; served = ok tt }

run_with_state-IsClosed_example :
    IsClosed
      (run_with_state
        (qq_backend mock_client codec)
        (ok tt)
        socket
        (λ state. state)
        (served false)).1.protocol
run_with_state-IsClosed_example =
    run_with_state-IsClosed codec (online false) socket (λ state. state) (served false) refl refl
      refl
