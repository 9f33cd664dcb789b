-- ===== src/QqClient/Tcp/Tests.antt =====
-- Runs of `TcpQQClient` and of its endpoint rules, and the theorems on them at concrete inputs.
use nap_cat_qq_rs.Prelude.{ℕ, ◌≡◌, refl, none, some, [], ◌∷◌, ok}
use nap_cat_qq_rs.Text.{is_blank, trim_end}
use nap_cat_qq_rs.Text.Split.{contains}
use nap_cat_qq_rs.QqClient.{QqClientConfig, connected, logged_in}
use nap_cat_qq_rs.QqClient.Endpoint.{normalize_tcp_endpoint}
use nap_cat_qq_rs.QqClient.Tcp.{
  Wire, opened, written, line, TcpQqClient, default, read_line, parse_wire_line, login,
}
use nap_cat_qq_rs.QqClient.Tcp.Calls.{connects, logs_in, run}
use nap_cat_qq_rs.QqClient.Tcp.Session.{IsSession, run-IsSession_tcp}
use nap_cat_qq_rs.QqClient.Tcp.Login.{IsConsent, login_patience}

-- Each line is the route of a packet with no payload.
abbrev plain_wire : Wire
plain_wire = record {
  parse_packet = λ text. ok (record { route = text; payload = "" });
  parse_login = λ payload. ok (some "server-token");
}

abbrev config : QqClientConfig
config = record { endpoint = "tcp://10.0.0.1:4000/ws"; token = none; timeout_ms = 500 }

abbrev open_client : TcpQqClient ℕ
open_client = record {
  endpoint = some "tcp://10.0.0.1:4000";
  token = none;
  state = connected;
  heartbeat_at = none;
  timeout_ms = 500;
  stream = some 7;
}

abbrev alice : TcpQqClient ℕ
alice = record open_client { token = some "server-token"; state = logged_in }

endpoint_host : normalize_tcp_endpoint " tcp://10.0.0.1:4000/ws?x=1" ≡ ok "10.0.0.1:4000"
unfolding normalize_tcp_endpoint is_blank contains
endpoint_host = refl

run-IsSession_tcp_example : IsSession (
    run plain_wire
      (default {Socket = ℕ})
      (connects config (opened 7) ∷ logs_in "alice" "secret" written (line "auth.ok" ∷ []) ∷ []))
run-IsSession_tcp_example = run-IsSession_tcp plain_wire default _ (refl, refl, refl, refl)

consent : IsConsent plain_wire "auth.ok" (some "server-token")
unfolding parse_wire_line trim_end read_line
consent = record {
  packet = record { route = "auth.ok"; payload = "" };
  parses = refl;
  route = refl;
  login = refl;
}

login_patience_example :
    login plain_wire "alice" "secret" written (line "notice" ∷ line "auth.ok" ∷ []) open_client
    ≡ (ok "server-token", alice)
unfolding is_blank parse_wire_line trim_end read_line
login_patience_example =
    login_patience plain_wire open_client 7 "alice" "secret" ("notice" ∷ []) "auth.ok"
      (some "server-token") [] refl refl refl refl
      ((record { route = "notice"; payload = "" }, refl, refl, refl), tt) consent
