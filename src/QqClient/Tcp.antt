-- ===== src/QqClient/Tcp.antt =====
-- `TcpQQClient` of napcat-rs/crates/qq-client: its methods; Reader is its state and one read. The
-- socket is a type `Socket`; what the network and `tokio::time::timeout` make of a connect, a write
-- or a read is an argument of the call. `serde_json` is the parameter `Wire`. What is written is not
-- in the state.
mod Calls
mod Session
mod Login
mod Lost
mod Tests
pub use nap_cat_qq_rs.QqClient.Network.{
  Wire, ConnectOutcome, opened, connect_elapsed, connect_failed, WriteOutcome, written, elapsed,
  failed, ReadOutcome, lost, read_elapsed, read_failed, closed, line, write_result,
}
pub use nap_cat_qq_rs.QqClient.Reader.{TcpQqClient, is_open_state, is_logged_in_state}
unfoldable pub use nap_cat_qq_rs.QqClient.Reader.{read_once, recv_once_with_timeout}
unfoldable pub use nap_cat_qq_rs.QqClient.Network.{read_line, parse_wire_line, heartbeat_packet}
use nap_cat_qq_rs.Prelude.{
  ℕ, zero, suc, String, ◌<>◌, ◌==◌, Bool, true, false, ◌||◌, Option, none, some, List, [], ◌∷◌,
  Result, ok, err, ◌>>=◌, map_err, eqb, ltb, ◌^◌, unwrap_or, if◌then◌else◌,
}
use nap_cat_qq_rs.Text.{is_blank, trim_end}
use nap_cat_qq_rs.Text.Decimal.{to_decimal}
use nap_cat_qq_rs.QqClient.{
  QqClientConfig, ConnectionState, disconnected, connected, logged_in, closing, Packet,
  QqClientError, transport, protocol, login_failed, invalid_state, timeout, interval_ms, as_millis,
}
use nap_cat_qq_rs.QqClient.Endpoint.{normalize_tcp_endpoint, effective_timeout_ms}

abbrev pub max_retries : ℕ
max_retries = 4

module _ {Socket : Type 0} where
  abbrev pub default : TcpQqClient Socket
  default = record {
    endpoint = none;
    token = none;
    state = disconnected;
    heartbeat_at = none;
    timeout_ms = 2000;
    stream = none;
  }

  unfoldable pub connect :
      QqClientConfig
      → ConnectOutcome Socket
      → TcpQqClient Socket
      → Result QqClientError (Unit {0}) × TcpQqClient Socket
  connect config outcome client =
      if is_open_state client.state
      then (err (invalid_state "connection already active"), client)
      else elim (normalize_tcp_endpoint config.endpoint) [
        | err e ↦ (err e, client)
        | ok address ↦
            let timeout_ms = effective_timeout_ms config.timeout_ms in
            elim outcome [
              | connect_elapsed ↦ (
                err (timeout ("connect timeout after " <> (to_decimal timeout_ms <> "ms"))),
                client,
              )
              | connect_failed e ↦ (err (transport e), client)
              | opened socket ↦ (
                ok tt,
                record client {
                  endpoint = some config.endpoint;
                  timeout_ms = timeout_ms;
                  stream = some socket;
                  state = connected;
                },
              )
            ]
      ]

  -- The match on one packet; `rest` is the next round of the loop.
  pub on_packet :
      Wire
      → Packet
      → TcpQqClient Socket
      → Result QqClientError String × TcpQqClient Socket
      → Result QqClientError String × TcpQqClient Socket
  on_packet wire packet client rest =
      if packet.route == "auth.ok"
      then elim (wire.parse_login packet.payload) [
        | err e ↦ (err (protocol ("invalid login payload: " <> e)), client)
        | ok found ↦
            let token = unwrap_or found "session" in
            (ok token, record client { token = some token })
      ]
      else if packet.route == "system.error"
      then (err (login_failed packet.payload), client)
      else rest

  pub next_round :
      Wire
      → Result QqClientError (Option Packet)
      → TcpQqClient Socket
      → Result QqClientError String × TcpQqClient Socket
      → Result QqClientError String × TcpQqClient Socket
  unfolding on_packet
  next_round wire (err e) client rest = (err e, client)
  next_round wire (ok none) client rest = (err (timeout "login ack timeout"), client)
  next_round wire (ok (some packet)) client rest = on_packet wire packet client rest

  -- The rounds that are left, and what each read gives; a read that never comes runs out of time.
  pub wait_rounds :
      Wire
      → ℕ
      → List ReadOutcome
      → TcpQqClient Socket
      → Result QqClientError String × TcpQqClient Socket
  unfolding next_round recv_once_with_timeout
  wait_rounds wire zero reads client = (err (timeout "login ack not received"), client)
  wait_rounds wire (suc n) [] client =
      let (r, client') = recv_once_with_timeout wire read_elapsed client in
      let rest = wait_rounds wire n [] client' in next_round wire r client' rest
  wait_rounds wire (suc n) (outcome ∷ reads) client =
      let (r, client') = recv_once_with_timeout wire outcome client in
      let rest = wait_rounds wire n reads client' in next_round wire r client' rest

  unfoldable pub wait_for_login_ack :
      Wire
      → List ReadOutcome
      → TcpQqClient Socket
      → Result QqClientError String × TcpQqClient Socket
  unfolding wait_rounds
  wait_for_login_ack wire reads client = wait_rounds wire max_retries reads client

  -- The end of `login`: the state is set only if the wait gave a token.
  pub finish_login :
      Result QqClientError String × TcpQqClient Socket
      → Result QqClientError String × TcpQqClient Socket
  finish_login (ok token, client) = (ok token, record client { state = logged_in })
  finish_login (err e, client) = (err e, client)

  unfoldable pub login :
      Wire
      → String
      → String
      → WriteOutcome
      → List ReadOutcome
      → TcpQqClient Socket
      → Result QqClientError String × TcpQqClient Socket
  unfolding finish_login wait_for_login_ack
  login wire account password outcome reads client =
      if is_open_state client.state
      then (if is_blank account || is_blank password
          then (err (login_failed "account and password required"), client)
          else elim client.stream [
            | none ↦ (err (invalid_state "not connected"), client)
            | some socket ↦ elim (write_result "login send timeout" outcome) [
              | err e ↦ (err e, client)
              | ok _ ↦ finish_login (wait_for_login_ack wire reads client)
            ]
          ])
      else (err (invalid_state "must connect before login"), client)

  -- The client is left as it was; the bytes go to the socket.
  unfoldable pub send_packet :
      Packet → WriteOutcome → TcpQqClient Socket → Result QqClientError (Unit {0})
  send_packet packet outcome client =
      if is_logged_in_state client.state
      then elim client.stream [
        | none ↦ err (invalid_state "not connected")
        | some socket ↦ write_result "send timeout" outcome
      ]
      else err (invalid_state "must login before sending packets")

  unfoldable pub receive_packet :
      Wire
      → ReadOutcome
      → TcpQqClient Socket
      → Result QqClientError (Option Packet) × TcpQqClient Socket
  unfolding recv_once_with_timeout
  receive_packet wire outcome client =
      if is_open_state client.state
      then recv_once_with_timeout wire outcome client
      else (ok none, client)

  -- The time is noted before the interval is converted.
  -- `none` is the panic of `json!` at a number of milliseconds that does not fit in 64 bits.
  unfoldable pub heartbeat :
      ℕ
      → ℕ
      → WriteOutcome
      → TcpQqClient Socket
      → Option (Result QqClientError (Unit {0})) × TcpQqClient Socket
  unfolding send_packet interval_ms heartbeat_packet
  heartbeat now interval outcome client =
      if is_open_state client.state
      then (if eqb interval 0
          then (some (err (timeout "heartbeat interval is zero")), client)
          else if ltb (as_millis interval) (2 ^ 64)
          then elim (send_packet (heartbeat_packet interval) outcome client) [
            | err e ↦ (some (err e), client)
            | ok _ ↦ elim (interval_ms interval) [
              | err e ↦ (some (err e), record client { heartbeat_at = some now })
              | ok ms ↦ (some (ok tt), record client { heartbeat_at = some now; timeout_ms = ms })
            ]
          ]
          else (none, client))
      else (some (err (invalid_state "must connect before heartbeat")), client)

  unfoldable pub disconnect : TcpQqClient Socket → TcpQqClient Socket
  disconnect client = record client {
    stream = none;
    endpoint = none;
    token = none;
    heartbeat_at = none;
    state = disconnected;
  }
