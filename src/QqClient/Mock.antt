-- ===== src/QqClient/Mock.antt =====
-- `MockQQClient` of napcat-rs/crates/qq-client: its state and its methods.
mod Session
mod Queue
mod Heartbeat
mod Tests
use nap_cat_qq_rs.Prelude.{
  ℕ, String, ◌<>◌, Bool, true, false, ◌||◌, Option, none, some, List, [], ◌∷◌, ◌++◌, Result, ok,
  err, eqb, if◌then◌else◌,
}
use nap_cat_qq_rs.Text.{is_blank}
use nap_cat_qq_rs.QqClient.{
  QqClientConfig, ConnectionState, disconnected, connected, logged_in, closing, Packet,
  QqClientError, transport, login_failed, invalid_state, timeout, interval_ms,
}

pub record MockQqClient : Type 0 where
  pub endpoint : Option String
  pub token : Option String
  pub state : ConnectionState
  pub heartbeat_at : Option ℕ
  pub timeout_ms : ℕ
  pub sent_packets : List Packet
  pub inbound_packets : List Packet

abbrev pub default : MockQqClient
default = record {
  endpoint = none;
  token = none;
  state = disconnected;
  heartbeat_at = none;
  timeout_ms = 2000;
  sent_packets = [];
  inbound_packets = [];
}

-- A method's result beside the client that it leaves.
abbrev pub Outcome : Type 0 → Type 0
Outcome A = Result QqClientError A × MockQqClient

abbrev pub is_connected_state : ConnectionState → Bool
is_connected_state connected = true
is_connected_state _ = false

abbrev pub is_logged_in_state : ConnectionState → Bool
is_logged_in_state logged_in = true
is_logged_in_state _ = false

unfoldable pub connect : QqClientConfig → MockQqClient → Outcome (Unit {0})
connect config client =
    if is_blank config.endpoint
    then (err (transport "empty endpoint"), client)
    else if is_logged_in_state client.state
    then (err (invalid_state "already logged in, disconnect first"), client)
    else (
      ok tt,
      record client {
        state = connected;
        endpoint = some config.endpoint;
        timeout_ms = config.timeout_ms;
      },
    )

unfoldable pub login : String → String → MockQqClient → Outcome String
login account password client =
    if is_connected_state client.state
    then (if is_blank account || is_blank password
        then (err (login_failed "account and password required"), client)
        else (
          ok (account <> ":logged-in"),
          record client { token = some ("mock-token-" <> account); state = logged_in },
        ))
    else (err (invalid_state "must connect before login"), client)

unfoldable pub is_logged_in : MockQqClient → Result QqClientError Bool
is_logged_in client =
    if eqb client.timeout_ms 0
    then err (timeout "configured timeout is zero")
    else ok (is_logged_in_state client.state)

unfoldable pub send_packet : Packet → MockQqClient → Outcome (Unit {0})
unfolding is_logged_in
send_packet packet client = elim (is_logged_in client) [
  | err e ↦ (err e, client)
  | ok true ↦ (ok tt, record client { sent_packets = client.sent_packets ++ packet ∷ [] })
  | ok false ↦ (err (invalid_state "must login before sending packets"), client)
]

-- `VecDeque::pop_front`
pop_front : List Packet → MockQqClient → Outcome (Option Packet)
pop_front [] client = (ok none, client)
pop_front (packet ∷ rest) client = (ok (some packet), record client { inbound_packets = rest })

unfoldable pub receive_packet : MockQqClient → Outcome (Option Packet)
unfolding pop_front
receive_packet client = pop_front client.inbound_packets client

-- `now` is the clock.
unfoldable pub heartbeat : ℕ → ℕ → MockQqClient → Outcome (Unit {0})
unfolding is_logged_in interval_ms
heartbeat now interval client = elim (is_logged_in client) [
  | err e ↦ (err e, client)
  | ok false ↦ (err (invalid_state "must login before heartbeat"), client)
  | ok true ↦
      if eqb interval 0
      then (err (timeout "heartbeat interval is zero"), client)
      else elim (interval_ms interval) [
        | err e ↦ (err e, client)
        | ok ms ↦ (ok tt, record client { heartbeat_at = some now; timeout_ms = ms })
      ]
]

unfoldable pub disconnect : MockQqClient → Outcome (Unit {0})
disconnect client = (
  ok tt,
  record client {
    state = disconnected;
    sent_packets = [];
    inbound_packets = [];
    endpoint = none;
    token = none;
    heartbeat_at = none;
  },
)

unfoldable pub inject_packet : Packet → MockQqClient → MockQqClient
inject_packet packet client = record client {
  inbound_packets = client.inbound_packets ++ packet ∷ [];
}

-- One call of the client, by its caller or, for `inject`, by the test that drives it.
pub data Call : Type 0 where
  connects : QqClientConfig → Call
  logs_in : String → String → Call
  sends : Packet → Call
  receives : Call
  beats : ℕ → ℕ → Call
  disconnects : Call
  injects : Packet → Call

unfoldable pub step : MockQqClient → Call → MockQqClient
unfolding connect login send_packet receive_packet heartbeat disconnect inject_packet
step client (connects config) = (connect config client).1
step client (logs_in account password) = (login account password client).1
step client (sends packet) = (send_packet packet client).1
step client receives = (receive_packet client).1
step client (beats now interval) = (heartbeat now interval client).1
step client disconnects = (disconnect client).1
step client (injects packet) = inject_packet packet client

unfoldable pub run : MockQqClient → List Call → MockQqClient
run client [] = client
run client (call ∷ calls) = run (step client call) calls
