-- ===== src/QqClient/Reader.antt =====
-- The state of `TcpQQClient` of napcat-rs/crates/qq-client, and its reading of one packet.
use nap_cat_qq_rs.Prelude.{
  ℕ, String, ◌<>◌, Bool, true, false, Option, none, some, Result, ok, err, ◌>>=◌, if◌then◌else◌,
}
use nap_cat_qq_rs.Text.{trim_end}
use nap_cat_qq_rs.QqClient.{
  ConnectionState, connected, logged_in, Packet, QqClientError, transport, timeout,
}
use nap_cat_qq_rs.QqClient.Network.{
  Wire, ReadOutcome, lost, read_elapsed, read_failed, closed, line, read_line, parse_wire_line,
}

pub record TcpQqClient (Socket : Type 0) : Type 0 where
  pub endpoint : Option String
  pub token : Option String
  pub state : ConnectionState
  pub heartbeat_at : Option ℕ
  pub timeout_ms : ℕ
  pub stream : Option Socket

abbrev pub is_open_state : ConnectionState → Bool
is_open_state connected = true
is_open_state logged_in = true
is_open_state _ = false

abbrev pub is_logged_in_state : ConnectionState → Bool
is_logged_in_state logged_in = true
is_logged_in_state _ = false

module _ {Socket : Type 0} where
  -- The read, once the stream was found.
  unfoldable pub read_once :
      Wire
      → ReadOutcome
      → TcpQqClient Socket
      → Result QqClientError (Option Packet) × TcpQqClient Socket
  unfolding parse_wire_line
  read_once wire (lost e) client = (err (transport e), record client { stream = none })
  read_once wire read_elapsed client = (err (timeout "receive timeout"), client)
  read_once wire (read_failed e) client = (err (transport ("read packet failed: " <> e)), client)
  read_once wire closed client = (ok none, client)
  read_once wire (line text) client =
      ((parse_wire_line wire (trim_end (read_line text)) >>= λ packet. ok (some packet)), client)

  unfoldable pub recv_once_with_timeout :
      Wire
      → ReadOutcome
      → TcpQqClient Socket
      → Result QqClientError (Option Packet) × TcpQqClient Socket
  unfolding read_once
  recv_once_with_timeout wire outcome client =
      if is_open_state client.state
      then elim client.stream [
        | none ↦ (err (transport "not connected"), client)
        | some socket ↦ read_once wire outcome client
      ]
      else (ok none, client)
