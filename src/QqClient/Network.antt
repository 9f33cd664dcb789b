-- ===== src/QqClient/Network.antt =====
-- What `TcpQQClient` of napcat-rs/crates/qq-client meets on its socket, and the frames of its wire.
use Prim.Native.Char.{code}
use nap_cat_qq_rs.Prelude.{eqb, if◌then◌else◌, ℕ, String, ◌<>◌, Option, Result, ok, err, map_err}
use nap_cat_qq_rs.Text.Decimal.{to_decimal}
use nap_cat_qq_rs.QqClient.{Packet, QqClientError, transport, protocol, timeout, as_millis}

-- What serde_json makes of a frame (`TcpWirePacket`) and of the payload of `auth.ok`, whose `token`
-- may be missing; a parse may give the text of its error.
pub record Wire : Type 0 where
  pub parse_packet : String → Result String Packet
  pub parse_login : String → Result String (Option String)

pub data ConnectOutcome (Socket : Type 0) : Type 0 where
  opened : Socket → ConnectOutcome Socket
  connect_elapsed : ConnectOutcome Socket
  connect_failed : String → ConnectOutcome Socket

pub data WriteOutcome : Type 0 where
  written elapsed : WriteOutcome
  failed : String → WriteOutcome

-- One read: the conversion of the stream fails, and the stream is lost; the timeout runs out; the
-- read fails; the peer has closed; or the text is what the buffer of the call has taken from the
-- socket when it holds a whole line.
pub data ReadOutcome : Type 0 where
  lost : String → ReadOutcome
  read_elapsed : ReadOutcome
  read_failed : String → ReadOutcome
  closed : ReadOutcome
  line : String → ReadOutcome

-- `read_line`: the text up to its first newline, which the call trims. Each call has a buffer of its
-- own, so the rest of the text is lost with it.
unfoldable pub read_line : String → String
read_line String.[] = ""
read_line (String.◌∷◌ c s) =
    let rest = read_line s in if eqb (code c) 10 then "" else String.◌∷◌ c rest

unfoldable pub parse_wire_line : Wire → String → Result QqClientError Packet
parse_wire_line wire text =
    map_err (λ e. protocol ("invalid wire packet format: " <> e)) (wire.parse_packet text)

unfoldable pub heartbeat_packet : ℕ → Packet
heartbeat_packet interval = record {
  route = "system.heartbeat";
  payload = "{\"interval_ms\":" <> (to_decimal (as_millis interval) <> "}");
}

-- What `timeout(.., write_all and flush)` gives, with the text for the timeout.
abbrev pub write_result : String → WriteOutcome → Result QqClientError (Unit {0})
write_result late written = ok tt
write_result late elapsed = err (timeout late)
write_result late (failed e) = err (transport e)
