-- ===== src/Protocol.antt =====
-- napcat-rs/crates/protocol: the events and errors of the protocol layer, and the events that inbound
-- packets become. `Codec` is what serde_json does to messages.
pub mod Qq
pub mod Http
pub mod OneBot
pub mod Mock
pub mod Backends
pub mod Handler
use nap_cat_qq_rs.Prelude.{
  String, ◌<>◌, ◌==◌, Option, none, some, Result, ok, err, ◌>>=◌, map_err, if◌then◌else◌,
}
use nap_cat_qq_rs.Message.{MessageRecipient, Message}
use nap_cat_qq_rs.QqClient.{Packet, QqClientError, login_failed, invalid_state, timeout}

pub data ProtocolEvent (Value : Type 0) : Type 0 where
  connected : (endpoint : String) → ProtocolEvent Value
  disconnected : ProtocolEvent Value
  message_received : Message Value → ProtocolEvent Value
  warning : String → ProtocolEvent Value

pub data ProtocolError : Type 0 where
  transport serialization : String → ProtocolError

-- The text of an error.
unfoldable pub describe : ProtocolError → String
describe (transport e) = "transport failure: " <> e
describe (serialization e) = "message serialization failure: " <> e

unfoldable pub map_qq_error : QqClientError → ProtocolError
map_qq_error (QqClientError.transport message) = transport message
map_qq_error (QqClientError.protocol message) = serialization message
map_qq_error (login_failed message) = transport ("login error: " <> message)
map_qq_error (invalid_state message) = transport message
map_qq_error (timeout message) = transport message

-- `encode_json` and `decode_json` of messages.
pub record Codec (Value : Type 0) : Type 0 where
  pub encode : Message Value → Result String String
  pub decode : String → Result String (Message Value)

-- The route of an outgoing message.
unfoldable pub route_of : MessageRecipient → String
route_of (MessageRecipient.private user_id) = "message.private"
route_of (MessageRecipient.group group_id) = "message.group"

module _ {Value : Type 0} (codec : Codec Value) where
  -- `QQClientBackend::message_to_packet`
  unfoldable pub message_to_packet : Message Value → Result ProtocolError Packet
  unfolding route_of
  message_to_packet message = do
    payload ← map_err serialization (codec.encode message)
    ok (record { route = route_of message.recipient; payload = payload })

  -- `QQClientBackend::decode_inbound_packet`
  unfoldable pub decode_inbound_packet :
      Packet → Result ProtocolError (Option (ProtocolEvent Value))
  decode_inbound_packet packet =
      if packet.route == "message.received"
      then (do
        message ← map_err serialization (codec.decode packet.payload)
        ok (some (message_received message)))
      else if packet.route == "client.connected"
      then ok (some (connected packet.payload))
      else if packet.route == "client.session"
      then ok (some (connected packet.payload))
      else if packet.route == "system.error"
      then ok (some (warning packet.payload))
      else ok none

-- The trait `ProtocolBackend`, as far as the API server calls it; `Backend` is the state of the
-- backend.
pub record ProtocolBackend (Backend Value : Type 0) : Type 0 where
  pub send_message : Message Value → Backend → Result ProtocolError (Unit {0}) × Backend
  pub listen : Backend → Result ProtocolError (Unit {0}) × Backend
  pub disconnect : Backend → Result ProtocolError (Unit {0}) × Backend
