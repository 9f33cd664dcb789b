-- ===== src/Protocol/Handler.antt =====
-- The bridge from events to message handlers, the JSON of events and the capabilities of the
-- backends, in napcat-rs/crates/protocol. `EventCodec` is what serde_json does to events.
mod Laws
use nap_cat_qq_rs.Prelude.{String, ◌<>◌, List, [], ◌∷◌, Result, ok, map_err, ◌>>=◌}
use nap_cat_qq_rs.Message.{MessageError, MessageHandler}
use nap_cat_qq_rs.Protocol.{
  ProtocolEvent, connected, disconnected, message_received, warning, ProtocolError, serialization,
}

pub data ProtocolCapability : Type 0 where
  message login meta : ProtocolCapability

-- `name` and `capabilities` of `MockProtocol`, of `OneBotHttpBackend` and of `QQClientBackend`.
unfoldable pub mock_protocol : String × List ProtocolCapability
mock_protocol = ("mock", message ∷ login ∷ [])

unfoldable pub onebot_http_backend : String × List ProtocolCapability
onebot_http_backend = ("onebot-http", message ∷ login ∷ meta ∷ [])

unfoldable pub qq_client_backend : String × List ProtocolCapability
qq_client_backend = ("qq-client", message ∷ login ∷ meta ∷ [])

pub record EventCodec (Value : Type 0) : Type 0 where
  pub to_string : ProtocolEvent Value → Result String String
  pub from_str : String → Result String (ProtocolEvent Value)

module _ {Value : Type 0} where
  unfoldable pub serialize_event :
      EventCodec Value → ProtocolEvent Value → Result ProtocolError String
  serialize_event codec event = map_err serialization (codec.to_string event)

  unfoldable pub forward_to_handler :
      MessageHandler Value → ProtocolEvent Value → Result MessageError String
  forward_to_handler handler (message_received received) = do
    outcome ← handler.handle received
    ok (handler.name <> (": " <> outcome.detail))
  forward_to_handler handler (connected endpoint) = ok "noop"
  forward_to_handler handler disconnected = ok "noop"
  forward_to_handler handler (warning e) = ok "noop"
