-- ===== src/Protocol/Mock.antt =====
-- `MockProtocol` of napcat-rs/crates/protocol: a flag, and a channel into which messages are
-- injected. `messages` is what the channel holds; a send is lost when the receiver is gone.
use nap_cat_qq_rs.Prelude.{
  String, ◌==◌, Bool, true, false, List, [], ◌∷◌, ◌++◌, Result, ok, err, map_err, ◌>>=◌,
  if◌then◌else◌,
}
use nap_cat_qq_rs.Message.{Message}
use nap_cat_qq_rs.Protocol.{ProtocolEvent, ProtocolError, transport, serialization, Codec}

pub record MockProtocol (Value : Type 0) : Type 0 where
  pub connected : Bool
  pub received : Bool
  pub messages : List (Message Value)

module _ {Value : Type 0} where
  abbrev pub new : MockProtocol Value
  new = record { connected = false; received = true; messages = [] }

  unfoldable pub inject : Message Value → MockProtocol Value → MockProtocol Value
  inject message backend =
      if backend.received
      then record backend { messages = backend.messages ++ message ∷ [] }
      else backend

  unfoldable pub connect :
      String → MockProtocol Value → Result ProtocolError (Unit {0}) × MockProtocol Value
  connect endpoint backend =
      if endpoint == ""
      then (err (transport "empty endpoint"), backend)
      else (ok tt, record backend { connected = true })

  unfoldable pub disconnect :
      MockProtocol Value → Result ProtocolError (Unit {0}) × MockProtocol Value
  disconnect backend = (ok tt, record backend { connected = false })

  unfoldable pub is_logged_in : MockProtocol Value → Bool
  is_logged_in backend = backend.connected

  unfoldable pub send_message :
      Codec Value
      → Message Value
      → MockProtocol Value
      → Result ProtocolError (Unit {0}) × MockProtocol Value
  send_message codec message backend =
      (map_err serialization (codec.encode message) >>= λ text. ok tt, backend)

  -- The answer, the backend, and the event that is sent to the listener.
  unfoldable pub listen :
      MockProtocol Value
      → Result ProtocolError (Unit {0}) × MockProtocol Value × ProtocolEvent Value
  listen backend = (ok tt, backend, ProtocolEvent.connected "mock://localhost")
