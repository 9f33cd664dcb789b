-- ===== src/Api/Payload.antt =====
-- `onebot_event_payload` of napcat-rs/crates/api: the JSON value of an event for OneBot clients.
-- `time` is the clock in seconds, or its error; `to_string` is `serde_json::to_string`, and
-- `to_value` what serde_json makes of the elements of a message. `Json` is what the macro `json!`
-- builds here.
mod Laws
mod Tests
use nap_cat_qq_rs.Prelude.{
  ℕ, String, ◌==◌, Bool, true, false, Option, none, some, List, [], ◌∷◌, Result, ok, err, ◌>>=◌,
  map_err, if◌then◌else◌,
}
use nap_cat_qq_rs.Message.{MessageRecipient, MessageElement, Message}
use nap_cat_qq_rs.Protocol.{
  ProtocolEvent, connected, disconnected, message_received, warning, ProtocolError, transport,
  serialization,
}

-- An object is its fields, one after the other: `with_field` is the first of them and the rest.
pub data Json (Value : Type 0) : Type 0 where
  null : Json Value
  text : String → Json Value
  number : ℕ → Json Value
  value : Value → Json Value
  no_fields : Json Value
  with_field : (name : String) → Json Value → Json Value → Json Value

-- `message_type`, `sub_type` and `target_id` of a recipient.
unfoldable pub recipient_fields : MessageRecipient → String × String × String
recipient_fields (MessageRecipient.private user_id) = ("private", "friend", user_id)
recipient_fields (MessageRecipient.group group_id) = ("group", "normal", group_id)

module _ {Value : Type 0} where
  -- A list of fields as an object.
  unfoldable pub object : List (String × Json Value) → Json Value
  object [] = no_fields
  object ((name, v) ∷ fields) = with_field name v (object fields)

  unfoldable pub group_of : MessageRecipient → Json Value
  group_of (MessageRecipient.group group_id) = text group_id
  group_of (MessageRecipient.private user_id) = null

  unfoldable pub payload_value :
      (to_value : List (MessageElement Value) → Value)
      → (time : ℕ) → ProtocolEvent Value
      → Json Value
  unfolding object recipient_fields group_of
  payload_value to_value time (message_received message) =
      let (message_type, sub_type, target_id) = recipient_fields message.recipient in
      object (
        ("post_type", text "message")
        ∷ ("time", number time)
        ∷ ("self_id", text "napcat-bot")
        ∷ ("message_type", text message_type)
        ∷ ("sub_type", text sub_type)
        ∷ ("message_id", text message.id)
        ∷ ("group_id", group_of message.recipient)
        ∷ ("user_id", text message.sender_id)
        ∷ ("sender", object (("user_id", text message.sender_id) ∷ []))
        ∷ ("target_id", text target_id)
        ∷ ("message", value (to_value message.elements))
        ∷ [])
  payload_value to_value time (connected endpoint) = object (
      ("post_type", text "meta_event")
      ∷ ("time", number time)
      ∷ ("self_id", text "napcat-bot")
      ∷ ("meta_event_type", text "lifecycle")
      ∷ ("sub_type", text "connected")
      ∷ ("endpoint", text endpoint)
      ∷ ("status", text "ok")
      ∷ [])
  payload_value to_value time disconnected = object (
      ("post_type", text "meta_event")
      ∷ ("time", number time)
      ∷ ("self_id", text "napcat-bot")
      ∷ ("meta_event_type", text "lifecycle")
      ∷ ("sub_type", text "disconnected")
      ∷ ("status", text "close")
      ∷ [])
  payload_value to_value time (warning message) = object (
      ("post_type", text "meta_event")
      ∷ ("time", number time)
      ∷ ("self_id", text "napcat-bot")
      ∷ ("meta_event_type", text "warning")
      ∷ ("sub_type", text "protocol_warning")
      ∷ ("message", text message)
      ∷ ("status", text "warn")
      ∷ [])

  unfoldable pub onebot_event_payload :
      (to_value : List (MessageElement Value) → Value)
      → (to_string : Json Value → Result String String) → (now : Result String ℕ)
      → ProtocolEvent Value
      → Result ProtocolError String
  unfolding payload_value
  onebot_event_payload to_value to_string now event = do
    time ← map_err transport now
    map_err serialization (to_string (payload_value to_value time event))
