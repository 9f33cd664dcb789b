-- ===== src/Api/Payload/Laws.antt =====
-- What clients read in the JSON value of an event.
use mathlib.Core.Option
use nap_cat_qq_rs.Prelude.{ℕ, String, ◌==◌, ◌≡◌, refl, Option, none, some, List, if◌then◌else◌}
use nap_cat_qq_rs.Message.{MessageRecipient, MessageElement, Message}
use nap_cat_qq_rs.Protocol.{ProtocolEvent, connected, disconnected, message_received, warning}
use nap_cat_qq_rs.Api.Filter.{onebot_event_post_type}
use nap_cat_qq_rs.Api.Payload.{
  Json, text, value, with_field, object, recipient_fields, group_of, payload_value,
}

module _ {Value : Type 0} where
  -- `Value::get`: the first field of the name.
  unfoldable pub get_field : String → Json Value → Option (Json Value)
  get_field name (with_field first v rest) = if first == name then some v else get_field name rest
  get_field name _ = none

  -- What a client makes of the fields of a message: it was sent to a group, if there is a group's id.
  recipient_from : Json Value → String → MessageRecipient
  recipient_from (text group_id) target_id = MessageRecipient.group group_id
  recipient_from _ target_id = MessageRecipient.private target_id

  module _ (to_value : List (MessageElement Value) → Value)
      (from_value : Value → Option (List (MessageElement Value))) where
    message_from :
        (message_id group_id user_id target_id message : Option (Json Value))
        → Option (Message Value)
    unfolding recipient_from
    message_from (some (text message_id)) (some group_id) (some (text user_id))
          (some (text target_id)) (some (value message)) =
        Option.map
          (λ content. record {
            id = message_id;
            sender_id = user_id;
            recipient = recipient_from group_id target_id;
            elements = content;
          })
          (from_value message)
    message_from _ _ _ _ _ = none

    unfoldable pub decode_message : Json Value → Option (Message Value)
    unfolding message_from get_field
    decode_message payload =
        message_from (get_field "message_id" payload) (get_field "group_id" payload)
          (get_field "user_id" payload) (get_field "target_id" payload)
          (get_field "message" payload)

    -- A client that reads the ids, the recipient and the elements from the JSON value of a message
    -- has the message back, if it reads back the value that serde_json makes of the elements.
    decode_received :
        (time : ℕ) (message : Message Value)
        → from_value (to_value message.elements) ≡ some message.elements
        → decode_message (payload_value to_value time (message_received message)) ≡ some message
    unfolding decode_message payload_value object recipient_fields group_of
    decode_received time message back = go message.recipient
      where
        go :
            (recipient : MessageRecipient)
            → let sent : Message Value = record message { recipient = recipient } in
              decode_message (payload_value to_value time (message_received sent)) ≡ some sent
        go (MessageRecipient.private user_id) = rw back refl
        go (MessageRecipient.group group_id) = rw back refl

  -- The JSON value of an event tells the type that the filter tests.
  get_post_type :
      (to_value : List (MessageElement Value) → Value) (time : ℕ) (event : ProtocolEvent Value)
      → get_field "post_type" (payload_value to_value time event)
        ≡ some (text (onebot_event_post_type event))
  unfolding get_field payload_value object onebot_event_post_type
  get_post_type to_value time (message_received message) = refl
  get_post_type to_value time (connected endpoint) = refl
  get_post_type to_value time disconnected = refl
  get_post_type to_value time (warning message) = refl
