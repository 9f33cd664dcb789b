-- ===== src/Api/Send.antt =====
-- The handlers of napcat-rs/crates/api that send a message, and `delete_msg`.
pub mod Laws
pub mod Compat
mod Delivery
mod Tests
use nap_cat_qq_rs.Prelude.{
  ℕ, String, ◌<>◌, ◌==◌, Bool, true, false, Option, none, some, List, [], ◌∷◌, Result, ok, err,
  ◌>>=◌, ◌>>◌, unwrap_or, is_empty, if◌then◌else◌,
}
use nap_cat_qq_rs.Text.{trim, is_blank, byte_length}
use nap_cat_qq_rs.Text.Decimal.{to_decimal}
use nap_cat_qq_rs.Message.{MessageRecipient, Message, text_message}
use nap_cat_qq_rs.Protocol.{
  ProtocolEvent, message_received, warning, ProtocolError, describe, ProtocolBackend,
}
use nap_cat_qq_rs.Api.{
  ApiEnvelope, ApiError, protocol_send, invalid, ok_envelope, ApiState, Room, emit_event,
}

pub data MessageType : Type 0 where
  private group : MessageType

pub record CompatSendRequest : Type 0 where
  pub message_type : MessageType
  pub user_id : Option String
  pub group_id : Option String
  pub message : String

pub record SendPrivateRequest : Type 0 where
  pub user_id : String
  pub message : String

pub record SendGroupRequest : Type 0 where
  pub group_id : String
  pub message : String

pub record SendResponse : Type 0 where
  pub accepted : Bool
  pub message_id : String

unfoldable pub message_id_from_text : String → String
message_id_from_text message = "api-" <> to_decimal (byte_length message)

unfoldable pub trim_recipient : MessageRecipient → MessageRecipient
trim_recipient (MessageRecipient.private user_id) = MessageRecipient.private (trim user_id)
trim_recipient (MessageRecipient.group group_id) = MessageRecipient.group (trim group_id)

-- The end of the conversion of a compatible request, once its recipient is known.
unfoldable pub recipient_of : CompatSendRequest → MessageType → Result ApiError MessageRecipient
recipient_of request MessageType.private =
    let user_id = trim (unwrap_or request.user_id "") in
    if user_id == ""
    then err (invalid "user_id is required for private messages")
    else ok (MessageRecipient.private user_id)
recipient_of request MessageType.group =
    let group_id = trim (unwrap_or request.group_id "") in
    if group_id == ""
    then err (invalid "group_id is required for group messages")
    else ok (MessageRecipient.group group_id)

unfoldable pub validate_recipient : MessageRecipient → Result ApiError (Unit {0})
validate_recipient (MessageRecipient.private user_id) =
    if is_blank user_id then err (invalid "private user_id cannot be empty") else ok tt
validate_recipient (MessageRecipient.group group_id) =
    if is_blank group_id then err (invalid "group_id cannot be empty") else ok tt

-- The answer of a handler, and the state that it leaves.
abbrev pub Handled : Type 0 → Type 0 → Type 0 → Type 0
Handled Backend Value T = Result ApiError (ApiEnvelope T) × ApiState Backend Value

module _ {Value : Type 0} where
  unfoldable pub trim_message : Message Value → Message Value
  unfolding trim_recipient
  trim_message message = record message {
    id = trim message.id;
    sender_id = trim message.sender_id;
    recipient = trim_recipient message.recipient;
  }

  unfoldable pub validate_message : Message Value → Result ApiError (Unit {0})
  unfolding validate_recipient
  validate_message message = validate_recipient message.recipient

  unfoldable pub validate_message_payload : Message Value → Result ApiError (Unit {0})
  validate_message_payload message =
      if is_blank message.id
      then err (invalid "message id cannot be empty")
      else if is_blank message.sender_id
      then err (invalid "sender_id cannot be empty")
      else if is_empty message.elements
      then err (invalid "message payload cannot be empty")
      else ok tt

  unfoldable pub into_napcat_message : CompatSendRequest → Result ApiError (Message Value)
  unfolding recipient_of message_id_from_text
  into_napcat_message request =
      if is_blank request.message then err (invalid "message cannot be empty") else (do
        recipient ← recipient_of request request.message_type
        ok (text_message (message_id_from_text request.message) "api" recipient request.message))

module _ {Backend Value : Type 0} (backend : ProtocolBackend Backend Value) where
  -- The message goes to the protocol, if there is one.
  unfoldable pub to_protocol :
      Option Backend → Message Value → Result ProtocolError (Unit {0}) × Option Backend
  to_protocol none message = (ok tt, none)
  to_protocol (some protocol) message =
      let (r, after) = backend.send_message message protocol in (r, some after)

  -- The answer to a send whose event was emitted.
  unfoldable pub sent_answer :
      String
      → Result ApiError (Unit {0}) × ApiState Backend Value
      → Handled Backend Value SendResponse
  sent_answer message_id (ok _, state) =
      (ok (ok_envelope (record { accepted = true; message_id = message_id })), state)
  sent_answer message_id (err e, state) = (err e, state)

  -- What follows the answer of the protocol.
  unfoldable pub push_result :
      Room
      → Message Value
      → ApiState Backend Value
      → Result ProtocolError (Unit {0}) × Option Backend
      → Handled Backend Value SendResponse
  unfolding sent_answer emit_event describe
  push_result room message state (err e, protocol) = (
    err (protocol_send ("protocol send failed: " <> describe e)),
    record state { protocol = protocol },
  )
  push_result room message state (ok _, protocol) =
      sent_answer message.id
        (emit_event room (message_received message) (record state { protocol = protocol }))

  unfoldable pub push_send_event :
      Room → Message Value → ApiState Backend Value → Handled Backend Value SendResponse
  unfolding to_protocol push_result
  push_send_event room message state =
      push_result room message state (to_protocol state.protocol message)

  -- A handler that refuses, or pushes the message that it has made.
  unfoldable pub push_if_ok :
      Room
      → Result ApiError (Message Value)
      → ApiState Backend Value
      → Handled Backend Value SendResponse
  unfolding push_send_event
  push_if_ok room (ok message) state = push_send_event room message state
  push_if_ok room (err e) state = (err e, state)

  unfoldable pub send_message :
      Room → Message Value → ApiState Backend Value → Handled Backend Value SendResponse
  unfolding push_if_ok validate_message_payload validate_message trim_message
  send_message room message state =
      let trimmed = trim_message message in
      push_if_ok room (validate_message_payload trimmed >> (validate_message trimmed >> ok trimmed))
        state

  unfoldable pub send_msg_compat :
      Room → CompatSendRequest → ApiState Backend Value → Handled Backend Value SendResponse
  unfolding push_if_ok into_napcat_message
  send_msg_compat room request state =
      if is_blank request.message
      then (err (invalid "message cannot be empty"), state)
      else push_if_ok room (into_napcat_message request) state

  unfoldable pub send_private_msg :
      Room → SendPrivateRequest → ApiState Backend Value → Handled Backend Value SendResponse
  unfolding push_if_ok into_napcat_message
  send_private_msg room request state =
      if is_blank request.message
      then (err (invalid "message cannot be empty"), state)
      else push_if_ok room
          (into_napcat_message (record {
            message_type = MessageType.private;
            user_id = some request.user_id;
            group_id = none;
            message = request.message;
          }))
          state

  unfoldable pub send_group_msg :
      Room → SendGroupRequest → ApiState Backend Value → Handled Backend Value SendResponse
  unfolding push_if_ok into_napcat_message
  send_group_msg room request state =
      if is_blank request.message
      then (err (invalid "message cannot be empty"), state)
      else push_if_ok room
          (into_napcat_message (record {
            message_type = MessageType.group;
            user_id = none;
            group_id = some request.group_id;
            message = request.message;
          }))
          state

module _ {Backend Value : Type 0} where
  deleted_answer :
      String → Result ApiError (Unit {0}) × ApiState Backend Value → Handled Backend Value String
  deleted_answer message_id (ok _, state) = (ok (ok_envelope message_id), state)
  deleted_answer message_id (err e, state) = (err e, state)

  -- The event is a warning: nothing is deleted.
  unfoldable pub delete_msg : Room → String → ApiState Backend Value → Handled Backend Value String
  unfolding deleted_answer emit_event
  delete_msg room message_id state =
      let id = trim message_id in
      if id == ""
      then (err (invalid "message_id is required"), state)
      else deleted_answer id (emit_event room (warning ("delete message requested: " <> id)) state)
