-- ===== src/Message.antt =====
-- napcat-rs/crates/message: the message model, the predicates on its elements, `EchoHandler` and
-- `dispatch`. `Value` is `serde_json::Value`; a handler is a record of its three methods.
mod Laws
mod Tests
use nap_cat_qq_rs.Prelude.{
  ℕ, String, ◌<>◌, Bool, true, false, Option, List, [], ◌∷◌, Result, ok, err, any, if◌then◌else◌,
}

pub data MessageChannel : Type 0 where
  private group : MessageChannel

pub data MessageRecipient : Type 0 where
  private group : String → MessageRecipient

unfoldable pub channel : MessageRecipient → MessageChannel
channel (MessageRecipient.private user_id) = MessageChannel.private
channel (MessageRecipient.group group_id) = MessageChannel.group

pub data MessageElement (Value : Type 0) : Type 0 where
  text : String → MessageElement Value
  image : String → Option ℕ → MessageElement Value
  video : String → Option ℕ → MessageElement Value
  file : String → Option String → MessageElement Value
  at : String → MessageElement Value
  reply : String → MessageElement Value
  json : Value → MessageElement Value

pub record Message (Value : Type 0) : Type 0 where
  pub id : String
  pub sender_id : String
  pub recipient : MessageRecipient
  pub elements : List (MessageElement Value)

pub data MessageError : Type 0 where
  unsupported_channel serialization : String → MessageError

pub record HandleResult : Type 0 where
  pub accepted : Bool
  pub detail : String

pub record MessageHandler (Value : Type 0) : Type 0 where
  pub name : String
  pub can_handle : Message Value → Bool
  pub handle : Message Value → Result MessageError HandleResult

-- The `Debug` form of a channel.
debug_channel : MessageChannel → String
debug_channel MessageChannel.private = "Private"
debug_channel MessageChannel.group = "Group"

module _ {Value : Type 0} where
  -- `Message::text`
  unfoldable pub text_message : String → String → MessageRecipient → String → Message Value
  text_message id sender recipient content = record {
    id = id;
    sender_id = sender;
    recipient = recipient;
    elements = text content ∷ [];
  }

  is_image : MessageElement Value → Bool
  is_image (image path size) = true
  is_image _ = false

  is_file : MessageElement Value → Bool
  is_file (file path md5) = true
  is_file _ = false

  is_video : MessageElement Value → Bool
  is_video (video path duration_ms) = true
  is_video _ = false

  is_at : MessageElement Value → Bool
  is_at (at target_user) = true
  is_at _ = false

  is_reply : MessageElement Value → Bool
  is_reply (reply message_id) = true
  is_reply _ = false

  is_json : MessageElement Value → Bool
  is_json (json payload) = true
  is_json _ = false

  unfoldable pub is_image_message : Message Value → Bool
  unfolding is_image
  is_image_message message = any is_image message.elements

  unfoldable pub is_file_message : Message Value → Bool
  unfolding is_file
  is_file_message message = any is_file message.elements

  unfoldable pub is_video_message : Message Value → Bool
  unfolding is_video
  is_video_message message = any is_video message.elements

  unfoldable pub is_at_message : Message Value → Bool
  unfolding is_at
  is_at_message message = any is_at message.elements

  unfoldable pub is_reply_message : Message Value → Bool
  unfolding is_reply
  is_reply_message message = any is_reply message.elements

  unfoldable pub is_json_message : Message Value → Bool
  unfolding is_json
  is_json_message message = any is_json message.elements

  echo_handle : MessageRecipient → Message Value → Result MessageError HandleResult
  echo_handle (MessageRecipient.group group_id) message =
      ok (record { accepted = true; detail = "group:" <> group_id })
  echo_handle (MessageRecipient.private user_id) message =
      ok (record { accepted = true; detail = "private:" <> message.sender_id })

  unfoldable pub echo_handler : MessageHandler Value
  unfolding echo_handle
  echo_handler = record {
    name = "echo";
    can_handle = λ message. true;
    handle = λ message. echo_handle message.recipient message;
  }

  unfoldable pub dispatch : MessageHandler Value → Message Value → Result MessageError HandleResult
  unfolding debug_channel channel
  dispatch handler message =
      if handler.can_handle message
      then handler.handle message
      else err (unsupported_channel (debug_channel (channel message.recipient)))
