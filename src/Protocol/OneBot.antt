-- ===== src/Protocol/OneBot.antt =====
-- `OneBotHttpBackend` of napcat-rs/crates/protocol: its URLs, the text that it sends, and its state.
-- `Http` is what the network answers to a request; `show` writes a JSON value.
mod Laws
mod Tests
pub mod Listener
pub use nap_cat_qq_rs.Protocol.Http.{
  OneBotSendPrivate, OneBotSendGroup, Body, private_body, group_body, Method, get, post, Request,
  Response, Http,
}
use Prim.Native.Char.{code}
use nap_cat_qq_rs.Prelude.{
  ℕ, Char, String, ◌<>◌, ◌==◌, Bool, true, false, ◌&&◌, ◌||◌, eqb, Option, none, some, List, [],
  ◌∷◌, Result, ok, err, ◌>>=◌, map_err, starts_with, unwrap_or, if◌then◌else◌,
}
use nap_cat_qq_rs.Text.{is_blank, trim}
use nap_cat_qq_rs.Text.Decimal.{to_decimal}
use nap_cat_qq_rs.Message.{
  MessageRecipient, MessageElement, text, image, video, file, at, reply, json, Message,
}
use nap_cat_qq_rs.Protocol.{ProtocolError, transport, serialization}

pub record OneBotBackendConfig : Type 0 where
  pub base_url : String
  pub access_token : Option String
  pub listen_timeout_ms : ℕ
  pub listen_max_events : ℕ

unfoldable pub new_config : String → OneBotBackendConfig
new_config base_url = record {
  base_url = base_url;
  access_token = none;
  listen_timeout_ms = 600;
  listen_max_events = 8;
}

unfoldable pub with_access_token : String → OneBotBackendConfig → OneBotBackendConfig
with_access_token token config = record config { access_token = some token }

unfoldable pub with_listener_settings :
    (timeout_ms max_events : ℕ) → OneBotBackendConfig → OneBotBackendConfig
with_listener_settings timeout_ms max_events config = record config {
  listen_timeout_ms = timeout_ms;
  listen_max_events = max_events;
}

pub record OneBotHttpBackend : Type 0 where
  pub base_url : String
  pub access_token : Option String
  pub listen_timeout_ms : ℕ
  pub listen_max_events : ℕ
  pub connected : Bool
  pub listening : Bool
  pub stop_requested : Bool

unfoldable pub new : OneBotBackendConfig → OneBotHttpBackend
new config = record {
  base_url = config.base_url;
  access_token = config.access_token;
  listen_timeout_ms = config.listen_timeout_ms;
  listen_max_events = config.listen_max_events;
  connected = false;
  listening = false;
  stop_requested = false;
}

is_slash : Char → Bool
is_slash c = eqb (code c) 47

-- `trim_start_matches('/')`
unfoldable pub trim_start_slashes : String → String
unfolding is_slash
trim_start_slashes String.[] = ""
trim_start_slashes (String.◌∷◌ c s) =
    let rest = trim_start_slashes s in if is_slash c then rest else String.◌∷◌ c s

-- `trim_end_matches('/')`
unfoldable pub trim_end_slashes : String → String
unfolding is_slash
trim_end_slashes String.[] = ""
trim_end_slashes (String.◌∷◌ c s) =
    let rest = trim_end_slashes s in if is_slash c && rest == "" then "" else String.◌∷◌ c rest

unfoldable pub endpoint_url : OneBotHttpBackend → String → String
unfolding trim_start_slashes trim_end_slashes
endpoint_url backend path = trim_end_slashes backend.base_url <> ("/" <> trim_start_slashes path)

unfoldable pub request : OneBotHttpBackend → Method → String → Request
unfolding endpoint_url
request backend method path = record {
  method = method;
  url = endpoint_url backend path;
  token = backend.access_token;
  query = [];
  body = none;
}

-- The request of a round of the listener.
unfoldable pub poll_request : OneBotHttpBackend → Request
unfolding request
poll_request backend = record (request backend get "/message/listen") {
  query =
      ("timeout_ms", to_decimal backend.listen_timeout_ms)
      ∷ ("max_events", to_decimal backend.listen_max_events)
      ∷ [];
}

-- The request that a message is sent with.
unfoldable pub send_request : OneBotHttpBackend → MessageRecipient → String → Request
unfolding request
send_request backend (MessageRecipient.private user_id) payload =
    record (request backend post "/send_private_msg") {
      body = some (private_body (record { user_id = user_id; message = payload }));
    }
send_request backend (MessageRecipient.group group_id) payload =
    record (request backend post "/send_group_msg") {
      body = some (group_body (record { group_id = group_id; message = payload }));
    }

unfoldable pub is_url : String → Bool
is_url base_url = starts_with base_url "http://" || starts_with base_url "https://"

unfoldable pub disconnect : OneBotHttpBackend → OneBotHttpBackend
disconnect backend = record backend { connected = false; stop_requested = true; listening = false }

-- The call of `listen`: the task is spawned when the answer is `ok`.
unfoldable pub listen : OneBotHttpBackend → Result ProtocolError (Unit {0}) × OneBotHttpBackend
listen backend =
    if backend.connected
    then (if backend.listening
        then (err (transport "listen already started"), backend)
        else (ok tt, record backend { listening = true }))
    else (err (transport "protocol is not connected"), backend)

module _ {Value : Type 0} (http : Http Value) where
  element_text : MessageElement Value → String
  element_text (text content) = content
  element_text (image path size) = "[Image:" <> (path <> "]")
  element_text (video path duration_ms) = "[Video:" <> (path <> "]")
  element_text (file path md5) = "[File:" <> (path <> "]")
  element_text (at target_user) = "[@" <> (target_user <> "]")
  element_text (reply message_id) = "[Reply:" <> (message_id <> "]")
  element_text (json payload) = http.show payload

  elements_text : List (MessageElement Value) → String
  unfolding element_text
  elements_text [] = ""
  elements_text (element ∷ elements) = element_text element <> elements_text elements

  unfoldable pub message_to_plain_text : Message Value → String
  unfolding elements_text
  message_to_plain_text message =
      let output = elements_text message.elements in
      if output == "" then message.sender_id <> (": " <> message.id) else output

  online_of : Option Value → Bool
  online_of none = false
  online_of (some online) = unwrap_or (http.as_bool online) false

  -- `raw` itself, if it has no field `data`.
  unfoldable pub map_status_payload : Value → Bool
  unfolding online_of
  map_status_payload raw =
      online_of (http.get_field "online" (unwrap_or (http.get_field "data" raw) raw))

  unfoldable pub get_status : OneBotHttpBackend → Result ProtocolError Bool
  unfolding request map_status_payload
  get_status backend = if is_blank backend.base_url then err (transport "empty base URL") else (do
    response ← map_err transport (http.send (request backend get "/get_status"))
    if response.is_success
        then (do raw ← map_err serialization response.json; ok (map_status_payload raw))
        else err (transport ("status request failed with " <> response.status)))

  unfoldable pub connect :
      String → OneBotHttpBackend → Result ProtocolError (Unit {0}) × OneBotHttpBackend
  unfolding is_url get_status
  connect endpoint backend =
      let chosen = if is_blank endpoint then trim backend.base_url else trim endpoint in
      if chosen == ""
      then (err (transport "empty onebot endpoint"), backend)
      else if is_url chosen
      then elim (get_status backend) [
        | err e ↦ (err e, backend)
        | ok online ↦ (ok tt, record backend { connected = true; stop_requested = false })
      ]
      else (err (transport "onebot endpoint must start with http:// or https://"), backend)

  unfoldable pub is_logged_in : OneBotHttpBackend → Result ProtocolError Bool
  unfolding get_status
  is_logged_in backend = if backend.connected then get_status backend else ok false

  unfoldable pub send_message : Message Value → OneBotHttpBackend → Result ProtocolError (Unit {0})
  unfolding message_to_plain_text send_request
  send_message message backend =
      let payload = message_to_plain_text message in
      if backend.connected
      then (if is_blank payload then err (transport "message content is empty") else (do
        response ← map_err transport (http.send (send_request backend message.recipient payload))
        if response.is_success
            then ok tt
            else err (transport ("send request rejected: " <> response.status))))
      else err (transport "protocol is not connected")
