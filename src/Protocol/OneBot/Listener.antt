-- ===== src/Protocol/OneBot/Listener.antt =====
-- The listener of `OneBotHttpBackend`, in napcat-rs/crates/protocol: what it sends for each answer of
-- `/message/listen`. `EventJson` is what serde_json does to the items of an answer.
mod Laws
mod Tests
use nap_cat_qq_rs.Prelude.{
  String, ◌<>◌, Bool, true, false, not, ◌&&◌, Option, none, some, List, [], ◌∷◌, ◌++◌, Result, ok,
  err, map_err, unwrap_or, if◌then◌else◌,
}
use nap_cat_qq_rs.Protocol.{
  ProtocolEvent, connected, disconnected, warning, ProtocolError, serialization, describe,
}
use nap_cat_qq_rs.Protocol.OneBot.{Http, Response, OneBotHttpBackend}

pub record EventJson (Value : Type 0) : Type 0 where
  pub as_str : Value → Option String
  pub as_array : Value → Option (List Value)
  pub from_str : String → Result String (ProtocolEvent Value)
  pub from_value : Value → Result String (ProtocolEvent Value)

pub data ListenPayload (Value : Type 0) : Type 0 where
  text : String → ListenPayload Value
  object : Value → ListenPayload Value

-- One round of the task: the flags that it reads, the answer to its request, and whether
-- `notify.send` finds a receiver for the event of each item; past the list it does.
pub record Round (Value : Type 0) : Type 0 where
  pub connected : Bool
  pub stop_requested : Bool
  pub received : Result String (Response Value)
  pub heard : List Bool

module _ {Value : Type 0} (http : Http Value) (events : EventJson Value) where
  items_of : Option Value → List Value
  items_of none = []
  items_of (some data') = unwrap_or (events.as_array data') []

  -- `OneBotListenEnvelope::from_json`
  unfoldable pub from_json : Value → List Value
  unfolding items_of
  from_json raw = items_of (http.get_field "data" raw)

  unfoldable pub deserialize_event : String → Result ProtocolError (ProtocolEvent Value)
  deserialize_event payload = map_err serialization (events.from_str payload)

  payload_of : Option String → Value → ListenPayload Value
  payload_of (some raw_text) raw = text raw_text
  payload_of none raw = object raw

  decode_payload : ListenPayload Value → Result ProtocolError (ProtocolEvent Value)
  unfolding deserialize_event
  decode_payload (text raw_text) = deserialize_event raw_text
  decode_payload (object raw_obj) = map_err serialization (events.from_value raw_obj)

  -- The event of one item of the answer.
  unfoldable pub decode_item : Value → Result ProtocolError (ProtocolEvent Value)
  unfolding payload_of decode_payload
  decode_item raw = decode_payload (payload_of (events.as_str raw) raw)

  -- An event is the last of its answer, if it finds no receiver.
  send_item :
      Result ProtocolError (ProtocolEvent Value)
      → (heard : List Bool) → (rest : List Bool → List (ProtocolEvent Value))
      → List (ProtocolEvent Value)
  unfolding describe
  send_item (ok event) [] rest = event ∷ rest []
  send_item (ok event) (true ∷ heard) rest = event ∷ rest heard
  send_item (ok event) (false ∷ heard) rest = event ∷ []
  send_item (err e) heard rest =
      warning ("failed to decode protocol event: " <> describe e) ∷ rest heard

  send_items : List Value → (heard : List Bool) → List (ProtocolEvent Value)
  unfolding decode_item send_item
  send_items [] heard = []
  send_items (raw ∷ items) heard = send_item (decode_item raw) heard (λ rest. send_items items rest)

  send_answer : Result String Value → (heard : List Bool) → List (ProtocolEvent Value)
  unfolding from_json send_items
  send_answer (ok raw) heard = send_items (from_json raw) heard
  send_answer (err e) heard = warning ("message/listen payload decode failed: " <> e) ∷ []

  -- What one round sends.
  unfoldable pub react :
      Result String (Response Value) → (heard : List Bool) → List (ProtocolEvent Value)
  unfolding send_answer
  react (ok response) heard =
      if response.is_success
      then send_answer response.json heard
      else warning ("message/listen non-success: " <> response.status) ∷ []
  react (err e) heard = warning ("message/listen failed: " <> e) ∷ []

  -- The loop: the events that were sent, and whether it has ended, which resets `listening`.
  listen_loop : List (Round Value) → List (ProtocolEvent Value) × Bool
  unfolding react
  listen_loop [] = ([], false)
  listen_loop (round ∷ rounds) =
      let (sent, ended) = listen_loop rounds in
      if round.connected && not round.stop_requested
      then (react round.received round.heard ++ sent, ended)
      else (disconnected ∷ [], true)

  -- The task that `listen` spawns.
  unfoldable pub listen_task :
      OneBotHttpBackend → List (Round Value) → List (ProtocolEvent Value) × Bool
  unfolding listen_loop
  listen_task backend rounds =
      let (sent, ended) = listen_loop rounds in (connected backend.base_url ∷ sent, ended)
