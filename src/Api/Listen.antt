-- ===== src/Api/Listen.antt =====
-- The routes of napcat-rs/crates/api that wait for events: `listen_messages` and the web socket.
-- What the receiver answers, in order, and what the socket answers to a send are arguments;
-- `payload` is `onebot_event_payload`, the clock and serde_json included. Integers of the query
-- have 64 bits.
mod Laws
mod Routes
mod Inbound
mod Tests
use nap_cat_qq_rs.Prelude.{
  ℕ, zero, suc, ◌*◌, ◌^◌, ◌-◌, min, max, String, Bool, true, false, Option, none, some, List, [],
  ◌∷◌, Result, ok, err, or_else, unwrap_or, if◌then◌else◌,
}
use nap_cat_qq_rs.Event.{EventEnvelope, Received, value, lagged, closed}
use nap_cat_qq_rs.Protocol.{ProtocolEvent, ProtocolError}
use nap_cat_qq_rs.Api.{ApiEnvelope, ok_envelope}
use nap_cat_qq_rs.Api.Filter.{ListenQuery, parse_event_types, is_accepted}

abbrev u64_max : ℕ
u64_max = 2 ^ 64 - 1

-- `u64::saturating_mul`
unfoldable pub saturating_mul : ℕ → ℕ → ℕ
saturating_mul a b = min (a * b) u64_max

in_milliseconds : Option ℕ → Option ℕ
unfolding saturating_mul
in_milliseconds none = none
in_milliseconds (some seconds) = some (saturating_mul seconds 1000)

-- The time that one event is waited for.
unfoldable pub timeout_of : ListenQuery → ℕ
unfolding in_milliseconds
timeout_of query = unwrap_or (or_else query.timeout_ms (in_milliseconds query.timeout)) 200

unfoldable pub max_events_of : ListenQuery → ℕ
max_events_of query = min (max (unwrap_or (or_else query.max_events query.limit) 8) 1) 32

-- What one wait for an event meets.
pub data Waited (T : Type 0) : Type 0 where
  elapsed : Waited T
  received : Received (EventEnvelope T) → Waited T

-- The payload of an event, before those of the later ones; one that cannot be encoded is dropped.
unfoldable pub push_payload : Result ProtocolError String → List String → List String
push_payload (ok serialized) records = serialized ∷ records
push_payload (err e) records = records

-- The answer of the socket to each send, the first of which belongs to the next payload.
send_payload :
    Result ProtocolError String
    → (sends : List Bool) → (go_on : List Bool → List String) → List String
send_payload (err e) sends go_on = go_on sends
send_payload (ok serialized) (true ∷ sends) go_on = serialized ∷ go_on sends
send_payload (ok serialized) _ go_on = []

module _ {Value : Type 0} (payload : ProtocolEvent Value → Result ProtocolError String)
    (event_types : Option (List String)) where
  -- The loop of `listen_messages`: `budget` is what is left of `0..max_events`; past the list of what
  -- the waits meet, there are no events.
  unfoldable pub collect : (budget : ℕ) → List (Waited (ProtocolEvent Value)) → List String
  unfolding push_payload
  collect zero waits = []
  collect (suc budget) (received (value envelope) ∷ waits) =
      let rest = collect budget waits in
      if is_accepted event_types envelope.payload
      then push_payload (payload envelope.payload) rest
      else rest
  collect (suc budget) (_ ∷ waits) = []
  collect (suc budget) [] = []

  -- The loop of `ws_handler`: the texts that the socket took.
  unfoldable pub ws_loop :
      List (Received (EventEnvelope (ProtocolEvent Value))) → (sends : List Bool) → List String
  unfolding send_payload
  ws_loop (value envelope ∷ rounds) sends =
      if is_accepted event_types envelope.payload
      then send_payload (payload envelope.payload) sends (λ rest. ws_loop rounds rest)
      else ws_loop rounds sends
  ws_loop _ sends = []

module _ {Value : Type 0} (to_lowercase : String → String)
    (payload : ProtocolEvent Value → Result ProtocolError String) where
  unfoldable pub listen_messages :
      ListenQuery → List (Waited (ProtocolEvent Value)) → ApiEnvelope (List String)
  unfolding collect parse_event_types max_events_of
  listen_messages query waits =
      ok_envelope
        (collect payload (parse_event_types to_lowercase query) (max_events_of query) waits)

  unfoldable pub ws_handler :
      ListenQuery
      → List (Received (EventEnvelope (ProtocolEvent Value)))
      → (sends : List Bool) → List String
  unfolding ws_loop parse_event_types
  ws_handler query rounds sends =
      ws_loop payload (parse_event_types to_lowercase query) rounds sends
