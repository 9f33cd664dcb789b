-- ===== src/Api/Relay.antt =====
-- The two tasks that `ApiState::with_protocol` of napcat-rs/crates/api spawns. What their channels
-- answer is an argument, with the clock of each envelope; `EventBus::publish` is heard or not,
-- which they ignore. `to_value` is `serde_json::to_value`, and `empty_object` the JSON object
-- without fields.
pub mod Laws
mod Tests
use nap_cat_qq_rs.Prelude.{ℕ, String, Option, none, some, List, [], ◌∷◌, Result, ok, err}
use nap_cat_qq_rs.Message.{Message}
use nap_cat_qq_rs.Plugin.{PluginEvent}
use nap_cat_qq_rs.Event.{EventEnvelope, Received, value, lagged, closed, new_envelope}
use nap_cat_qq_rs.Protocol.{ProtocolEvent, connected, disconnected, message_received, warning}

-- What the relay gives to the plugins and to the bus.
pub record Relayed (Value : Type 0) : Type 0 where
  pub to_plugins : List (PluginEvent Value)
  pub published : List (EventEnvelope (ProtocolEvent Value))

-- What one `recv` of the relay answers, and the clock after it.
pub record Round (Value : Type 0) : Type 0 where
  pub received : Received (ProtocolEvent Value)
  pub now : Option ℕ

module _ {Value : Type 0} (to_value : Message Value → Result String Value)
    (empty_object : Value) where
  value_or_empty : Result String Value → Value
  value_or_empty (ok payload) = payload
  value_or_empty (err e) = empty_object

  -- The event that the plugins are given for a message; the other events are not for them.
  unfoldable pub plugin_event :
      ProtocolEvent Value → List (PluginEvent Value) → List (PluginEvent Value)
  unfolding value_or_empty
  plugin_event (message_received message) rest =
      PluginEvent.message (value_or_empty (to_value message)) (some "protocol") ∷ rest
  plugin_event _ rest = rest

  relay_event : ProtocolEvent Value → (now : Option ℕ) → Relayed Value → Relayed Value
  unfolding plugin_event new_envelope
  relay_event event now rest = record {
    to_plugins = plugin_event event rest.to_plugins;
    published = new_envelope now "protocol" "event" event ∷ rest.published;
  }

  abbrev nothing : Relayed Value
  nothing = record { to_plugins = []; published = [] }

  relay_round : Received (ProtocolEvent Value) → (now : Option ℕ) → Relayed Value → Relayed Value
  unfolding relay_event
  relay_round (value event) now rest = relay_event event now rest
  relay_round (lagged skipped) now rest = nothing
  relay_round closed now rest = nothing

  -- The relay of the events of the protocol: it ends at the first answer that is not an event.
  unfoldable pub relay_loop : List (Round Value) → Relayed Value
  unfolding relay_round
  relay_loop [] = nothing
  relay_loop (round ∷ rounds) = relay_round round.received round.now (relay_loop rounds)

-- The relay of the dispatch queue, whose receiver never lags.
module _ {Value : Type 0} where
  unfoldable pub dispatch_loop :
      List (ProtocolEvent Value × Option ℕ) → List (EventEnvelope (ProtocolEvent Value))
  unfolding new_envelope
  dispatch_loop [] = []
  dispatch_loop ((event, now) ∷ queue) =
      new_envelope now "api" "protocol-event" event ∷ dispatch_loop queue
