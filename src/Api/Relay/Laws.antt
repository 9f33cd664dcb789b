-- ===== src/Api/Relay/Laws.antt =====
-- What the relay passes on, from the listener of the protocol to the bus and the plugins.
use nap_cat_qq_rs.Prelude.{
  unwrap_or, ℕ, String, ◌≡◌, refl, ap, false, not, ◌&&◌, Option, none, some, List, [], ◌∷◌, ◌++◌,
  map, Result, ok, err,
}
use nap_cat_qq_rs.Message.{Message}
use nap_cat_qq_rs.Plugin.{PluginEvent}
use nap_cat_qq_rs.Event.{value, lagged, new_envelope}
use nap_cat_qq_rs.Protocol.{
  ProtocolEvent, connected, disconnected, message_received, warning, Codec,
}
use nap_cat_qq_rs.Protocol.Qq
use nap_cat_qq_rs.Protocol.Qq.{listen_loop}
use nap_cat_qq_rs.Protocol.Qq.Listener.{AreHeard, events_of, listen_faithful}
use nap_cat_qq_rs.Api.Relay.{
  Round, value_or_empty, plugin_event, relay_event, relay_round, relay_loop,
}

-- The rounds in which the events arrive, one after the other.
abbrev pub arriving :
    {Value : Type 0} → List (ProtocolEvent Value) → (now : Option ℕ) → List (Round Value)
arriving events now = map (λ event. record { received = value event; now = now }) events

-- `Result::ok`
abbrev pub to_option : {E A : Type 0} → Result E A → Option A
to_option (ok a) = some a
to_option (err e) = none

module _ {Value : Type 0} (to_value : Message Value → Result String Value)
    (empty_object : Value) where
  -- The messages among the events, in order, as the plugins are given them: the JSON value of each,
  -- or an empty object if it has none.
  unfoldable pub plugin_events : List (ProtocolEvent Value) → List (PluginEvent Value)
  plugin_events [] = []
  plugin_events (message_received message ∷ events) =
      PluginEvent.message (unwrap_or (to_option (to_value message)) empty_object) (some "protocol")
      ∷ plugin_events events
  plugin_events (_ ∷ events) = plugin_events events

  value_or_empty_lem :
      (r : Result String Value)
      → value_or_empty to_value empty_object r ≡ unwrap_or (to_option r) empty_object
  unfolding value_or_empty
  value_or_empty_lem (ok payload) = refl
  value_or_empty_lem (err e) = refl

  plugin_event-cons :
      (event : ProtocolEvent Value) (events : List (ProtocolEvent Value))
      → plugin_event to_value empty_object event (plugin_events events)
        ≡ plugin_events (event ∷ events)
  unfolding plugin_event plugin_events
  plugin_event-cons (message_received message) events =
      ap (λ payload. PluginEvent.message payload (some "protocol") ∷ plugin_events events)
        (value_or_empty_lem (to_value message))
  plugin_event-cons (connected endpoint) events = refl
  plugin_event-cons disconnected events = refl
  plugin_event-cons (warning text) events = refl

  relay_loop-arriving :
      (events : List (ProtocolEvent Value)) (now : Option ℕ)
      → relay_loop to_value empty_object (arriving events now) ≡ record {
        to_plugins = plugin_events events;
        published = map (λ event. new_envelope now "protocol" "event" event) events;
      }
  unfolding relay_loop relay_round relay_event plugin_events
  relay_loop-arriving [] now = refl
  relay_loop-arriving (event ∷ events) now =
      rw (relay_loop-arriving events now, plugin_event-cons event events) refl

  -- What the listener of `QQClientBackend` sends, with each answer of the client heard, up to the
  -- round that ends it, is published on the bus, each event once and in order, and its messages are
  -- given to the plugins, in order.
  pub inbound_reaches_bus :
      (codec : Codec Value) (rounds : List Qq.Round) (last : Qq.Round) (rest : List Qq.Round)
      (now : Option ℕ)
      → AreHeard rounds
      → last.connected && not last.stop_requested ≡ false
      → relay_loop to_value empty_object
          (arriving (listen_loop codec (rounds ++ last ∷ rest)).0 now)
        ≡ record {
          to_plugins = plugin_events (events_of codec rounds);
          published =
              map (λ event. new_envelope now "protocol" "event" event) (events_of codec rounds);
        }
  inbound_reaches_bus codec rounds last rest now h stop =
      rw (listen_faithful codec rounds last rest h stop)
        (relay_loop-arriving (events_of codec rounds) now)

  -- The defect: the relay ends for ever when its receiver lags once; whatever the protocol sends
  -- later reaches neither the bus nor the plugins.
  pub lag_ends_relay :
      (before : List (Round Value)) (skipped : ℕ) (now : Option ℕ) (later : List (Round Value))
      → relay_loop to_value empty_object
          (before ++ record { received = lagged skipped; now = now } ∷ later)
        ≡ relay_loop to_value empty_object before
  unfolding relay_loop relay_round
  lag_ends_relay [] skipped now later = refl
  lag_ends_relay (round ∷ before) skipped now later =
      ap (relay_round to_value empty_object round.received round.now)
        (lag_ends_relay before skipped now later)
