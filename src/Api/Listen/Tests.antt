-- ===== src/Api/Listen/Tests.antt =====
-- The event routes at concrete queries and events.
use nap_cat_qq_rs.Prelude.{
  ℕ, ◌≤◌, String, ◌≡◌, refl, true, none, some, List, [], ◌∷◌, map, Result, ok, length, retain,
  false, err,
}
use nap_cat_qq_rs.Event.{EventEnvelope, Received, value, lagged}
use nap_cat_qq_rs.Protocol.{
  ProtocolEvent, ProtocolError, connected, disconnected, message_received, warning,
}
use nap_cat_qq_rs.Protocol.{Codec}
use nap_cat_qq_rs.Protocol.Qq
use nap_cat_qq_rs.Protocol.Qq.{listen_loop}
use nap_cat_qq_rs.Protocol.Qq.Listener.{events_of}
use nap_cat_qq_rs.Api.Relay.{relay_loop}
use nap_cat_qq_rs.Api.Relay.Laws as Relay
use nap_cat_qq_rs.Api.Listen.Inbound.{inbound_answered}
use nap_cat_qq_rs.Api.Filter.{ListenQuery, parse_event_types, is_accepted}
use nap_cat_qq_rs.Api.Listen.{received, timeout_of, max_events_of, listen_messages, ws_handler}
use nap_cat_qq_rs.Api.Listen.Laws.{take, replicate, arrivals, encoded}
use nap_cat_qq_rs.Api.Listen.Routes.{
  arriving, listen_messages-reads, listen_messages-bounded, routes_agree,
}

abbrev lower : String → String
lower s = s

-- Warnings are encoded as their text, other events as their kind.
abbrev payload : ProtocolEvent ℕ → Result ProtocolError String
payload (message_received message) = ok "message"
payload (connected endpoint) = ok endpoint
payload disconnected = ok "close"
payload (warning text) = ok text

abbrev envelope_of : ProtocolEvent ℕ → EventEnvelope (ProtocolEvent ℕ)
envelope_of event = record { source = "protocol"; kind = "event"; at_millis = 0; payload = event }

abbrev query : ListenQuery
query = record {
  timeout_ms = none;
  timeout = some 3;
  max_events = some 1;
  limit = some 5;
  type_filter = some "meta_event";
  types_filter = none;
  post_type = none;
}

three_seconds : timeout_of query ≡ 3000
unfolding timeout_of
three_seconds = refl

abbrev messages_only : ListenQuery
messages_only = record query { type_filter = some "message" }

abbrev rounds : List (Received (EventEnvelope (ProtocolEvent ℕ)))
rounds = value (envelope_of (warning "a")) ∷ value (envelope_of (warning "b")) ∷ lagged 2 ∷ []

listen_messages-reads_example :
    (listen_messages lower payload query (map received rounds)).data'
    ≡ encoded payload (
        retain
          (is_accepted (parse_event_types lower query))
          (take (max_events_of query) (arrivals (map received rounds))))
listen_messages-reads_example = listen_messages-reads lower payload query (map received rounds)

listen_messages-bounded_example :
    (length (listen_messages lower payload query (map received rounds)).data' ≤ max_events_of query)
    × (1 ≤ max_events_of query)
    × (max_events_of query ≤ 32)
listen_messages-bounded_example = listen_messages-bounded lower payload query (map received rounds)

routes_agree_example :
    (listen_messages lower payload query (map received rounds)).data'
    ≡ ws_handler lower payload query (value (envelope_of (warning "a")) ∷ []) (true ∷ [])
unfolding take replicate max_events_of
routes_agree_example = routes_agree lower payload query rounds

abbrev codec : Codec ℕ
codec = record { encode = λ message. ok "hi"; decode = λ text. err "no message" }

abbrev inbound : Qq.Round
inbound = record {
  connected = true;
  stop_requested = false;
  received = ok (some (record { route = "client.connected"; payload = "e" }));
  delivered = true;
}

abbrev stopped : Qq.Round
stopped = record inbound { stop_requested = true }

inbound_answered_example :
    (listen_messages lower payload query (
      arriving
        (relay_loop
          (λ message. ok 1)
          0
          (Relay.arriving (listen_loop codec (inbound ∷ stopped ∷ [])).0 none)).published
        [])).data'
    ≡ encoded payload (
        retain
          (is_accepted (parse_event_types lower query))
          (take (max_events_of query) (events_of codec (inbound ∷ []))))
inbound_answered_example =
    inbound_answered lower payload query (λ message. ok 1) 0 codec (inbound ∷ []) stopped [] none
      (record { connected = refl; asked = refl; delivered = refl }, tt) refl
