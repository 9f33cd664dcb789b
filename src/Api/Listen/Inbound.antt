-- ===== src/Api/Listen/Inbound.antt =====
-- The way of an inbound packet: the listener of `QQClientBackend`, the relay, the bus, and
-- `listen_messages`.
use nap_cat_qq_rs.Prelude.{
  ℕ, String, ◌≡◌, refl, ap, false, not, ◌&&◌, Option, List, [], ◌∷◌, ◌++◌, map, Result, retain,
}
use nap_cat_qq_rs.Message.{Message}
use nap_cat_qq_rs.Event.{new_envelope}
use nap_cat_qq_rs.Protocol.{ProtocolEvent, ProtocolError, Codec}
use nap_cat_qq_rs.Protocol.Qq
use nap_cat_qq_rs.Protocol.Qq.{listen_loop}
use nap_cat_qq_rs.Protocol.Qq.Listener.{AreHeard, events_of}
use nap_cat_qq_rs.Api.Filter.{ListenQuery, parse_event_types, is_accepted}
use nap_cat_qq_rs.Api.Listen.{max_events_of, listen_messages}
use nap_cat_qq_rs.Api.Listen.Laws.{take, arrivals, encoded}
use nap_cat_qq_rs.Api.Listen.Routes.{arriving, listen_messages-reads}
use nap_cat_qq_rs.Api.Relay.{relay_loop}
use nap_cat_qq_rs.Api.Relay.Laws
use nap_cat_qq_rs.Api.Relay.Laws.{inbound_reaches_bus}

arrivals-published :
    {T : Type 0} (now : Option ℕ) (events : List T)
    → arrivals (arriving (map (λ event. new_envelope now "protocol" "event" event) events) [])
      ≡ events
unfolding arrivals new_envelope
arrivals-published now [] = refl
arrivals-published now (event ∷ events) =
    ap (λ later. event ∷ later) (arrivals-published now events)

module _ {Value : Type 0} (to_lowercase : String → String)
    (payload : ProtocolEvent Value → Result ProtocolError String) (query : ListenQuery)
    (to_value : Message Value → Result String Value) (empty_object : Value) where
  -- `listen_messages`, waiting while the relay passes on what the QQ listener sends, answers the
  -- events of the client's answers, in order: of the first `max_events` of them, those that the
  -- filter accepts and that can be encoded.
  pub inbound_answered :
      (codec : Codec Value) (rounds : List Qq.Round) (last : Qq.Round) (rest : List Qq.Round)
      (now : Option ℕ)
      → AreHeard rounds
      → last.connected && not last.stop_requested ≡ false
      → let relayed =
          relay_loop to_value empty_object
            (Laws.arriving (listen_loop codec (rounds ++ last ∷ rest)).0 now) in
        (listen_messages to_lowercase payload query (arriving relayed.published [])).data'
        ≡ encoded payload (
            retain
              (is_accepted (parse_event_types to_lowercase query))
              (take (max_events_of query) (events_of codec rounds)))
  inbound_answered codec rounds last rest now h stop =
      rw
        (
          inbound_reaches_bus to_value empty_object codec rounds last rest now h stop,
          listen_messages-reads to_lowercase payload query (
              arriving
                (map (λ event. new_envelope now "protocol" "event" event) (events_of codec rounds))
                []),
          arrivals-published now (events_of codec rounds),
        )
        refl
