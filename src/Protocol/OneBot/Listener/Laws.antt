-- ===== src/Protocol/OneBot/Listener/Laws.antt =====
-- What the listener of `OneBotHttpBackend` sends until it ends.
use nap_cat_qq_rs.Prelude.{
  String, ◌<>◌, ◌≡◌, refl, ap, ◌∙◌, Bool, true, false, not, ◌&&◌, List, [], ◌∷◌, ◌++◌, map, Result,
  ok, err, if◌then◌else◌,
}
use nap_cat_qq_rs.Protocol.{
  ProtocolEvent, connected, disconnected, warning, ProtocolError, describe,
}
use nap_cat_qq_rs.Protocol.OneBot.{Http, Response, OneBotHttpBackend}
use nap_cat_qq_rs.Protocol.OneBot.Listener.{
  EventJson, Round, from_json, decode_item, send_item, send_items, send_answer, react, listen_loop,
  listen_task,
}

module _ {Value : Type 0} where
  -- The listener is connected, not asked to stop, and each event finds a receiver.
  pub record IsOpen (round : Round Value) : Type 0 where
    pub connected : round.connected ≡ true
    pub asked : round.stop_requested ≡ false
    pub heard : round.heard ≡ []

  abbrev pub AreOpen : List (Round Value) → Type 0
  AreOpen [] = Unit {0}
  AreOpen (round ∷ rounds) = IsOpen round × AreOpen rounds

module _ {Value : Type 0} (http : Http Value) (events : EventJson Value) where
  event_or_warning : Result ProtocolError (ProtocolEvent Value) → ProtocolEvent Value
  event_or_warning (ok event) = event
  event_or_warning (err e) = warning ("failed to decode protocol event: " <> describe e)

  -- The event of an item, or the warning that it is none.
  unfoldable pub item_event : Value → ProtocolEvent Value
  unfolding event_or_warning
  item_event raw = event_or_warning (decode_item http events raw)

  answer_events : Result String Value → List (ProtocolEvent Value)
  answer_events (ok raw) = map item_event (from_json http events raw)
  answer_events (err e) = warning ("message/listen payload decode failed: " <> e) ∷ []

  -- The events of an answer: one for each of its items, or one warning that there are none.
  unfoldable pub round_events : Result String (Response Value) → List (ProtocolEvent Value)
  unfolding answer_events
  round_events (ok response) =
      if response.is_success
      then answer_events response.json
      else warning ("message/listen non-success: " <> response.status) ∷ []
  round_events (err e) = warning ("message/listen failed: " <> e) ∷ []

  -- The events of the rounds, and the last one.
  unfoldable pub all_events : List (Round Value) → List (ProtocolEvent Value)
  all_events [] = disconnected ∷ []
  all_events (round ∷ rounds) = round_events round.received ++ all_events rounds

  send_item-heard :
      (r : Result ProtocolError (ProtocolEvent Value))
      (rest : List Bool → List (ProtocolEvent Value))
      → send_item http events r [] rest ≡ event_or_warning r ∷ rest []
  unfolding send_item event_or_warning
  send_item-heard (ok event) rest = refl
  send_item-heard (err e) rest = refl

  send_items-heard : (items : List Value) → send_items http events items [] ≡ map item_event items
  unfolding send_items item_event
  send_items-heard [] = refl
  send_items-heard (raw ∷ items) =
      send_item-heard (decode_item http events raw) (λ rest. send_items http events items rest)
      ∙ ap (λ later. item_event raw ∷ later) (send_items-heard items)

  send_answer-heard : (r : Result String Value) → send_answer http events r [] ≡ answer_events r
  unfolding send_answer answer_events
  send_answer-heard (ok raw) = send_items-heard (from_json http events raw)
  send_answer-heard (err e) = refl

  react-heard_lem : (r : Result String (Response Value)) → react http events r [] ≡ round_events r
  unfolding react round_events
  react-heard_lem (ok response) = rw (send_answer-heard response.json) refl
  react-heard_lem (err e) = refl

  listen_loop-all_events :
      (rounds : List (Round Value)) (last : Round Value) (rest : List (Round Value))
      → AreOpen rounds
      → last.connected && not last.stop_requested ≡ false
      → listen_loop http events (rounds ++ last ∷ rest) ≡ (all_events rounds, true)
  unfolding listen_loop all_events
  listen_loop-all_events [] last rest h stop = rw stop refl
  listen_loop-all_events (round ∷ rounds) last rest h stop =
      rw
        (
          h.0.connected,
          h.0.asked,
          h.0.heard,
          listen_loop-all_events rounds last rest h.1 stop,
          react-heard_lem round.received,
        )
        refl

  -- The task sends that it is connected to the base URL; then, as long as it is connected, not
  -- asked to stop and heard, one event for each item of each answer, in order, which is a warning
  -- if the item cannot be decoded, and one warning for an answer without items to read. At the
  -- first round in which it is not connected or is asked to stop it sends that it is disconnected,
  -- and ends.
  pub listen_task-all_events :
      (backend : OneBotHttpBackend) (rounds : List (Round Value)) (last : Round Value)
      (rest : List (Round Value))
      → AreOpen rounds
      → last.connected && not last.stop_requested ≡ false
      → listen_task http events backend (rounds ++ last ∷ rest)
        ≡ (connected backend.base_url ∷ all_events rounds, true)
  unfolding listen_task
  listen_task-all_events backend rounds last rest h stop =
      rw (listen_loop-all_events rounds last rest h stop) refl
