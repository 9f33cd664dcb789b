-- ===== src/Protocol/Qq/Listener.antt =====
-- What the listener of `QQClientBackend` sends until it ends.
use nap_cat_qq_rs.Prelude.{
  ◌≡◌, refl, true, false, not, ◌&&◌, Option, none, some, List, [], ◌∷◌, ◌++◌, Result, ok, err,
  arith, ◌<>◌, Result-cases, inl, inr,
}
use nap_cat_qq_rs.QqClient.{Packet, QqClientError}
use nap_cat_qq_rs.Protocol.{
  ProtocolEvent, disconnected, warning, describe, Codec, decode_inbound_packet,
}
use nap_cat_qq_rs.Protocol.Qq.{Round, react, decoded, describe_qq, listen_loop}

-- The listener is connected, not asked to stop, and heard.
pub record IsHeard (round : Round) : Type 0 where
  pub connected : round.connected ≡ true
  pub asked : round.stop_requested ≡ false
  pub delivered : round.delivered ≡ true

abbrev pub AreHeard : List Round → Type 0
AreHeard [] = Unit {0}
AreHeard (round ∷ rounds) = IsHeard round × AreHeard rounds

module _ {Value : Type 0} (codec : Codec Value) where
  -- The event that one answer of the client stands for, if any.
  unfoldable pub event_of : Result QqClientError (Option Packet) → Option (ProtocolEvent Value)
  event_of (ok none) = none
  event_of (ok (some packet)) = elim (decode_inbound_packet codec packet) [
    | ok event ↦ event
    | err e ↦ some (warning ("failed to parse inbound packet: " <> describe e))
  ]
  event_of (err e) = some (warning ("receive packet failed: " <> describe_qq e))

  abbrev with_event :
      Option (ProtocolEvent Value) → List (ProtocolEvent Value) → List (ProtocolEvent Value)
  with_event none events = events
  with_event (some event) events = event ∷ events

  unfoldable pub events_of : List Round → List (ProtocolEvent Value)
  unfolding event_of
  events_of [] = disconnected ∷ []
  events_of (round ∷ rounds) = with_event (event_of round.received) (events_of rounds)

  react-heard :
      (received : Result QqClientError (Option Packet)) (events : List (ProtocolEvent Value))
      → ((react codec true received).0 ++ events ≡ with_event (event_of received) events)
        × ((react codec true received).1 ≡ true)
  unfolding react decoded event_of
  react-heard (ok none) events = (refl, refl)
  react-heard (ok (some packet)) events = elim (Result-cases (decode_inbound_packet codec packet)) [
    | inl (none, h) ↦ ground (arith, h)
    | inl (some event, h) ↦ ground (arith, h)
    | inr (e, h) ↦ ground (arith, h)
  ]
  react-heard (err e) events = (refl, refl)

  -- As long as the listener is connected, not asked to stop and heard, it sends the event of each
  -- answer of the client, in order: nothing for no packet or an unknown route, a warning for an
  -- error of the client or of the decoder. At the first round in which it is not connected or is
  -- asked to stop it sends that it is disconnected, and ends.
  pub listen_faithful :
      (rounds : List Round) (last : Round) (rest : List Round)
      → AreHeard rounds
      → last.connected && not last.stop_requested ≡ false
      → listen_loop codec (rounds ++ last ∷ rest) ≡ (events_of rounds, true)
  unfolding listen_loop events_of
  listen_faithful [] last rest h stop = rw stop refl
  listen_faithful (round ∷ rounds) last rest h stop =
      let (sent, goes_on) = react-heard round.received (events_of rounds) in
      rw
        (
          h.0.connected,
          h.0.asked,
          h.0.delivered,
          goes_on,
          listen_faithful rounds last rest h.1 stop,
          sent,
        )
        refl

  -- The listener ends by the first round in which it is asked to stop or is not connected, whatever
  -- the client and the receivers do before it; the rounds after it change nothing.
  pub stop_ends_listener :
      (before : List Round) (last : Round) (later : List Round)
      → last.connected && not last.stop_requested ≡ false
      → ((listen_loop codec (before ++ last ∷ [])).1 ≡ true)
        × (listen_loop codec (before ++ last ∷ later) ≡ listen_loop codec (before ++ last ∷ []))
  unfolding listen_loop
  stop_ends_listener [] last later stop = rw stop (refl, refl)
  stop_ends_listener (round ∷ before) last later stop =
      let (ended, same) = stop_ends_listener before last later stop in
      (ground (arith, ended), rw same refl)
