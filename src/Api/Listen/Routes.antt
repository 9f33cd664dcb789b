-- ===== src/Api/Listen/Routes.antt =====
-- The two event routes as a whole: their answers, the bound on the number of events, and the budget.
use nap_cat_qq_rs.Prelude.{
  ℕ, zero, suc, ◌≤◌, String, ◌≡◌, refl, ap, Bool, true, List, [], ◌∷◌, map, Result, length, retain,
  length-retain-le, arith,
}
use nap_cat_qq_rs.Event.{EventEnvelope, Received, value, lagged, closed}
use nap_cat_qq_rs.Protocol.{ProtocolEvent, ProtocolError}
use nap_cat_qq_rs.Api.Filter.{ListenQuery, parse_event_types, is_accepted}
use nap_cat_qq_rs.Api.Listen.{Waited, received, max_events_of, listen_messages, ws_handler}
use nap_cat_qq_rs.Api.Listen.Laws.{
  take, length-take-le, replicate, arrivals, heard, encoded, length-encoded-le, collect-passed,
  ws_loop-passed,
}

max_events_of-range : (query : ListenQuery) → (1 ≤ max_events_of query) × (max_events_of query ≤ 32)
unfolding max_events_of
max_events_of-range query = (omega arith, omega arith)

module _ {T : Type 0} where
  arrivals-received :
      (rounds : List (Received (EventEnvelope T))) → arrivals (map received rounds) ≡ heard rounds
  unfolding arrivals heard
  arrivals-received [] = refl
  arrivals-received (lagged n ∷ rounds) = refl
  arrivals-received (closed ∷ rounds) = refl
  arrivals-received (value envelope ∷ rounds) =
      ap (λ later. envelope.payload ∷ later) (arrivals-received rounds)

  heard-take :
      (n : ℕ) (rounds : List (Received (EventEnvelope T)))
      → heard (take n rounds) ≡ take n (heard rounds)
  unfolding heard take
  heard-take zero rounds = refl
  heard-take (suc n) [] = refl
  heard-take (suc n) (lagged k ∷ rounds) = refl
  heard-take (suc n) (closed ∷ rounds) = refl
  heard-take (suc n) (value envelope ∷ rounds) =
      ap (λ later. envelope.payload ∷ later) (heard-take n rounds)

  -- Envelopes that arrive one after the other.
  abbrev pub arriving : List (EventEnvelope T) → List (Waited T) → List (Waited T)
  arriving [] waits = waits
  arriving (envelope ∷ envelopes) waits = received (value envelope) ∷ arriving envelopes waits

  take-arriving :
      (envelopes : List (EventEnvelope T)) (waits : List (Waited T))
      → take (length envelopes) (arrivals (arriving envelopes waits))
        ≡ map (λ e. e.payload) envelopes
  unfolding take arrivals
  take-arriving [] waits = refl
  take-arriving (envelope ∷ envelopes) waits =
      ap (λ later. envelope.payload ∷ later) (take-arriving envelopes waits)

module _ {Value : Type 0} (to_lowercase : String → String)
    (payload : ProtocolEvent Value → Result ProtocolError String) (query : ListenQuery) where
  -- `listen_messages` answers the events that the filter accepts and that can be encoded, in order,
  -- out of the first `max_events` that arrive before a wait without an event.
  pub listen_messages-reads :
      (waits : List (Waited (ProtocolEvent Value)))
      → (listen_messages to_lowercase payload query waits).data'
        ≡ encoded payload (
            retain
              (is_accepted (parse_event_types to_lowercase query))
              (take (max_events_of query) (arrivals waits)))
  unfolding listen_messages
  listen_messages-reads waits =
      collect-passed payload (parse_event_types to_lowercase query) (max_events_of query) waits

  -- It answers at most `max_events` events, and never more than 32.
  pub listen_messages-bounded :
      (waits : List (Waited (ProtocolEvent Value)))
      → (length (listen_messages to_lowercase payload query waits).data' ≤ max_events_of query)
        × (1 ≤ max_events_of query)
        × (max_events_of query ≤ 32)
  listen_messages-bounded waits =
      let accept : ProtocolEvent Value → Bool =
        is_accepted (parse_event_types to_lowercase query) in
      let first = take (max_events_of query) (arrivals waits) in
      let (low, high) = max_events_of-range query in
      rw (listen_messages-reads waits) (
        omega (
          arith,
          length-encoded-le payload (retain accept first),
          length-retain-le accept first,
          length-take-le (max_events_of query) (arrivals waits),
        ),
        low,
        high,
      )

  -- Events that the filter refuses spend the budget: if it refuses the first `max_events` events
  -- that arrive, the answer is empty, whatever arrives after them.
  pub refused_spend_budget :
      (envelopes : List (EventEnvelope (ProtocolEvent Value)))
      (later : List (Waited (ProtocolEvent Value)))
      → length envelopes ≡ max_events_of query
      → retain (is_accepted (parse_event_types to_lowercase query)) (map (λ e. e.payload) envelopes)
        ≡ []
      → (listen_messages to_lowercase payload query (arriving envelopes later)).data' ≡ []
  unfolding encoded
  refused_spend_budget envelopes later h refused =
      rw
        (
          listen_messages-reads (arriving envelopes later),
          ← h,
          take-arriving envelopes later,
          refused,
        )
        refl

  -- A socket that takes every text is given the events that the filter accepts and that can be
  -- encoded, in order, up to the first gap in what is received.
  pub ws_handler-hears :
      (rounds : List (Received (EventEnvelope (ProtocolEvent Value)))) (n : ℕ)
      → length (heard rounds) ≤ n
      → ws_handler to_lowercase payload query rounds (replicate n true)
        ≡ encoded payload
            (retain (is_accepted (parse_event_types to_lowercase query)) (heard rounds))
  unfolding ws_handler
  ws_handler-hears rounds n h =
      ws_loop-passed payload (parse_event_types to_lowercase query) rounds n h

  -- Both routes deliver the same: what `listen_messages` answers is what the web socket is given
  -- out of the first `max_events` rounds.
  pub routes_agree :
      (rounds : List (Received (EventEnvelope (ProtocolEvent Value))))
      → (listen_messages to_lowercase payload query (map received rounds)).data'
        ≡ ws_handler to_lowercase payload query
            (take (max_events_of query) rounds)
            (replicate (max_events_of query) true)
  routes_agree rounds =
      let n = max_events_of query in
      rw
        (
          listen_messages-reads (map received rounds),
          arrivals-received rounds,
          ws_handler-hears (take n rounds) n
              (rw (heard-take n rounds) (length-take-le n (heard rounds))),
          heard-take n rounds,
        )
        refl
