-- ===== src/Api/Listen/Laws.antt =====
-- What the event routes deliver, out of what arrives.
use nap_cat_qq_rs.Prelude.{
  ℕ, zero, suc, ◌≤◌, String, ◌≡◌, refl, sym, ap, ◌∙◌, Bool, true, false, Option, List, [], ◌∷◌,
  Result, ok, err, if◌then◌else◌, length, retain, arith,
}
use nap_cat_qq_rs.Event.{EventEnvelope, Received, value, lagged, closed}
use nap_cat_qq_rs.Protocol.{ProtocolEvent, ProtocolError}
use nap_cat_qq_rs.Api.Filter.{is_accepted}
use nap_cat_qq_rs.Api.Listen.{
  Waited, elapsed, received, push_payload, collect, send_payload, ws_loop,
}

module _ {ℓ} {A : Type ℓ} where
  -- `Iterator::take`
  unfoldable pub take : ℕ → List A → List A
  take zero xs = []
  take (suc n) [] = []
  take (suc n) (x ∷ xs) = x ∷ take n xs

  pub length-take-le : (n : ℕ) (xs : List A) → length (take n xs) ≤ n
  unfolding take
  length-take-le zero xs = omega arith
  length-take-le (suc n) [] = omega arith
  length-take-le (suc n) (x ∷ xs) = omega (arith, length-take-le n xs)

  unfoldable pub replicate : ℕ → A → List A
  replicate zero x = []
  replicate (suc n) x = x ∷ replicate n x

module _ {T : Type 0} where
  -- The events that arrive before the first wait without one.
  unfoldable pub arrivals : List (Waited T) → List T
  arrivals (received (value envelope) ∷ waits) = envelope.payload ∷ arrivals waits
  arrivals _ = []

  -- The events that are received before the first gap.
  unfoldable pub heard : List (Received (EventEnvelope T)) → List T
  heard (value envelope ∷ rounds) = envelope.payload ∷ heard rounds
  heard _ = []

push_payload_lem :
    (r : Result ProtocolError String) (rest : List String)
    → elim r [ ok serialized ↦ serialized ∷ rest | err e ↦ rest ] ≡ push_payload r rest
unfolding push_payload
push_payload_lem (ok serialized) rest = refl
push_payload_lem (err e) rest = refl

module _ {Value : Type 0} (payload : ProtocolEvent Value → Result ProtocolError String) where
  -- The events that can be encoded, encoded.
  unfoldable pub encoded : List (ProtocolEvent Value) → List String
  encoded [] = []
  encoded (event ∷ events) =
      let rest = encoded events in
      elim (payload event) [ ok serialized ↦ serialized ∷ rest | err e ↦ rest ]

  pub length-encoded-le :
      (events : List (ProtocolEvent Value)) → length (encoded events) ≤ length events
  unfolding encoded
  length-encoded-le [] = omega arith
  length-encoded-le (event ∷ events) = ground (arith, length-encoded-le events)

  encoded-cons :
      (event : ProtocolEvent Value) (events : List (ProtocolEvent Value))
      → encoded (event ∷ events) ≡ push_payload (payload event) (encoded events)
  unfolding encoded
  encoded-cons event events = push_payload_lem (payload event) (encoded events)

  module _ (event_types : Option (List String)) where
    -- What the filter leaves, encoded.
    abbrev pub passed : List (ProtocolEvent Value) → List String
    passed events = encoded (retain (is_accepted event_types) events)

    passed-cons :
        (event : ProtocolEvent Value) (events : List (ProtocolEvent Value)) (t : Bool)
        → is_accepted event_types event ≡ t
        → passed (event ∷ events)
          ≡ (if t then push_payload (payload event) (passed events) else passed events)
    unfolding retain
    passed-cons event events true h =
        rw h (encoded-cons event (retain (is_accepted event_types) events))
    passed-cons event events false h = rw h refl

    pub collect-passed :
        (budget : ℕ) (waits : List (Waited (ProtocolEvent Value)))
        → collect payload event_types budget waits ≡ passed (take budget (arrivals waits))
    unfolding collect take arrivals retain encoded
    collect-passed zero waits = refl
    collect-passed (suc budget) [] = refl
    collect-passed (suc budget) (elapsed ∷ waits) = refl
    collect-passed (suc budget) (received (lagged n) ∷ waits) = refl
    collect-passed (suc budget) (received closed ∷ waits) = refl
    collect-passed (suc budget) (received (value envelope) ∷ waits) =
        rw (collect-passed budget waits)
          (sym (passed-cons envelope.payload (take budget (arrivals waits)) _ refl))

    taken_step :
        (n k : ℕ) (r : Result ProtocolError String)
        (rounds : List (Received (EventEnvelope (ProtocolEvent Value))))
        → suc k ≤ n
        → ((m : ℕ)
            → k ≤ m
            → ws_loop payload event_types rounds (replicate m true) ≡ passed (heard rounds))
        → send_payload r (replicate n true) (ws_loop payload event_types rounds)
          ≡ push_payload r (passed (heard rounds))
    unfolding send_payload push_payload replicate
    taken_step zero k r rounds h rest = elim h [ ]
    taken_step (suc n) k (ok serialized) rounds h rest =
        ap (λ later. serialized ∷ later) (rest n (omega arith))
    taken_step (suc n) k (err e) rounds h rest = rest (suc n) (omega arith)

    ws_step :
        (n k : ℕ) (event : ProtocolEvent Value)
        (rounds : List (Received (EventEnvelope (ProtocolEvent Value)))) (t : Bool)
        → is_accepted event_types event ≡ t
        → suc k ≤ n
        → ((m : ℕ)
            → k ≤ m
            → ws_loop payload event_types rounds (replicate m true) ≡ passed (heard rounds))
        → (if t
            then send_payload
                (payload event)
                (replicate n true)
                (ws_loop payload event_types rounds)
            else ws_loop payload event_types rounds (replicate n true))
          ≡ passed (event ∷ heard rounds)
    ws_step n k event rounds true a h rest =
        taken_step n k (payload event) rounds h rest ∙ sym (passed-cons event (heard rounds) true a)
    ws_step n k event rounds false a h rest =
        rest n (omega arith) ∙ sym (passed-cons event (heard rounds) false a)

    pub ws_loop-passed :
        (rounds : List (Received (EventEnvelope (ProtocolEvent Value)))) (n : ℕ)
        → length (heard rounds) ≤ n
        → ws_loop payload event_types rounds (replicate n true) ≡ passed (heard rounds)
    unfolding ws_loop heard retain encoded
    ws_loop-passed [] n h = refl
    ws_loop-passed (lagged k ∷ rounds) n h = refl
    ws_loop-passed (closed ∷ rounds) n h = refl
    ws_loop-passed (value envelope ∷ rounds) n h =
        ws_step n (length (heard rounds)) envelope.payload rounds _ refl h (ws_loop-passed rounds)
