-- ===== src/Api/Send/Laws.antt =====
-- What the four sending routes emit.
use mathlib.Core.Path.{subst}
use nap_cat_qq_rs.Prelude.{
  ◌≡◌, refl, true, false, Option, [], ◌∷◌, ◌++◌, Result, ok, err, Result-cases, inl, inr, ◌⊎◌, ◌>>◌,
  is_empty, arith,
}
use nap_cat_qq_rs.Text.{is_blank}
use nap_cat_qq_rs.Message.{Message, text_message}
use nap_cat_qq_rs.Protocol.{message_received, ProtocolBackend, ProtocolError}
use nap_cat_qq_rs.Api.{ApiError, ok_envelope, ApiState, Room, accepted, elapsed, closed, emit_event}
use nap_cat_qq_rs.Api.Send.Compat.{
  address, address-validate_recipient, recipient_of-visible, id_visible, private_request,
  group_request,
}
use nap_cat_qq_rs.Api.Send.{
  CompatSendRequest, SendPrivateRequest, SendGroupRequest, SendResponse, Handled, trim_message,
  validate_message, validate_message_payload, recipient_of, into_napcat_message, to_protocol,
  sent_answer, push_result, push_send_event, push_if_ok, send_message, send_msg_compat,
  send_private_msg, send_group_msg,
}

-- What a client asks of one of the four routes that send.
pub data SendRoute (Value : Type 0) : Type 0 where
  message : Message Value → SendRoute Value
  compat : CompatSendRequest → SendRoute Value
  private : SendPrivateRequest → SendRoute Value
  group : SendGroupRequest → SendRoute Value

api_visible : is_blank "api" ≡ false
unfolding is_blank
api_visible = refl

module _ {Value : Type 0} where
  -- A message whose id, sender and recipient are not blank, and which has elements.
  abbrev pub IsSendable : Message Value → Type 0
  IsSendable m =
      (is_blank m.id ≡ false)
      × (is_blank m.sender_id ≡ false)
      × (is_blank (address m.recipient) ≡ false)
      × (is_empty m.elements ≡ false)

  -- A message that passes both checks.
  validated : Message Value → Result ApiError (Message Value)
  validated m = validate_message_payload m >> (validate_message m >> ok m)

  payload-checked :
      (m : Message Value) (u : Unit {0})
      → validate_message_payload m ≡ ok u
      → (is_blank m.id ≡ false) × (is_blank m.sender_id ≡ false) × (is_empty m.elements ≡ false)
  unfolding validate_message_payload
  payload-checked m u h = ground arith

  validated-IsSendable :
      (m made : Message Value) → validated m ≡ ok made → (m ≡ made) × IsSendable m
  unfolding validated validate_message
  validated-IsSendable m made h = elim (Result-cases (validate_message_payload m)) [
    | inr (e, p) ↦ ground arith
    | inl (u, p) ↦ elim (Result-cases (validate_message m)) [
      | inr (e, q) ↦ ground arith
      | inl (v, q) ↦
          ground (arith, payload-checked m u p, address-validate_recipient m.recipient v q)
    ]
  ]

  into_napcat_message-IsSendable :
      (request : CompatSendRequest) (made : Message Value)
      → into_napcat_message request ≡ ok made
      → IsSendable made
  unfolding into_napcat_message text_message
  into_napcat_message-IsSendable request made h =
      elim (Result-cases (recipient_of request request.message_type)) [
        | inr (e, q) ↦ ground arith
        | inl (recipient, q) ↦ ground (
          arith,
          recipient_of-visible request request.message_type recipient q,
          id_visible request.message,
          api_visible,
        )
      ]

  -- The message of a request.
  unfoldable pub message_of : SendRoute Value → Result ApiError (Message Value)
  unfolding validated into_napcat_message
  message_of (message m) = validated (trim_message m)
  message_of (compat request) = into_napcat_message request
  message_of (private request) = into_napcat_message (private_request request)
  message_of (group request) = into_napcat_message (group_request request)

  message_of-IsSendable :
      (route : SendRoute Value) (made : Message Value)
      → message_of route ≡ ok made
      → IsSendable made
  unfolding message_of validated into_napcat_message
  message_of-IsSendable (message m) made h =
      subst IsSendable (validated-IsSendable (trim_message m) made h).0
        (validated-IsSendable (trim_message m) made h).1
  message_of-IsSendable (compat request) made h = into_napcat_message-IsSendable request made h
  message_of-IsSendable (private request) made h =
      into_napcat_message-IsSendable (private_request request) made h
  message_of-IsSendable (group request) made h =
      into_napcat_message-IsSendable (group_request request) made h

module _ {Backend Value : Type 0} (backend : ProtocolBackend Backend Value) where
  -- The handler of a request.
  unfoldable pub handle :
      Room → SendRoute Value → ApiState Backend Value → Handled Backend Value SendResponse
  unfolding send_message send_msg_compat send_private_msg send_group_msg
  handle room (message m) state = send_message backend room m state
  handle room (compat request) state = send_msg_compat backend room request state
  handle room (private request) state = send_private_msg backend room request state
  handle room (group request) state = send_group_msg backend room request state

  -- A route pushes the message that it makes.
  pub push_if_ok-message_of :
      (room : Room) (route : SendRoute Value) (state : ApiState Backend Value)
      → handle room route state ≡ push_if_ok backend room (message_of route) state
  unfolding handle message_of validated send_message into_napcat_message
  push_if_ok-message_of room (message m) state = refl
  push_if_ok-message_of room (compat request) state = ground arith
  push_if_ok-message_of room (private request) state = ground arith
  push_if_ok-message_of room (group request) state = ground arith

  -- The parts of the state that no sending route touches.
  abbrev pub SameRuntime : ApiState Backend Value → ApiState Backend Value → Type 0
  SameRuntime before after =
      (after.plugin_manager ≡ before.plugin_manager)
      × (after.runtime_running ≡ before.runtime_running)
      × (after.runtime_groups ≡ before.runtime_groups)
      × (after.runtime_users ≡ before.runtime_users)

  -- The protocol took the message, its event was dispatched, and the answer carries its id.
  abbrev pub WasSent :
      Message Value → ApiState Backend Value → Handled Backend Value SendResponse → Type 0
  WasSent m before (r, after) =
      (r ≡ ok (ok_envelope (record { accepted = true; message_id = m.id })))
      × (to_protocol backend before.protocol m ≡ (ok tt, after.protocol))
      × (after.dispatched ≡ before.dispatched ++ message_received m ∷ [])

  -- The request was refused, and nothing was dispatched.
  abbrev pub WasRefused : ApiState Backend Value → Handled Backend Value SendResponse → Type 0
  WasRefused before (r, after) =
      (e : ApiError) × (r ≡ err e) × (after.dispatched ≡ before.dispatched)

  -- What a sending route does.
  abbrev pub Outcome :
      Message Value → ApiState Backend Value → Handled Backend Value SendResponse → Type 0
  Outcome m before handled =
      SameRuntime before handled.1 × (WasSent m before handled ⊎ WasRefused before handled)

  push_step :
      (room : Room) (m : Message Value) (state : ApiState Backend Value)
      (r : Result ProtocolError (Unit {0})) (protocol : Option Backend)
      → to_protocol backend state.protocol m ≡ (r, protocol)
      → Outcome m state (push_send_event backend room m state)
  unfolding push_send_event push_result sent_answer emit_event
  push_step room m state (err e) protocol h = rw h ((refl, refl, refl, refl), inr (_, refl, refl))
  push_step accepted m state (ok u) protocol h =
      rw h ((refl, refl, refl, refl), inl (refl, refl, refl))
  push_step elapsed m state (ok u) protocol h = rw h ((refl, refl, refl, refl), inr (_, refl, refl))
  push_step (closed e) m state (ok u) protocol h =
      rw h ((refl, refl, refl, refl), inr (_, refl, refl))

  -- Each of the four sending routes either refuses, with nothing dispatched, or makes one message,
  -- gives it to the protocol, if there is one, which takes it, dispatches its event once and answers
  -- with its id. The message that it makes is sendable. No other part of the state changes.
  pub handle-Outcome :
      (room : Room) (route : SendRoute Value) (state : ApiState Backend Value)
      → ((m : Message Value) × (message_of route ≡ ok m)
          × IsSendable m
          × Outcome m state (handle room route state))
        ⊎ ((e : ApiError) × (message_of route ≡ err e) × (handle room route state ≡ (err e, state)))
  unfolding push_if_ok
  handle-Outcome room route state = elim (Result-cases (message_of route)) [
    | inl (m, h) ↦ inl (
      m,
      h,
      message_of-IsSendable route m h,
      rw (push_if_ok-message_of room route state, h) (push_step room m state _ _ refl),
    )
    | inr (e, h) ↦ inr (e, h, rw (push_if_ok-message_of room route state, h) refl)
  ]
