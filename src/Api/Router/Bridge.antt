-- ===== src/Api/Router/Bridge.antt =====
-- `OneBotHttpBackend` of napcat-rs/crates/protocol as a client of the routes of napcat-rs/crates/api:
-- the base URL of the one names the other.
use mathlib.Core.Option
use nap_cat_qq_rs.Prelude.{
  ◌^◌, ◌<◌, min, max, String, ◌≡◌, refl, ap, true, false, Option, none, some, [], ◌∷◌, ◌++◌, ok,
}
use nap_cat_qq_rs.Text.{is_blank}
use nap_cat_qq_rs.Text.Decimal.{parse_uint-to_decimal}
use nap_cat_qq_rs.Message.{MessageRecipient, Message, text_message}
use nap_cat_qq_rs.Protocol.{message_received, ProtocolBackend}
use nap_cat_qq_rs.Protocol.OneBot.{
  OneBotHttpBackend, Body, request, endpoint_url, trim_start_slashes, send_request, poll_request,
}
use nap_cat_qq_rs.Api.{ok_envelope, ApiState, accepted, emit_event}
use nap_cat_qq_rs.Api.Filter.{ListenQuery}
use nap_cat_qq_rs.Api.Listen.{timeout_of, max_events_of}
use nap_cat_qq_rs.Api.Send.{
  SendResponse, Handled, message_id_from_text, into_napcat_message, recipient_of, trim_recipient,
  to_protocol, sent_answer, push_result, push_send_event, push_if_ok,
}
use nap_cat_qq_rs.Api.Send.Compat.{address}
use nap_cat_qq_rs.Api.Send.Laws.{
  SendRoute, private, group, message_of, handle, push_if_ok-message_of,
}
use nap_cat_qq_rs.Api.Router.{Handler}
use nap_cat_qq_rs.Api.Router.Laws.{Axum, every_route_served}
use nap_cat_qq_rs.Api.Router.Arrival.{Extract, Arrives, listen_route, send-Arrives}

module _ {Value : Type 0} (extract : Extract) where
  -- What a handler is asked with a body.
  abbrev pub asked : Handler → Option Body → Option (SendRoute Value)
  asked Handler.send_private_msg (some body) = Option.map private (extract.private_of body)
  asked Handler.send_group_msg (some body) = Option.map group (extract.group_of body)
  asked _ _ = none

-- A round of the OneBot listener arrives at `listen_messages`, which waits for each event as long as
-- the listener is configured to, and answers as many events at most as it is configured for, but one
-- at least and 32 at most; for a timeout and a number of events of 64 bits.
pub poll_served :
    (axum : Axum) (extract : Extract) (backend : OneBotHttpBackend)
    → backend.listen_timeout_ms < 2 ^ 64
    → backend.listen_max_events < 2 ^ 64
    → Arrives axum backend.base_url (poll_request backend) Handler.listen_messages
      × ((query : ListenQuery) × (extract.query_of (poll_request backend).query ≡ some query)
          × (timeout_of query ≡ backend.listen_timeout_ms)
          × (max_events_of query ≡ min (max backend.listen_max_events 1) 32))
unfolding poll_request request endpoint_url trim_start_slashes timeout_of max_events_of
poll_served axum extract backend t n = (
  record {
    path = "/message/listen";
    addressed = refl;
    served = (every_route_served axum _ listen_route).1;
  },
  (
    _,
    extract.reads_query _ _ _ _ (parse_uint-to_decimal (2 ^ 64) backend.listen_timeout_ms t)
        (parse_uint-to_decimal (2 ^ 64) backend.listen_max_events n),
    refl,
    refl,
  ),
)

-- The message that the server makes of a text for a recipient.
abbrev pub relayed : {Value : Type 0} → MessageRecipient → String → Message Value
relayed recipient payload =
    text_message (message_id_from_text payload) "api" (trim_recipient recipient) payload

private_made :
    {Value : Type 0} (user_id payload : String)
    → is_blank user_id ≡ false
    → is_blank payload ≡ false
    → message_of {Value = Value} (private (record { user_id = user_id; message = payload }))
      ≡ ok (relayed (MessageRecipient.private user_id) payload)
unfolding message_of into_napcat_message recipient_of is_blank trim_recipient
private_made user_id payload u p = rw (p, u) refl

group_made :
    {Value : Type 0} (group_id payload : String)
    → is_blank group_id ≡ false
    → is_blank payload ≡ false
    → message_of {Value = Value} (group (record { group_id = group_id; message = payload }))
      ≡ ok (relayed (MessageRecipient.group group_id) payload)
unfolding message_of into_napcat_message recipient_of is_blank trim_recipient
group_made group_id payload u p = rw (p, u) refl

module _ {Backend Value : Type 0} (server : ProtocolBackend Backend Value) where
  -- The answer to a message that is sent, and the state after it.
  abbrev pub sent :
      Message Value → Option Backend → ApiState Backend Value → Handled Backend Value SendResponse
  sent m protocol state = (
    ok (ok_envelope (record { accepted = true; message_id = m.id })),
    record state { protocol = protocol; dispatched = state.dispatched ++ message_received m ∷ [] },
  )

  route_sent :
      (route : SendRoute Value) (m : Message Value) (state : ApiState Backend Value)
      (protocol : Option Backend)
      → message_of route ≡ ok m
      → to_protocol server state.protocol m ≡ (ok tt, protocol)
      → handle server accepted route state ≡ sent m protocol state
  unfolding push_if_ok push_send_event push_result emit_event sent_answer
  route_sent route m state protocol h k =
      rw (push_if_ok-message_of server accepted route state, h, k) refl

  -- What the OneBot backend posts for a message arrives at the handler for the channel of its
  -- recipient, which asks the server to send the same text to the trimmed recipient: the protocol of
  -- the server is given it, and if it takes it, the event is dispatched and the answer carries its
  -- id. For a recipient and a text that are not blank, and room in the queue.
  pub posted_sent :
      (axum : Axum) (extract : Extract) (backend : OneBotHttpBackend) (recipient : MessageRecipient)
      (payload : String) (state : ApiState Backend Value) (protocol : Option Backend)
      → is_blank (address recipient) ≡ false
      → is_blank payload ≡ false
      → to_protocol server state.protocol (relayed recipient payload) ≡ (ok tt, protocol)
      → (handler : Handler) × (route : SendRoute Value) × Arrives axum backend.base_url
          (send_request backend recipient payload)
          handler
        × (asked extract handler (send_request backend recipient payload).body ≡ some route)
        × (handle server accepted route state ≡ sent (relayed recipient payload) protocol state)
  unfolding send_request request
  posted_sent axum extract backend (MessageRecipient.private user_id) payload state protocol u p k =
      (
        Handler.send_private_msg,
        private (record { user_id = user_id; message = payload }),
        send-Arrives axum backend (MessageRecipient.private user_id) payload,
        ap (Option.map private) (extract.reads_private user_id payload),
        route_sent _ _ state protocol (private_made user_id payload u p) k,
      )
  posted_sent axum extract backend (MessageRecipient.group group_id) payload state protocol u p k =
      (
        Handler.send_group_msg,
        group (record { group_id = group_id; message = payload }),
        send-Arrives axum backend (MessageRecipient.group group_id) payload,
        ap (Option.map group) (extract.reads_group group_id payload),
        route_sent _ _ state protocol (group_made group_id payload u p) k,
      )
