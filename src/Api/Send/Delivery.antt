-- ===== src/Api/Send/Delivery.antt =====
-- A send from the API server down to the client that puts the packet on the wire, and a send whose
-- event is not dispatched in time.
use mathlib.Core.Option
use nap_cat_qq_rs.Prelude.{
  String, ◌≡◌, refl, true, false, Option, some, [], ◌∷◌, ◌++◌, ok, err, arith, eqb,
}
use nap_cat_qq_rs.Text.{trim, is_blank}
use nap_cat_qq_rs.Message.{MessageRecipient, Message, text_message}
use nap_cat_qq_rs.QqClient.{ConnectionState, Packet}
use nap_cat_qq_rs.QqClient.Mock
use nap_cat_qq_rs.QqClient.Mock.{MockQqClient}
use nap_cat_qq_rs.Protocol.{message_received, ProtocolBackend, Codec, message_to_packet, route_of}
use nap_cat_qq_rs.Protocol.Qq
use nap_cat_qq_rs.Protocol.Qq.{QqClientBackend}
use nap_cat_qq_rs.Protocol.Qq.Connect.{mock_client}
use nap_cat_qq_rs.Protocol.Backends.{qq_backend}
use nap_cat_qq_rs.Api.{ok_envelope, event_dispatch, ApiState, accepted, elapsed, emit_event}
use nap_cat_qq_rs.Api.Send.{
  message_id_from_text, into_napcat_message, recipient_of, to_protocol, sent_answer, push_result,
  push_send_event, push_if_ok, send_private_msg, SendPrivateRequest,
}
use nap_cat_qq_rs.Api.Send.Laws.{SendRoute, message_of, handle, push_if_ok-message_of}

-- When the dispatch queue has no room in time, a sending route answers an error although the protocol
-- has taken the message and keeps it as sent.
timed_out_send_delivered :
    {Backend Value : Type 0} (backend : ProtocolBackend Backend Value) (route : SendRoute Value)
    (m : Message Value) (state : ApiState Backend Value) (protocol : Option Backend)
    → message_of route ≡ ok m
    → to_protocol backend state.protocol m ≡ (ok tt, protocol)
    → handle backend elapsed route state
      ≡ (err (event_dispatch "event dispatch timed out"), record state { protocol = protocol })
unfolding push_if_ok push_send_event push_result emit_event sent_answer
timed_out_send_delivered backend route m state protocol h k =
    rw (push_if_ok-message_of backend elapsed route state, h, k) refl

-- A client that has sent one more private message.
abbrev pub with_packet : String → QqClientBackend MockQqClient → QqClientBackend MockQqClient
with_packet payload qq = record qq {
  client = record qq.client {
    sent_packets =
        qq.client.sent_packets ++ record { route = "message.private"; payload = payload } ∷ [];
  };
}

-- The message that `send_private_msg` makes.
abbrev pub outgoing : {Value : Type 0} → String → String → Message Value
outgoing user_id message =
    text_message (message_id_from_text message) "api" (MessageRecipient.private (trim user_id))
      message

module _ {Value : Type 0} (codec : Codec Value) (qq : QqClientBackend MockQqClient)
    (connected : qq.connected ≡ true) (logged_in : qq.client.state ≡ ConnectionState.logged_in)
    (limited : eqb qq.client.timeout_ms 0 ≡ false) where
  -- A connected and logged in client takes a message that can be encoded.
  takes :
      (m : Message Value) (payload : String)
      → codec.encode m ≡ ok payload
      → to_protocol (qq_backend mock_client codec) (some qq) m ≡ (
        ok tt,
        some (record qq {
          client = record qq.client {
            sent_packets =
                qq.client.sent_packets
                ++ record { route = route_of m.recipient; payload = payload } ∷ [];
          };
        }),
      )
  unfolding to_protocol Qq.send_message message_to_packet Mock.send_packet
  takes m payload h = ground arith

  -- `send_private_msg` over a logged in QQ backend puts one packet on the wire, on the private
  -- route, with the encoded message for the trimmed user, dispatches its event and answers with the
  -- id of the text.
  pub private_msg_sent :
      (state : ApiState (QqClientBackend MockQqClient) Value) (user_id message payload : String)
      → state.protocol ≡ some qq
      → is_blank user_id ≡ false
      → is_blank message ≡ false
      → codec.encode (outgoing user_id message) ≡ ok payload
      → send_private_msg
          (qq_backend mock_client codec)
          accepted
          (record { user_id = user_id; message = message })
          state
        ≡ (
          ok (ok_envelope (record { accepted = true; message_id = message_id_from_text message })),
          record state {
            protocol = some (record qq {
              client = record qq.client {
                sent_packets =
                    qq.client.sent_packets
                    ++ record { route = "message.private"; payload = payload } ∷ [];
              };
            });
            dispatched = state.dispatched ++ message_received (outgoing user_id message) ∷ [];
          },
        )
  unfolding send_private_msg push_if_ok into_napcat_message recipient_of push_send_event push_result
      sent_answer emit_event is_blank text_message route_of
  private_msg_sent state user_id message payload p u m e =
      let took = takes (outgoing user_id message) payload e in rw (m, u, p, took) refl

  -- Without room in time, the packet is on the wire and the answer is an error.
  timed_out :
      (state : ApiState (QqClientBackend MockQqClient) Value) (user_id message payload : String)
      → state.protocol ≡ some qq
      → is_blank user_id ≡ false
      → is_blank message ≡ false
      → codec.encode (outgoing user_id message) ≡ ok payload
      → send_private_msg
          (qq_backend mock_client codec)
          elapsed
          (record { user_id = user_id; message = message })
          state
        ≡ (
          err (event_dispatch "event dispatch timed out"),
          record state { protocol = some (with_packet payload qq) },
        )
  unfolding send_private_msg push_if_ok into_napcat_message recipient_of push_send_event push_result
      sent_answer emit_event is_blank text_message route_of
  timed_out state user_id message payload p u m e =
      let took = takes (outgoing user_id message) payload e in rw (m, u, p, took) refl

module _ {Value : Type 0} (codec : Codec Value) (qq : QqClientBackend MockQqClient)
    (connected : qq.connected ≡ true) (logged_in : qq.client.state ≡ ConnectionState.logged_in)
    (limited : eqb qq.client.timeout_ms 0 ≡ false) where
  -- The defect: over a logged in QQ backend, when the dispatch queue has no room in time,
  -- `send_private_msg` answers that the dispatch timed out and dispatches nothing, though the
  -- packet is on the wire; a client that sends the same request again, and finds room, is answered
  -- that it was accepted, and then the packet has been sent twice and its event dispatched once.
  pub retried_send_sent_twice :
      (state : ApiState (QqClientBackend MockQqClient) Value) (user_id message payload : String)
      → state.protocol ≡ some qq
      → is_blank user_id ≡ false
      → is_blank message ≡ false
      → codec.encode (outgoing user_id message) ≡ ok payload
      → let request : SendPrivateRequest = record { user_id = user_id; message = message } in
        let packet : Packet = record { route = "message.private"; payload = payload } in
        let server = qq_backend mock_client codec in
        let (first, once) = send_private_msg server elapsed request state in
        let (second, twice) = send_private_msg server accepted request once in
        (first ≡ err (event_dispatch "event dispatch timed out"))
        × (once.dispatched ≡ state.dispatched)
        × (second
            ≡ ok (
                ok_envelope
                  (record { accepted = true; message_id = message_id_from_text message })))
        × (twice.dispatched ≡ state.dispatched ++ message_received (outgoing user_id message) ∷ [])
        × (Option.map (λ backend. backend.client.sent_packets) twice.protocol
            ≡ some ((qq.client.sent_packets ++ packet ∷ []) ++ packet ∷ []))
  retried_send_sent_twice state user_id message payload p u m e =
      let once = record state { protocol = some (with_packet payload qq) } in
      rw
        (
          timed_out codec qq connected logged_in limited state user_id message payload p u m e,
          private_msg_sent codec (with_packet payload qq) connected logged_in limited once user_id
              message payload refl u m e,
        )
        (refl, refl, refl, refl, refl)
