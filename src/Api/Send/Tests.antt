-- ===== src/Api/Send/Tests.antt =====
-- The sending routes at concrete requests.
use mathlib.Core.Option
use nap_cat_qq_rs.Prelude.{ℕ, ◌≡◌, ◌⊎◌, refl, true, false, some, [], ◌∷◌, ok, err}
use nap_cat_qq_rs.Text.{trim, is_blank}
use nap_cat_qq_rs.Message.{Message, text_message}
use nap_cat_qq_rs.QqClient.{ConnectionState, Packet}
use nap_cat_qq_rs.QqClient.Mock
use nap_cat_qq_rs.QqClient.Mock.{MockQqClient}
use nap_cat_qq_rs.Protocol.{Codec, message_received}
use nap_cat_qq_rs.Protocol.Qq.{QqClientBackend}
use nap_cat_qq_rs.Protocol.Qq.Connect.{mock_client}
use nap_cat_qq_rs.Protocol.Backends.{qq_backend}
use nap_cat_qq_rs.Api.{ApiError, ok_envelope, event_dispatch, ApiState, accepted, elapsed}
use nap_cat_qq_rs.Api.Send.{message_id_from_text, send_private_msg, SendPrivateRequest}
use nap_cat_qq_rs.Api.Send.Laws
use nap_cat_qq_rs.Api.Send.Laws.{SendRoute, IsSendable, message_of, handle, Outcome, handle-Outcome}
use nap_cat_qq_rs.Api.Send.Delivery.{outgoing, retried_send_sent_twice, private_msg_sent}

-- Every message is encoded as `hi`.
abbrev codec : Codec ℕ
codec = record { encode = λ message. ok "hi"; decode = λ payload. ok (outgoing "u1" "hi") }

abbrev online : QqClientBackend MockQqClient
online = record {
  client = record Mock.default { state = ConnectionState.logged_in };
  config = record {
    endpoint = "mock://localhost";
    account = some "alice";
    password = some "secret";
    connect_timeout_ms = 2000;
    listen_poll_ms = 150;
  };
  connected = true;
  logged_in = true;
  listening = true;
  stop_requested = false;
  has_task = true;
  aborted = 0;
}

abbrev served : ApiState (QqClientBackend MockQqClient) ℕ
served = record {
  plugin_manager = record { plugins = [] };
  dispatched = [];
  protocol = some online;
  runtime_running = true;
  runtime_groups = [];
  runtime_users = [];
}

abbrev sent : QqClientBackend MockQqClient
sent = record online {
  client = record online.client {
    sent_packets = record { route = "message.private"; payload = "hi" } ∷ [];
  };
}

abbrev to_u1 : SendRoute ℕ
to_u1 = Laws.private (record { user_id = " u1 "; message = "hi" })

to_u1_message : message_of to_u1 ≡ ok (outgoing "u1" "hi")
unfolding message_of text_message message_id_from_text is_blank trim
to_u1_message = refl

handle-Outcome_example :
    ((m : Message ℕ) × (message_of to_u1 ≡ ok m)
      × IsSendable m
      × Outcome
          (qq_backend mock_client codec)
          m
          served
          (handle (qq_backend mock_client codec) accepted to_u1 served))
    ⊎ ((e : ApiError) × (message_of to_u1 ≡ err e)
        × (handle (qq_backend mock_client codec) accepted to_u1 served ≡ (err e, served)))
handle-Outcome_example = handle-Outcome (qq_backend mock_client codec) accepted to_u1 served

retried_send_sent_twice_example :
    let request : SendPrivateRequest = record { user_id = " u1 "; message = "hi" } in
    let packet : Packet = record { route = "message.private"; payload = "hi" } in
    let server = qq_backend mock_client codec in
    let (first, once) = send_private_msg server elapsed request served in
    let (second, twice) = send_private_msg server accepted request once in
    (first ≡ err (event_dispatch "event dispatch timed out"))
    × (once.dispatched ≡ [])
    × (second
        ≡ ok (ok_envelope (record { accepted = true; message_id = message_id_from_text "hi" })))
    × (twice.dispatched ≡ message_received (outgoing " u1 " "hi") ∷ [])
    × (Option.map (λ backend. backend.client.sent_packets) twice.protocol
        ≡ some (packet ∷ packet ∷ []))
unfolding is_blank
retried_send_sent_twice_example =
    retried_send_sent_twice codec online refl refl refl served " u1 " "hi" "hi" refl refl refl refl

private_msg_sent_example :
    send_private_msg
      (qq_backend mock_client codec)
      accepted
      (record { user_id = " u1 "; message = "hi" })
      served
    ≡ (
      ok (ok_envelope (record { accepted = true; message_id = message_id_from_text "hi" })),
      record served {
        protocol = some sent;
        dispatched = message_received (outgoing " u1 " "hi") ∷ [];
      },
    )
unfolding is_blank
private_msg_sent_example =
    private_msg_sent codec online refl refl refl served " u1 " "hi" "hi" refl refl refl refl
