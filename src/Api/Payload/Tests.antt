-- ===== src/Api/Payload/Tests.antt =====
-- The JSON values of concrete events.
use nap_cat_qq_rs.Prelude.{ℕ, ◌≡◌, refl, [], ◌∷◌, ok, err}
use nap_cat_qq_rs.Message.{MessageRecipient, Message}
use nap_cat_qq_rs.Message
use nap_cat_qq_rs.Protocol.{ProtocolEvent, message_received, transport}
use nap_cat_qq_rs.Api.Payload.{onebot_event_payload}

abbrev greeting : Message ℕ
greeting = record {
  id = "1";
  sender_id = "u1";
  recipient = MessageRecipient.group "g1";
  elements = Message.text "hi" ∷ [];
}

abbrev received : ProtocolEvent ℕ
received = message_received greeting

clock_before_1970 :
    onebot_event_payload (λ elements. 0) (λ payload. ok "{}") (err "early") received
    ≡ err (transport "early")
unfolding onebot_event_payload
clock_before_1970 = refl
