-- ===== src/Api/Relay/Tests.antt =====
-- The relay at concrete rounds of the listener.
use nap_cat_qq_rs.Prelude.{ℕ, ◌≡◌, refl, true, false, some, [], ◌∷◌, ok}
use nap_cat_qq_rs.Message.{MessageRecipient, Message, text}
use nap_cat_qq_rs.Protocol.{Codec, disconnected}
use nap_cat_qq_rs.Protocol.Qq
use nap_cat_qq_rs.Protocol.Qq.{listen_loop}
use nap_cat_qq_rs.Api.Relay.{dispatch_loop}

abbrev greeting : Message ℕ
greeting = record {
  id = "1";
  sender_id = "u1";
  recipient = MessageRecipient.group "g1";
  elements = text "hi" ∷ [];
}

abbrev codec : Codec ℕ
codec = record { encode = λ message. ok "hi"; decode = λ payload. ok greeting }

abbrev inbound : Qq.Round
inbound = record {
  connected = true;
  stop_requested = false;
  received = ok (some (record { route = "message.received"; payload = "hi" }));
  delivered = true;
}

abbrev stopped : Qq.Round
stopped = record inbound { stop_requested = true }

sent_to_bus :
    dispatch_loop {Value = ℕ} ((disconnected, some 7) ∷ [])
    ≡ record { source = "api"; kind = "protocol-event"; at_millis = 7; payload = disconnected } ∷ []
unfolding dispatch_loop
sent_to_bus = refl
