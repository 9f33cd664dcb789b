-- ===== src/Protocol/OneBot/Tests.antt =====
-- Runs of `OneBotHttpBackend`, and the theorem on it at a concrete input.
use nap_cat_qq_rs.Prelude.{ℕ, ◌≡◌, refl, true, false, none, some, [], ◌∷◌, ok}
use nap_cat_qq_rs.Message.{MessageRecipient, text, at}
use nap_cat_qq_rs.Protocol.OneBot.{
  OneBotHttpBackend, Http, new_config, new, endpoint_url, message_to_plain_text,
}

-- A server that answers every request with success, and every look with itself.
abbrev http : Http ℕ
http = record {
  send = λ request. ok (record { is_success = true; status = "200"; json = ok 1 });
  get_field = λ name value. some value;
  as_bool = λ value. some true;
  show = λ value. "1";
}

abbrev backend : OneBotHttpBackend
backend = record {
  base_url = "http://h/";
  access_token = none;
  listen_timeout_ms = 600;
  listen_max_events = 8;
  connected = false;
  listening = false;
  stop_requested = false;
}

backend_built : new (new_config "http://h/") ≡ backend
unfolding new new_config
backend_built = refl

status_url : endpoint_url backend "/get_status" ≡ "http://h/get_status"
unfolding endpoint_url
status_url = refl

plain_text :
    message_to_plain_text http (record {
      id = "1";
      sender_id = "u1";
      recipient = MessageRecipient.group "g1";
      elements = at "u2" ∷ text " hi" ∷ [];
    })
    ≡ "[@u2] hi"
unfolding message_to_plain_text
plain_text = refl
