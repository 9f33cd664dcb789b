-- ===== src/Protocol/Qq/Tests.antt =====
-- Runs of `QQClientBackend` over `MockQQClient`, and the theorems on it at concrete inputs.
use nap_cat_qq_rs.Protocol.Qq.Listener.{events_of}
use nap_cat_qq_rs.Protocol.{route_of}
use nap_cat_qq_rs.Prelude.{ℕ, String, ◌≡◌, refl, true, false, some, [], ◌∷◌, ok}
use nap_cat_qq_rs.Text.{is_blank}
use nap_cat_qq_rs.Message.{MessageRecipient, text, Message}
use nap_cat_qq_rs.QqClient.Mock
use nap_cat_qq_rs.QqClient.Mock.{MockQqClient}
use nap_cat_qq_rs.Protocol.{connected, disconnected, Codec, decode_inbound_packet}
use nap_cat_qq_rs.Protocol.Qq.{
  QqClientBackend, Round, new_config, with_credentials, new, connect, send_message, listen_loop,
}
use nap_cat_qq_rs.Protocol.Qq.Connect.{mock_client, connect_delivers}
use nap_cat_qq_rs.Protocol.Qq.Listener.{listen_faithful, stop_ends_listener}

abbrev greeting : Message ℕ
greeting = record {
  id = "1";
  sender_id = "u1";
  recipient = MessageRecipient.group "g1";
  elements = text "hi" ∷ [];
}

-- Every message is encoded as `hi`.
abbrev codec : Codec ℕ
codec = record { encode = λ message. ok "hi"; decode = λ payload. ok greeting }

abbrev backend_of : String → QqClientBackend MockQqClient
backend_of password = record {
  client = Mock.default;
  config = record {
    endpoint = "";
    account = some "alice";
    password = some password;
    connect_timeout_ms = 2000;
    listen_poll_ms = 150;
  };
  connected = false;
  logged_in = false;
  listening = false;
  stop_requested = false;
  has_task = false;
  aborted = 0;
}

backend_built :
    new Mock.default (with_credentials "alice" "secret" (new_config "")) ≡ backend_of "secret"
unfolding new with_credentials new_config
backend_built = refl

connect_delivers_example :
    let online = (connect mock_client "mock://localhost" (backend_of "secret")).1 in
    ((connect mock_client "mock://localhost" (backend_of "secret")).0 ≡ ok tt)
    × ((send_message mock_client codec greeting online).0 ≡ ok tt)
    × ((send_message mock_client codec greeting online).1.client.sent_packets
        ≡ record { route = "message.group"; payload = "hi" } ∷ [])
unfolding is_blank route_of
connect_delivers_example =
    connect_delivers "mock://localhost" "alice" "secret" (backend_of "secret") refl refl refl refl
      codec greeting "hi" refl refl refl

abbrev running : Round
running = record {
  connected = true;
  stop_requested = false;
  received = ok (some (record { route = "client.connected"; payload = "e" }));
  delivered = true;
}

listen_faithful_example :
    listen_loop codec (running ∷ record running { stop_requested = true } ∷ [])
    ≡ (connected "e" ∷ disconnected ∷ [], true)
unfolding decode_inbound_packet events_of
listen_faithful_example =
    listen_faithful codec (running ∷ []) (record running { stop_requested = true }) []
      (record { connected = refl; asked = refl; delivered = refl }, tt) refl

stop_ends_listener_example :
    ((listen_loop codec (running ∷ record running { stop_requested = true } ∷ [])).1 ≡ true)
    × (listen_loop codec (running ∷ record running { stop_requested = true } ∷ running ∷ [])
        ≡ listen_loop codec (running ∷ record running { stop_requested = true } ∷ []))
stop_ends_listener_example =
    stop_ends_listener codec (running ∷ []) (record running { stop_requested = true })
      (running ∷ []) refl
