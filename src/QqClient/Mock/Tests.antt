-- ===== src/QqClient/Mock/Tests.antt =====
-- Runs of `MockQQClient`, and the theorems on it at concrete inputs.
use nap_cat_qq_rs.Prelude.{◌≡◌, refl, ◌++◌, none, List, [], ◌∷◌}
use nap_cat_qq_rs.Text.{is_blank}
use nap_cat_qq_rs.QqClient.{QqClientConfig, Packet, logged_in}
use nap_cat_qq_rs.QqClient.Mock.{
  MockQqClient, default, Call, connects, logs_in, sends, receives, injects, step, run,
}
use nap_cat_qq_rs.QqClient.Mock.Session.{IsSession, run-IsSession}
use nap_cat_qq_rs.QqClient.Mock.Queue.{received, inbound_fifo}

abbrev local_config : QqClientConfig
local_config = record { endpoint = "mock://localhost"; token = none; timeout_ms = 2000 }

abbrev hello : Packet
hello = record { route = "message.send"; payload = "hi" }

abbrev session : List Call
session =
    connects local_config ∷ logs_in "alice" "secret" ∷ sends hello ∷ injects hello ∷ receives ∷ []

abbrev alice : MockQqClient
alice = run default (connects local_config ∷ logs_in "alice" "secret" ∷ [])

run-IsSession_example : IsSession (run default session)
run-IsSession_example = run-IsSession default session (refl, refl, refl, refl)

inbound_fifo_example :
    received default session ++ (run default session).inbound_packets ≡ hello ∷ []
inbound_fifo_example = inbound_fifo default session tt

alice_state : alice.state ≡ logged_in
unfolding run step is_blank
alice_state = refl

alice_timeout : alice.timeout_ms ≡ 2000
unfolding run step is_blank
alice_timeout = refl
