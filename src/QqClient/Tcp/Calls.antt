-- ===== src/QqClient/Tcp/Calls.antt =====
-- Histories of calls of a `TcpQQClient`.
use nap_cat_qq_rs.Prelude.{ℕ, String, List, [], ◌∷◌}
use nap_cat_qq_rs.QqClient.{QqClientConfig}
use nap_cat_qq_rs.QqClient.Tcp.{
  Wire, ConnectOutcome, WriteOutcome, ReadOutcome, TcpQqClient, connect, login, receive_packet,
  heartbeat, disconnect,
}

pub data Call (Socket : Type 0) : Type 0 where
  connects : QqClientConfig → ConnectOutcome Socket → Call Socket
  logs_in : String → String → WriteOutcome → List ReadOutcome → Call Socket
  receives : ReadOutcome → Call Socket
  beats : ℕ → ℕ → WriteOutcome → Call Socket
  disconnects : Call Socket

module _ {Socket : Type 0} (wire : Wire) where
  unfoldable pub step : TcpQqClient Socket → Call Socket → TcpQqClient Socket
  step client (connects config outcome) = (connect config outcome client).1
  step client (logs_in account password outcome reads) =
      (login wire account password outcome reads client).1
  step client (receives outcome) = (receive_packet wire outcome client).1
  step client (beats now interval outcome) = (heartbeat now interval outcome client).1
  step client disconnects = disconnect client

  unfoldable pub run : TcpQqClient Socket → List (Call Socket) → TcpQqClient Socket
  unfolding step
  run client [] = client
  run client (call ∷ calls) = run (step client call) calls
