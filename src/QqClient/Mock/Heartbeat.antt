-- ===== src/QqClient/Mock/Heartbeat.antt =====
-- `heartbeat` of `MockQQClient`, which makes its interval the timeout of the session.
use nap_cat_qq_rs.Prelude.{ℕ, ◌^◌, ◌≤◌, ◌<◌, ◌≡◌, ◌≢◌, some, ok, err, arith}
use nap_cat_qq_rs.QqClient.{Packet, logged_in, timeout, as_millis}
use nap_cat_qq_rs.QqClient.Mock.{MockQqClient, send_packet, heartbeat}

-- A heartbeat of a logged-in client whose timeout is not zero, at an interval from one millisecond up
-- to what 64 bits hold in milliseconds, succeeds and notes the time, and packets can still be sent.
pub heartbeat_keeps_sending :
    (client : MockQqClient) (packet : Packet) (now interval : ℕ)
    → client.state ≡ logged_in
    → client.timeout_ms ≢ 0
    → 1000000 ≤ interval
    → as_millis interval < 2 ^ 64
    → ((heartbeat now interval client).0 ≡ ok tt)
      × ((heartbeat now interval client).1.heartbeat_at ≡ some now)
      × ((send_packet packet (heartbeat now interval client).1).0 ≡ ok tt)
unfolding heartbeat send_packet
heartbeat_keeps_sending client packet now interval s t h k = ground arith

-- The defect: at an interval above zero and below one millisecond the heartbeat succeeds too, and
-- after it no packet can be sent and no heartbeat succeeds, for the timeout is then zero.
pub heartbeat_wedges :
    (client : MockQqClient) (packet : Packet) (now later interval next : ℕ)
    → client.state ≡ logged_in
    → client.timeout_ms ≢ 0
    → 0 < interval
    → interval < 1000000
    → ((heartbeat now interval client).0 ≡ ok tt)
      × ((send_packet packet (heartbeat now interval client).1).0
          ≡ err (timeout "configured timeout is zero"))
      × ((heartbeat later next (heartbeat now interval client).1).0
          ≡ err (timeout "configured timeout is zero"))
unfolding heartbeat send_packet
heartbeat_wedges client packet now later interval next s t h k = ground arith
