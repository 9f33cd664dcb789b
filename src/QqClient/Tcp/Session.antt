-- ===== src/QqClient/Tcp/Session.antt =====
-- What holds of a `TcpQQClient` after any calls, whatever the network does.
use nap_cat_qq_rs.Prelude.{
  ℕ, String, ◌≡◌, refl, true, Option, none, some, List, [], ◌∷◌, Result, ok, err, arith, zero, suc,
}
use nap_cat_qq_rs.QqClient.{
  QqClientConfig, ConnectionState, disconnected, connected, logged_in, closing, Packet,
  QqClientError, transport, invalid_state,
}
use nap_cat_qq_rs.QqClient.Tcp.{
  Wire, ConnectOutcome, WriteOutcome, ReadOutcome, lost, TcpQqClient, connect, login, send_packet,
  receive_packet, heartbeat, disconnect, wait_rounds, wait_for_login_ack, next_round, finish_login,
  recv_once_with_timeout, read_elapsed, is_open_state,
}
use nap_cat_qq_rs.QqClient.Tcp.Calls.{
  Call, connects, logs_in, receives, beats, disconnects, step, run,
}

abbrev pub IsPresent : {A : Type 0} → Option A → Type 0
IsPresent none = ⊥
IsPresent (some a) = Unit {0}

module _ {Socket : Type 0} where
  -- What each state of the connection says of the other fields; `closing` lasts only inside
  -- `disconnect`.
  abbrev pub Agrees : ConnectionState → TcpQqClient Socket → Type 0
  Agrees disconnected client =
      (client.endpoint ≡ none)
      × (client.token ≡ none)
      × (client.heartbeat_at ≡ none)
      × (client.stream ≡ none)
  Agrees connected client =
      IsPresent client.endpoint × (client.token ≡ none) × (client.heartbeat_at ≡ none)
  Agrees logged_in client = IsPresent client.endpoint × IsPresent client.token
  Agrees closing client = ⊥

  abbrev pub IsSession : TcpQqClient Socket → Type 0
  IsSession client = Agrees client.state client

  abbrev TokenAfter : TcpQqClient Socket → Result QqClientError String → TcpQqClient Socket → Type 0
  TokenAfter client (ok token) after = after.token ≡ some token
  TokenAfter client (err e) after = after.token ≡ client.token

  -- What a wait for the login answer may change: the stream, and the token if it succeeds.
  abbrev Waited : TcpQqClient Socket → Result QqClientError String × TcpQqClient Socket → Type 0
  Waited client (r, after) =
      (after.state ≡ client.state)
      × (after.endpoint ≡ client.endpoint)
      × (after.heartbeat_at ≡ client.heartbeat_at)
      × (after.timeout_ms ≡ client.timeout_ms)
      × TokenAfter client r after

  recv_keeps :
      (wire : Wire) (outcome : ReadOutcome) (client : TcpQqClient Socket)
      → let after = (recv_once_with_timeout wire outcome client).1 in
        (after.state ≡ client.state)
        × (after.endpoint ≡ client.endpoint)
        × (after.heartbeat_at ≡ client.heartbeat_at)
        × (after.timeout_ms ≡ client.timeout_ms)
        × (after.token ≡ client.token)
  unfolding recv_once_with_timeout
  recv_keeps wire outcome client = ground arith

  next_round-Waited :
      (wire : Wire) (r : Result QqClientError (Option Packet)) (client : TcpQqClient Socket)
      (rest : Result QqClientError String × TcpQqClient Socket)
      → Waited client rest
      → Waited client (next_round wire r client rest)
  unfolding next_round
  next_round-Waited wire (err e) client rest h = (refl, refl, refl, refl, refl)
  next_round-Waited wire (ok none) client rest h = (refl, refl, refl, refl, refl)
  next_round-Waited wire (ok (some packet)) client rest h = ground arith

  Waited-from :
      (client before : TcpQqClient Socket) (r : Result QqClientError String)
      (after : TcpQqClient Socket)
      → before.state ≡ client.state
      → before.endpoint ≡ client.endpoint
      → before.heartbeat_at ≡ client.heartbeat_at
      → before.timeout_ms ≡ client.timeout_ms
      → before.token ≡ client.token
      → Waited before (r, after)
      → Waited client (r, after)
  Waited-from client before (ok token) after s e h t k w = ground arith
  Waited-from client before (err x) after s e h t k w = ground arith

  wait_rounds-Waited :
      (wire : Wire) (n : ℕ) (reads : List ReadOutcome) (client : TcpQqClient Socket)
      → Waited client (wait_rounds wire n reads client)
  unfolding wait_rounds
  wait_rounds-Waited wire zero reads client = (refl, refl, refl, refl, refl)
  wait_rounds-Waited wire (suc n) [] client =
      let (r, before) = recv_once_with_timeout wire read_elapsed client in
      let rest = wait_rounds wire n [] before in
      let (s, e, h, t, k) = recv_keeps wire read_elapsed client in
      Waited-from client before (next_round wire r before rest).0 (next_round wire r before rest).1
        s e h t k (next_round-Waited wire r before rest (wait_rounds-Waited wire n [] before))
  wait_rounds-Waited wire (suc n) (outcome ∷ reads) client =
      let (r, before) = recv_once_with_timeout wire outcome client in
      let rest = wait_rounds wire n reads before in
      let (s, e, h, t, k) = recv_keeps wire outcome client in
      Waited-from client before (next_round wire r before rest).0 (next_round wire r before rest).1
        s e h t k (next_round-Waited wire r before rest (wait_rounds-Waited wire n reads before))

  -- Of an open session, after the wait and its end.
  finish-IsSession :
      (client : TcpQqClient Socket) (r : Result QqClientError String) (after : TcpQqClient Socket)
      → IsSession client
      → is_open_state client.state ≡ true
      → Waited client (r, after)
      → IsSession (finish_login (r, after)).1
  unfolding finish_login
  finish-IsSession client (ok token) after h o w = ground arith
  finish-IsSession client (err e) after h o w = ground arith

  login-IsSession :
      (wire : Wire) (account password : String) (outcome : WriteOutcome) (reads : List ReadOutcome)
      (client : TcpQqClient Socket)
      → IsSession client
      → IsSession (login wire account password outcome reads client).1
  unfolding login wait_for_login_ack
  login-IsSession wire account password outcome reads client h =
      let (r, after) = wait_rounds wire 4 reads client in
      ground (arith, finish-IsSession client r after h, wait_rounds-Waited wire 4 reads client)

  step-IsSession :
      (wire : Wire) (client : TcpQqClient Socket) (call : Call Socket)
      → IsSession client
      → IsSession (step wire client call)
  unfolding step connect receive_packet heartbeat disconnect
  step-IsSession wire client (connects config outcome) h = ground arith
  step-IsSession wire client (logs_in account password outcome reads) h =
      login-IsSession wire account password outcome reads client h
  step-IsSession wire client (receives outcome) h = ground arith
  step-IsSession wire client (beats now interval outcome) h = ground arith
  step-IsSession wire client disconnects h = (refl, refl, refl, refl)

  -- After any calls on a session, whatever the network does, the client is disconnected with no
  -- endpoint, token, heartbeat or stream, or connected with an endpoint and with no token or
  -- heartbeat, or logged in with an endpoint and a token.
  pub run-IsSession_tcp :
      (wire : Wire) (client : TcpQqClient Socket) (calls : List (Call Socket))
      → IsSession client
      → IsSession (run wire client calls)
  unfolding run
  run-IsSession_tcp wire client [] h = h
  run-IsSession_tcp wire client (call ∷ calls) h =
      run-IsSession_tcp wire (step wire client call) calls (step-IsSession wire client call h)

  -- The defect: if the conversion of the stream fails in `receive_packet` on a logged-in client, the
  -- stream is gone and the client stays logged in; then every `send_packet` and every later
  -- `receive_packet` fails, and `connect` is refused.
  pub lost_stream_wedges :
      (wire : Wire) (client : TcpQqClient Socket) (socket : Socket) (e : String) (packet : Packet)
      (outcome : WriteOutcome) (next : ReadOutcome) (config : QqClientConfig)
      (opening : ConnectOutcome Socket)
      → client.state ≡ logged_in
      → client.stream ≡ some socket
      → let after = (receive_packet wire (lost e) client).1 in
        (after.state ≡ logged_in)
        × (send_packet packet outcome after ≡ err (invalid_state "not connected"))
        × ((receive_packet wire next after).0 ≡ err (transport "not connected"))
        × (connect config opening after ≡ (err (invalid_state "connection already active"), after))
  unfolding receive_packet send_packet connect
  lost_stream_wedges wire client socket e packet outcome next config opening s t =
      rw (s, t, receive_packet, recv_once_with_timeout) (ground arith)
