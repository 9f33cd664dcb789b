-- ===== src/Api/Server/Laws.antt =====
-- What a server leaves behind when it ends.
use nap_cat_qq_rs.Prelude.{
  String, ◌≡◌, refl, true, false, Option, none, some, Result, ok, err, Result-cases, inl, inr,
}
use nap_cat_qq_rs.QqClient.{ConnectionState}
use nap_cat_qq_rs.QqClient.Mock
use nap_cat_qq_rs.QqClient.Mock.{MockQqClient}
use nap_cat_qq_rs.Protocol.{ProtocolError, transport, ProtocolBackend, Codec}
use nap_cat_qq_rs.Protocol.Qq
use nap_cat_qq_rs.Protocol.Qq.{QqClientBackend}
use nap_cat_qq_rs.Protocol.Qq.Connect.{mock_client}
use nap_cat_qq_rs.Protocol.Backends.{qq_backend}
use nap_cat_qq_rs.Api.{ApiState, set_runtime_running}
use nap_cat_qq_rs.Api.Server.{
  Socket, listen_protocol, disconnect_protocol, close, open_socket, serve, run_with_state,
}

module _ {Backend Value : Type 0} (backend : ProtocolBackend Backend Value) where
  open_socket-stops :
      (socket : Socket) (session : ApiState Backend Value → ApiState Backend Value)
      (state : ApiState Backend Value)
      → (open_socket backend socket session state).1.runtime_running ≡ false
  unfolding open_socket close set_runtime_running
  open_socket-stops socket session state = elim (Result-cases socket.bound) [
    | inl (u, h) ↦ rw h refl
    | inr (e, h) ↦ rw h refl
  ]

  serve-stops :
      (socket : Socket) (session : ApiState Backend Value → ApiState Backend Value)
      (state : ApiState Backend Value) (answer : Result ProtocolError (Unit {0}) × Option Backend)
      → (serve backend socket session state answer).1.runtime_running ≡ false
  unfolding serve set_runtime_running
  serve-stops socket session state (err e, protocol) = refl
  serve-stops socket session state (ok u, protocol) =
      open_socket-stops socket session (record state { protocol = protocol })

  -- However the server ends, with a bad address, a protocol that does not listen, a socket that
  -- cannot be bound, or after requests that change the state in any way, the runtime is not running
  -- any more.
  pub run_with_state-stops :
      (address : Result String (Unit {0})) (socket : Socket)
      (session : ApiState Backend Value → ApiState Backend Value) (state : ApiState Backend Value)
      → (run_with_state backend address socket session state).1.runtime_running ≡ false
  unfolding run_with_state set_runtime_running
  run_with_state-stops (err e) socket session state = refl
  run_with_state-stops (ok u) socket session state =
      serve-stops socket session (set_runtime_running true state)
        (listen_protocol backend state.protocol)

-- There is no protocol, or it is a backend that is not connected, does not listen, and whose client
-- is disconnected.
abbrev pub IsClosed : Option (QqClientBackend MockQqClient) → Type 0
IsClosed none = Unit {0}
IsClosed (some qq) =
    (qq.connected ≡ false)
    × (qq.logged_in ≡ false)
    × (qq.listening ≡ false)
    × (qq.client.state ≡ ConnectionState.disconnected)

module _ {Value : Type 0} (codec : Codec Value) where
  disconnect_protocol-IsClosed :
      (protocol : Option (QqClientBackend MockQqClient))
      → IsClosed (disconnect_protocol (qq_backend mock_client codec) protocol)
  unfolding disconnect_protocol Qq.disconnect Mock.disconnect
  disconnect_protocol-IsClosed none = tt
  disconnect_protocol-IsClosed (some qq) = (refl, refl, refl, refl)

  open_socket-IsClosed :
      (socket : Socket)
      (session : ApiState (QqClientBackend MockQqClient) Value
        → ApiState (QqClientBackend MockQqClient) Value)
      (state : ApiState (QqClientBackend MockQqClient) Value)
      → IsClosed (open_socket (qq_backend mock_client codec) socket session state).1.protocol
  unfolding open_socket close set_runtime_running
  open_socket-IsClosed socket session state = elim (Result-cases socket.bound) [
    | inl (u, h) ↦ rw h (disconnect_protocol-IsClosed (session state).protocol)
    | inr (e, h) ↦ rw h (disconnect_protocol-IsClosed state.protocol)
  ]

  -- A server over a connected QQ backend that does not listen yet leaves it closed, with its client
  -- disconnected, if its address is good, whether its socket is bound or not.
  pub run_with_state-IsClosed :
      (qq : QqClientBackend MockQqClient) (socket : Socket)
      (session : ApiState (QqClientBackend MockQqClient) Value
        → ApiState (QqClientBackend MockQqClient) Value)
      (state : ApiState (QqClientBackend MockQqClient) Value)
      → state.protocol ≡ some qq
      → qq.connected ≡ true
      → qq.listening ≡ false
      → IsClosed
          (run_with_state (qq_backend mock_client codec) (ok tt) socket session state).1.protocol
  unfolding run_with_state serve set_runtime_running listen_protocol Qq.listen
  run_with_state-IsClosed qq socket session state p c l =
      rw (p, c, l) (open_socket-IsClosed socket session _)

  -- The defect: with a bad address, and when the backend listens already, the server ends with an
  -- error and leaves the protocol as it was: a connected backend stays connected and logged in.
  pub early_error_keeps_protocol :
      (qq : QqClientBackend MockQqClient) (socket : Socket)
      (session : ApiState (QqClientBackend MockQqClient) Value
        → ApiState (QqClientBackend MockQqClient) Value)
      (state : ApiState (QqClientBackend MockQqClient) Value) (e : String)
      → state.protocol ≡ some qq
      → qq.connected ≡ true
      → qq.listening ≡ true
      → (run_with_state (qq_backend mock_client codec) (err e) socket session state
          ≡ (err (transport e), set_runtime_running false state))
        × (run_with_state (qq_backend mock_client codec) (ok tt) socket session state ≡ (
          err (transport "protocol listen failed: transport failure: listen already started"),
          set_runtime_running false state,
        ))
  unfolding run_with_state serve set_runtime_running listen_protocol Qq.listen
  early_error_keeps_protocol qq socket session state e p c l = (refl, rw (p, c, l) refl)
