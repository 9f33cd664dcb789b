-- ===== src/Api/Server.antt =====
-- `run_with_state` of napcat-rs/crates/api. The answers of the address parser, of `bind` and of the
-- server when it ends are arguments; the events of the protocol go to `protocol_tx`.
mod Laws
mod Tests
use nap_cat_qq_rs.Prelude.{
  String, ◌<>◌, Bool, true, false, Option, none, some, Result, ok, err, map_err,
}
use nap_cat_qq_rs.Protocol.{ProtocolError, transport, describe, ProtocolBackend}
use nap_cat_qq_rs.Api.{ApiState, set_runtime_running, with_protocol}

-- What the network answers to a server.
pub record Socket : Type 0 where
  pub bound : Result String (Unit {0})
  pub served : Result String (Unit {0})

abbrev pub Ended : Type 0 → Type 0 → Type 0
Ended Backend Value = Result ProtocolError (Unit {0}) × ApiState Backend Value

module _ {Backend Value : Type 0} (backend : ProtocolBackend Backend Value) where
  -- `protocol.listen`, if there is a protocol.
  listen_protocol : Option Backend → Result ProtocolError (Unit {0}) × Option Backend
  listen_protocol none = (ok tt, none)
  listen_protocol (some protocol) = let (r, after) = backend.listen protocol in (r, some after)

  -- `protocol.disconnect`, if there is a protocol; its answer is dropped.
  disconnect_protocol : Option Backend → Option Backend
  disconnect_protocol none = none
  disconnect_protocol (some protocol) = some (backend.disconnect protocol).1

  -- The end of a server that has listened: the flag goes first, then the protocol.
  close : ApiState Backend Value → ApiState Backend Value
  unfolding set_runtime_running disconnect_protocol
  close state =
      let stopped = set_runtime_running false state in
      record stopped { protocol = disconnect_protocol stopped.protocol }

  -- From the socket on: `session` is what the requests do to the state while the server runs.
  open_socket :
      Socket
      → (session : ApiState Backend Value → ApiState Backend Value) → ApiState Backend Value
      → Ended Backend Value
  unfolding close
  open_socket socket session state = elim socket.bound [
    | err e ↦ (err (transport e), close state)
    | ok _ ↦ (map_err transport socket.served, close (session state))
  ]

  -- From the answer of the protocol on.
  serve :
      Socket
      → (session : ApiState Backend Value → ApiState Backend Value) → ApiState Backend Value
      → Result ProtocolError (Unit {0}) × Option Backend
      → Ended Backend Value
  unfolding open_socket describe set_runtime_running
  serve socket session state (err e, protocol) = (
    err (transport ("protocol listen failed: " <> describe e)),
    set_runtime_running false (record state { protocol = protocol }),
  )
  serve socket session state (ok _, protocol) =
      open_socket socket session (record state { protocol = protocol })

  unfoldable pub run_with_state :
      (address : Result String (Unit {0}))
      → Socket
      → (session : ApiState Backend Value → ApiState Backend Value) → ApiState Backend Value
      → Ended Backend Value
  unfolding serve listen_protocol set_runtime_running
  run_with_state (err e) socket session state =
      (err (transport e), set_runtime_running false (set_runtime_running true state))
  run_with_state (ok _) socket session state =
      let running = set_runtime_running true state in
      serve socket session running (listen_protocol running.protocol)

  -- `run_with_protocol`
  unfoldable pub run_with_protocol :
      (address : Result String (Unit {0}))
      → Socket
      → (session : ApiState Backend Value → ApiState Backend Value) → Option Backend
      → Ended Backend Value
  unfolding run_with_state with_protocol
  run_with_protocol address socket session protocol =
      run_with_state address socket session (with_protocol protocol)
