-- ===== src/Api.antt =====
-- napcat-rs/crates/api: the answers and errors of the API server, and the state that its handlers
-- share. `Backend` is the state of a protocol backend, `Value` is `serde_json::Value`. The queue of
-- `dispatch_tx` is the list of the events that it has accepted; what a send into it meets is an
-- argument.
pub mod Info
pub mod Send
pub mod Filter
pub mod Payload
pub mod Listen
pub mod Relay
pub mod Plugins
pub mod Server
pub mod Router
use nap_cat_qq_rs.Prelude.{
  ℕ, String, ◌<>◌, Bool, true, false, Option, none, some, List, [], ◌∷◌, ◌++◌, Result, ok, err,
  if◌then◌else◌,
}
use nap_cat_qq_rs.Prelude.Int.{ℤ, pos, negsuc}
use nap_cat_qq_rs.Protocol.{ProtocolEvent}
use nap_cat_qq_rs.Plugin.Manager
use nap_cat_qq_rs.Plugin.Manager.{PluginManager}

pub record ApiEnvelope (T : Type 0) : Type 0 where
  pub status : String
  pub retcode : ℤ
  pub data' : T
  pub message : Option String

pub data ApiError : Type 0 where
  invalid_request : (retcode : ℤ) (message : String) → ApiError
  event_dispatch protocol_send : (message : String) → ApiError

abbrev pub invalid_request_retcode : ℤ
invalid_request_retcode = negsuc 0

-- `ApiError::invalid_request`
abbrev pub invalid : String → ApiError
invalid message = invalid_request invalid_request_retcode message

failed_envelope : ℤ → String → ApiEnvelope (Unit {0})
failed_envelope retcode message = record {
  status = "failed";
  retcode = retcode;
  data' = tt;
  message = some message;
}

-- The status code and the body of an error.
unfoldable pub into_response : ApiError → ℕ × ApiEnvelope (Unit {0})
unfolding failed_envelope
into_response (invalid_request retcode message) = (400, failed_envelope retcode message)
into_response (event_dispatch message) = (503, failed_envelope (negsuc 0) message)
into_response (protocol_send message) = (502, failed_envelope (negsuc 0) message)

-- The envelope of a success.
abbrev pub ok_envelope : {T : Type 0} → T → ApiEnvelope T
ok_envelope payload = record { status = "ok"; retcode = pos 0; data' = payload; message = none }

pub record GroupInfo : Type 0 where
  pub group_id : String
  pub group_name : String

pub record UserInfo : Type 0 where
  pub user_id : String
  pub nickname : String

pub record ApiState (Backend Value : Type 0) : Type 0 where
  pub plugin_manager : PluginManager
  pub dispatched : List (ProtocolEvent Value)
  pub protocol : Option Backend
  pub runtime_running : Bool
  pub runtime_groups : List GroupInfo
  pub runtime_users : List UserInfo

-- What a send into the dispatch queue meets: room in time, a closed channel, or 80 ms without room.
pub data Room : Type 0 where
  accepted elapsed : Room
  closed : String → Room

module _ {Backend Value : Type 0} where
  unfoldable pub with_protocol : Option Backend → ApiState Backend Value
  with_protocol protocol = record {
    plugin_manager = Manager.empty;
    dispatched = [];
    protocol = protocol;
    runtime_running = false;
    runtime_groups = [];
    runtime_users = [];
  }

  unfoldable pub set_runtime_running : Bool → ApiState Backend Value → ApiState Backend Value
  set_runtime_running running state = record state { runtime_running = running }

  unfoldable pub set_groups : List GroupInfo → ApiState Backend Value → ApiState Backend Value
  set_groups groups state = record state { runtime_groups = groups }

  unfoldable pub set_users : List UserInfo → ApiState Backend Value → ApiState Backend Value
  set_users users state = record state { runtime_users = users }

  unfoldable pub emit_event :
      Room
      → ProtocolEvent Value
      → ApiState Backend Value
      → Result ApiError (Unit {0}) × ApiState Backend Value
  emit_event accepted event state =
      (ok tt, record state { dispatched = state.dispatched ++ event ∷ [] })
  emit_event (closed e) event state =
      (err (event_dispatch ("dispatch channel closed: " <> e)), state)
  emit_event elapsed event state = (err (event_dispatch "event dispatch timed out"), state)
