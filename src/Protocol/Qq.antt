-- ===== src/Protocol/Qq.antt =====
-- `QQClientBackend` of napcat-rs/crates/protocol over any client: connecting, sending and the
-- listener. The atomic flags are Booleans; `has_task` tells whether a listener's handle is kept.
-- `aborted` counts the listeners that were aborted, which the program does not keep. An aborted
-- listener ends at the call that it waits in: it has sent what `listen_loop` sends for the rounds so
-- far and sends no more, not even the last event.
pub mod Connect
pub mod Listener
mod Tests
use nap_cat_qq_rs.Prelude.{
  ℕ, suc, String, ◌<>◌, ◌==◌, Bool, true, false, not, ◌&&◌, ◌||◌, Option, none, some, List, [], ◌∷◌,
  ◌++◌, Result, ok, err, ◌>>=◌, map_err, is_some, if◌then◌else◌,
}
use nap_cat_qq_rs.Text.{is_blank}
use nap_cat_qq_rs.Message.{Message}
use nap_cat_qq_rs.QqClient.{
  QqClientConfig, Packet, QqClientError, login_failed, invalid_state, timeout,
}
use nap_cat_qq_rs.Protocol.{
  ProtocolEvent, disconnected, warning, ProtocolError, transport, describe, map_qq_error, Codec,
  message_to_packet, decode_inbound_packet,
}

-- The trait `QQClient`, as far as the backend calls it; `Client` is the state of the client.
pub record QqClient (Client : Type 0) : Type 0 where
  pub connect : QqClientConfig → Client → Result QqClientError (Unit {0}) × Client
  pub login : String → String → Client → Result QqClientError String × Client
  pub send_packet : Packet → Client → Result QqClientError (Unit {0}) × Client
  pub disconnect : Client → Result QqClientError (Unit {0}) × Client

-- The text of a client's error.
unfoldable pub describe_qq : QqClientError → String
describe_qq (QqClientError.transport e) = "transport failure: " <> e
describe_qq (QqClientError.protocol e) = "protocol parsing failure: " <> e
describe_qq (login_failed e) = "login failure: " <> e
describe_qq (invalid_state e) = "invalid state: " <> e
describe_qq (timeout e) = "operation timed out: " <> e

pub record QqClientBackendConfig : Type 0 where
  pub endpoint : String
  pub account : Option String
  pub password : Option String
  pub connect_timeout_ms : ℕ
  pub listen_poll_ms : ℕ

unfoldable pub new_config : String → QqClientBackendConfig
new_config endpoint = record {
  endpoint = endpoint;
  account = none;
  password = none;
  connect_timeout_ms = 2000;
  listen_poll_ms = 150;
}

unfoldable pub with_credentials : String → String → QqClientBackendConfig → QqClientBackendConfig
with_credentials account password config = record config {
  account = some account;
  password = some password;
}

pub record QqClientBackend (Client : Type 0) : Type 0 where
  pub client : Client
  pub config : QqClientBackendConfig
  pub connected : Bool
  pub logged_in : Bool
  pub listening : Bool
  pub stop_requested : Bool
  pub has_task : Bool
  pub aborted : ℕ

unfoldable pub new : {Client : Type 0} → Client → QqClientBackendConfig → QqClientBackend Client
new client config = record {
  client = client;
  config = config;
  connected = false;
  logged_in = false;
  listening = false;
  stop_requested = false;
  has_task = false;
  aborted = 0;
}

-- The endpoint that is given, or the stored one if it is blank.
unfoldable pub build_connect_config :
    QqClientBackendConfig → String → Result ProtocolError QqClientConfig
build_connect_config stored endpoint =
    let chosen = if is_blank endpoint then stored.endpoint else endpoint in
    if is_blank chosen
    then err (transport "empty qq endpoint")
    else ok (record { endpoint = chosen; token = none; timeout_ms = stored.connect_timeout_ms })

-- `if let Some(handle) = task.take() { handle.abort(); }`
abbrev pub aborts : {Client : Type 0} → QqClientBackend Client → ℕ
aborts backend = if backend.has_task then suc backend.aborted else backend.aborted

module _ {Client : Type 0} (qq : QqClient Client) where
  -- The end of `connect`: the login, if there are credentials.
  enter_session :
      Option String
      → Option String
      → QqClientBackend Client
      → Result ProtocolError (Unit {0}) × QqClientBackend Client
  enter_session (some account) (some password) backend =
      let (r, client) = qq.login account password backend.client in
      let after = record backend { client = client } in
      elim r [
        | err e ↦ (err (map_qq_error e), after)
        | ok token ↦ (ok tt, record after { logged_in = true; connected = true })
      ]
  enter_session _ _ backend = (ok tt, record backend { connected = true })

  -- `connect` on a fresh client, with the configuration that was built.
  open_session :
      QqClientConfig
      → QqClientBackend Client
      → Result ProtocolError (Unit {0}) × QqClientBackend Client
  unfolding enter_session map_qq_error
  open_session config backend =
      let (r, client) = qq.connect config backend.client in
      let after = record backend { client = client } in
      elim r [
        | err e ↦ (err (map_qq_error e), after)
        | ok _ ↦ enter_session after.config.account after.config.password after
      ]

  unfoldable pub connect :
      String → QqClientBackend Client → Result ProtocolError (Unit {0}) × QqClientBackend Client
  unfolding open_session build_connect_config
  connect endpoint backend =
      let reset = record backend {
        stop_requested = false;
        connected = false;
        listening = false;
        logged_in = false;
        has_task = false;
        aborted = aborts backend;
        client = (qq.disconnect backend.client).1;
      } in
      elim (build_connect_config backend.config endpoint) [
        | err e ↦ (err e, reset)
        | ok config ↦
            let stored = record reset {
              config = record backend.config { endpoint = config.endpoint };
            } in
            if (is_some backend.config.account && is_some backend.config.password)
              || config.endpoint == "mock://localhost"
            then open_session config stored
            else (err (transport "qq account/password are required for non-mock endpoints"), stored)
      ]

  unfoldable pub disconnect :
      QqClientBackend Client → Result ProtocolError (Unit {0}) × QqClientBackend Client
  unfolding map_qq_error
  disconnect backend =
      let (r, client) = qq.disconnect backend.client in
      (
        map_err map_qq_error r,
        record backend {
          stop_requested = true;
          connected = false;
          listening = false;
          logged_in = false;
          has_task = false;
          aborted = aborts backend;
          client = client;
        },
      )

  unfoldable pub is_logged_in : QqClientBackend Client → Bool
  is_logged_in backend = if backend.connected then backend.logged_in else false

  unfoldable pub send_message :
      {Value : Type 0}
      → Codec Value
      → Message Value
      → QqClientBackend Client
      → Result ProtocolError (Unit {0}) × QqClientBackend Client
  unfolding message_to_packet
  send_message codec message backend =
      if backend.connected
      then elim (message_to_packet codec message) [
        | err e ↦ (err e, backend)
        | ok packet ↦
            let (r, client) = qq.send_packet packet backend.client in
            (map_err (λ e. transport (describe_qq e)) r, record backend { client = client })
      ]
      else (err (transport "protocol is not connected"), backend)

-- The call of `listen`: the task is spawned when the answer is `ok`.
unfoldable pub listen :
    {Client : Type 0}
    → QqClientBackend Client
    → Result ProtocolError (Unit {0}) × QqClientBackend Client
listen backend =
    if backend.connected
    then (if backend.listening
        then (err (transport "listen already started"), backend)
        else (ok tt, record backend { listening = true; has_task = true }))
    else (err (transport "protocol is not connected"), backend)

-- One round of the listener's task: the flags that it reads, what the client received, and whether
-- `notify.send` finds a receiver.
pub record Round : Type 0 where
  pub connected : Bool
  pub stop_requested : Bool
  pub received : Result QqClientError (Option Packet)
  pub delivered : Bool

-- What a round sends, and whether the loop goes on after it.
abbrev pub Sent : Type 0 → Type 0
Sent Value = List (ProtocolEvent Value) × Bool

module _ {Value : Type 0} (codec : Codec Value) where
  decoded : Bool → Result ProtocolError (Option (ProtocolEvent Value)) → Sent Value
  unfolding describe
  decoded delivered (ok (some event)) = (event ∷ [], delivered)
  decoded delivered (ok none) = ([], true)
  decoded delivered (err e) =
      (warning ("failed to parse inbound packet: " <> describe e) ∷ [], true)

  unfoldable pub react : Bool → Result QqClientError (Option Packet) → Sent Value
  unfolding decoded decode_inbound_packet
  react delivered (ok (some packet)) = decoded delivered (decode_inbound_packet codec packet)
  react delivered (ok none) = ([], true)
  react delivered (err e) = (warning ("receive packet failed: " <> describe_qq e) ∷ [], true)

  -- The loop: the events that were sent, and whether it has ended, which resets `listening`.
  unfoldable pub listen_loop : List Round → List (ProtocolEvent Value) × Bool
  unfolding react
  listen_loop [] = ([], false)
  listen_loop (round ∷ rounds) =
      let (sent, goes_on) = react round.delivered round.received in
      let (events, ended) = listen_loop rounds in
      if round.connected && not round.stop_requested
      then (if goes_on then (sent ++ events, ended) else (sent ++ disconnected ∷ [], true))
      else (disconnected ∷ [], true)
