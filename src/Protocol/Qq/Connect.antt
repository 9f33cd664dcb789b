-- ===== src/Protocol/Qq/Connect.antt =====
-- What `connect` of `QQClientBackend` leaves, with any client, and with `MockQQClient`.
use nap_cat_qq_rs.Prelude.{
  String, ◌≡◌, refl, true, false, ◌&&◌, Option, none, some, [], ◌∷◌, Result, ok, err, arith,
  is_some, is_ok, eqb, Result-cases, inl, inr,
}
use nap_cat_qq_rs.Text.{is_blank}
use nap_cat_qq_rs.Message.{Message}
use nap_cat_qq_rs.QqClient.{QqClientConfig, ConnectionState}
use nap_cat_qq_rs.QqClient.Mock
use nap_cat_qq_rs.QqClient.Mock.{MockQqClient}
use nap_cat_qq_rs.Protocol.{ProtocolError, transport, Codec, route_of}
use nap_cat_qq_rs.Protocol.Qq.{
  QqClient, QqClientBackend, build_connect_config, enter_session, open_session, connect,
  send_message,
}

-- What the flags say after a `connect` that answered `r`: connected if it succeeded, and then
-- logged in if there are credentials; no listener, and no request to stop.
abbrev pub HasFlags :
    {Client : Type 0} → Result ProtocolError (Unit {0}) × QqClientBackend Client → Type 0
HasFlags (r, after) =
    (after.connected ≡ is_ok r)
    × (after.logged_in
        ≡ (is_ok r && (is_some after.config.account && is_some after.config.password)))
    × (after.listening ≡ false)
    × (after.stop_requested ≡ false)
    × (after.has_task ≡ false)

module _ {Client : Type 0} (qq : QqClient Client) where
  enter-HasFlags :
      (account password : Option String) (backend : QqClientBackend Client)
      → backend.config.account ≡ account
      → backend.config.password ≡ password
      → backend.connected ≡ false
      → backend.logged_in ≡ false
      → backend.listening ≡ false
      → backend.stop_requested ≡ false
      → backend.has_task ≡ false
      → HasFlags (enter_session qq account password backend)
  unfolding enter_session
  enter-HasFlags (some account) (some password) backend a p c l i s t = ground arith
  enter-HasFlags none password backend a p c l i s t = ground arith
  enter-HasFlags (some account) none backend a p c l i s t = ground arith

  open-HasFlags :
      (config : QqClientConfig) (backend : QqClientBackend Client)
      → backend.connected ≡ false
      → backend.logged_in ≡ false
      → backend.listening ≡ false
      → backend.stop_requested ≡ false
      → backend.has_task ≡ false
      → HasFlags (open_session qq config backend)
  unfolding open_session
  open-HasFlags config backend c l i s t =
      let (r, client) = qq.connect config backend.client in
      ground (
        arith,
        enter-HasFlags backend.config.account backend.config.password
            (record backend { client = client }) refl refl c l i s t,
      )

  -- However the client answers, after `connect` the backend is connected exactly if the answer is
  -- `ok`, and logged in exactly if it is and there are both an account and a password; it has no
  -- listener.
  pub connect-HasFlags :
      (endpoint : String) (backend : QqClientBackend Client)
      → HasFlags (connect qq endpoint backend)
  unfolding connect
  connect-HasFlags endpoint backend =
      elim (Result-cases (build_connect_config backend.config endpoint)) [
        | inr (e, refused) ↦ ground arith
        | inl (config, built) ↦
            let stored = record backend {
              stop_requested = false;
              connected = false;
              listening = false;
              logged_in = false;
              has_task = false;
              client = (qq.disconnect backend.client).1;
              config = record backend.config { endpoint = config.endpoint };
            } in
            ground (arith, open-HasFlags config stored refl refl refl refl refl)
      ]

-- `MockQQClient` as a client.
abbrev pub mock_client : QqClient MockQqClient
mock_client = record {
  connect = Mock.connect;
  login = Mock.login;
  send_packet = Mock.send_packet;
  disconnect = Mock.disconnect;
}

module _ (endpoint account password : String) (backend : QqClientBackend MockQqClient)
    (named : is_blank endpoint ≡ false) (has_account : backend.config.account ≡ some account)
    (has_password : backend.config.password ≡ some password)
    (account_named : is_blank account ≡ false) where
  pub session-mock :
      is_blank password ≡ false
      → let (r, after) = connect mock_client endpoint backend in
        (r ≡ ok tt)
        × (after.connected ≡ true)
        × (after.logged_in ≡ true)
        × (after.client.state ≡ ConnectionState.logged_in)
        × (after.client.endpoint ≡ some endpoint)
  unfolding connect open_session enter_session build_connect_config Mock.connect Mock.login
      Mock.disconnect
  session-mock p = ground arith

  -- With an endpoint, an account and a password that are not blank, a time limit that is not zero
  -- and a message that can be encoded, `connect` over a `MockQQClient` in any state succeeds, and
  -- then `send_message` does, and the client has sent that message alone, on the route of its
  -- recipient.
  pub connect_delivers :
      {Value : Type 0} (codec : Codec Value) (message : Message Value) (text : String)
      → is_blank password ≡ false
      → eqb backend.config.connect_timeout_ms 0 ≡ false
      → codec.encode message ≡ ok text
      → let (r, online) = connect mock_client endpoint backend in
        let (s, after) = send_message mock_client codec message online in
        (r ≡ ok tt)
        × (s ≡ ok tt)
        × (after.client.sent_packets
            ≡ record { route = route_of message.recipient; payload = text } ∷ [])
  unfolding connect send_message open_session enter_session build_connect_config Mock.connect
      Mock.login Mock.send_packet Mock.disconnect
  connect_delivers codec message text p t e = ground arith

  -- The defect: if the login is refused, here for a blank password, `connect` fails and the backend
  -- is not connected, but its client stays connected to the endpoint.
  pub refused_login_keeps_connection :
      is_blank password ≡ true
      → let (r, after) = connect mock_client endpoint backend in
        (r ≡ err (transport "login error: account and password required"))
        × (after.connected ≡ false)
        × (after.client.state ≡ ConnectionState.connected)
        × (after.client.endpoint ≡ some endpoint)
  unfolding connect open_session enter_session build_connect_config Mock.connect Mock.login
      Mock.disconnect
  refused_login_keeps_connection p = ground arith
