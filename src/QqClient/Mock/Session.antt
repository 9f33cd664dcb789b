-- ===== src/QqClient/Mock/Session.antt =====
-- What holds of a `MockQQClient` after any calls.
use nap_cat_qq_rs.Prelude.{String, ◌≡◌, false, Option, none, some, List, [], ◌∷◌, arith}
use nap_cat_qq_rs.Text.{is_blank}
use nap_cat_qq_rs.QqClient.{
  QqClientConfig, ConnectionState, disconnected, connected, logged_in, closing,
}
use nap_cat_qq_rs.QqClient.Mock.{
  MockQqClient, default, Call, connects, connect, disconnect, step, run,
}

-- The endpoint of a client that was connected.
abbrev pub IsNamed : Option String → Type 0
IsNamed none = ⊥
IsNamed (some endpoint) = is_blank endpoint ≡ false

abbrev pub HasToken : Option String → Type 0
HasToken none = ⊥
HasToken (some token) = Unit {0}

-- What each state of the connection says of the other fields; `closing` does not occur.
abbrev pub Agrees : ConnectionState → MockQqClient → Type 0
Agrees disconnected client =
    (client.endpoint ≡ none)
    × (client.token ≡ none)
    × (client.heartbeat_at ≡ none)
    × (client.sent_packets ≡ [])
Agrees connected client =
    IsNamed client.endpoint
    × (client.token ≡ none)
    × (client.heartbeat_at ≡ none)
    × (client.sent_packets ≡ [])
Agrees logged_in client = IsNamed client.endpoint × HasToken client.token
Agrees closing client = ⊥

abbrev pub IsSession : MockQqClient → Type 0
IsSession client = Agrees client.state client

step-IsSession :
    (client : MockQqClient) (call : Call) → IsSession client → IsSession (step client call)
unfolding step
step-IsSession client (connects config) h = ground arith
step-IsSession client _ h = ground arith

-- After any calls on a session, a client is disconnected with no endpoint, token, heartbeat or sent
-- packet, or connected to an endpoint that is not blank with no token, heartbeat or sent packet, or
-- logged in with such an endpoint and a token.
pub run-IsSession :
    (client : MockQqClient) (calls : List Call) → IsSession client → IsSession (run client calls)
unfolding run
run-IsSession client [] h = h
run-IsSession client (call ∷ calls) h =
    run-IsSession (step client call) calls (step-IsSession client call h)

-- `disconnect` forgets the session: a `connect` that follows it leaves the client as the same
-- `connect` of a new client does, with its result.
pub reconnect_fresh :
    (config : QqClientConfig) (client : MockQqClient)
    → is_blank config.endpoint ≡ false
    → connect config (disconnect client).1 ≡ connect config default
unfolding connect disconnect
reconnect_fresh config client h = ground arith
