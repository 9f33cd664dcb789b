-- ===== src/Api/Router/Tests.antt =====
-- A router that takes the first route, and requests of the OneBot backend that arrive through it.
use mathlib.Core.List.{Memᴰ}
use mathlib.Core.List.Memᴰ.{head, tail}
use nap_cat_qq_rs.Prelude.{
  ℕ, ◌^◌, min, max, String, ◌==◌, eq_refl, ◌≡◌, refl, Bool, true, false, ◌&&◌, Option, none, some,
  List, [], ◌∷◌, Result, ok, err, any, arith, if◌then◌else◌,
}
use nap_cat_qq_rs.Text.Decimal.{ParseIntError, parse_uint}
use nap_cat_qq_rs.Message.{MessageRecipient}
use nap_cat_qq_rs.Text.{is_blank}
use nap_cat_qq_rs.Protocol.{Codec, ProtocolBackend}
use nap_cat_qq_rs.Protocol.Mock
use nap_cat_qq_rs.Protocol.Mock.{MockProtocol}
use nap_cat_qq_rs.Protocol.Backends.{mock_backend}
use nap_cat_qq_rs.Protocol.OneBot.{
  OneBotHttpBackend, send_request, poll_request, Method, get, post, Body, private_body, group_body,
}
use nap_cat_qq_rs.Api.{ApiState, accepted}
use nap_cat_qq_rs.Api.Filter.{ListenQuery}
use nap_cat_qq_rs.Api.Send.{to_protocol, SendPrivateRequest, SendGroupRequest}
use nap_cat_qq_rs.Api.Router.{Handler, Route}
use nap_cat_qq_rs.Api.Router.Laws.{Axum, same_method, overlaps, is_unambiguous}
use nap_cat_qq_rs.Api.Router.Arrival.{Extract, Arrives}
use nap_cat_qq_rs.Api.Router.Bridge.{asked, relayed, sent, posted_sent, poll_served}
use nap_cat_qq_rs.Api.Send.Laws.{SendRoute, handle}
use nap_cat_qq_rs.Api.Listen.{timeout_of, max_events_of}

find_first : List Route → Method → String → Option Handler
find_first [] method path = none
find_first (r ∷ table) method path =
    let later = find_first table method path in
    if r.path == path && same_method r.method method then some r.handler else later

any-Mem :
    (p : Route → Bool) (r : Route) (rs : List Route) → Memᴰ r rs → any p rs ≡ false → p r ≡ false
unfolding any
any-Mem p r [] m h = elim m [ ]
any-Mem p r (s ∷ rs) (head e) h = rw e (ground (arith, h))
any-Mem p r (s ∷ rs) (tail m) h = any-Mem p r rs m (ground (arith, h))

same_method_refl : (method : Method) → same_method method method ≡ true
same_method_refl get = refl
same_method_refl post = refl

finds_first :
    (table : List Route) (r : Route)
    → is_unambiguous table ≡ true
    → Memᴰ r table
    → find_first table r.method r.path ≡ some r.handler
unfolding find_first
finds_first [] r h m = elim m [ ]
finds_first (s ∷ table) r h (head e) = rw (← e, eq_refl r.path, same_method_refl r.method) refl
finds_first (s ∷ table) r h (tail m) =
    let apart : overlaps s r ≡ false = any-Mem (overlaps s) r table m (ground (arith, h)) in
    rw apart (finds_first table r (ground (arith, h)) m)

abbrev axum : Axum
axum = record { find = find_first; finds = finds_first }

private_of : Body → Option SendPrivateRequest
private_of (private_body b) = some (record { user_id = b.user_id; message = b.message })
private_of (group_body b) = none

group_of : Body → Option SendGroupRequest
group_of (private_body b) = none
group_of (group_body b) = some (record { group_id = b.group_id; message = b.message })

query_from : Result ParseIntError ℕ → Result ParseIntError ℕ → Option ListenQuery
query_from (ok t) (ok n) = some (record {
  timeout_ms = some t;
  timeout = none;
  max_events = some n;
  limit = none;
  type_filter = none;
  types_filter = none;
  post_type = none;
})
query_from _ _ = none

query_of : List (String × String) → Option ListenQuery
query_of ((a, t) ∷ (b, n) ∷ []) = query_from (parse_uint (2 ^ 64) t) (parse_uint (2 ^ 64) n)
query_of _ = none

extract : Extract
unfolding private_of group_of query_of query_from
extract = record {
  private_of = private_of;
  group_of = group_of;
  query_of = query_of;
  reads_private = λ user_id message. refl;
  reads_group = λ group_id message. refl;
  reads_query = λ timeout_ms max_events t n h k. rw (h, k) refl;
}

abbrev client : OneBotHttpBackend
client = record {
  base_url = "http://h/";
  access_token = none;
  listen_timeout_ms = 600;
  listen_max_events = 64;
  connected = true;
  listening = true;
  stop_requested = false;
}

poll_served_example :
    Arrives axum client.base_url (poll_request client) Handler.listen_messages
    × ((query : ListenQuery) × (extract.query_of (poll_request client).query ≡ some query)
        × (timeout_of query ≡ 600)
        × (max_events_of query ≡ min (max 64 1) 32))
poll_served_example = poll_served axum extract client (omega arith) (omega arith)

abbrev codec : Codec ℕ
codec = record { encode = λ message. ok "hi"; decode = λ payload. err "none" }

abbrev server : ProtocolBackend (MockProtocol ℕ) ℕ
server = mock_backend codec

abbrev state : ApiState (MockProtocol ℕ) ℕ
state = record {
  plugin_manager = record { plugins = [] };
  dispatched = [];
  protocol = some Mock.new;
  runtime_running = true;
  runtime_groups = [];
  runtime_users = [];
}

posted_sent_example :
    (handler : Handler) × (route : SendRoute ℕ) × Arrives axum client.base_url
      (send_request client (MessageRecipient.group "g1") "hi")
      handler
    × (asked extract handler (send_request client (MessageRecipient.group "g1") "hi").body
        ≡ some route)
    × (handle server accepted route state
        ≡ sent server (relayed (MessageRecipient.group "g1") "hi") (some Mock.new) state)
unfolding is_blank to_protocol Mock.send_message
posted_sent_example =
    posted_sent server axum extract client (MessageRecipient.group "g1") "hi" state (some Mock.new)
      refl refl refl
