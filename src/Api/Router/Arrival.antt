-- ===== src/Api/Router/Arrival.antt =====
-- Where a request of `OneBotHttpBackend` (napcat-rs/crates/protocol) arrives in the table of routes
-- of napcat-rs/crates/api, and what the extractors of axum make of it.
use mathlib.Core.List.{Memᴰ}
use mathlib.Core.List.Memᴰ.{head, tail}
use nap_cat_qq_rs.Prelude.{ℕ, ◌^◌, String, ◌<>◌, ◌≡◌, refl, Option, none, some, List, [], ◌∷◌, ok}
use nap_cat_qq_rs.Text.Decimal.{parse_uint}
use nap_cat_qq_rs.Message.{MessageRecipient}
use nap_cat_qq_rs.Protocol.OneBot.{
  OneBotHttpBackend, Method, get, post, Request, Body, private_body, group_body, request,
  endpoint_url, trim_start_slashes, trim_end_slashes, send_request,
}
use nap_cat_qq_rs.Api.Filter.{ListenQuery}
use nap_cat_qq_rs.Api.Send.{SendPrivateRequest, SendGroupRequest}
use nap_cat_qq_rs.Api.Router.{Handler, Route, routes}
use nap_cat_qq_rs.Api.Router.Laws.{Axum, every_route_served}

-- What serde makes of a body and of a query: it reads the fields by their names, which the structs of
-- the two crates share, and numbers of 64 bits in decimal.
pub record Extract : Type 0 where
  pub private_of : Body → Option SendPrivateRequest
  pub group_of : Body → Option SendGroupRequest
  pub query_of : List (String × String) → Option ListenQuery
  pub reads_private :
      (user_id message : String)
      → private_of (private_body (record { user_id = user_id; message = message }))
        ≡ some (record { user_id = user_id; message = message })
  pub reads_group :
      (group_id message : String)
      → group_of (group_body (record { group_id = group_id; message = message }))
        ≡ some (record { group_id = group_id; message = message })
  pub reads_query :
      (timeout_ms max_events : String) (t n : ℕ)
      → parse_uint (2 ^ 64) timeout_ms ≡ ok t
      → parse_uint (2 ^ 64) max_events ≡ ok n
      → query_of (("timeout_ms", timeout_ms) ∷ ("max_events", max_events) ∷ [])
        ≡ some (record {
          timeout_ms = some t;
          timeout = none;
          max_events = some n;
          limit = none;
          type_filter = none;
          types_filter = none;
          post_type = none;
        })

-- The request arrives at the server of the base URL, and the handler that axum finds.
pub record Arrives (axum : Axum) (base_url : String) (r : Request) (handler : Handler)
    : Type 0 where
  pub path : String
  pub addressed : r.url ≡ trim_end_slashes base_url <> path
  pub served : axum.find routes r.method path ≡ some handler

abbrev pub handler_of : MessageRecipient → Handler
handler_of (MessageRecipient.private user_id) = Handler.send_private_msg
handler_of (MessageRecipient.group group_id) = Handler.send_group_msg

abbrev pub at : String → Method → Handler → Route
at path method handler = record { path = path; method = method; handler = handler }

pub private_route : Memᴰ (at "/send_private_msg" post Handler.send_private_msg) routes
unfolding routes
private_route = tail (tail (tail (tail (tail (tail (head refl))))))

pub group_route : Memᴰ (at "/send_group_msg" post Handler.send_group_msg) routes
unfolding routes
group_route = tail (tail (tail (tail (tail (tail (tail (head refl)))))))

pub listen_route : Memᴰ (at "/message/listen" get Handler.listen_messages) routes
unfolding routes
listen_route =
    tail (tail (tail (tail (tail (tail (tail (tail (tail (tail (tail (tail (head refl))))))))))))

pub send-Arrives :
    (axum : Axum) (backend : OneBotHttpBackend) (recipient : MessageRecipient) (payload : String)
    → Arrives axum backend.base_url (send_request backend recipient payload) (handler_of recipient)
unfolding send_request request endpoint_url trim_start_slashes
send-Arrives axum backend (MessageRecipient.private user_id) payload = record {
  path = "/send_private_msg";
  addressed = refl;
  served = (every_route_served axum _ private_route).1;
}
send-Arrives axum backend (MessageRecipient.group group_id) payload = record {
  path = "/send_group_msg";
  addressed = refl;
  served = (every_route_served axum _ group_route).1;
}
