-- ===== src/Api/Router.antt =====
-- `ApiState::router` of napcat-rs/crates/api: the table that it hands to axum, with the handler that
-- stands behind each path.
mod Laws
mod Arrival
mod Bridge
mod Tests
use nap_cat_qq_rs.Prelude.{String, List, [], ◌∷◌}
use nap_cat_qq_rs.Protocol.OneBot.{Method, get, post}

-- The handlers, by the names of their functions.
pub data Handler : Type 0 where
  health_check login_status get_status_compat get_login_info send_message send_msg_compat : Handler
  send_private_msg send_group_msg delete_msg get_group_info list_group_list get_friend_list :
      Handler
  listen_messages list_groups list_users plugin_load plugin_unload plugin_list plugin_kinds :
      Handler
  plugin_metadata plugin_status ws_upgrade : Handler

pub record Route : Type 0 where
  pub path : String
  pub method : Method
  pub handler : Handler

-- In the order of the code.
unfoldable pub routes : List Route
routes =
    record { path = "/health"; method = get; handler = health_check }
    ∷ record { path = "/login/status"; method = get; handler = login_status }
    ∷ record { path = "/get_status"; method = get; handler = get_status_compat }
    ∷ record { path = "/get_login_info"; method = get; handler = get_login_info }
    ∷ record { path = "/message/send"; method = post; handler = send_message }
    ∷ record { path = "/send_msg"; method = post; handler = send_msg_compat }
    ∷ record { path = "/send_private_msg"; method = post; handler = send_private_msg }
    ∷ record { path = "/send_group_msg"; method = post; handler = send_group_msg }
    ∷ record { path = "/delete_msg"; method = post; handler = delete_msg }
    ∷ record { path = "/get_group_info"; method = post; handler = get_group_info }
    ∷ record { path = "/get_group_list"; method = get; handler = list_group_list }
    ∷ record { path = "/get_friend_list"; method = get; handler = get_friend_list }
    ∷ record { path = "/message/listen"; method = get; handler = listen_messages }
    ∷ record { path = "/get_events"; method = get; handler = listen_messages }
    ∷ record { path = "/groups"; method = get; handler = list_groups }
    ∷ record { path = "/users"; method = get; handler = list_users }
    ∷ record { path = "/plugin/load"; method = post; handler = plugin_load }
    ∷ record { path = "/plugin/unload"; method = post; handler = plugin_unload }
    ∷ record { path = "/plugin/list"; method = get; handler = plugin_list }
    ∷ record { path = "/plugin/kinds"; method = get; handler = plugin_kinds }
    ∷ record { path = "/plugin/metadata"; method = post; handler = plugin_metadata }
    ∷ record { path = "/plugin/status"; method = get; handler = plugin_status }
    ∷ record { path = "/ws"; method = get; handler = ws_upgrade }
    ∷ []
