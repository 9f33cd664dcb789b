-- ===== src/Api/Filter.antt =====
-- The query of the event routes of napcat-rs/crates/api, and the filter that it names. `to_lowercase`
-- is `str::to_lowercase`; the set of accepted types is the list of them.
mod Laws
mod Tests
use nap_cat_qq_rs.Prelude.{
  ℕ, String, ◌==◌, Bool, true, false, not, Option, none, some, List, [], ◌∷◌, map, is_empty, any,
  retain, if◌then◌else◌,
}
use nap_cat_qq_rs.Text.{trim}
use nap_cat_qq_rs.Text.Words.{split}
use nap_cat_qq_rs.Protocol.{ProtocolEvent, connected, disconnected, message_received, warning}

pub record ListenQuery : Type 0 where
  pub timeout_ms : Option ℕ
  pub timeout : Option ℕ
  pub max_events : Option ℕ
  pub limit : Option ℕ
  pub type_filter : Option String
  pub types_filter : Option String
  pub post_type : Option String

unfoldable pub parse_event_type_list : (to_lowercase : String → String) → String → List String
parse_event_type_list to_lowercase raw =
    retain (λ value. not (value == "")) (map (λ value. to_lowercase (trim value)) (split "," raw))

-- The types of one field of the query, if it names any.
named_types : (to_lowercase : String → String) → Option String → Option (List String)
unfolding parse_event_type_list
named_types to_lowercase none = none
named_types to_lowercase (some raw) =
    let types = parse_event_type_list to_lowercase raw in
    if is_empty types then none else some types

-- The types of a field, or those of the rest of the query.
prefer : Option (List String) → Option (List String) → Option (List String)
prefer (some types) rest = some types
prefer none rest = rest

unfoldable pub parse_event_types :
    (to_lowercase : String → String) → ListenQuery → Option (List String)
unfolding named_types prefer
parse_event_types to_lowercase query = prefer (named_types to_lowercase query.type_filter) (
    prefer (named_types to_lowercase query.types_filter) (named_types to_lowercase query.post_type))

module _ {Value : Type 0} where
  unfoldable pub onebot_event_post_type : ProtocolEvent Value → String
  onebot_event_post_type (message_received message) = "message"
  onebot_event_post_type (connected endpoint) = "meta_event"
  onebot_event_post_type disconnected = "meta_event"
  onebot_event_post_type (warning message) = "meta_event"

  -- The guard of both event routes.
  unfoldable pub is_accepted : Option (List String) → ProtocolEvent Value → Bool
  unfolding onebot_event_post_type
  is_accepted none event = true
  is_accepted (some types) event = any (λ t. t == onebot_event_post_type event) types
