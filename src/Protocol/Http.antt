-- ===== src/Protocol/Http.antt =====
-- The requests of `OneBotHttpBackend` of napcat-rs/crates/protocol and what the network answers to
-- them.
use nap_cat_qq_rs.Prelude.{String, Bool, Option, List, Result}

pub record OneBotSendPrivate : Type 0 where
  pub user_id : String
  pub message : String

pub record OneBotSendGroup : Type 0 where
  pub group_id : String
  pub message : String

-- What is posted.
pub data Body : Type 0 where
  private_body : OneBotSendPrivate → Body
  group_body : OneBotSendGroup → Body

pub data Method : Type 0 where
  get post : Method

-- A request: its method, its URL, its bearer token, its query, and what is posted.
pub record Request : Type 0 where
  pub method : Method
  pub url : String
  pub token : Option String
  pub query : List (String × String)
  pub body : Option Body

pub record Response (Value : Type 0) : Type 0 where
  pub is_success : Bool
  pub status : String
  pub json : Result String Value

-- The network, and the look of a JSON value: a field, and a Boolean.
pub record Http (Value : Type 0) : Type 0 where
  pub send : Request → Result String (Response Value)
  pub get_field : String → Value → Option Value
  pub as_bool : Value → Option Bool
  pub show : Value → String
