-- ===== src/QqClient.antt =====
-- napcat-rs/crates/qq-client: what its two clients share. `Mock` is `MockQQClient`, `Endpoint` the
-- address rules of the TCP client, and `Tcp` is `TcpQQClient`. A `Duration` is its nanoseconds, and
-- the clock is an argument. Each `&self` method locks its fields one after the other; the model runs
-- a method to its end before the next one starts.
pub mod Mock
pub mod Endpoint
pub mod Network
pub mod Reader
pub mod Tcp
use nap_cat_qq_rs.Prelude.{
  ℕ, ◌/◌, ◌^◌, String, Option, none, some, Result, ok, err, ltb, if◌then◌else◌,
}

pub record QqClientConfig : Type 0 where
  pub endpoint : String
  pub token : Option String
  pub timeout_ms : ℕ

-- `QQClientConfig::new`
unfoldable pub new_config : String → QqClientConfig
new_config endpoint = record { endpoint = endpoint; token = none; timeout_ms = 2000 }

unfoldable pub with_token : QqClientConfig → String → QqClientConfig
with_token config token = record config { token = some token }

unfoldable pub with_timeout_ms : QqClientConfig → ℕ → QqClientConfig
with_timeout_ms config timeout_ms = record config { timeout_ms = timeout_ms }

pub data ConnectionState : Type 0 where
  disconnected connected logged_in closing : ConnectionState

pub record Packet : Type 0 where
  pub route : String
  pub payload : String

pub data QqClientError : Type 0 where
  transport protocol login_failed invalid_state timeout : String → QqClientError

abbrev pub as_millis : ℕ → ℕ
as_millis interval = interval / 1000000

-- `u64::try_from(interval.as_millis())`, and the error that both heartbeats make of a failure.
unfoldable pub interval_ms : ℕ → Result QqClientError ℕ
interval_ms interval =
    if ltb (as_millis interval) (2 ^ 64)
    then ok (as_millis interval)
    else err
        (timeout "heartbeat interval too long: out of range integral type conversion attempted")
