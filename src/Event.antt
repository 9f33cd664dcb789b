-- ===== src/Event.antt =====
-- napcat-rs/crates/event: envelopes and the bus. The bus is a broadcast channel of tokio: what its
-- `send` and the `recv` of a subscriber answer are arguments.
use nap_cat_qq_rs.Prelude.{ℕ, String, Option, Result, ok, err, map_err, unwrap_or}

pub data EventError : Type 0 where
  no_subscriber : EventError

pub record EventEnvelope (T : Type 0) : Type 0 where
  pub source : String
  pub kind : String
  pub at_millis : ℕ
  pub payload : T

-- What `recv` of a broadcast receiver answers: a value, that `skipped` values were overwritten before
-- they were read, or that every sender is gone.
pub data Received (T : Type 0) : Type 0 where
  value : T → Received T
  lagged : (skipped : ℕ) → Received T
  closed : Received T

-- What `send` of a broadcast sender answers: the number of its receivers, or that there is none.
pub data Sent : Type 0 where
  delivered : ℕ → Sent
  unheard : Sent

module _ {T : Type 0} where
  -- `EventEnvelope::new`; the clock gives nothing before 1970.
  unfoldable pub new_envelope : (now : Option ℕ) (source kind : String) → T → EventEnvelope T
  new_envelope now source kind payload = record {
    source = source;
    kind = kind;
    at_millis = unwrap_or now 0;
    payload = payload;
  }

send_result : Sent → Result (Unit {0}) ℕ
send_result (delivered receivers) = ok receivers
send_result unheard = err tt

-- `EventBus::publish`
unfoldable pub publish : Sent → Result EventError ℕ
unfolding send_result
publish sent = map_err (λ _. no_subscriber) (send_result sent)
