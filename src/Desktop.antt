-- ===== src/Desktop.antt =====
-- napcat-rs/crates/desktop: the snapshot of events and the life cycle of `DesktopRuntime`. The task
-- of the panel is a list of what its `select!` meets, one for each round.
mod Laws
mod Tests
use nap_cat_qq_rs.Prelude.{
  ℕ, suc, ◌+◌, ◌-◌, ◌^◌, String, ◌<>◌, Bool, true, false, Option, none, some, List, [], ◌∷◌, Result,
  ok, err, max, min, if◌then◌else◌,
}
use nap_cat_qq_rs.Text.Decimal.{to_decimal}
use nap_cat_qq_rs.Event.{EventEnvelope, Received, value, lagged, closed}

pub data DesktopError : Type 0 where
  already_stopped already_running control_closed : DesktopError

pub record DesktopSnapshot : Type 0 where
  pub title : String
  pub total_events : ℕ
  pub last_event_ms : Option ℕ
  pub last_source : Option String
  pub last_kind : Option String

unfoldable pub empty : String → DesktopSnapshot
empty title = record {
  title = title;
  total_events = 0;
  last_event_ms = none;
  last_source = none;
  last_kind = none;
}

line_of : DesktopSnapshot → Option String → Option String → String
line_of snapshot (some source) (some kind) =
    snapshot.title
    <> (" | events="
        <> (to_decimal snapshot.total_events <> (" last=" <> (source <> (" " <> kind)))))
line_of snapshot _ _ = snapshot.title <> (" | events=" <> to_decimal snapshot.total_events)

unfoldable pub as_status_line : DesktopSnapshot → String
unfolding line_of
as_status_line snapshot = line_of snapshot snapshot.last_source snapshot.last_kind

-- `u64::saturating_add`
abbrev pub saturating_add : ℕ → ℕ → ℕ
saturating_add a b = min (a + b) (2 ^ 64 - 1)

-- The runtime, with `has_stop` for the sender of the stop channel and `has_task` for the task's
-- handle.
pub record DesktopRuntime : Type 0 where
  pub snapshot : DesktopSnapshot
  pub has_stop : Bool
  pub has_task : Bool

unfoldable pub new : String → DesktopRuntime
unfolding empty
new title = record { snapshot = empty title; has_stop = false; has_task = false }

-- The answer, and the interval of the ticker of the task that is spawned.
unfoldable pub start : ℕ → DesktopRuntime → Result DesktopError ℕ × DesktopRuntime
start refresh_interval_ms runtime =
    if runtime.has_task
    then (err already_running, runtime)
    else (ok (max refresh_interval_ms 250), record runtime { has_stop = true; has_task = true })

-- A round of the task: a tick, an event of the bus, or the request to stop, which also ends the
-- task when its sender is gone.
pub data Round (T : Type 0) : Type 0 where
  tick stop : Round T
  receive : Received (EventEnvelope T) → Round T

module _ {T : Type 0} where
  observe : EventEnvelope T → DesktopSnapshot → DesktopSnapshot
  observe envelope snapshot = record snapshot {
    total_events = saturating_add snapshot.total_events 1;
    last_event_ms = some envelope.at_millis;
    last_source = some envelope.source;
    last_kind = some envelope.kind;
  }

  -- The loop of the task, and whether it has ended. An error of `recv` changes nothing.
  unfoldable pub watch : List (Round T) → DesktopSnapshot → DesktopSnapshot × Bool
  unfolding observe
  watch [] snapshot = (snapshot, false)
  watch (stop ∷ rounds) snapshot = (snapshot, true)
  watch (tick ∷ rounds) snapshot = watch rounds snapshot
  watch (receive (value envelope) ∷ rounds) snapshot = watch rounds (observe envelope snapshot)
  watch (receive _ ∷ rounds) snapshot = watch rounds snapshot

-- `heard` tells whether the task still holds the receiver of the stop channel.
unfoldable pub stop_runtime :
    (heard : Bool) → DesktopRuntime → Result DesktopError (Unit {0}) × DesktopRuntime
stop_runtime heard runtime =
    if runtime.has_stop
    then (if heard
        then (ok tt, record runtime { has_stop = false; has_task = false })
        else (err control_closed, record runtime { has_stop = false }))
    else (err already_stopped, runtime)
