-- ===== src/Desktop/Laws.antt =====
-- What the panel counts, and the states of its life cycle.
use mathlib.Core.Path.{subst}
use nap_cat_qq_rs.Prelude.{
  ℕ, suc, ◌+◌, ◌-◌, ◌^◌, ◌≤◌, ◌≡◌, Bool, true, false, Option, none, some, List, [], ◌∷◌, err, arith,
  length, min,
}
use nap_cat_qq_rs.Event.{EventEnvelope, value, lagged, closed}
use nap_cat_qq_rs.Desktop.{
  already_stopped, already_running, control_closed, DesktopSnapshot, saturating_add, DesktopRuntime,
  start, Round, tick, stop, receive, observe, watch, stop_runtime,
}

saturating_once :
    (count l : ℕ) → min (saturating_add count 1 + l) (2 ^ 64 - 1) ≡ min (count + suc l) (2 ^ 64 - 1)
saturating_once count l = omega arith

module _ {T : Type 0} where
  -- The envelopes that are received before the request to stop.
  unfoldable pub seen : List (Round T) → List (EventEnvelope T)
  seen [] = []
  seen (stop ∷ rounds) = []
  seen (tick ∷ rounds) = seen rounds
  seen (receive (value envelope) ∷ rounds) = envelope ∷ seen rounds
  seen (receive _ ∷ rounds) = seen rounds

  -- The last envelope, if there is one.
  unfoldable pub latest :
      List (EventEnvelope T) → Option (EventEnvelope T) → Option (EventEnvelope T)
  latest [] last = last
  latest (envelope ∷ envelopes) last = latest envelopes (some envelope)

  -- The snapshot shows the count, and the source, kind and time of the last envelope.
  abbrev pub Shows : DesktopSnapshot → ℕ → Option (EventEnvelope T) → Type 0
  Shows snapshot count none =
      (snapshot.total_events ≡ count)
      × (snapshot.last_event_ms ≡ none)
      × (snapshot.last_source ≡ none)
      × (snapshot.last_kind ≡ none)
  Shows snapshot count (some envelope) =
      (snapshot.total_events ≡ count)
      × (snapshot.last_event_ms ≡ some envelope.at_millis)
      × (snapshot.last_source ≡ some envelope.source)
      × (snapshot.last_kind ≡ some envelope.kind)

  observe-Shows :
      (envelope : EventEnvelope T) (snapshot : DesktopSnapshot) (count : ℕ)
      (last : Option (EventEnvelope T))
      → Shows snapshot count last
      → Shows (observe envelope snapshot) (saturating_add count 1) (some envelope)
  unfolding observe
  observe-Shows envelope snapshot count none h = ground (arith, h)
  observe-Shows envelope snapshot count (some other) h = ground (arith, h)

  -- The panel counts what it receives before it is asked to stop, up to the largest number of 64
  -- bits, and shows the last of it; ticks, and events that were overwritten, change nothing.
  pub watch-Shows :
      (rounds : List (Round T)) (snapshot : DesktopSnapshot) (count : ℕ)
      (last : Option (EventEnvelope T))
      → count ≤ 2 ^ 64 - 1
      → Shows snapshot count last
      → Shows
          (watch rounds snapshot).0
          (min (count + length (seen rounds)) (2 ^ 64 - 1))
          (latest (seen rounds) last)
  unfolding watch seen latest observe
  watch-Shows [] snapshot count none b h = ground (arith, h)
  watch-Shows [] snapshot count (some envelope) b h = ground (arith, h)
  watch-Shows (stop ∷ rounds) snapshot count none b h = ground (arith, h)
  watch-Shows (stop ∷ rounds) snapshot count (some envelope) b h = ground (arith, h)
  watch-Shows (tick ∷ rounds) snapshot count last b h = watch-Shows rounds snapshot count last b h
  watch-Shows (receive (value envelope) ∷ rounds) snapshot count last b h =
      subst
        (λ n.
          Shows (watch rounds (observe envelope snapshot)).0 n
            (latest (seen rounds) (some envelope)))
        (saturating_once count (length (seen rounds)))
        (watch-Shows rounds (observe envelope snapshot) (saturating_add count 1) (some envelope)
          (omega arith) (observe-Shows envelope snapshot count last h))
  watch-Shows (receive (lagged n) ∷ rounds) snapshot count last b h =
      watch-Shows rounds snapshot count last b h
  watch-Shows (receive closed ∷ rounds) snapshot count last b h =
      watch-Shows rounds snapshot count last b h

-- The defect: when the task has ended without being asked to, `stop` gives the error
-- `control_closed` and forgets the stop channel but not the task; from then on every `start` is
-- refused as already running and every `stop` as already stopped.
pub failed_stop_wedges :
    (runtime : DesktopRuntime) (heard : Bool) (refresh_interval_ms : ℕ)
    → runtime.has_stop ≡ true
    → runtime.has_task ≡ true
    → let after = record runtime { has_stop = false } in
      (stop_runtime false runtime ≡ (err control_closed, after))
      × (start refresh_interval_ms after ≡ (err already_running, after))
      × (stop_runtime heard after ≡ (err already_stopped, after))
unfolding stop_runtime start
failed_stop_wedges runtime heard refresh_interval_ms s t = ground arith
