-- ===== src/Desktop/Tests.antt =====
-- Runs of the panel, and the theorems on it at concrete inputs.
use nap_cat_qq_rs.Text.Decimal.{to_decimal}
use nap_cat_qq_rs.Prelude.{
  ◌+◌, ℕ, ◌^◌, ◌-◌, ◌≡◌, refl, true, none, List, [], ◌∷◌, ok, arith, min, length,
}
use nap_cat_qq_rs.Event.{EventEnvelope, value, lagged}
use nap_cat_qq_rs.Desktop.{
  DesktopRuntime, empty, as_status_line, new, start, Round, tick, stop, receive, watch,
}
use nap_cat_qq_rs.Desktop.Laws.{seen, latest, Shows, watch-Shows}

abbrev envelope : EventEnvelope ℕ
envelope = record { source = "protocol"; kind = "message"; at_millis = 7; payload = 1 }

abbrev rounds : List (Round ℕ)
rounds = tick ∷ receive (value envelope) ∷ receive (lagged 3) ∷ stop ∷ receive (value envelope) ∷ []

status_line :
    as_status_line (watch rounds (empty "desktop")).0 ≡ "desktop | events=1 last=protocol message"
unfolding as_status_line watch empty to_decimal
status_line = refl

watch-Shows_example :
    Shows
      (watch rounds (empty "desktop")).0
      (min (0 + length (seen rounds)) (2 ^ 64 - 1))
      (latest (seen rounds) none)
unfolding empty
watch-Shows_example =
    watch-Shows rounds (empty "desktop") 0 none (omega arith) (refl, refl, refl, refl)

abbrev dead : DesktopRuntime
dead = record {
  snapshot = record {
    title = "desktop";
    total_events = 0;
    last_event_ms = none;
    last_source = none;
    last_kind = none;
  };
  has_stop = true;
  has_task = true;
}

dead_started : start 0 (new "desktop") ≡ (ok 250, dead)
unfolding start new
dead_started = refl
