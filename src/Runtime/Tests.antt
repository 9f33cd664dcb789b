-- ===== src/Runtime/Tests.antt =====
-- Runs of the runtime, and the theorems on it at concrete inputs.
use mathlib.Core.List.Permᴰ
use nap_cat_qq_rs.Prelude.{◌≡◌, refl, [], ◌∷◌, none, ok, err, eqb, if◌then◌else◌}
use nap_cat_qq_rs.Runtime.{
  running, stopping, stopped, task_failure, Runtime, Joins, finished, panicked, joined_result,
  Channel, notify, shutdown,
}
use nap_cat_qq_rs.Runtime.Interleaving.{Steps, overtaken}

abbrev open_channel : Channel
open_channel = record { receiver_count = 1; send_error = none }

-- A runtime with one service.
abbrev serving : Runtime
serving = record { state = running; tasks = ("echo", 0) ∷ []; spawned = 0 ∷ []; next_task = 1 }

-- Every task finishes, in the order of the table.
abbrev all_finish : Joins
all_finish = record { outcome = λ task. finished; order = λ tasks. tasks; permutes = Permᴰ.refl }

-- A runtime with two tasks, both managed.
abbrev busy : Runtime
busy = record {
  state = running;
  tasks = ("poll", 1) ∷ ("echo", 0) ∷ [];
  spawned = 1 ∷ 0 ∷ [];
  next_task = 2;
}

-- The first task panics.
abbrev one_panics : Joins
one_panics = record all_finish {
  outcome = λ task. if eqb task 0 then panicked "lost" else finished;
}

panic_told :
    shutdown open_channel one_panics busy
    ≡ (err (task_failure "lost"), record busy { state = stopping; tasks = [] })
unfolding shutdown joined_result
panic_told = refl

abbrev late : Runtime
late = record { state = stopped; tasks = ("slow", 1) ∷ []; spawned = 1 ∷ 0 ∷ []; next_task = 2 }

overtaken_example :
    Steps (serving, []) (late, []) × (shutdown open_channel all_finish late ≡ (ok 0, late))
unfolding notify
overtaken_example =
    overtaken serving open_channel open_channel all_finish all_finish "slow" refl refl tt
