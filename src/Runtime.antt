-- ===== src/Runtime.antt =====
-- napcat-rs/crates/core: `Runtime`, its life cycle and its table of tasks. A task is the number of
-- its spawn; how each join ends, and in which order, is the environment's. The shutdown channel is
-- its count of receivers and what `send` answers.
mod Shutdown
mod Interleaving
mod Tests
use mathlib.Core.Option
use mathlib.Core.List.{Permᴰ}
use nap_cat_qq_rs.Prelude.{
  ℕ, zero, suc, ◌+◌, String, ◌<>◌, ◌==◌, Bool, true, false, Option, none, some, List, [], ◌∷◌, ◌++◌,
  map, Result, ok, err, ltb, if◌then◌else◌,
}
use nap_cat_qq_rs.HashMap
use nap_cat_qq_rs.HashMap.{HashMap}

pub data RuntimeError : Type 0 where
  invalid_state task_failure : String → RuntimeError
  shutdown_timeout : RuntimeError

pub data RuntimeState : Type 0 where
  initialized running stopping stopped : RuntimeState

-- The `Debug` form of a state.
unfoldable pub debug_state : RuntimeState → String
debug_state initialized = "Initialized"
debug_state running = "Running"
debug_state stopping = "Stopping"
debug_state stopped = "Stopped"

-- `spawned` lists every task that `tokio::spawn` started, newest first; the program does not keep it.
pub record Runtime : Type 0 where
  pub state : RuntimeState
  pub tasks : HashMap ℕ
  pub spawned : List ℕ
  pub next_task : ℕ

abbrev pub new : Runtime
new = record { state = initialized; tasks = []; spawned = []; next_task = 0 }

start_from : RuntimeState → Runtime → Result RuntimeError (Unit {0}) × Runtime
start_from initialized runtime = (ok tt, record runtime { state = running })
start_from stopped runtime = (ok tt, record runtime { state = running })
start_from state runtime =
    (err (invalid_state ("cannot start from " <> (debug_state state <> " state"))), runtime)

unfoldable pub start : Runtime → Result RuntimeError (Unit {0}) × Runtime
unfolding start_from
start runtime = start_from runtime.state runtime

-- The first half of a registration: the test of the state, under the read lock.
unfoldable pub check_running : String → RuntimeState → Result RuntimeError (Unit {0})
check_running action running = ok tt
check_running action state =
    err (invalid_state ("cannot " <> (action <> (" in " <> (debug_state state <> " state")))))

-- The second half: the task is spawned, and then entered under its name, unless the name is taken.
unfoldable pub spawn_and_insert :
    String → String → Runtime → Result RuntimeError (Unit {0}) × Runtime
spawn_and_insert subject name runtime =
    let task = runtime.next_task in
    let spawned = record runtime { spawned = task ∷ runtime.spawned; next_task = suc task } in
    elim (HashMap.get name runtime.tasks) [
      | some other ↦ (err (task_failure (subject <> (" already registered: " <> name))), spawned)
      | none ↦ (ok tt, record spawned { tasks = HashMap.insert name task runtime.tasks })
    ]

register : String → String → String → Runtime → Result RuntimeError (Unit {0}) × Runtime
unfolding check_running spawn_and_insert
register action subject name runtime = elim (check_running action runtime.state) [
  | err e ↦ (err e, runtime)
  | ok _ ↦ spawn_and_insert subject name runtime
]

unfoldable pub register_service : String → Runtime → Result RuntimeError (Unit {0}) × Runtime
unfolding register
register_service name runtime = register "register service" "service" name runtime

unfoldable pub spawn_task : String → Runtime → Result RuntimeError (Unit {0}) × Runtime
unfolding register
spawn_task name runtime = register "spawn task" "task" name runtime

-- How the wait for one task ends: it finishes, its own timeout runs out, it panicked, or the task
-- that waits for it did.
pub data Joined : Type 0 where
  finished timed_out : Joined
  panicked waiter_panicked : String → Joined

-- How the joins of a table end: the outcome of each task, and the order in which `join_next` gives
-- them, which has each task of the table once.
pub record Joins : Type 0 where
  pub outcome : ℕ → Joined
  pub order : List ℕ → List ℕ
  pub permutes : (tasks : List ℕ) → Permᴰ (order tasks) tasks

-- The outcomes of the drained tasks.
abbrev pub ended : Joins → HashMap ℕ → List Joined
ended joins tasks = map joins.outcome (joins.order (map (λ entry. entry.1) tasks))

unfoldable pub joined_result : Joined → Result RuntimeError (Unit {0})
joined_result finished = ok tt
joined_result timed_out = err shutdown_timeout
joined_result (panicked e) = err (task_failure e)
joined_result (waiter_panicked e) = err (task_failure e)

-- `while let Some(joined) = join_set.join_next()`, with the number stopped so far.
join_all : List Joined → ℕ → Result RuntimeError ℕ
unfolding joined_result
join_all [] count = ok count
join_all (joined ∷ rest) count =
    let next = join_all rest (count + 1) in
    elim (joined_result joined) [ err e ↦ err e | ok _ ↦ next ]

-- What the shutdown channel answers: how many receivers it has, and the error of a `send`, if any.
pub record Channel : Type 0 where
  pub receiver_count : ℕ
  pub send_error : Option String

unfoldable pub notify : Channel → Result RuntimeError (Unit {0})
notify channel =
    if ltb 0 channel.receiver_count
    then elim channel.send_error [ none ↦ ok tt | some e ↦ err (task_failure e) ]
    else ok tt

unfoldable pub may_stop : RuntimeState → Bool
may_stop running = true
may_stop stopping = true
may_stop _ = false

-- The table is emptied before the tasks are joined; `joins` tells how.
drain : Joins → Runtime → Result RuntimeError ℕ × Runtime
unfolding join_all
drain joins runtime =
    let drained = record runtime { tasks = [] } in
    elim (join_all (ended joins runtime.tasks) 0) [
      | err e ↦ (err e, drained)
      | ok count ↦ (ok count, record drained { state = stopped })
    ]

shutdown_from : RuntimeState → Channel → Joins → Runtime → Result RuntimeError ℕ × Runtime
unfolding may_stop notify drain
shutdown_from stopped channel joins runtime = (ok 0, runtime)
shutdown_from state channel joins runtime =
    if may_stop state
    then (let marked = record runtime { state = stopping } in
        elim (notify channel) [ err e ↦ (err e, marked) | ok _ ↦ drain joins marked ])
    else (err (invalid_state ("cannot shutdown from " <> (debug_state state <> " state"))), runtime)

unfoldable pub shutdown : Channel → Joins → Runtime → Result RuntimeError ℕ × Runtime
unfolding shutdown_from
shutdown channel joins runtime = shutdown_from runtime.state channel joins runtime
