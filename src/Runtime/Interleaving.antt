-- ===== src/Runtime/Interleaving.antt =====
-- Registrations and shutdowns that overlap: a registration tests the state under one lock, which it
-- drops, and enters its task under another; other calls may run in between.
use mathlib.Core.Path.{subst}
use nap_cat_qq_rs.Prelude.{ℕ, suc, String, ◌≡◌, refl, true, List, [], ◌∷◌, ◌++◌, ok, arith}
use nap_cat_qq_rs.HashMap
use nap_cat_qq_rs.HashMap.{HashMap, HasUniqueKeys, insert-HasUniqueKeys, get-insert}
use nap_cat_qq_rs.Runtime.{
  RuntimeState, initialized, running, stopped, Runtime, start, check_running, spawn_and_insert,
  register_service, spawn_task, Joins, ended, Channel, notify, may_stop, shutdown,
}
use nap_cat_qq_rs.Runtime.Shutdown.{AreFinished, shutdown-finished}

-- One whole call, when no other one overlaps it.
pub data Call : Type 0 where
  starts : Call
  registers spawns : String → Call
  shuts_down : Channel → Joins → Call

unfoldable pub step : Runtime → Call → Runtime
unfolding start register_service spawn_task shutdown
step runtime starts = (start runtime).1
step runtime (registers name) = (register_service name runtime).1
step runtime (spawns name) = (spawn_task name runtime).1
step runtime (shuts_down channel joins) = (shutdown channel joins runtime).1

unfoldable pub run : Runtime → List Call → Runtime
run runtime [] = runtime
run runtime (call ∷ calls) = run (step runtime call) calls

-- A runtime that is not started, or that has stopped, manages no task.
abbrev pub IsIdle : RuntimeState → HashMap ℕ → Type 0
IsIdle initialized tasks = tasks ≡ []
IsIdle stopped tasks = tasks ≡ []
IsIdle _ tasks = Unit {0}

abbrev pub IsSettled : Runtime → Type 0
IsSettled runtime = IsIdle runtime.state runtime.tasks × HasUniqueKeys runtime.tasks

step-IsSettled :
    (runtime : Runtime) (call : Call) → IsSettled runtime → IsSettled (step runtime call)
unfolding step
step-IsSettled runtime starts h = ground arith
step-IsSettled runtime (registers name) h =
    ground (arith, insert-HasUniqueKeys name runtime.next_task runtime.tasks h.1)
step-IsSettled runtime (spawns name) h =
    ground (arith, insert-HasUniqueKeys name runtime.next_task runtime.tasks h.1)
step-IsSettled runtime (shuts_down channel joins) h = ground arith

-- When no call overlaps another, after any calls from a runtime where it holds: no task is managed
-- before the start or after a shutdown that succeeded, and the names in the table differ.
pub run-IsSettled :
    (runtime : Runtime) (calls : List Call) → IsSettled runtime → IsSettled (run runtime calls)
unfolding run
run-IsSettled runtime [] h = h
run-IsSettled runtime (call ∷ calls) h =
    run-IsSettled (step runtime call) calls (step-IsSettled runtime call h)

-- A runtime with the registrations that have passed the test of its state: what each registers, and
-- its name.
abbrev pub Scene : Type 0
Scene = Runtime × List (String × String)

pub data Step : Scene → Scene → Type 0 where
  begins :
      (runtime : Runtime) (pending : List (String × String))
      → Step (runtime, pending) ((start runtime).1, pending)
  checks :
      (runtime : Runtime) (pending : List (String × String)) (action subject name : String)
      → check_running action runtime.state ≡ ok tt
      → Step (runtime, pending) (runtime, (subject, name) ∷ pending)
  enters :
      (runtime : Runtime) (before after : List (String × String)) (subject name : String)
      → Step
          (runtime, before ++ (subject, name) ∷ after)
          ((spawn_and_insert subject name runtime).1, before ++ after)
  stops :
      (runtime : Runtime) (pending : List (String × String)) (channel : Channel) (joins : Joins)
      → Step (runtime, pending) ((shutdown channel joins runtime).1, pending)

pub data Steps : Scene → Scene → Type 0 where
  here : (scene : Scene) → Steps scene scene
  later : {a b c : Scene} → Step a b → Steps b c → Steps a c

stopping_step :
    (channel : Channel) (joins : Joins) (runtime : Runtime) (pending : List (String × String))
    → may_stop runtime.state ≡ true
    → notify channel ≡ ok tt
    → AreFinished (ended joins runtime.tasks)
    → Step (runtime, pending) (record runtime { state = stopped; tasks = [] }, pending)
stopping_step channel joins runtime pending m n h =
    subst (λ o. Step (runtime, pending) (o.1, pending))
      (shutdown-finished channel joins runtime m n h).0 (stops runtime pending channel joins)

-- The defect: a registration under a free name that passed its test on a running runtime, and is
-- overtaken by a shutdown that succeeds, enters its task in a runtime that has stopped; a shutdown of
-- that runtime answers zero and leaves the task in the table.
pub overtaken :
    (runtime : Runtime) (channel again : Channel) (joins joins_again : Joins) (name : String)
    → runtime.state ≡ running
    → notify channel ≡ ok tt
    → AreFinished (ended joins runtime.tasks)
    → let task = runtime.next_task in
      let late = record runtime {
        state = stopped;
        tasks = (name, task) ∷ [];
        spawned = task ∷ runtime.spawned;
        next_task = suc task;
      } in
      Steps (runtime, []) (late, []) × (shutdown again joins_again late ≡ (ok 0, late))
unfolding shutdown check_running may_stop HashMap.insert HashMap.remove HashMap.get spawn_and_insert
overtaken runtime channel again joins joins_again name s n h =
    let passed = checks runtime [] "register service" "service" name (ground arith) in
    let stop = stopping_step channel joins runtime (("service", name) ∷ []) (ground arith) n h in
    let enter = enters (record runtime { state = stopped; tasks = [] }) [] [] "service" name in
    (later passed (later stop (later enter (here _))), refl)
