-- ===== src/Runtime/Shutdown.antt =====
-- What `shutdown` and a registration under a taken name leave behind.
use nap_cat_qq_rs.Prelude.{
  ℕ, ◌+◌, ◌<◌, String, ◌<>◌, ◌≡◌, some, List, [], map, Result, refl, ap, ◌∙◌, ◌∷◌, ok, err, arith,
  length, length-map, length-Permᴰ, true, ◌⊎◌, inl, inr,
}
use mathlib.Core.List.{Permᴰ}
use mathlib.Core.List.Permᴰ
use mathlib.Core.List.Permᴰ.{nil, cons, swap, trans}
use nap_cat_qq_rs.HashMap
use nap_cat_qq_rs.HashMap.{HashMap}
use nap_cat_qq_rs.Runtime.{
  RuntimeError, task_failure, shutdown_timeout, running, stopping, stopped, Runtime, start,
  register_service, Joined, Joins, ended, finished, timed_out, panicked, waiter_panicked,
  joined_result, join_all, Channel, notify, may_stop, shutdown,
}

-- Every task finished.
abbrev pub AreFinished : List Joined → Type 0
AreFinished [] = Unit {0}
AreFinished (finished ∷ joins) = AreFinished joins
AreFinished (_ ∷ joins) = ⊥

-- Some task did not finish: the first that did not has the error `e`.
abbrev pub FirstFailure : List Joined → RuntimeError → Type 0
FirstFailure [] e = ⊥
FirstFailure (finished ∷ joins) e = FirstFailure joins e
FirstFailure (joined ∷ joins) e = joined_result joined ≡ err e

join_all-finished :
    (joins : List Joined) (count : ℕ)
    → AreFinished joins
    → join_all joins count ≡ ok (count + length joins)
unfolding join_all joined_result
join_all-finished [] count h = ground arith
join_all-finished (finished ∷ joins) count h = ground (arith, join_all-finished joins (count + 1) h)
join_all-finished (timed_out ∷ joins) count h = elim h [ ]
join_all-finished (panicked _ ∷ joins) count h = elim h [ ]
join_all-finished (waiter_panicked _ ∷ joins) count h = elim h [ ]

join_all-failure :
    (joins : List Joined) (count : ℕ) (e : RuntimeError)
    → FirstFailure joins e
    → join_all joins count ≡ err e
unfolding join_all joined_result
join_all-failure [] count e h = elim h [ ]
join_all-failure (finished ∷ joins) count e h = join_all-failure joins (count + 1) e h
join_all-failure (timed_out ∷ joins) count e h = ground arith
join_all-failure (panicked x ∷ joins) count e h = ground arith
join_all-failure (waiter_panicked x ∷ joins) count e h = ground arith

-- A task of a list, and of a table, under some name.
abbrev pub Among : ℕ → List ℕ → Type 0
Among task [] = ⊥
Among task (other ∷ tasks) = (task ≡ other) ⊎ Among task tasks

abbrev pub Holds : ℕ → HashMap ℕ → Type 0
Holds task tasks = Among task (map (λ entry. entry.1) tasks)

-- Every task of the table was spawned before the number `next`.
abbrev pub AreBelow : ℕ → HashMap ℕ → Type 0
AreBelow next [] = Unit {0}
AreBelow next ((name, task) ∷ tasks) = (task < next) × AreBelow next tasks

Among-Permᴰ : (task : ℕ) {xs ys : List ℕ} → Permᴰ xs ys → Among task xs → Among task ys
Among-Permᴰ task nil h = h
Among-Permᴰ task (cons e p) (inl h) = inl (h ∙ e)
Among-Permᴰ task (cons e p) (inr h) = inr (Among-Permᴰ task p h)
Among-Permᴰ task (swap e f) (inl h) = inr (inl (h ∙ e))
Among-Permᴰ task (swap e f) (inr (inl h)) = inl (h ∙ f)
Among-Permᴰ task (swap e f) (inr (inr h)) = inr (inr h)
Among-Permᴰ task (trans p q) h = Among-Permᴰ task q (Among-Permᴰ task p h)

-- Every one finished, or there is a first that did not.
data Ending (outcome : ℕ → Joined) (tasks : List ℕ) : Type 0 where
  all_finished : AreFinished (map outcome tasks) → Ending outcome tasks
  first_failed :
      (task : ℕ) (e : RuntimeError)
      → Among task tasks
      → joined_result (outcome task) ≡ err e
      → FirstFailure (map outcome tasks) e
      → Ending outcome tasks

extended :
    (outcome : ℕ → Joined) (task : ℕ) (tasks : List ℕ) (joined : Joined)
    → outcome task ≡ joined
    → Ending outcome tasks
    → Ending outcome (task ∷ tasks)
unfolding joined_result
extended outcome task tasks finished e (all_finished h) = all_finished (rw e h)
extended outcome task tasks finished e (first_failed other x there r f) =
    first_failed other x (inr there) r (rw e f)
extended outcome task tasks timed_out e rest =
    first_failed task shutdown_timeout (inl refl) (rw e refl) (rw e refl)
extended outcome task tasks (panicked x) e rest =
    first_failed task (task_failure x) (inl refl) (rw e refl) (rw e refl)
extended outcome task tasks (waiter_panicked x) e rest =
    first_failed task (task_failure x) (inl refl) (rw e refl) (rw e refl)

ending : (outcome : ℕ → Joined) (tasks : List ℕ) → Ending outcome tasks
ending outcome [] = all_finished tt
ending outcome (task ∷ tasks) =
    extended outcome task tasks (outcome task) refl (ending outcome tasks)

module _ (channel : Channel) (joins : Joins) (runtime : Runtime) where
  pub shutdown-finished :
      may_stop runtime.state ≡ true
      → notify channel ≡ ok tt
      → AreFinished (ended joins runtime.tasks)
      → let after = record runtime { state = stopped; tasks = [] } in
        (shutdown channel joins runtime ≡ (ok (length (ended joins runtime.tasks)), after))
        × (start after ≡ (ok tt, record after { state = running }))
  unfolding shutdown start may_stop
  shutdown-finished m n h = ground (arith, join_all-finished (ended joins runtime.tasks) 0 h)

  shutdown-failed :
      (e : RuntimeError)
      → may_stop runtime.state ≡ true
      → notify channel ≡ ok tt
      → FirstFailure (ended joins runtime.tasks) e
      → shutdown channel joins runtime ≡ (err e, record runtime { state = stopping; tasks = [] })
  unfolding shutdown may_stop
  shutdown-failed e m n h = ground (arith, join_all-failure (ended joins runtime.tasks) 0 e h)

-- Every task of the table finishes, or some task does not.
abbrev pub AllFinish : Joins → HashMap ℕ → Type 0
AllFinish joins tasks = (task : ℕ) → Holds task tasks → joins.outcome task ≡ finished

-- What a shutdown of a table comes to.
pub data Ends (channel : Channel) (joins : Joins) (runtime : Runtime)
    : Result RuntimeError ℕ × Runtime → Type 0 where
  all_joined :
      AllFinish joins runtime.tasks
      → Ends channel joins runtime
          (ok (length runtime.tasks), record runtime { state = stopped; tasks = [] })
  one_failed :
      (task : ℕ) (e : RuntimeError)
      → Holds task runtime.tasks
      → joined_result (joins.outcome task) ≡ err e
      → Ends channel joins runtime (err e, record runtime { state = stopping; tasks = [] })

length-ended : (joins : Joins) (tasks : HashMap ℕ) → length (ended joins tasks) ≡ length tasks
length-ended joins tasks =
    length-map joins.outcome (joins.order numbers)
    ∙ length-Permᴰ (joins.permutes numbers)
    ∙ length-map (λ entry. entry.1) tasks
  where
    numbers : List ℕ
    numbers = map (λ entry. entry.1) tasks

none_left : (joins : Joins) → AreFinished (ended joins [])
none_left joins = elim (ending joins.outcome (joins.order [])) [
  | all_finished h ↦ h
  | first_failed task e there r f ↦ elim (Among-Permᴰ task (joins.permutes []) there) [ ]
]

-- The defect: after a shutdown in which a task did not finish, whatever became of that task, a second
-- shutdown that is announced waits for no task, answers zero and stops the runtime.
pub shutdown_forgets :
    (channel : Channel) (joins again : Joins) (runtime : Runtime) (e : RuntimeError)
    → may_stop runtime.state ≡ true
    → notify channel ≡ ok tt
    → FirstFailure (ended joins runtime.tasks) e
    → let (first, after) = shutdown channel joins runtime in
      (first ≡ err e)
      × (shutdown channel again after ≡ (ok 0, record runtime { state = stopped; tasks = [] }))
unfolding may_stop
shutdown_forgets channel joins again runtime e m n h =
    let after = record runtime { state = stopping; tasks = [] } in
    rw (shutdown-failed channel joins runtime e m n h) (
      refl,
      (shutdown-finished channel again after refl n (none_left again)).0
          ∙ ap (λ count. (ok count, record runtime { state = stopped; tasks = [] }))
              (length-ended again []),
    )

not-Holds : (next : ℕ) (tasks : HashMap ℕ) → AreBelow next tasks → ¬ Holds next tasks
not-Holds next [] h there = elim there [ ]
not-Holds next ((name, task) ∷ tasks) h (inl same) = omega (arith, h.0, same)
not-Holds next ((name, task) ∷ tasks) h (inr there) = not-Holds next tasks h.1 there

-- The defect: a registration under a name that is taken gives the error `service already registered`,
-- but has spawned its task, which the table does not hold, so that no shutdown waits for it.
pub duplicate_leaks :
    (name : String) (other : ℕ) (runtime : Runtime)
    → runtime.state ≡ running
    → HashMap.get name runtime.tasks ≡ some other
    → AreBelow runtime.next_task runtime.tasks
    → let (r, after) = register_service name runtime in
      (r ≡ err (task_failure ("service" <> (" already registered: " <> name))))
      × (after.tasks ≡ runtime.tasks)
      × (after.spawned ≡ runtime.next_task ∷ runtime.spawned)
      × ¬ Holds runtime.next_task after.tasks
unfolding register_service
duplicate_leaks name other runtime s h below =
    ground (arith, not-Holds runtime.next_task runtime.tasks below)
