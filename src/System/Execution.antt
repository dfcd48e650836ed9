-- ===== src/System/Execution.antt =====
-- The scheduler of src/scheduler.cpp: how it runs a task, starts, and empties its run queue.
-- `execute` of a task is the application's and may do anything to the state; the walk along the list
-- of associated tasks and the emptying of the run queue are bounded by the number of tasks.
use tasking_framework.Base.{
  ℕ, zero, suc, Bool, true, false, Option, none, some, List, [], ◌∷◌, Ptr, if◌then◌else◌, ◌>>=◌,
}
use tasking_framework.Policy.Interface.{SchedulePolicy}
use tasking_framework.System.World.{
  World, Kind, plain, barrier, derived, Platform, set_task, inputs_activated,
}
use tasking_framework.System.Activation.{perform}
use tasking_framework.System.Reset.{reset, finalize_execution}

module _ (policy : SchedulePolicy) {E : Type 0} (platform : Platform E) where
  open policy use {State, tasks, next_task}

  unfoldable pub sync_start_of : Kind → ℕ → ℕ → ℕ → World State E → World State E
  sync_start_of derived c t volume w = record w {
    rest = platform.synchronize_start c t volume w.rest;
  }
  sync_start_of plain c t volume w = w
  sync_start_of barrier c t volume w = w

  unfoldable pub sync_end_of : Kind → ℕ → ℕ → World State E → World State E
  sync_end_of derived c t w = record w { rest = platform.synchronize_end c t w.rest }
  sync_end_of plain c t w = w
  sync_end_of barrier c t w = w

  -- The task that an input hands to its channel is read through a pointer.
  unfoldable pub input_start : Ptr → Ptr → ℕ → World State E → Option (World State E)
  input_start none t volume w = some w
  input_start (some c) none volume w = none
  input_start (some c) (some t) volume w = some (sync_start_of (w.channels c).kind c t volume w)

  unfoldable pub input_end : Ptr → Ptr → World State E → Option (World State E)
  input_end none t w = some w
  input_end (some c) none w = none
  input_end (some c) (some t) w = some (sync_end_of (w.channels c).kind c t w)

  -- `TaskImpl::synchronizeStart`.
  unfoldable pub synchronize_start : List ℕ → World State E → Option (World State E)
  unfolding input_start sync_start_of
  synchronize_start [] w = some w
  synchronize_start (i ∷ is) w = do
    w' ← input_start (w.inputs i).channel (w.inputs i).task (w.inputs i).notifications w
    synchronize_start is w'

  -- `TaskImpl::synchronizeEnd`.
  unfoldable pub synchronize_end : List ℕ → World State E → Option (World State E)
  unfolding input_end sync_end_of
  synchronize_end [] w = some w
  synchronize_end (i ∷ is) w = do
    w' ← input_end (w.inputs i).channel (w.inputs i).task w
    synchronize_end is w'

  -- `SchedulerImpl::execute`.
  unfoldable pub execute :
      (ℕ → World State E → Option (World State E)) → ℕ → World State E → Option (World State E)
  execute body t w = do
    w₁ ← synchronize_start (w.tasks t).inputs w
    w₂ ← body t w₁
    w₃ ← synchronize_end (w₂.tasks t).inputs w₂
    finalize_execution policy platform t w₃

  -- `SchedulerImpl::add`.
  unfoldable pub add : ℕ → World State E → World State E
  add t w =
      record (set_task t (record (w.tasks t) { next_task_at_scheduler = w.associated_tasks }) w) {
        associated_tasks = some t;
      }

  -- What `start` does with one associated task.
  unfoldable pub start_one : Bool → ℕ → World State E → Option (World State E)
  start_one true t w = reset policy platform t w
  start_one false t w = if inputs_activated t w then perform policy platform t w else some w

  unfoldable pub start_loop : Bool → ℕ → Ptr → World State E → Option (World State E)
  start_loop do_reset zero p w = none
  start_loop do_reset (suc fuel) none w = some w
  start_loop do_reset (suc fuel) (some t) w = do
    w' ← start_one do_reset t w
    start_loop do_reset fuel (w'.tasks t).next_task_at_scheduler w'

  -- `Scheduler::start`.
  unfoldable pub start : Bool → World State E → Option (World State E)
  unfolding start_loop start_one
  start do_reset w =
      start_loop do_reset (suc tasks) w.associated_tasks (record w { running = true })

  -- The loop of `Scheduler::terminate` that takes tasks until there is none.
  unfoldable pub empty_queue : ℕ → State → Option State
  empty_queue zero s = none
  empty_queue (suc fuel) s = elim (next_task s) [
    | none ↦ none
    | some (s', none) ↦ some s'
    | some (s', some t) ↦ empty_queue fuel s'
  ]

  -- `Scheduler::terminate`, up to the wait for running tasks, which is the platform's.
  -- `dequeue_all` is the clock's method.
  unfoldable pub terminate : (E → E) → Bool → World State E → Option (World State E)
  terminate dequeue_all do_not_remove_pending_tasks w =
      let w' = record w { running = false; rest = dequeue_all w.rest } in
      if do_not_remove_pending_tasks
      then some w'
      else (do q ← empty_queue (suc tasks) w'.queue; some (record w' { queue = q }))
