-- ===== src/System/Activation.antt =====
-- From a channel to the run queue: `push` of src/taskChannel.cpp and src/taskBarrier.cpp,
-- `notifyInput` of src/taskInput.cpp, `activate` of src/task.cpp and `perform` of src/scheduler.cpp.
-- An access through a null pointer yields `none`, and so does a walk along a list of inputs that is
-- longer than the number of inputs, which only a cycle makes.
use tasking_framework.Base.{
  ℕ, zero, suc, ◌+◌, ◌-◌, ◌==◌, Option, none, some, Ptr, ltb, update, if◌then◌else◌, ◌>>=◌,
}
use tasking_framework.Input.{wrap, notify}
use tasking_framework.Policy.Interface.{SchedulePolicy}
use tasking_framework.System.World.{
  TaskState, task_wait, task_run, task_finish, task_reset, task_pending, World, Platform, set_state,
  set_input, inputs_activated,
}

module _ (policy : SchedulePolicy) {E : Type 0} (platform : Platform E) where
  open policy use {State, queue}

  -- `SchedulerImpl::perform`.
  unfoldable pub perform : ℕ → World State E → Option (World State E)
  perform t w =
      if w.running
      then (do (q, _) ← queue t w.queue; some (record w { queue = q; signals = w.signals + 1 }))
      else some w

  activate_in : TaskState → ℕ → World State E → Option (World State E)
  activate_in task_pending t w = some w
  activate_in task_reset t w = some (if inputs_activated t w then set_state t task_pending w else w)
  activate_in task_wait t w =
      if inputs_activated t w then perform t (set_state t task_run w) else some w
  activate_in task_run t w = some w
  activate_in task_finish t w = some w

  -- `TaskImpl::activate`.
  unfoldable pub activate : ℕ → World State E → Option (World State E)
  unfolding activate_in
  activate t w = activate_in (w.tasks t).state t w

  unfoldable pub activate_at : Ptr → World State E → Option (World State E)
  activate_at none w = none
  activate_at (some t) w = activate t w

  -- `InputImpl::notifyInput`.
  unfoldable pub notify_input : ℕ → World State E → Option (World State E)
  unfolding activate_at
  notify_input i w =
      let (input, go) = notify (w.inputs i) in
      let w' = set_input i input w in if go then activate_at input.task w' else some w'

  unfoldable pub push_loop : ℕ → Ptr → World State E → Option (World State E)
  push_loop zero p w = none
  push_loop (suc fuel) none w = some w
  push_loop (suc fuel) (some i) w = do
    w' ← notify_input i w
    push_loop fuel (w'.inputs i).channel_next_input w'

  -- `Channel::push`.
  unfoldable pub push : ℕ → World State E → Option (World State E)
  unfolding push_loop
  push c w = push_loop (suc platform.inputs) (w.channels c).inputs w

  unfoldable pub set_counter : ℕ → ℕ → World State E → World State E
  set_counter c n w = record w {
    channels = update w.channels c (record (w.channels c) { counter = n });
  }

  -- `Barrier::increase`.
  unfoldable pub barrier_increase : ℕ → ℕ → World State E → World State E
  unfolding set_counter
  barrier_increase c delta w = set_counter c (wrap ((w.channels c).counter + delta)) w

  -- `Barrier::push`.
  unfoldable pub barrier_push : ℕ → World State E → Option (World State E)
  unfolding set_counter
  barrier_push c w =
      let n = (w.channels c).counter in
      if ltb 0 n
      then (let w' = set_counter c (n - 1) w in if n - 1 == 0 then push c w' else some w')
      else some w
