-- ===== src/System/Reset.antt =====
-- The way back to waiting: `reset` of src/taskChannel.cpp, src/taskBarrier.cpp, src/taskInput.cpp,
-- src/taskInputArray.cpp, src/task.cpp and src/taskGroup.cpp, and `finalizeExecution` of a task and
-- of a group. The virtual method `Task::reset` is the one of `Task`.
use tasking_framework.Base.{
  ℕ, Bool, true, false, ◌&&◌, Option, none, some, List, [], ◌∷◌, Ptr, if◌then◌else◌, ◌>>=◌,
}
use tasking_framework.Input as Input
use tasking_framework.Policy.Interface.{SchedulePolicy}
use tasking_framework.System.World.{
  TaskState, task_wait, task_run, task_finish, task_reset, task_pending, World, Kind, plain,
  barrier, derived, Platform, set_state, set_input, inputs_activated,
}
use tasking_framework.System.Activation.{perform, activate_at, set_counter}

unfoldable pub is_finish : TaskState → Bool
is_finish task_finish = true
is_finish s = false

unfoldable pub is_pending : TaskState → Bool
is_pending task_pending = true
is_pending s = false

module _ (policy : SchedulePolicy) {E : Type 0} (platform : Platform E) where
  open policy use {State}

  unfoldable pub reset_of : Kind → ℕ → World State E → World State E
  reset_of plain c w = w
  reset_of barrier c w = set_counter policy platform c (w.channels c).start_value w
  reset_of derived c w = record w { rest = platform.channel_reset c w.rest }

  -- `Channel::reset`, or the method that overrides it: the one of `Barrier`, or one of another class,
  -- which is the platform's; that of `Event` stands in UnitTest/Relative.
  unfoldable pub channel_reset : ℕ → World State E → World State E
  unfolding reset_of set_counter
  channel_reset c w = reset_of (w.channels c).kind c w

  unfoldable pub reset_at : Ptr → World State E → World State E
  reset_at none w = w
  reset_at (some c) w = channel_reset c w

  -- `Input::reset`.
  unfoldable pub input_reset : ℕ → World State E → Option (World State E)
  unfolding reset_at
  input_reset i w =
      let w' = reset_at (w.inputs i).channel w in
      let (input, go) = Input.reset (w'.inputs i) in
      let w'' = set_input i input w' in
      if go then activate_at policy platform input.task w'' else some w''

  -- `InputArray::reset`.
  unfoldable pub array_reset : List ℕ → World State E → Option (World State E)
  array_reset [] w = some w
  array_reset (i ∷ is) w = do w' ← input_reset i w; array_reset is w'

  -- The end of `Task::reset`.
  unfoldable pub finish_reset : ℕ → World State E → Option (World State E)
  finish_reset t w =
      if is_pending (w.tasks t).state && inputs_activated t w
      then perform policy platform t (set_state t task_run w)
      else some (set_state t task_wait w)

  -- `Task::reset`.
  unfoldable pub reset : ℕ → World State E → Option (World State E)
  unfolding finish_reset
  reset t w = do w' ← array_reset (w.tasks t).inputs (set_state t task_reset w); finish_reset t w'

  -- `GroupImpl::areAllExecuted`, over the slots of the group: it ends at the first free one.
  unfoldable pub are_all_executed : List Ptr → World State E → Bool
  are_all_executed [] w = true
  are_all_executed (none ∷ ts) w = true
  are_all_executed (some t ∷ ts) w = is_finish (w.tasks t).state && are_all_executed ts w

  -- `GroupImpl::reset`.
  unfoldable pub group_reset : List Ptr → World State E → Option (World State E)
  group_reset [] w = some w
  group_reset (none ∷ ts) w = some w
  group_reset (some t ∷ ts) w = do w' ← reset t w; group_reset ts w'

  -- `GroupImpl::finalizeExecution`.
  unfoldable pub group_finalize : List Ptr → World State E → Option (World State E)
  group_finalize ts w = if are_all_executed ts w then group_reset ts w else some w

  pub finalize_in : Ptr → ℕ → World State E → Option (World State E)
  finalize_in none t w = reset t w
  finalize_in (some g) t w = group_finalize (w.groups g) (set_state t task_finish w)

  -- `TaskImpl::finalizeExecution`.
  unfoldable pub finalize_execution : ℕ → World State E → Option (World State E)
  unfolding finalize_in
  finalize_execution t w = finalize_in (w.tasks t).group t w
