-- ===== src/System/World.antt =====
-- The state of an application: include/impl/task_Impl.h, include/impl/taskGroup_impl.h,
-- include/impl/scheduler_impl.h, include/taskChannel.h and include/taskBarrier.h. Objects are
-- numbered, and a store maps a number to its object.
use tasking_framework.Base.{ℕ, Bool, Option, List, Ptr, update, map}
use tasking_framework.Input.{Input}
use tasking_framework.InputArray.{array_is_activated}

pub data TaskState : Type 0 where
  task_wait task_run task_finish task_reset task_pending : TaskState

-- `inputs` are the members of the task's input array, `condition` its alternative condition.
pub record Task : Type 0 where
  pub state : TaskState
  pub inputs : List ℕ
  pub condition : Option (List Input → Bool)
  pub next_task_at_scheduler : Ptr
  pub group : Ptr

-- The class of a channel, by which its virtual methods are chosen: `Channel` itself, `Barrier`, or
-- another class, such as `Event`, that overrides them.
pub data Kind : Type 0 where
  plain barrier derived : Kind

-- `counter` and `start_value` are the fields of `Barrier`.
pub record Channel : Type 0 where
  pub kind : Kind
  pub inputs : Ptr
  pub counter : ℕ
  pub start_value : ℕ

-- `queue` is the state of the schedule policy, `signals` counts the calls of the scheduler's
-- virtual method `signal`, and `rest` is the state of what lies outside: the clock, the channels
-- of other classes and the application.
pub record World (Q E : Type 0) : Type 0 where
  pub inputs : ℕ → Input
  pub channels : ℕ → Channel
  pub tasks : ℕ → Task
  pub groups : ℕ → List Ptr
  pub running : Bool
  pub associated_tasks : Ptr
  pub queue : Q
  pub signals : ℕ
  pub rest : E

-- What a channel of another class does in the virtual methods of `Channel`, and the number of
-- inputs of the application, which bounds the walk along a channel's list of inputs.
pub record Platform (E : Type 0) : Type 0 where
  pub inputs : ℕ
  pub channel_reset : ℕ → E → E
  pub synchronize_start : ℕ → ℕ → ℕ → E → E
  pub synchronize_end : ℕ → ℕ → E → E

module _ {Q E : Type 0} where
  abbrev pub set_task : ℕ → Task → World Q E → World Q E
  set_task t task w = record w { tasks = update w.tasks t task }

  abbrev pub set_state : ℕ → TaskState → World Q E → World Q E
  set_state t s w = set_task t (record (w.tasks t) { state = s }) w

  abbrev pub set_input : ℕ → Input → World Q E → World Q E
  set_input i input w = record w { inputs = update w.inputs i input }

  -- `inputs.isActivated()` of a task.
  unfoldable pub inputs_activated : ℕ → World Q E → Bool
  inputs_activated t w = array_is_activated (w.tasks t).condition (map w.inputs (w.tasks t).inputs)
