-- ===== src/Tests/Systems.antt =====
-- A small application: task 0 with two synchronized inputs on channel 0, and a barrier, channel 1.
use tasking_framework.Base.{
  ℕ, ◌≡◌, refl, true, false, none, some, [], ◌∷◌, arith, ◌==◌, if◌then◌else◌,
}
use tasking_framework.Input.{Input, is_activated}
use tasking_framework.Input as Input
use tasking_framework.InputArray.{array_is_activated}
use tasking_framework.Policy.Interface.{SchedulePolicy}
use tasking_framework.Policy.Fifo as Fifo
use tasking_framework.Policy.Fifo.Order.{fifo, init-Holds}
use tasking_framework.System.World.{
  World, Task, Channel, Platform, TaskState, task_wait, task_run, task_finish, set_state, plain,
  barrier,
}
use tasking_framework.System.Activation.{activate, push, set_counter}
use tasking_framework.System.Queued.{IsQueued, Activates, activate-Activates}
use tasking_framework.System.Push.{Notifies, Connected, push-Notifies}
use tasking_framework.System.Barrier.{pushes, pushes-fire}
use tasking_framework.System.Reset.{reset, finalize_execution}
use tasking_framework.System.Group.{CanRestart}
use tasking_framework.System.Group.Finalized.{Finalizes, finalize_execution-Finalizes}
use tasking_framework.System.Restart.Replay.{reactivates, reset_all}
use tasking_framework.System.Restart.Outcome.{Outcome, reset-Outcome, runs_again}

abbrev app : SchedulePolicy
app = fifo 2

abbrev platform : Platform (Unit {0})
platform = record {
  inputs = 2;
  channel_reset = λ c e. e;
  synchronize_start = λ c t n e. e;
  synchronize_end = λ c t e. e;
}

abbrev input : ℕ → Input
input i = record {
  task = some 0;
  channel = some 0;
  final = false;
  synchron = true;
  notifications = 0;
  missed_notifications = 0;
  activation_threshold = 1;
  channel_next_input = if i == 1 then some 0 else none;
}

abbrev task : TaskState → Task
task s = record {
  state = s;
  inputs = 0 ∷ 1 ∷ [];
  condition = none;
  next_task_at_scheduler = none;
  group = none;
}

abbrev channel : ℕ → Channel
channel c = record {
  kind = if c == 1 then barrier else plain;
  inputs = some 1;
  counter = if c == 1 then 2 else 0;
  start_value = 2;
}

abbrev world : TaskState → World Fifo.Fifo (Unit {0})
world s = record {
  inputs = input;
  channels = channel;
  tasks = λ t. task s;
  groups = λ g. [];
  running = true;
  associated_tasks = some 0;
  queue = Fifo.init;
  signals = 0;
  rest = tt;
}

world-IsQueued : (s : TaskState) → IsQueued app platform (world s) []
world-IsQueued s = record { holds = init-Holds; in_run = λ t m. cc }

activate-Activates_example :
    (w : World Fifo.Fifo (Unit {0})) × (activate app platform 0 (world task_wait) ≡ some w)
    × Activates app platform 0 (world task_wait) [] w
activate-Activates_example =
    activate-Activates app platform 0 (world task_wait) [] (world-IsQueued task_wait) (omega arith)

world-Connected : Connected app platform (world task_wait) (1 ∷ 0 ∷ [])
world-Connected i m = (0, refl, omega arith)

push-Notifies_example :
    (w : World Fifo.Fifo (Unit {0})) × (push app platform 0 (world task_wait) ≡ some w)
    × Notifies app platform (world task_wait) [] (1 ∷ 0 ∷ []) w
push-Notifies_example =
    push-Notifies app platform 0 (1 ∷ 0 ∷ []) (world task_wait) [] (world-IsQueued task_wait)
      (refl, (refl, refl)) (refl, (refl, tt)) world-Connected (omega arith)

pushes-fire_example :
    pushes app platform 2 1 (world task_wait)
    ≡ push app platform 1 (set_counter app platform 1 0 (world task_wait))
pushes-fire_example = pushes-fire app platform 1 1 (world task_wait) refl

-- Each input of task 0 has missed one notification, so that task 0 runs again.
abbrev missed : World Fifo.Fifo (Unit {0})
missed = record (world task_run) {
  inputs = λ i. record (input i) { notifications = 1; missed_notifications = 1 };
}

reset-Outcome_example :
    (w : World Fifo.Fifo (Unit {0})) × (reset app platform 0 missed ≡ some w)
    × Outcome app platform 0 missed [] (omega arith) w
reset-Outcome_example =
    reset-Outcome app platform 0 missed [] (omega arith)
      (record { holds = init-Holds; in_run = λ t m. cc }) refl (λ i m. refl)

missed-runs_again : runs_again app platform 0 missed [] (omega arith) ≡ true
unfolding reactivates reset_all is_activated array_is_activated Input.reset Input.is_optional
    Input.is_final
missed-runs_again = refl

-- The run queue with task 1.
abbrev queued_one :
    (s : Fifo.Fifo) × (Fifo.queue 1 Fifo.init ≡ some (s, true)) × app.Holds s (app.place 1 [])
queued_one = app.queue-place 1 Fifo.init [] init-Holds (omega arith) refl

-- The clock is a number here, and its events are gone when it is 0.
abbrev busy : World Fifo.Fifo ℕ
busy = record {
  inputs = input;
  channels = channel;
  tasks = λ t. task task_run;
  groups = λ g. [];
  running = true;
  associated_tasks = some 0;
  queue = queued_one.0;
  signals = 0;
  rest = 3;
}

abbrev clock_platform : Platform ℕ
clock_platform = record {
  inputs = 2;
  channel_reset = λ c e. e;
  synchronize_start = λ c t n e. e;
  synchronize_end = λ c t e. e;
}

-- Task 0 runs; task 1, which has no inputs, and task 0 are the group 0, where one slot is free.
abbrev grouped : World Fifo.Fifo (Unit {0})
grouped = record (world task_run) {
  tasks = λ t. record (task (if t == 0 then task_run else task_finish)) {
    inputs = if t == 0 then 0 ∷ 1 ∷ [] else [];
    group = some 0;
  };
  groups = λ g. some 1 ∷ some 0 ∷ none ∷ [];
}

grouped-CanRestart : CanRestart app platform (1 ∷ 0 ∷ []) (set_state 0 task_finish grouped)
grouped-CanRestart = record {
  known = λ a m. ground arith;
  owns = λ a m i k. ground arith;
  once = (refl, (refl, tt));
}

finalize_execution-Finalizes_example :
    (w : World Fifo.Fifo (Unit {0})) × (finalize_execution app platform 0 grouped ≡ some w)
    × Finalizes app platform (1 ∷ 0 ∷ []) (set_state 0 task_finish grouped) [] w
finalize_execution-Finalizes_example =
    finalize_execution-Finalizes app platform 0 0 grouped [] refl
      (record { holds = init-Holds; in_run = λ t m. cc }) refl grouped-CanRestart
