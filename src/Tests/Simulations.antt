-- ===== src/Tests/Simulations.antt =====
-- An application in a simulated time: task 0 has one input on channel 0, which event 0 pushes at the
-- time 5.
use tasking_framework.Base.{
  ℕ, ◌≡◌, ◌<◌, refl, inl, true, false, Option, none, some, List, [], ◌∷◌, arith, ◌==◌,
  if◌then◌else◌,
}
use tasking_framework.Clock.{Clock}
use tasking_framework.Clock.Steps.{Queue}
use tasking_framework.Events.{Events, shall_fire}
use tasking_framework.Input.{Input}
use tasking_framework.Policy.Interface.{SchedulePolicy}
use tasking_framework.Policy.Fifo as Fifo
use tasking_framework.Policy.Fifo.Order.{fifo, init-Holds}
use tasking_framework.System.World.{
  World, Platform, TaskState, task_wait, task_run, task_finish, derived, inputs_activated,
}
use tasking_framework.System.UnitTest.{Simulation, step, run_tasks, schedule}
use tasking_framework.System.Executed.{IsQuiet, IsSound}
use tasking_framework.System.Execution.{start}
use tasking_framework.System.Started.{with_activated, start-place}
use tasking_framework.System.UnitTest.Relative.{clock_time, with_events, any_relative}
use tasking_framework.System.UnitTest.Drained.{IsDrained, run_tasks-IsDrained}
use tasking_framework.System.UnitTest.Calls.{FiresQuietly, IsAlive}
use tasking_framework.System.UnitTest.Handling.{IsTimely}
use tasking_framework.System.UnitTest.Scheduled.{IsDone, schedule-IsDone}

abbrev app : SchedulePolicy
app = fifo 1

abbrev Outside : Type 0
Outside = Simulation (Unit {0})

abbrev Application : Type 0
Application = World Fifo.Fifo Outside

abbrev platform : Platform Outside
platform = record {
  inputs = 1;
  channel_reset = λ c e. e;
  synchronize_start = λ c t n e. e;
  synchronize_end = λ c t e. e;
}

abbrev clock : Clock
clock = record {
  queued = λ e. e == 0;
  next_activation = λ e. 5;
  next = λ e. none;
  previous = λ e. none;
  queue_head = some 0;
  queue_tail = some 0;
  none_pending_head = none;
}

abbrev events : Events
events = record {
  clock = clock;
  events =
      λ e. record { configured = false; periodical = false; period = 0; periodic_schedule = none };
  schedules =
      λ p. record { triggers = none; active_trigger = none; start_time_off_period = 0; period = 0 };
  triggers = record { next = λ t. none; offset_time = λ t. 0 };
  calls = [];
}

abbrev input : ℕ → ℕ → Input
input missed i = record {
  task = some 0;
  channel = some 0;
  final = false;
  synchron = true;
  notifications = if missed == 0 then 0 else 1;
  missed_notifications = missed;
  activation_threshold = 1;
  channel_next_input = none;
}

-- The task 0 in this state, with so many missed notifications.
abbrev application : TaskState → ℕ → Fifo.Fifo → Application
application s missed queue = record {
  inputs = input missed;
  channels = λ c. record {
    kind = derived;
    inputs = if c == 0 then some 0 else none;
    counter = 0;
    start_value = 0;
  };
  tasks = λ t. record {
    state = if t == 0 then s else task_wait;
    inputs = if t == 0 then 0 ∷ [] else [];
    condition = none;
    next_task_at_scheduler = none;
    group = none;
  };
  groups = λ g. [];
  running = true;
  associated_tasks = some 0;
  queue = queue;
  signals = 0;
  rest = record { events = events; now = 0; user = tt };
}

abbrev body : ℕ → Application → Option Application
body t w = some w

abbrev lists : ℕ → List ℕ
lists c = if c == 0 then 0 ∷ [] else []

bodies_quiet : IsQuiet app platform (clock_time 1) body
bodies_quiet = record {
  resets = λ c e. refl;
  starts = λ c t n e. refl;
  ends = λ c t e. refl;
  bodies = λ t w. (w.rest, refl, refl);
}

abbrev one_queued : Fifo.Fifo
one_queued = record { head = some 0; tail = some 0; next = λ t. none }

-- Task 0 is in the run queue, and two notifications were missed: it runs three times.
one_queued-IsSound :
    IsSound app platform (clock_time 1) (application task_run 2 one_queued) (0 ∷ [])
one_queued-IsSound = record {
  queued = record {
    holds = record { chain = (refl, refl); end = refl; once = (refl, tt) };
    in_run = λ t m. ground arith;
  };
  known = λ a r. ground arith;
  consistent = λ i. ground arith;
  own = λ t b i m. ground arith;
  bound = λ t b i m. ground arith;
  alone = λ t b. refl;
}

run_tasks-IsDrained_example :
    (w : Application) × ((fuel : ℕ)
      → 4 < fuel
      → run_tasks app platform body fuel (application task_run 2 one_queued) ≡ some w)
    × IsDrained app platform
        (clock_time 1)
        body
        bodies_quiet
        (application task_run 2 one_queued)
        (0 ∷ [])
        w
run_tasks-IsDrained_example =
    run_tasks-IsDrained app platform (clock_time 1) body bodies_quiet 4
      (application task_run 2 one_queued) (0 ∷ []) one_queued-IsSound refl (omega arith)

-- The event is channel 0.
abbrev timed : Platform Outside
timed = with_events 1 1 (λ e. 0) platform

events_quiet : FiresQuietly app timed 1 lists (λ e. 0) (λ t. 0) body
events_quiet e w = (tt, refl)

-- The same application with an empty run queue, 5 milliseconds later.
abbrev later : Application
later = record (application task_wait 0 Fifo.init) {
  rest = record { events = events; now = 5; user = tt };
}

abbrev due : Queue
due = record { events = 0 ∷ []; queued = λ e. e == 0; times = λ e. 5 }

later-IsAlive : IsAlive app timed 1 lists later []
unfolding with_events
later-IsAlive = record {
  sound = record {
    queued = record { holds = init-Holds; in_run = λ t m. cc };
    known = λ a r. ground arith;
    consistent = λ i. ground arith;
    own = λ t b i m. ground arith;
    bound = λ t b i m. ground arith;
    alone = λ t b. refl;
  };
  linked = record {
    chains = λ c. ground arith;
    once = λ c. ground arith;
    short = λ c. ground arith;
    connected = λ c i m. (0, refl, omega arith);
    narrow = λ i. omega arith;
  };
  running = refl;
  exact = λ a r. ground arith;
}

later-IsTimely :
    IsTimely app timed 1 lists (λ e. 0) (λ t. 0) body events_quiet 1 shall_fire 5 later due []
unfolding any_relative
later-IsTimely = record {
  ready = record {
    clock = record {
      timed = record {
        holds = record { chain = (refl, refl); end = refl; once = (refl, tt); known = omega arith };
        order = (refl, refl, tt);
      };
      queued = refl;
      times = refl;
    };
    plain = λ e. inl refl;
  };
  clock = refl;
  absolute = refl;
  alive = later-IsAlive;
}

abbrev at_start : Application
at_start = application task_wait 0 Fifo.init

at_start-IsTimely :
    IsTimely app timed 1 lists
      (λ e. 0)
      (λ t. 0)
      body
      events_quiet
      1
      shall_fire
      5
      (record at_start { rest = step 5 at_start.rest })
      due
      []
unfolding step
at_start-IsTimely = later-IsTimely

schedule-IsDone_example :
    (bound : ℕ) × (w : Application) × ((fuel : ℕ)
      → bound < fuel
      → schedule app timed (λ e. 0) (λ t. 0) body 1 1 shall_fire body fuel 5 at_start ≡ some w)
    × IsDone app timed 1 5 w
schedule-IsDone_example =
    schedule-IsDone app platform 1 1 lists (λ e. 0) (λ t. 0) body body events_quiet bodies_quiet
      shall_fire 5 at_start due [] at_start-IsTimely (omega arith)

-- Task 0 has finished, and its input was notified.
abbrev notified : Application
notified = application task_finish 1 Fifo.init

start-place_example :
    (q : Fifo.Fifo) × (n : ℕ) × (start app platform false notified
      ≡ some (record notified { running = true; queue = q; signals = n }))
    × Fifo.Holds q (with_activated app platform (λ t. inputs_activated t notified) (0 ∷ []) [])
start-place_example =
    start-place app platform (0 ∷ []) notified [] (refl, refl) (refl, tt) (λ a m. ground arith)
      init-Holds (λ a m. refl)
