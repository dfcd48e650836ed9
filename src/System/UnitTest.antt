-- ===== src/System/UnitTest.antt =====
-- src/schedulerUnitTest.cpp: the scheduler that runs the events and the tasks of a simulated time
-- until nothing is left to do. Its clock is `now`; its `signal` and `startTimer` do nothing. The
-- loops run on fuel. `fires` is the virtual method `Event::shallFire`, `fired` is `Event::onFire`,
-- and `body` is `Task::execute`, which are the application's and may do anything to the state.
pub mod Relative
pub mod Drained
pub mod Calls
pub mod Handling
pub mod Scheduled
use tasking_framework.Base.{
  ℕ, zero, suc, ◌+◌, ◌%◌, ◌^◌, Bool, true, false, Option, none, some, List, [], ◌∷◌, Ptr,
  if◌then◌else◌, ◌>>=◌,
}
use tasking_framework.Clock.{is_pending}
use tasking_framework.Clock.Remove.{read_first_pending}
use tasking_framework.Events.{Call, signal, start_timer, on_fire, push_event, push_trigger, Events}
use tasking_framework.Events as Events
use tasking_framework.Policy.Interface.{SchedulePolicy}
use tasking_framework.System.World.{World, Platform}
use tasking_framework.System.Activation.{push}
use tasking_framework.System.Execution.{execute}

-- What lies outside of the scheduler: the events with the clock's queue, the clock's time, and the
-- state of the application.
pub record Simulation (U : Type 0) : Type 0 where
  pub events : Events
  pub now : ℕ
  pub user : U

-- `ClockUnitTest::step`.
unfoldable pub step : {U : Type 0} → ℕ → Simulation U → Simulation U
step span e = record e { now = (e.now + span) % 2 ^ 64 }

module _ (policy : SchedulePolicy) {E : Type 0} (platform : Platform E)
    (body : ℕ → World policy.State E → Option (World policy.State E)) where
  open policy use {State, next_task}

  unfoldable pub run_read : Ptr → World State E → Option (World State E × Bool)
  run_read none w = some (w, false)
  run_read (some t) w = do w' ← execute policy platform body t w; some (w', true)

  -- The inner loop of `schedule`: it executes the tasks of the run queue.
  unfoldable pub run_tasks : ℕ → World State E → Option (World State E)
  unfolding run_read
  run_tasks zero w = none
  run_tasks (suc fuel) w = do
    (q, t) ← next_task w.queue
    (w', more) ← run_read t (record w { queue = q })
    let rest = run_tasks fuel w'
    if more then rest else some w'

module _ (policy : SchedulePolicy) {U : Type 0} (platform : Platform (Simulation U))
    (event_channel trigger_channel : ℕ → ℕ)
    (fired : ℕ
      → World policy.State (Simulation U)
      → Option (World policy.State (Simulation U))) where
  open policy use {State}

  -- A call that an event has made.
  unfoldable pub perform_call :
      Call → World State (Simulation U) → Option (World State (Simulation U))
  perform_call signal w = some w
  perform_call (start_timer delay) w = some w
  perform_call (on_fire e) w = fired e w
  perform_call (push_event e) w = push policy platform (event_channel e) w
  perform_call (push_trigger t) w = push policy platform (trigger_channel t) w

  unfoldable pub perform_calls :
      List Call → World State (Simulation U) → Option (World State (Simulation U))
  unfolding perform_call
  perform_calls [] w = some w
  perform_calls (c ∷ cs) w = do w' ← perform_call c w; perform_calls cs w'

  module _ (events triggers : ℕ) (fires : ℕ → Events → Bool) where
    -- `handle` of an event, with the calls that it makes.
    unfoldable pub handle_event :
        ℕ → World State (Simulation U) → Option (World State (Simulation U))
    unfolding perform_calls
    handle_event e w = do
      s ← Events.handle events triggers fires w.rest.now e (record w.rest.events { calls = [] })
      perform_calls s.calls (record w { rest = record w.rest { events = s } })

    unfoldable pub handle_read :
        Ptr → World State (Simulation U) → Option (World State (Simulation U) × Bool)
    unfolding handle_event
    handle_read none w = some (w, false)
    handle_read (some e) w = do w' ← handle_event e w; some (w', true)

    -- `SchedulerImpl::handleEvents`.
    unfoldable pub handle_events :
        ℕ → World State (Simulation U) → Option (World State (Simulation U))
    unfolding handle_read
    handle_events zero w = none
    handle_events (suc fuel) w = do
      (clock, e) ← read_first_pending events w.rest.now w.rest.events.clock
      (w', more) ←
          handle_read e
            (record w { rest = record w.rest { events = record w.rest.events { clock = clock } } })
      let rest = handle_events fuel w'
      if more then rest else some w'

    module _ (body : ℕ → World State (Simulation U) → Option (World State (Simulation U))) where
      -- The outer loop of `schedule`: `rounds` bounds it, and `fuel` each of the inner ones.
      unfoldable pub rounds :
          ℕ → ℕ → World State (Simulation U) → Option (World State (Simulation U))
      unfolding handle_events run_tasks
      rounds fuel zero w = none
      rounds fuel (suc n) w = do
        w₁ ← handle_events fuel w
        w₂ ← run_tasks policy platform body fuel w₁
        let rest = rounds fuel n w₂
        if is_pending w₂.rest.now w₂.rest.events.clock then rest else some w₂

      -- `SchedulerUnitTest::schedule`; `waitUntilEmpty` calls it with no time span.
      unfoldable pub schedule :
          ℕ → ℕ → World State (Simulation U) → Option (World State (Simulation U))
      unfolding rounds step
      schedule fuel span w = rounds fuel fuel (record w { rest = step span w.rest })

      unfoldable pub wait_until_empty :
          ℕ → World State (Simulation U) → Option (World State (Simulation U))
      unfolding schedule
      wait_until_empty fuel w = schedule fuel 0 w
