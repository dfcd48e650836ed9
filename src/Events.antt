-- ===== src/Events.antt =====
-- src/taskEvent.cpp and include/taskEvent.h: an event is a channel that the clock pushes. The fields
-- that the clock uses stand in its state. A method that the application may override, `shallFire`, is
-- a parameter, and the calls that leave the events, `onFire`, `push`, `signal` and `startTimer`, are
-- appended to `calls`. Every reading of the clock is an argument. A section that a mutex of an event
-- guards is one step, so that mutex and `mutexLock`, which keeps `stop` from entering it twice, have
-- no field.

pub mod Timing
pub mod Stopped
pub mod Handled
pub mod Ends
use tasking_framework.Base.{
  ℕ, ◌+◌, ◌-◌, ◌*◌, ◌/◌, ◌%◌, ◌^◌, Bool, true, false, not, ◌&&◌, Option, none, some, List, [], ◌∷◌,
  ◌++◌, Ptr, is_null, update, ltb, leb, ◌==◌, if◌then◌else◌, ◌>>=◌, map,
}
use tasking_framework.Clock.{Clock, Calls, start_at, start_in}
use tasking_framework.Clock.Remove.{dequeue, read_first_pending}
use tasking_framework.Schedule.{Triggers, Schedule, push_triggers, step_to_next_trigger_offset}

pub record Event : Type 0 where
  pub configured : Bool
  pub periodical : Bool
  pub period : ℕ
  pub periodic_schedule : Ptr

-- What an event or the clock calls outside.
pub data Call : Type 0 where
  signal : Call
  start_timer : ℕ → Call
  on_fire : ℕ → Call
  push_event : ℕ → Call
  push_trigger : ℕ → Call

pub record Events : Type 0 where
  pub clock : Clock
  pub events : ℕ → Event
  pub schedules : ℕ → Schedule
  pub triggers : Triggers
  pub calls : List Call

unfoldable pub calls_of : Calls → List Call
calls_of c =
    (if c.signal then signal ∷ [] else [])
    ++ elim c.timer [ none ↦ [] | some delay ↦ start_timer delay ∷ [] ]

unfoldable pub set_event : ℕ → Event → Events → Events
set_event e event s = record s { events = update s.events e event }

unfoldable pub set_schedule : ℕ → Schedule → Events → Events
set_schedule p schedule s = record s { schedules = update s.schedules p schedule }

unfoldable pub call : List Call → Events → Events
call cs s = record s { calls = s.calls ++ cs }

-- `Event::shallFire`, where it is not overridden.
unfoldable pub shall_fire : ℕ → Events → Bool
shall_fire e s = is_null (s.events e).periodic_schedule

-- The next activation of `configurePeriodicTiming`; the readings are that of the test and that of
-- the computation.
unfoldable pub first_activation : ℕ → ℕ → ℕ → ℕ → ℕ
first_activation now later period offset =
    if ltb offset now
    then if ltb 0 period
      then (offset + ((later + 2 ^ 64 - offset) % 2 ^ 64 / period + 1) * period) % 2 ^ 64
      else later
    else offset

-- `EventImpl::configurePeriodicTiming`.
unfoldable pub configure_periodic_timing : ℕ → ℕ → ℕ → ℕ → ℕ → Events → Events
unfolding set_event
configure_periodic_timing now later e period offset s =
    let event = record (s.events e) {
      period = period;
      periodical = ltb 0 period;
      configured = ltb 0 period;
    } in
    let time = first_activation now later period offset in
    set_event e event (record s {
      clock = record s.clock { next_activation = update s.clock.next_activation e time };
    })

unfoldable pub set_periodic : ℕ → Ptr → Events → Events
unfolding set_event
set_periodic e p s = set_event e (record (s.events e) { periodic_schedule = p }) s

-- `stepToNextTriggerOffset` on a schedule.
unfoldable pub step_schedule : ℕ → Events → Option (Events × ℕ)
step_schedule p s = do
  (schedule, time) ← step_to_next_trigger_offset s.triggers (s.schedules p)
  some (set_schedule p schedule s, time)

-- The schedule starts one period before its first activation, which the first step adds.
unfoldable pub start_schedule : ℕ → ℕ → ℕ → Events → Events
start_schedule e p period s =
    set_schedule p
      (record (s.schedules p) {
        start_time_off_period = (s.clock.next_activation e + 2 ^ 64 - period) % 2 ^ 64;
        period = period;
      })
      s

-- `Event::isTriggered`.
unfoldable pub is_triggered : ℕ → Events → Bool
is_triggered e s = s.clock.queued e

module _ (events triggers : ℕ) where
  -- `startAt` on the clock.
  unfoldable pub start_event_at : ℕ → ℕ → ℕ → Events → Option Events
  unfolding call calls_of
  start_event_at now e time s = do
    (clock, calls) ← start_at events now e time s.clock
    some (call (calls_of calls) (record s { clock = clock }))

  -- `startIn` on the clock.
  unfoldable pub start_event_in : ℕ → ℕ → ℕ → ℕ → Events → Option Events
  unfolding call calls_of
  start_event_in now later e delay s = do
    (clock, calls) ← start_in events now later e delay s.clock
    some (call (calls_of calls) (record s { clock = clock }))

  -- `dequeue` on the clock.
  unfoldable pub dequeue_event : ℕ → Events → Option Events
  dequeue_event e s = do clock ← dequeue events e s.clock; some (record s { clock = clock })

  -- The event is taken out of the clock queue if it is queued.
  unfoldable pub dequeue_queued : ℕ → Events → Option Events
  dequeue_queued e s = if s.clock.queued e then dequeue_event e s else some s

  -- `Event::setPeriodicTiming`.
  unfoldable pub set_periodic_timing : ℕ → ℕ → ℕ → ℕ → ℕ → ℕ → Events → Option Events
  set_periodic_timing now later last e period offset s = do
    s1 ← dequeue_queued e s
    let s2 = set_periodic e none (configure_periodic_timing now later e period offset s1)
    start_event_at last e (s2.clock.next_activation e) s2

  -- `Event::stop`.
  unfoldable pub stop : ℕ → Events → Option Events
  stop e s = do
    s' ← dequeue_event e s
    some (set_event e (record (s'.events e) { configured = false; periodic_schedule = none }) s')

  -- The schedule starts if its first trigger lies in the period, else the event stops.
  unfoldable pub start_or_stop : ℕ → ℕ → ℕ → ℕ → Events → Option Events
  start_or_stop last e period p s = do
    (s', time) ← step_schedule p s
    if ltb time period then start_event_at last e time s' else stop e s'

  -- `Event::setPeriodicSchedule`.
  unfoldable pub set_periodic_schedule : ℕ → ℕ → ℕ → ℕ → ℕ → ℕ → ℕ → Events → Option Events
  set_periodic_schedule now later last e period offset p s = do
    s1 ← dequeue_queued e s
    let s2 = set_periodic e (some p) s1
    let s3 = start_schedule e p period (configure_periodic_timing now later e period offset s2)
    if is_null (s2.schedules p).triggers
        then some (set_periodic e none s2)
        else start_or_stop last e period p s3

  -- `Event::setRelativeTiming`.
  unfoldable pub set_relative_timing : ℕ → ℕ → Events → Option Events
  set_relative_timing e delay s = do
    s' ← dequeue_queued e s
    some (
        set_event e (record (s'.events e) { periodical = false; period = delay; configured = true })
          s')

  -- `Event::reset`.
  unfoldable pub reset : ℕ → ℕ → ℕ → Events → Option Events
  reset now later e s =
      if (s.events e).configured && not (s.events e).periodical
      then (do s' ← dequeue_queued e s; start_event_in now later e (s.events e).period s')
      else some s

  module _ (fires : ℕ → Events → Bool) where
    -- `Event::trigger`.
    unfoldable pub trigger : ℕ → ℕ → ℕ → ℕ → Events → Option Events
    trigger now later e time s = if (s.events e).configured then some s else (do
      s' ← dequeue_queued e s
      if time == 0
          then some (if fires e s' then call (push_event e ∷ []) s' else s')
          else start_event_in now later e time s')

    -- The next start of a periodic event.
    unfoldable pub restart : ℕ → ℕ → Ptr → Events → Option Events
    restart now e none s =
        start_event_at now e ((s.clock.next_activation e + (s.events e).period) % 2 ^ 64) s
    restart now e (some p) s = do
      (schedule, pushed) ← push_triggers triggers s.triggers (s.schedules p)
      (s', time) ← step_schedule p (call (map push_trigger pushed) (set_schedule p schedule s))
      start_event_at now e time s'

    -- `EventImpl::handle`.
    unfoldable pub handle : ℕ → ℕ → Events → Option Events
    handle now e s = do
      s' ←
          if (s.events e).periodical then restart now e (s.events e).periodic_schedule s else some s
      some (if fires e s' then call (on_fire e ∷ push_event e ∷ []) s' else s')

    handle_read : ℕ → Ptr → Events → Option (Events × Bool)
    handle_read now none s = some (s, false)
    handle_read now (some e) s = do s' ← handle now e s; some (s', true)

    -- `SchedulerImpl::handleEvents`, with the readings of the clock in each round: in
    -- `readFirstPending`, and in the start of the event that it returns.
    unfoldable pub handle_events : List (ℕ × ℕ) → Events → Option Events
    unfolding handle_read
    handle_events [] s = none
    handle_events ((now, later) ∷ times) s = do
      (clock, e) ← read_first_pending events now s.clock
      (s', more) ← handle_read later e (record s { clock = clock })
      let rest = handle_events times s'
      if more then rest else some s'
