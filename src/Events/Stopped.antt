-- ===== src/Events/Stopped.antt =====
-- Stopping an event of src/taskEvent.cpp, by `stop` and by `setPeriodicSchedule`.
use tasking_framework.Base.{
  ℕ, ◌+◌, ◌-◌, ◌%◌, ◌^◌, ◌≡◌, ◌≤◌, ◌<◌, refl, ◌∙◌, ap, false, none, some, List, arith, ltb,
  if◌then◌else◌, update, update_self, remove, inl, inr, Bool-cases, is_null,
}
use tasking_framework.Clock.{Clock, Holds}
use tasking_framework.Clock.Dequeue.{dequeue-remove}
use tasking_framework.Schedule.{Triggers, Schedule, step_to_next_trigger_offset}
use tasking_framework.Events.{
  Events, stop, dequeue_event, dequeue_queued, set_event, set_schedule, step_schedule,
  set_periodic_schedule, set_periodic, start_or_stop, start_schedule, configure_periodic_timing,
  first_activation,
}
use tasking_framework.Events.Timing.{first_activation-next}

module _ (events triggers : ℕ) where
  -- The event is neither queued nor configured, nor does it play a schedule.
  pub record IsStopped (e : ℕ) (s : Events) : Type 0 where
    pub queued : s.clock.queued e ≡ false
    pub configured : (s.events e).configured ≡ false
    pub schedule : (s.events e).periodic_schedule ≡ none

  -- `stop` returns, takes the event out of the clock queue and leaves it stopped; the other events
  -- stay in the queue in their order, and no call leaves the events.
  pub stop-IsStopped :
      (e : ℕ) (s : Events) (xs : List ℕ)
      → Holds events s.clock xs
      → (s' : Events) × (stop events triggers e s ≡ some s')
        × IsStopped e s'
        × Holds events s'.clock (remove e xs)
        × (s'.calls ≡ s.calls)
  unfolding stop dequeue_event set_event
  stop-IsStopped e s xs h =
      let (c, r, holds, queued, _, _) = dequeue-remove events e s.clock xs h in
      (
        record s {
          clock = c;
          events =
              update s.events e
                (record (s.events e) { configured = false; periodic_schedule = none });
        },
        rw r refl,
        record {
          queued = ap (λ q. q e) queued ∙ ground arith;
          configured = ground arith;
          schedule = ground arith;
        },
        holds,
        refl,
      )

  -- The event is out of the clock queue, if it was marked as queued.
  dequeue_queued-Holds :
      (e : ℕ) (s : Events) (xs : List ℕ)
      → Holds events s.clock xs
      → (c : Clock) × (ys : List ℕ) × (dequeue_queued events triggers e s
          ≡ some (record s { clock = c }))
        × Holds events c ys
  unfolding dequeue_queued dequeue_event
  dequeue_queued-Holds e s xs h =
      let (c, r, holds, _, _, _) = dequeue-remove events e s.clock xs h in
      elim (Bool-cases (s.clock.queued e)) [
        | inl queued ↦ (c, remove e xs, rw (queued, r) refl, holds)
        | inr free ↦ (s.clock, xs, rw free refl, h)
      ]

  -- The start of a schedule lies one period before the first activation.
  back_and_forth :
      (time period : ℕ)
      → time < 2 ^ 64
      → period ≤ 2 ^ 64
      → ((time + 2 ^ 64 - period) % 2 ^ 64 + period) % 2 ^ 64 ≡ time
  back_and_forth time period h b = omega arith

  step-first :
      (t : Triggers) (q : Schedule) (h : ℕ)
      → q.triggers ≡ some h
      → q.active_trigger ≡ none
      → step_to_next_trigger_offset t q
        ≡ some (
          record q {
            active_trigger = some h;
            start_time_off_period = (q.start_time_off_period + q.period) % 2 ^ 64;
          },
          ((q.start_time_off_period + q.period) % 2 ^ 64 + t.offset_time h) % 2 ^ 64,
        )
  unfolding step_to_next_trigger_offset
  step-first t q h first active = ground (arith, first, active)

  -- A schedule that has not been played starts with its first trigger.
  first_step :
      (e p period h : ℕ) (s : Events)
      → (s.schedules p).triggers ≡ some h
      → (s.schedules p).active_trigger ≡ none
      → period ≤ 2 ^ 64
      → s.clock.next_activation e < 2 ^ 64
      → (schedule : Schedule) × (step_schedule p (start_schedule e p period s)
          ≡ some (
            set_schedule p schedule (start_schedule e p period s),
            (s.clock.next_activation e + s.triggers.offset_time h) % 2 ^ 64,
          ))
  unfolding step_schedule start_schedule set_schedule
  first_step e p period h s first active b fits =
      let time = s.clock.next_activation e in
      let q : Schedule = record (s.schedules p) {
        start_time_off_period = (time + 2 ^ 64 - period) % 2 ^ 64;
        period = period;
      } in
      let r =
        ap (λ x. step_to_next_trigger_offset s.triggers x) (update_self s.schedules p q)
        ∙ step-first s.triggers q h first active in
      let q' : Schedule = record q {
        active_trigger = some h;
        start_time_off_period = (q.start_time_off_period + q.period) % 2 ^ 64;
      } in
      let started = set_schedule p q' (start_schedule e p period s) in
      (
        q',
        rw r (
            ap (λ now. some (started, (now + s.triggers.offset_time h) % 2 ^ 64))
              (back_and_forth time period fits b)),
      )

  start_or_stop-stop :
      (last e period p : ℕ) (s s4 : Events) {time : ℕ} (s' : Events)
      → step_schedule p s ≡ some (s4, time)
      → ltb time period ≡ false
      → stop events triggers e s4 ≡ some s'
      → start_or_stop events triggers last e period p s ≡ some s'
  unfolding start_or_stop
  start_or_stop-stop last e period p s s4 s' stepped late stopped = rw (stepped, late) stopped

  -- A periodic schedule with triggers, which has not been played, never starts once the clock has
  -- passed its offset and one period: `setPeriodicSchedule` compares the absolute time of the first
  -- trigger with the period, and stops the event. Times do not overflow.
  pub set_periodic_schedule-IsStopped :
      (now later last e period offset p h : ℕ) (s : Events) (xs : List ℕ)
      → Holds events s.clock xs
      → (s.schedules p).triggers ≡ some h
      → (s.schedules p).active_trigger ≡ none
      → 0 < period
      → period ≤ now
      → offset < now
      → now ≤ later
      → later + period + s.triggers.offset_time h < 2 ^ 64
      → (s' : Events) × (set_periodic_schedule events triggers now later last e period offset p s
          ≡ some s')
        × IsStopped e s'
  unfolding set_periodic_schedule set_periodic configure_periodic_timing set_event set_schedule
      start_schedule
  set_periodic_schedule-IsStopped now later last e period offset p h s xs holds first active
        some_period long past order room =
      let (c, ys, r, holds') = dequeue_queued-Holds e s xs holds in
      let s2 = set_periodic e (some p) (record s { clock = c }) in
      let s3 = configure_periodic_timing now later e period offset s2 in
      let time : ℕ = first_activation now later period offset in
      let (_, _, low, high) =
        first_activation-next now later period offset some_period past order (omega arith) in
      let at : s3.clock.next_activation e ≡ time = update_self c.next_activation e time in
      let (q, stepped) =
        first_step e p period h s3 first active (omega arith) (rw at (omega (arith, high))) in
      let s4 = set_schedule p q (start_schedule e p period s3) in
      let holds4 : Holds events s4.clock ys = record {
        chain = holds'.chain;
        end = holds'.end;
        once = holds'.once;
        known = holds'.known;
      } in
      let (s', stopped, is_stopped, _, _) = stop-IsStopped e s4 ys holds4 in
      let late : ltb ((s3.clock.next_activation e + s.triggers.offset_time h) % 2 ^ 64) period
          ≡ false =
        rw at (ground (arith, low, high)) in
      let test =
        ap
          (λ q.
            if is_null q
            then some (set_periodic e none s2)
            else start_or_stop events triggers last e period p (start_schedule e p period s3))
          first in
      (
        s',
        rw r (
            test
            ∙ start_or_stop-stop last e period p (start_schedule e p period s3) s4 s' stepped late
                stopped),
        is_stopped,
      )
