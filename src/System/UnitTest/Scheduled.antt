-- ===== src/System/UnitTest/Scheduled.antt =====
-- `schedule` of src/schedulerUnitTest.cpp: the simulated time moves on, and everything that is due is done.
use tasking_framework.Base.{
  ℕ, zero, suc, ◌+◌, ◌%◌, ◌^◌, ◌≡◌, ◌<◌, ◌∙◌, refl, ap, Bool, false, Option, some, List, [], arith,
  length, inl, inr, sym, Bool-cases, has,
}
use tasking_framework.Clock.{is_pending}
use tasking_framework.Clock.Steps.{Queue}
use tasking_framework.Events.{Events}
use tasking_framework.Events.Handled.{backlog}
use tasking_framework.Policy.Interface.{SchedulePolicy}
use tasking_framework.System.World.{task_run, World, Platform}
use tasking_framework.System.UnitTest.{Simulation, step, run_tasks, handle_events, rounds, schedule}
use tasking_framework.System.Counting.{total}
use tasking_framework.System.Push.{IsExact}
use tasking_framework.System.Executed.{IsQuiet, IsSound}
use tasking_framework.System.UnitTest.Relative.{
  clock_time, same_time, with_events, with_events-IsQuiet,
}
use tasking_framework.System.UnitTest.Drained.{IsDrained, run_tasks-IsDrained}
use tasking_framework.System.UnitTest.Calls.{FiresQuietly}
use tasking_framework.System.UnitTest.Handling.{IsTimely, handle_events-Handled}

module _ (policy : SchedulePolicy) {U : Type 0} (platform : Platform (Simulation U))
    (events : ℕ) where
  -- Nothing is left to do at this time.
  pub record IsDone (now : ℕ) (w : World policy.State (Simulation U)) : Type 0 where
    pub sound : IsSound policy platform (clock_time events) w []
    pub clock : w.rest.now ≡ now
    pub idle : is_pending now w.rest.events.clock ≡ false
    pub at_rest : (t : ℕ) → (w.tasks t).state ≡ task_run → ⊥

module _ (policy : SchedulePolicy) {U : Type 0} (platform : Platform (Simulation U)) (events : ℕ)
    (lists : ℕ → List ℕ) (event_channel trigger_channel : ℕ → ℕ)
    (fired body : ℕ
      → World policy.State (Simulation U)
      → Option (World policy.State (Simulation U)))
    (fires_quietly : FiresQuietly policy platform events lists event_channel trigger_channel fired)
    (quiet : IsQuiet policy platform (clock_time events) body) (triggers : ℕ)
    (fires : ℕ → Events → Bool) where
  open policy use {State}

  -- Where the tasks in TASK_RUN are those in the run queue, none is left when the queue is empty.
  drained_at_rest :
      (w w' : World State (Simulation U)) (xs : List ℕ)
      → IsDrained policy platform (clock_time events) body quiet w xs w'
      → IsExact policy platform w xs
      → (t : ℕ) → (w'.tasks t).state ≡ task_run
      → ⊥
  drained_at_rest w w' xs d e t r = elim (Bool-cases (has t xs)) [
    | inl m ↦ (let s = d.waiting t m in cc)
    | inr o ↦ let m = e t (sym (ap (λ task. task.state) (d.others t o)) ∙ r) in cc
  ]

  one_round :
      (fuel n : ℕ) (w w₁ w₂ : World State (Simulation U))
      → handle_events policy platform event_channel trigger_channel fired events triggers fires fuel
          w
        ≡ some w₁
      → run_tasks policy platform body fuel w₁ ≡ some w₂
      → is_pending w₂.rest.now w₂.rest.events.clock ≡ false
      → rounds policy platform event_channel trigger_channel fired events triggers fires body fuel
          (suc n)
          w
        ≡ some w₂
  unfolding rounds
  one_round fuel n w w₁ w₂ handled ran idle = rw (handled, ran, idle) refl

  rounds-IsDone :
      (now : ℕ) (w : World State (Simulation U)) (q : Queue) (xs : List ℕ)
      → IsTimely policy platform events lists event_channel trigger_channel fired fires_quietly
          triggers fires now w q xs
      → now < 2 ^ 63
      → (bound : ℕ) × (w' : World State (Simulation U)) × ((fuel n : ℕ)
          → bound < fuel
          → rounds policy platform event_channel trigger_channel fired events triggers fires body
              fuel
              (suc n)
              w
            ≡ some w')
        × IsDone policy platform events now w'
  rounds-IsDone now w q xs t b =
      let k = backlog now q.times q.events in
      let (w₁, handled, h) =
        handle_events-Handled policy platform events lists event_channel trigger_channel fired
          fires_quietly triggers fires now k w q.events q.queued q.times xs t b (omega arith) in
      let n = length h.queue + total w₁.inputs platform.inputs in
      let a = h.timely.alive in
      let (w₂, ran, d) =
        run_tasks-IsDrained policy platform (clock_time events) body quiet n w₁ h.queue a.sound
          a.running (omega arith) in
      let (kept, time) =
        same_time events triggers w₂.rest w₁.rest d.wiring.times h.timely.absolute in
      let clock = time ∙ h.timely.clock in
      let still = ap (λ s. is_pending now s.clock) kept ∙ h.idle in
      (
        k + n,
        w₂,
        λ fuel m less.
            one_round fuel m w w₁ w₂ (handled fuel (omega (arith, less)))
              (ran fuel (omega (arith, less)))
              (ap (λ n. is_pending n w₂.rest.events.clock) clock ∙ still),
        record {
          sound = d.sound;
          clock = clock;
          idle = still;
          at_rest = drained_at_rest w₁ w₂ h.queue d a.exact;
        },
      )

  at_least :
      (bound : ℕ) (v w' : World State (Simulation U))
      → ((fuel n : ℕ)
          → bound < fuel
          → rounds policy platform event_channel trigger_channel fired events triggers fires body
              fuel
              (suc n)
              v
            ≡ some w')
      → (fuel : ℕ) → bound < fuel
      → rounds policy platform event_channel trigger_channel fired events triggers fires body fuel
          fuel v
        ≡ some w'
  at_least bound v w' ends zero less = absurd (omega arith)
  at_least bound v w' ends (suc n) less = ends (suc n) n less

  schedule_ends :
      (span : ℕ) (w : World State (Simulation U)) (q : Queue) (xs : List ℕ)
      → IsTimely policy platform events lists event_channel trigger_channel fired fires_quietly
          triggers fires
          ((w.rest.now + span) % 2 ^ 64)
          (record w { rest = step span w.rest })
          q
          xs
      → (w.rest.now + span) % 2 ^ 64 < 2 ^ 63
      → (bound : ℕ) × (w' : World State (Simulation U)) × ((fuel : ℕ)
          → bound < fuel
          → schedule policy platform event_channel trigger_channel fired events triggers fires body
              fuel span w
            ≡ some w')
        × IsDone policy platform events ((w.rest.now + span) % 2 ^ 64) w'
  unfolding schedule
  schedule_ends span w q xs t b =
      let now = (w.rest.now + span) % 2 ^ 64 in
      let v = record w { rest = step span w.rest } in
      let (bound, w', ends, d) = rounds-IsDone now v q xs t b in
      (bound, w', at_least bound v w' ends, d)

module _ (policy : SchedulePolicy) {U : Type 0} (application : Platform (Simulation U))
    (events triggers : ℕ) (lists : ℕ → List ℕ) (event_channel trigger_channel : ℕ → ℕ)
    (fired body : ℕ
      → World policy.State (Simulation U)
      → Option (World policy.State (Simulation U)))
    (fires_quietly : FiresQuietly policy
      (with_events events triggers event_channel application)
      events
      lists
      event_channel
      trigger_channel
      fired)
    (quiet : IsQuiet policy application (clock_time events) body) (fires : ℕ → Events → Bool) where
  open policy use {State}

  abbrev platform : Platform (Simulation U)
  platform = with_events events triggers event_channel application

  -- `schedule` of an application whose events are channels that a reset of their inputs resets: it
  -- ends, and from some fuel on it has the same result, in which the time has moved on by the time
  -- span, no event is pending, the run queue is empty, no task is in TASK_RUN, and the tasks and inputs
  -- are in order. No event is relative or has a schedule. The scheduler runs, every task is in no group
  -- and sends nothing, what is the application's changes neither the events nor the time, and times
  -- have 63 bits. At the new time the clock's queue, the run queue, which holds the tasks in TASK_RUN,
  -- the inputs' counters and the channels' lists are in order.
  pub schedule-IsDone :
      (span : ℕ) (w : World State (Simulation U)) (q : Queue) (xs : List ℕ)
      → IsTimely policy platform events lists event_channel trigger_channel fired fires_quietly
          triggers fires
          ((w.rest.now + span) % 2 ^ 64)
          (record w { rest = step span w.rest })
          q
          xs
      → (w.rest.now + span) % 2 ^ 64 < 2 ^ 63
      → (bound : ℕ) × (w' : World State (Simulation U)) × ((fuel : ℕ)
          → bound < fuel
          → schedule policy platform event_channel trigger_channel fired events triggers fires body
              fuel span w
            ≡ some w')
        × IsDone policy platform events ((w.rest.now + span) % 2 ^ 64) w'
  schedule-IsDone =
      schedule_ends policy platform events lists event_channel trigger_channel fired body
        fires_quietly
        (with_events-IsQuiet events triggers policy application event_channel body quiet) triggers
        fires
