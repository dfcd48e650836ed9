-- ===== src/System/UnitTest/Handling.antt =====
-- `handleEvents` of src/scheduler.cpp in the simulated time of src/schedulerUnitTest.cpp, with the pushes that the
-- events make: it ends, no event is pending, and the tasks and inputs are in order.
use mathlib.Core.Path.{subst}
use tasking_framework.Base.{
  ℕ, zero, suc, ◌+◌, ◌-◌, ◌^◌, ◌≡◌, ◌≤◌, ◌<◌, ◌∙◌, refl, inl, inr, ap, sym, Bool, true, false,
  Bool-cases, Option, none, some, List, [], ◌∷◌, arith, Ptr, update, ltb, ◌∉◌,
}
use tasking_framework.Clock.{Clock, is_pending}
use tasking_framework.Clock.Remove.{read_first_pending}
use tasking_framework.Clock.Steps.{Queue, Implements}
use tasking_framework.Events.{Call, signal, start_timer, on_fire, push_event, push_trigger, Events}
use tasking_framework.Events as Events
use tasking_framework.Events.Handled.{backlog, IsReady, Handles, handle-Handles}
use tasking_framework.Events.Ends.{queue_with, is_later, read-idle, read-due}
use tasking_framework.Policy.Interface.{SchedulePolicy}
use tasking_framework.System.World.{World, Platform}
use tasking_framework.System.UnitTest.{
  Simulation, perform_calls, handle_event, handle_read, handle_events,
}
use tasking_framework.System.UnitTest.Relative.{any_relative}
use tasking_framework.System.Counting.{in_turn}
use tasking_framework.System.UnitTest.Drained.{at_once, one_later}
use tasking_framework.System.UnitTest.Calls.{
  IsAlive, IsAlive-rest, FiresQuietly, perform_calls-Calls,
}

module _ (policy : SchedulePolicy) {U : Type 0} (platform : Platform (Simulation U)) (events : ℕ)
    (lists : ℕ → List ℕ) (event_channel trigger_channel : ℕ → ℕ)
    (fired : ℕ → World policy.State (Simulation U) → Option (World policy.State (Simulation U)))
    (quiet : FiresQuietly policy platform events lists event_channel trigger_channel fired) where
  open policy use {State}

  module _ (triggers : ℕ) (fires : ℕ → Events → Bool) (now : ℕ) where
    abbrev handled_on : ℕ → World State (Simulation U) → Option (World State (Simulation U))
    handled_on =
        handle_events policy platform event_channel trigger_channel fired events triggers fires

    -- At the time `now` the events are those of this queue, and the rest is in order.
    pub record IsTimely (w : World State (Simulation U)) (q : Queue) (xs : List ℕ) : Type 0 where
      pub ready : IsReady events now w.rest.events q
      pub clock : w.rest.now ≡ now
      pub absolute : any_relative events w.rest.events.events ≡ false
      pub alive : IsAlive policy platform events lists w xs

    -- The end of `handleEvents`: no event is pending.
    pub record IsHandled (w : World State (Simulation U)) : Type 0 where
      pub events_left : Queue
      pub queue : List ℕ
      pub timely : IsTimely w events_left queue
      pub idle : is_pending now w.rest.events.clock ≡ false

    -- One event is handled, with the pushes that it makes.
    handle_event-IsTimely :
        (x : ℕ) (v : World State (Simulation U)) (q : Queue) (xs : List ℕ)
        → IsTimely v q xs
        → now < 2 ^ 63
        → x < events
        → x ∉ q.events
        → q.queued x ≡ false
        → q.times x ≤ now
        → (w : World State (Simulation U)) × (q' : Queue) × (ys : List ℕ) × (handle_event policy
              platform event_channel trigger_channel fired events triggers fires x v
            ≡ some w)
          × IsTimely w q' ys
          × (backlog now q'.times q'.events ≤ (now - q.times x) + backlog now q.times q.events)
    unfolding handle_event Handles
    handle_event-IsTimely x v q xs t b known out off due =
        let s₀ = record v.rest.events { calls = [] } in
        let (s, q', handled, ready, less, same) =
          handle-Handles events triggers fires now x s₀ q
            (record { clock = t.ready.clock; plain = t.ready.plain }) b known out off due in
        let at = ap (λ n. Events.handle events triggers fires n x s₀) t.clock in
        let e = record v.rest { events = s } in
        let calls =
          perform_calls-Calls policy platform events lists event_channel trigger_channel fired quiet
            s.calls (record v { rest = e }) xs
            (IsAlive-rest policy platform events lists v xs e t.alive) in
        (
          calls.after,
          q',
          calls.queue,
          in_turn
              (λ s'.
                perform_calls policy platform event_channel trigger_channel fired s'.calls
                  (record v { rest = record v.rest { events = s' } }))
              (at ∙ handled) calls.done,
          record {
            ready = subst (λ s'. IsReady events now s' q') (sym calls.same) ready;
            clock = calls.time ∙ t.clock;
            absolute =
                ap (λ s'. any_relative events s'.events) calls.same
                ∙ ap (any_relative events) same
                ∙ t.absolute;
            alive = calls.alive;
          },
          less,
        )

    abbrev with_clock : World State (Simulation U) → Clock → World State (Simulation U)
    with_clock w c = record w {
      rest = record w.rest { events = record w.rest.events { clock = c } };
    }

    with_clock-IsTimely :
        (w : World State (Simulation U)) (c : Clock) (q q' : Queue) (xs : List ℕ)
        → IsTimely w q xs
        → Implements events now c q'
        → IsTimely (with_clock w c) q' xs
    with_clock-IsTimely w c q q' xs t i = record {
      ready = record { clock = i; plain = t.ready.plain };
      clock = t.clock;
      absolute = t.absolute;
      alive =
          IsAlive-rest policy platform events lists w xs
            (record w.rest { events = record w.rest.events { clock = c } }) t.alive;
    }

    last_round :
        (fuel : ℕ) (w : World State (Simulation U)) (d : Clock)
        → read_first_pending events w.rest.now w.rest.events.clock ≡ some (d, none)
        → handled_on (suc fuel) w ≡ some (with_clock w d)
    unfolding handle_events handle_read
    last_round fuel w d read = rw read refl

    one_round :
        (fuel x : ℕ) (w w' : World State (Simulation U)) (d : Clock)
        → read_first_pending events w.rest.now w.rest.events.clock ≡ some (d, some x)
        → handle_event policy platform event_channel trigger_channel fired events triggers fires x
            (with_clock w d)
          ≡ some w'
        → handled_on (suc fuel) w ≡ handled_on fuel w'
    unfolding handle_events handle_read
    one_round fuel x w w' d read done = rw (read, done) refl

    read_at :
        (w : World State (Simulation U)) (d : Clock) (p : Ptr)
        → w.rest.now ≡ now
        → read_first_pending events now w.rest.events.clock ≡ some (d, p)
        → read_first_pending events w.rest.now w.rest.events.clock ≡ some (d, p)
    read_at w d p e read = ap (λ n. read_first_pending events n w.rest.events.clock) e ∙ read

    -- The outcome of the loop, for any fuel beyond `k`.
    abbrev pub Handled : ℕ → World State (Simulation U) → Type 0
    Handled k w =
        (w' : World State (Simulation U)) × ((fuel : ℕ) → k < fuel → handled_on fuel w ≡ some w')
        × IsHandled w'

    nothing_due :
        (k : ℕ) (w : World State (Simulation U)) (es : List ℕ) (queued : ℕ → Bool) (times : ℕ → ℕ)
        (xs : List ℕ)
        → IsTimely w (queue_with events triggers fires now es queued times) xs
        → now < 2 ^ 63
        → is_later events triggers fires now es times ≡ true
        → Handled k w
    nothing_due k w es queued times xs t b later =
        let q = queue_with events triggers fires now es queued times in
        let (d, read, i, idle) =
          read-idle events triggers fires now w.rest.events es queued times t.ready b later in
        (
          with_clock w d,
          at_once k (λ fuel. handled_on fuel w) (some (with_clock w d))
              (λ fuel. last_round fuel w d (read_at w d none t.clock read)),
          record {
            events_left = q;
            queue = xs;
            timely = with_clock-IsTimely w d q q xs t i;
            idle = idle;
          },
        )

    pub handle_events-Handled :
        (k : ℕ) (w : World State (Simulation U)) (es : List ℕ) (queued : ℕ → Bool) (times : ℕ → ℕ)
        (xs : List ℕ)
        → IsTimely w (queue_with events triggers fires now es queued times) xs
        → now < 2 ^ 63
        → backlog now times es ≤ k
        → Handled k w
    unfolding is_later
    handle_events-Handled k w [] queued times xs t b less =
        nothing_due k w [] queued times xs t b refl
    handle_events-Handled zero w (x ∷ es) queued times xs t b less =
        nothing_due zero w (x ∷ es) queued times xs t b (ground (arith, less))
    handle_events-Handled (suc k) w (x ∷ es) queued times xs t b less =
        elim (Bool-cases (ltb now (times x))) [
          | inl later ↦ nothing_due (suc k) w (x ∷ es) queued times xs t b later
          | inr due ↦
              let q = queue_with events triggers fires now (x ∷ es) queued times in
              let q₁ = queue_with events triggers fires now es (update queued x false) times in
              let past : times x ≤ now = ground arith in
              let (d, read, i) =
                read-due events triggers fires now w.rest.events x es queued times t.ready b past in
              let holds = t.ready.clock.timed.holds in
              let (w', q', ys, done, t', back) =
                handle_event-IsTimely x (with_clock w d) q₁ xs (with_clock-IsTimely w d q q₁ xs t i)
                  b holds.known.0 holds.once.0 (ground arith) past in
              let (w'', ends, h) =
                handle_events-Handled k w' q'.events q'.queued q'.times ys t' b
                  (omega (arith, back, less, past)) in
              (
                w'',
                one_later k (λ fuel. handled_on fuel w) (λ fuel. handled_on fuel w') (some w'') ends
                    (λ fuel. one_round fuel x w w' d (read_at w d (some x) t.clock read) done),
                h,
              )
        ]
