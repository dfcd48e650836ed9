-- ===== src/System/UnitTest/Relative.antt =====
-- `Event::reset` of src/taskEvent.cpp, which overrides `Channel::reset`, in the simulated time of
-- src/schedulerUnitTest.cpp: it starts a relative event again.
use tasking_framework.Base.{
  ℕ, zero, suc, ◌<◌, ◌≡◌, ◌∙◌, refl, ap, Bool, false, not, ◌&&◌, ◌||◌, ◌==◌, Bool-cases, inl, inr,
  Option, none, some, arith, Ptr, if◌then◌else◌, ◌>>=◌, eq_of_test, sym,
}
use mathlib.Core.Path.{subst}
use tasking_framework.Clock.{Clock, Calls, start_in}
use tasking_framework.Clock.Remove.{dequeue}
use tasking_framework.Events.{
  Event, Events, calls_of, call, reset, dequeue_event, dequeue_queued, start_event_in,
}
use tasking_framework.Policy.Interface.{SchedulePolicy}
use tasking_framework.System.World.{World, Platform}
use tasking_framework.System.Counting.{some_injective}
use tasking_framework.System.Executed.{IsQuiet}
use tasking_framework.System.UnitTest.{Simulation}

-- Whether an event has a relative timing, which a reset starts again.
abbrev is_relative : Event → Bool
is_relative e = e.configured && not e.periodical

unfoldable pub any_relative : ℕ → (ℕ → Event) → Bool
any_relative zero events = false
any_relative (suc n) events = is_relative (events n) || any_relative n events

not_relative :
    (n x : ℕ) (events : ℕ → Event)
    → any_relative n events ≡ false
    → x < n
    → is_relative (events x) ≡ false
unfolding any_relative
not_relative zero x events e b = absurd (omega arith)
not_relative (suc n) x events e b = elim (Bool-cases (n == x)) [
  | inl y ↦ subst (λ k. is_relative (events k) ≡ false) (eq_of_test n x y) (ground (arith, e))
  | inr ne ↦ not_relative n x events (ground (arith, e)) (ground arith)
]

-- The event whose channel this is.
unfoldable pub event_of : ℕ → (ℕ → ℕ) → ℕ → Ptr
event_of zero event_channel c = none
event_of (suc n) event_channel c =
    if event_channel n == c then some n else event_of n event_channel c

event_of-less :
    (n : ℕ) (event_channel : ℕ → ℕ) (c x : ℕ) → event_of n event_channel c ≡ some x → x < n
unfolding event_of
event_of-less zero event_channel c x e = absurd (cc)
event_of-less (suc n) event_channel c x e = elim (Bool-cases (event_channel n == c)) [
  | inl y ↦ ground (arith, y, e)
  | inr ne ↦
      let rest = event_of-less n event_channel c x (ground (arith, ne, e)) in omega (arith, rest)
]

-- A call that keeps the events' timings, if it returns.
unfoldable Keeps : (ℕ → Event) → Option Events → Type 0
Keeps f none = Unit
Keeps f (some s) = s.events ≡ f

Keeps-bind :
    (f : ℕ → Event) (r : Option Events) (g : Events → Option Events)
    → Keeps f r
    → ((s : Events) → s.events ≡ f → Keeps f (g s))
    → Keeps f (r >>= g)
unfolding Keeps
Keeps-bind f none g k h = tt
Keeps-bind f (some s) g k h = h s k

Keeps-clock :
    (s : Events) (r : Option Clock) → Keeps s.events (r >>= λ c. some (record s { clock = c }))
unfolding Keeps
Keeps-clock s none = tt
Keeps-clock s (some c) = refl

Keeps-calls :
    (s : Events) (r : Option (Clock × Calls))
    → Keeps s.events (r >>= λ p. some (call (calls_of p.1) (record s { clock = p.0 })))
unfolding Keeps call
Keeps-calls s none = tt
Keeps-calls s (some p) = refl

module _ (events triggers : ℕ) where
  dequeue_queued-Keeps : (e : ℕ) (s : Events) → Keeps s.events (dequeue_queued events triggers e s)
  unfolding dequeue_queued dequeue_event Keeps
  dequeue_queued-Keeps e s = elim (Bool-cases (s.clock.queued e)) [
    | inl y ↦ rw y (Keeps-clock s (dequeue events e s.clock))
    | inr n ↦ rw n refl
  ]

  start_event_in-Keeps :
      (now later e delay : ℕ) (f : ℕ → Event) (s : Events)
      → s.events ≡ f
      → Keeps f (start_event_in events triggers now later e delay s)
  unfolding start_event_in
  start_event_in-Keeps now later e delay f s k =
      subst (λ g. Keeps g (start_event_in events triggers now later e delay s)) k
        (Keeps-calls s (start_in events now later e delay s.clock))

  reset-Keeps :
      (now later e : ℕ) (s : Events) → Keeps s.events (reset events triggers now later e s)
  unfolding reset Keeps
  reset-Keeps now later e s = elim (Bool-cases (is_relative (s.events e))) [
    | inl y ↦ rw y (
        Keeps-bind s.events (dequeue_queued events triggers e s)
          (start_event_in events triggers now later e (s.events e).period)
          (dequeue_queued-Keeps e s)
          (λ s' k. start_event_in-Keeps now later e (s.events e).period s.events s' k))
    | inr n ↦ rw n refl
  ]

  reset-idle :
      (now later e : ℕ) (s : Events)
      → is_relative (s.events e) ≡ false
      → reset events triggers now later e s ≡ some s
  unfolding reset
  reset-idle now later e s n = rw n refl

module _ {U : Type 0} (events triggers : ℕ) where
  -- `Event::reset`. Where the clock's queue is broken, so that the reset does not return, the state
  -- stays as it is.
  unfoldable pub reset_event : ℕ → Simulation U → Simulation U
  reset_event x e = elim (reset events triggers e.now e.now x e.events) [
    | none ↦ e
    | some s ↦ record e { events = s }
  ]

  -- `reset` of a channel of another class than `Channel` and `Barrier`: of an event, or what the
  -- application does.
  unfoldable pub reset_other : Platform (Simulation U) → Ptr → ℕ → Simulation U → Simulation U
  unfolding reset_event
  reset_other platform none c e = platform.channel_reset c e
  reset_other platform (some x) c e = reset_event x e

  -- An application whose events are channels.
  unfoldable pub with_events : (ℕ → ℕ) → Platform (Simulation U) → Platform (Simulation U)
  unfolding reset_other
  with_events event_channel platform = record platform {
    channel_reset = λ c e. reset_other platform (event_of events event_channel c) c e;
  }

none_is_some : {A : Type 0} {a : A} → none ≡ some a → ⊥
none_is_some e = cc

-- The events with the clock's queue, and the time, unless an event is relative.
abbrev pub clock_time : {U : Type 0} → ℕ → Simulation U → Option (Events × ℕ)
clock_time events e = if any_relative events e.events.events then none else some (e.events, e.now)

module _ {U : Type 0} (events triggers : ℕ) where
  timed_reset :
      (x : ℕ) (e : Simulation U) (r : Option Events)
      → r ≡ reset events triggers e.now e.now x e.events
      → x < events
      → clock_time events (elim r [ none ↦ e | some s ↦ record e { events = s } ])
        ≡ clock_time events e
  unfolding Keeps
  timed_reset x e none at b = refl
  timed_reset x e (some s) at b = elim (Bool-cases (any_relative events e.events.events)) [
    | inl some_relative ↦
        let same : s.events ≡ e.events.events =
          subst (Keeps e.events.events) (sym at)
            (reset-Keeps events triggers e.now e.now x e.events) in
        rw (ap (any_relative events) same, some_relative) refl
    | inr none_relative ↦
        let idle =
          reset-idle events triggers e.now e.now x e.events
            (not_relative events x e.events.events none_relative b) in
        ap (λ s'. clock_time events (record e { events = s' })) (some_injective (at ∙ idle))
  ]

  reset_other-clock_time :
      (platform : Platform (Simulation U)) (p : Ptr) (c : ℕ) (e : Simulation U)
      → ((d : Simulation U) → clock_time events (platform.channel_reset c d) ≡ clock_time events d)
      → ((x : ℕ) → p ≡ some x → x < events)
      → clock_time events (reset_other events triggers platform p c e) ≡ clock_time events e
  unfolding reset_other reset_event
  reset_other-clock_time platform none c e quiet known = quiet e
  reset_other-clock_time platform (some x) c e quiet known =
      timed_reset x e (reset events triggers e.now e.now x e.events) refl (known x refl)

  -- While no event is relative, the events and the time stay.
  pub same_time :
      (d e : Simulation U)
      → clock_time events d ≡ clock_time events e
      → any_relative events e.events.events ≡ false
      → (d.events ≡ e.events) × (d.now ≡ e.now)
  same_time d e same absolute = elim (Bool-cases (any_relative events d.events.events)) [
    | inl y ↦
        let at : clock_time events d ≡ none = rw y refl in
        let at' : clock_time events e ≡ some (e.events, e.now) = rw absolute refl in
        absurd (none_is_some (sym at ∙ same ∙ at'))
    | inr n ↦
        let at : clock_time events d ≡ some (d.events, d.now) = rw n refl in
        let at' : clock_time events e ≡ some (e.events, e.now) = rw absolute refl in
        let pair = some_injective (sym at ∙ same ∙ at') in (ap (λ p. p.0) pair, ap (λ p. p.1) pair)
  ]

  -- Where the resets of the application's own channels do not touch the events, the tasks change
  -- neither the events nor the time while no event is relative.
  pub with_events-IsQuiet :
      (policy : SchedulePolicy) (platform : Platform (Simulation U)) (event_channel : ℕ → ℕ)
      (body : ℕ → World policy.State (Simulation U) → Option (World policy.State (Simulation U)))
      → IsQuiet policy platform (clock_time events) body
      → IsQuiet policy (with_events events triggers event_channel platform) (clock_time events) body
  unfolding with_events
  with_events-IsQuiet policy platform event_channel body quiet = record {
    resets = λ c e.
        reset_other-clock_time platform (event_of events event_channel c) c e (quiet.resets c)
          (event_of-less events event_channel c);
    starts = quiet.starts;
    ends = quiet.ends;
    bodies = quiet.bodies;
  }
