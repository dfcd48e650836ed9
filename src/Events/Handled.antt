-- ===== src/Events/Handled.antt =====
-- `handle` of src/taskEvent.cpp at a time that stands: a periodic event is started again for the end of
-- its period, which brings the queue nearer to the time.
use tasking_framework.Base.{
  ℕ, ◌+◌, ◌-◌, ◌%◌, ◌^◌, ◌≡◌, ◌⊎◌, ◌≤◌, ◌<◌, refl, ap, ◌∙◌, Bool, true, false, Option, none, some,
  List, [], ◌∷◌, ◌++◌, arith, Ptr, update, ltb, if◌then◌else◌, ◌>>=◌, inl, inr, Bool-cases, ◌∉◌,
}
use mathlib.Core.Path.{subst}
use tasking_framework.Clock.{Clock, Calls, start_at}
use tasking_framework.Clock.Search.{early, late, early-late}
use tasking_framework.Clock.Enqueue.{insert}
use tasking_framework.Clock.Insert.{none_between}
use tasking_framework.Clock.Steps as Steps
use tasking_framework.Clock.Steps.{
  Queue, Answer, started, put_in, put_front, on_queue, Implements, step, Refines,
}
use tasking_framework.Clock.Run.{one_call}
use tasking_framework.Events.{
  Event, Events, call, calls_of, on_fire, push_event, handle, restart, start_event_at,
}

-- How many milliseconds the times of these events lie back, and one more for each that has come.
abbrev pub backlog : ℕ → (ℕ → ℕ) → List ℕ → ℕ
backlog now times [] = 0
backlog now times (x ∷ xs) = (now + 1 - times x) + backlog now times xs

backlog-frame :
    (now : ℕ) (times : ℕ → ℕ) (e time : ℕ) (xs : List ℕ)
    → e ∉ xs
    → backlog now (update times e time) xs ≡ backlog now times xs
backlog-frame now times e time [] out = refl
backlog-frame now times e time (x ∷ xs) out = ground (arith, backlog-frame now times e time xs)

backlog-between :
    (now : ℕ) (times : ℕ → ℕ) (e : ℕ) (xs ys : List ℕ)
    → backlog now times (xs ++ e ∷ ys) ≡ (now + 1 - times e) + backlog now times (xs ++ ys)
backlog-between now times e [] ys = refl
backlog-between now times e (x ∷ xs) ys = omega (arith, backlog-between now times e xs ys)

backlog-insert :
    (now : ℕ) (times : ℕ → ℕ) (e : ℕ) (xs : List ℕ)
    → backlog now times (insert times e xs) ≡ (now + 1 - times e) + backlog now times xs
backlog-insert now times e xs =
    backlog-between now times e (early times (times e) xs) (late times (times e) xs)
    ∙ ap (λ l. (now + 1 - times e) + backlog now times l) (early-late times (times e) xs)

-- An event that the queue may hold: it is not periodic, or it has a period and no schedule. Until
-- `now`, a start of its next period has 63 bits.
abbrev pub IsPlain : ℕ → Event → Type 0
IsPlain now event =
    (event.periodical ≡ false)
    ⊎ ((event.periodical ≡ true)
        × (event.periodic_schedule ≡ none)
        × (0 < event.period)
        × (now + event.period < 2 ^ 63))

-- The clock answers as its list does.
abbrev as_started : Clock × Calls → Option (Clock × Answer)
as_started p = some (p.0, started p.1)

abbrev pub as_event : Clock × Ptr → Option (Clock × Answer)
as_event p = some (p.0, Steps.event p.1)

answers-start_at :
    (r : Option (Clock × Calls)) (d : Clock) (a : Calls)
    → (r >>= as_started) ≡ some (d, started a)
    → r ≡ some (d, a)
answers-start_at none d a e = cc
answers-start_at (some (c, b)) d a e = cc

pub answers-read :
    (r : Option (Clock × Ptr)) (d : Clock) (a : Ptr)
    → (r >>= as_event) ≡ some (d, Steps.event a)
    → r ≡ some (d, a)
answers-read none d a e = cc
answers-read (some (c, b)) d a e = cc

module _ (events now : ℕ) where
  -- The events are those of the clock's queue.
  pub record IsReady (s : Events) (q : Queue) : Type 0 where
    pub clock : Implements events now s.clock q
    pub plain : (e : ℕ) → IsPlain now (s.events e)

module _ (events triggers : ℕ) (fires : ℕ → Events → Bool) (now : ℕ) where
  -- `handle` of an event that has been taken out of the queue: what remains lies less far back.
  unfoldable pub Handles : ℕ → Events → Queue → Type 0
  Handles e s q =
      (s' : Events) × (q' : Queue) × (handle events triggers fires now e s ≡ some s')
      × IsReady events now s' q'
      × (backlog now q'.times q'.events ≤ (now - q.times e) + backlog now q.times q.events)
      × (s'.events ≡ s.events)

  -- Whether the event fires or not.
  fire : ℕ → Events → Events
  fire e s = if fires e s then call (on_fire e ∷ push_event e ∷ []) s else s

  fire-IsReady :
      (e : ℕ) (s : Events) (q : Queue) → IsReady events now s q → IsReady events now (fire e s) q
  unfolding fire call
  fire-IsReady e s q r = elim (Bool-cases (fires e s)) [
    | inl y ↦ rw y (record { clock = r.clock; plain = r.plain })
    | inr n ↦ rw n r
  ]

  fire-events : (e : ℕ) (s : Events) → (fire e s).events ≡ s.events
  unfolding fire call
  fire-events e s = elim (Bool-cases (fires e s)) [ inl y ↦ rw y refl | inr n ↦ rw n refl ]

  single-Handles :
      (e : ℕ) (s : Events) (q : Queue)
      → IsReady events now s q
      → (s.events e).periodical ≡ false
      → Handles e s q
  unfolding Handles handle fire
  single-Handles e s q r n =
      (fire e s, q, rw n refl, fire-IsReady e s q r, omega arith, fire-events e s)

  -- The result of starting a periodic event again.
  Restarts : ℕ → Events → Queue → Type 0
  Restarts e s q =
      (s' : Events) × (q' : Queue) × (restart events triggers fires now e none s ≡ some s')
      × IsReady events now s' q'
      × (s'.events ≡ s.events)
      × (backlog now q'.times q'.events ≤ (now - q.times e) + backlog now q.times q.events)

  start-Restarts :
      (e time : ℕ) (s : Events) (q q' : Queue) (d : Clock) (a : Calls)
      → IsReady events now s q
      → (s.clock.next_activation e + (s.events e).period) % 2 ^ 64 ≡ time
      → step events now (Steps.start_at e time) s.clock ≡ some (d, started a)
      → Implements events now d q'
      → backlog now q'.times q'.events ≤ (now - q.times e) + backlog now q.times q.events
      → Restarts e s q
  unfolding Restarts restart start_event_at call step
  start-Restarts e time s q q' d a r at done i less = (
    call (calls_of a) (record s { clock = d }),
    q',
    rw (at, answers-start_at (start_at events now e time s.clock) d a done) refl,
    record { clock = i; plain = r.plain },
    refl,
    less,
  )

  again :
      (e : ℕ) (s : Events) (q : Queue)
      → IsReady events now s q
      → now < 2 ^ 63
      → e < events
      → e ∉ q.events
      → q.queued e ≡ false
      → q.times e ≤ now
      → 0 < (s.events e).period
      → now + (s.events e).period < 2 ^ 63
      → Restarts e s q
  unfolding Refines on_queue
  again e s q r k small out idle due positive room =
      let time = q.times e + (s.events e).period in
      let at : (s.clock.next_activation e + (s.events e).period) % 2 ^ 64 ≡ time =
        omega (arith, ap (λ (f : ℕ → ℕ). f e) r.clock.times) in
      let (d, r', i) =
        one_call events now now (Steps.start_at e time) s.clock q r.clock (omega arith) k
          (small, omega arith, ground (arith, out)) in
      let times = update q.times e time in
      let same = backlog-frame now q.times e time q.events out in
      let back : now + 1 - times e ≤ now - q.times e = ground arith in
      elim (Bool-cases (ltb now time)) [
        | inl f ↦
            let eq : on_queue now (Steps.start_at e time) q ≡ put_in now e time q =
              rw (idle, f) refl in
            start-Restarts e time s q (put_in now e time q).0 d
              (record {
                signal = false;
                timer =
                    if none_between times now (times e) q.events then some (time - now) else none;
              })
              r at
              (subst (λ o. step events now (Steps.start_at e time) s.clock ≡ some (d, o.1)) eq r')
              (subst (λ o. Implements events now d o.0) eq i)
              (omega (arith, same, back, backlog-insert now times e q.events))
        | inr n ↦
            let eq : on_queue now (Steps.start_at e time) q ≡ put_front e time q =
              rw (idle, n) refl in
            start-Restarts e time s q (put_front e time q).0 d
              (record { signal = true; timer = none }) r at
              (subst (λ o. step events now (Steps.start_at e time) s.clock ≡ some (d, o.1)) eq r')
              (subst (λ o. Implements events now d o.0) eq i) (omega (arith, same, back))
      ]

  periodic-Handles :
      (e : ℕ) (s : Events) (q : Queue)
      → IsReady events now s q
      → now < 2 ^ 63
      → e < events
      → e ∉ q.events
      → q.queued e ≡ false
      → q.times e ≤ now
      → (s.events e).periodical ≡ true
      → (s.events e).periodic_schedule ≡ none
      → 0 < (s.events e).period
      → now + (s.events e).period < 2 ^ 63
      → Handles e s q
  unfolding Handles Restarts handle fire
  periodic-Handles e s q r k small out idle due periodic no_schedule positive room =
      let (s', q', done, r', same, less) = again e s q r k small out idle due positive room in
      (
        fire e s',
        q',
        rw periodic (
            ap (λ p. restart events triggers fires now e p s >>= λ s''. some (fire e s''))
              no_schedule
            ∙ rw done refl),
        fire-IsReady e s' q' r',
        less,
        fire-events e s' ∙ same,
      )

  pub handle-Handles :
      (e : ℕ) (s : Events) (q : Queue)
      → IsReady events now s q
      → now < 2 ^ 63
      → e < events
      → e ∉ q.events
      → q.queued e ≡ false
      → q.times e ≤ now
      → Handles e s q
  handle-Handles e s q r k small out idle due = elim (r.plain e) [
    | inl n ↦ single-Handles e s q r n
    | inr p ↦ periodic-Handles e s q r k small out idle due p.0 p.1 p.2 p.3
  ]
