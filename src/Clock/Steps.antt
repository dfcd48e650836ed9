-- ===== src/Clock/Steps.antt =====
-- The calls of src/clock.cpp as time passes, each on the linked queue and on a list of events.
use tasking_framework.Base.{
  ℕ, ◌+◌, ◌-◌, ◌%◌, ◌^◌, ◌≡◌, ◌≤◌, ◌<◌, refl, Bool, true, false, not, ◌||◌, Option, none, some,
  List, [], ◌∷◌, arith, Ptr, update, ltb, leb, if◌then◌else◌, ◌>>=◌, inl, inr, Bool-cases, has, ◌∉◌,
  remove,
}
use tasking_framework.Clock as Clock
use tasking_framework.Clock.{Clock, Calls, Holds, signed, init}
use tasking_framework.Clock.Remove as Remove
use tasking_framework.Clock.Order.{InOrder-frame}
use tasking_framework.Clock.Enqueue.{IsTimed, insert}
use tasking_framework.Clock.Insert.{none_between, enqueue-insert}
use tasking_framework.Clock.Kept.{enqueue_head-IsTimed, read_first_pending-IsTimed}
use tasking_framework.Clock.Dequeue.{dequeue-IsTimed}

-- `start_now` is `startIn` without a delay.
pub data Call : Type 0 where
  start_at : ℕ → ℕ → Call
  start_now dequeue : ℕ → Call
  read_first_pending : Call

pub data Answer : Type 0 where
  started : Calls → Answer
  dequeued : Answer
  event : Ptr → Answer

-- The queue as a list of events, which of them are marked as queued, and their times.
pub record Queue : Type 0 where
  pub events : List ℕ
  pub queued : ℕ → Bool
  pub times : ℕ → ℕ

abbrev silent : Calls
silent = record { signal = false; timer = none }

-- An event whose time has come goes to the front.
abbrev pub put_front : ℕ → ℕ → Queue → Queue × Answer
put_front e time q = (
  record { events = e ∷ q.events; queued = q.queued; times = update q.times e time },
  started (record { signal = true; timer = none }),
)

-- An event in the future goes behind those that are not later, and starts the timer if it is the
-- next one.
abbrev pub put_in : ℕ → ℕ → ℕ → Queue → Queue × Answer
put_in now e time q =
    let times = update q.times e time in
    (
      record { events = insert times e q.events; queued = update q.queued e true; times = times },
      started (record {
        signal = false;
        timer = if none_between times now (times e) q.events then some (time - now) else none;
      }),
    )

read_list : ℕ → List ℕ → Queue → Queue × Answer
read_list now [] q = (q, event none)
read_list now (x ∷ xs) q =
    if leb (q.times x) now
    then (record { events = xs; queued = update q.queued x false; times = q.times }, event (some x))
    else (q, event none)

unfoldable pub on_queue : ℕ → Call → Queue → Queue × Answer
unfolding read_list
on_queue now (start_at e time) q =
    if q.queued e
    then (q, started silent)
    else if ltb now time
    then put_in now e time q
    else put_front e time q
on_queue now (start_now e) q = if q.queued e then (q, started silent) else put_front e now q
on_queue now (dequeue e) q = (
  record { events = remove e q.events; queued = update q.queued e false; times = q.times },
  dequeued,
)
on_queue now read_first_pending q = read_list now q.events q

-- The clock holds the queue, which is in order up to the time `n`.
pub record Implements (events n : ℕ) (c : Clock) (q : Queue) : Type 0 where
  pub timed : IsTimed events n c q.events
  pub queued : c.queued ≡ q.queued
  pub times : c.next_activation ≡ q.times

-- An event may be started that exists and is not in the queue without a mark; times have 63 bits.
abbrev pub MayStart : ℕ → ℕ → ℕ → Queue → Type 0
MayStart events e time q =
    (e < events) × (time < 2 ^ 63) × ((q.queued e || not (has e q.events)) ≡ true)

abbrev pub IsAllowed : ℕ → ℕ → Call → Queue → Type 0
IsAllowed events now (start_at e time) q = MayStart events e time q
IsAllowed events now (start_now e) q = MayStart events e now q
IsAllowed events now (dequeue e) q = Unit {0}
IsAllowed events now read_first_pending q = Unit {0}

module _ (events : ℕ) where
  -- A call of the code at the time `now`.
  unfoldable pub step : ℕ → Call → Clock → Option (Clock × Answer)
  step now (start_at e time) c = do (d, a) ← Clock.start_at events now e time c; some (d, started a)
  step now (start_now e) c = do (d, a) ← Clock.start_in events now now e 0 c; some (d, started a)
  step now (dequeue e) c = do d ← Remove.dequeue events e c; some (d, dequeued)
  step now read_first_pending c = do
    (d, p) ← Remove.read_first_pending events now c
    some (d, event p)

  unfoldable pub Refines : ℕ → Call → Clock → Queue → Type 0
  Refines now call c q =
      (d : Clock) × (step now call c ≡ some (d, (on_queue now call q).1))
      × Implements events now d (on_queue now call q).0

  abbrev pub queue_of : Clock → List ℕ → Queue
  queue_of c xs = record { events = xs; queued = c.queued; times = c.next_activation }

  abbrev timed_at : ℕ → ℕ → Clock → Clock
  timed_at e time c = record c { next_activation = update c.next_activation e time }

  -- A new time of an event that is not in the queue.
  timed_at-IsTimed :
      (n e time : ℕ) (c : Clock) (xs : List ℕ)
      → IsTimed events n c xs
      → e ∉ xs
      → IsTimed events n (timed_at e time c) xs
  timed_at-IsTimed n e time c xs t out = record {
    holds = record {
      chain = t.holds.chain;
      end = t.holds.end;
      once = t.holds.once;
      known = t.holds.known;
    };
    order =
        InOrder-frame n c.next_activation (update c.next_activation e time) c.previous c.previous
          none xs t.order (λ a m. (ground (arith, out), refl));
  }

  signed-earlier :
      (now time : ℕ) → now < 2 ^ 63 → time < 2 ^ 63 → ltb (signed now) (signed time) ≡ ltb now time
  signed-earlier now time h k = ground arith

  delay : (now time : ℕ) → now < time → time < 2 ^ 63 → (time + 2 ^ 64 - now) % 2 ^ 64 ≡ time - now
  delay now time h k = omega arith

  queued-Refines :
      (now e time : ℕ) (c : Clock) (xs : List ℕ)
      → IsTimed events now c xs
      → c.queued e ≡ true
      → Refines now (start_at e time) c (queue_of c xs)
  unfolding step Refines on_queue Clock.start_at
  queued-Refines now e time c xs t y =
      (c, rw y refl, rw y (record { timed = t; queued = refl; times = refl }))

  future-Refines :
      (now e time : ℕ) (c : Clock) (xs : List ℕ)
      → IsTimed events now c xs
      → c.queued e ≡ false
      → e ∉ xs
      → e < events
      → now < time
      → time < 2 ^ 63
      → Refines now (start_at e time) c (queue_of c xs)
  unfolding step Refines on_queue Clock.start_at
  future-Refines now e time c xs t n out small h k =
      let t' = timed_at-IsTimed now e time c xs t out in
      let test = signed-earlier now time (omega arith) k in
      let earlier : ltb now time ≡ true = ground arith in
      let at : update c.next_activation e time e ≡ time = ground arith in
      let (d, r, timed, queued, times) =
        enqueue-insert events now e (timed_at e time c) xs t' small out (omega (arith, at)) in
      (
        d,
        rw (n, test, earlier, r, delay now time h k) refl,
        rw (n, earlier) (record { timed = timed; queued = queued; times = times }),
      )

  front-Refines :
      (now e time : ℕ) (c : Clock) (xs : List ℕ)
      → IsTimed events now c xs
      → c.queued e ≡ false
      → e ∉ xs
      → e < events
      → time ≤ now
      → now < 2 ^ 63
      → Refines now (start_at e time) c (queue_of c xs)
  unfolding step Refines on_queue Clock.start_at
  front-Refines now e time c xs t n out small h k =
      let t' = timed_at-IsTimed now e time c xs t out in
      let test = signed-earlier now time k (omega arith) in
      let later : ltb now time ≡ false = ground arith in
      let at : update c.next_activation e time e ≡ time = ground arith in
      let (d, r, timed, queued, times) =
        enqueue_head-IsTimed events now e (timed_at e time c) xs t' small out (omega (arith, at)) in
      (
        d,
        rw (n, test, later, r) refl,
        rw (n, later) (record { timed = timed; queued = queued; times = times }),
      )

  start_at-Refines :
      (now e time : ℕ) (c : Clock) (xs : List ℕ)
      → now < 2 ^ 63
      → IsTimed events now c xs
      → MayStart events e time (queue_of c xs)
      → Refines now (start_at e time) c (queue_of c xs)
  start_at-Refines now e time c xs k t (small, k', free) = elim (Bool-cases (c.queued e)) [
    | inl y ↦ queued-Refines now e time c xs t y
    | inr n ↦
        let out : e ∉ xs = ground (arith, free, n) in
        elim (Bool-cases (ltb now time)) [
          | inl h ↦ future-Refines now e time c xs t n out small (ground arith) k'
          | inr h ↦ front-Refines now e time c xs t n out small (ground arith) k
        ]
  ]

  start_now-Refines :
      (now e : ℕ) (c : Clock) (xs : List ℕ)
      → IsTimed events now c xs
      → MayStart events e now (queue_of c xs)
      → Refines now (start_now e) c (queue_of c xs)
  unfolding step Refines on_queue Clock.start_in
  start_now-Refines now e c xs t (small, _, free) = elim (Bool-cases (c.queued e)) [
    | inl y ↦ (c, rw y refl, rw y (record { timed = t; queued = refl; times = refl }))
    | inr n ↦
        let out : e ∉ xs = ground (arith, free, n) in
        let t' = timed_at-IsTimed now e now c xs t out in
        let at : update c.next_activation e now e ≡ now = ground arith in
        let (d, r, timed, queued, times) =
          enqueue_head-IsTimed events now e (timed_at e now c) xs t' small out
            (omega (arith, at)) in
        (d, rw (n, r) refl, rw n (record { timed = timed; queued = queued; times = times }))
  ]

  dequeue-Refines :
      (now e : ℕ) (c : Clock) (xs : List ℕ)
      → IsTimed events now c xs
      → Refines now (dequeue e) c (queue_of c xs)
  unfolding step Refines on_queue
  dequeue-Refines now e c xs t =
      let (d, r, timed, queued, times) = dequeue-IsTimed events now e c xs t in
      (d, rw r refl, record { timed = timed; queued = queued; times = times })

  read-Refines :
      (now : ℕ) (c : Clock) (xs : List ℕ)
      → IsTimed events now c xs
      → Refines now read_first_pending c (queue_of c xs)
  unfolding step Refines on_queue Remove.read_first_pending
  read-Refines now c [] t =
      (c, rw t.holds.chain refl, record { timed = t; queued = refl; times = refl })
  read-Refines now c (x ∷ xs) t = elim (Bool-cases (leb (c.next_activation x) now)) [
    | inl due ↦
        let (d, r, timed, queued, times) =
          read_first_pending-IsTimed events now now c x xs t (ground arith) in
        (d, rw r (rw due refl), rw due (record { timed = timed; queued = queued; times = times }))
    | inr later ↦ (
      c,
      rw (t.holds.chain.0, later) refl,
      rw later (record { timed = t; queued = refl; times = refl }),
    )
  ]

  pub step-Refines :
      (now : ℕ) (call : Call) (c : Clock) (xs : List ℕ)
      → now < 2 ^ 63
      → IsTimed events now c xs
      → IsAllowed events now call (queue_of c xs)
      → Refines now call c (queue_of c xs)
  step-Refines now (start_at e time) c xs k t a = start_at-Refines now e time c xs k t a
  step-Refines now (start_now e) c xs k t a = start_now-Refines now e c xs t a
  step-Refines now (dequeue e) c xs k t a = dequeue-Refines now e c xs t
  step-Refines now read_first_pending c xs k t a = read-Refines now c xs t
