-- ===== src/Clock.antt =====
-- src/clock.cpp, include/impl/clock_impl.h and include/impl/taskEvent_impl.h: the queue of timed
-- events, a list in the order of time that is linked both ways. Events have numbers, and a field of
-- `EventImpl` is a function from them. The method `getTime` belongs to the platform, so its result
-- `now` is an argument, and the calls of `signal` and `startTimer` are the results of an operation.
-- The loops run on fuel, one round for each event of the application and one more: the queue holds
-- an event at most once. Without fuel, and through a null pointer, an operation yields `none`.
pub mod Remove
pub mod Order
pub mod Correct
pub mod Search
pub mod Enqueue
pub mod Insert
pub mod Kept
pub mod Steps
pub mod Run
pub mod Marked
pub mod Pending
pub mod Empty
pub mod Head
pub mod Twice
pub mod NextStart
pub mod Cut
pub mod Dequeue
use tasking_framework.Base.{
  ℕ, zero, suc, ◌+◌, ◌-◌, ◌%◌, ◌^◌, ◌≡◌, Bool, true, false, not, ◌&&◌, Option, none, some, List, [],
  ◌∷◌, Ptr, is_null, same_ptr, update, ltb, leb, ◌==◌, if◌then◌else◌, ◌>>=◌, Distinct, Below, Chain,
  last_ptr,
}

pub record Clock : Type 0 where
  pub queued : ℕ → Bool
  pub next_activation : ℕ → ℕ
  pub next : ℕ → Ptr
  pub previous : ℕ → Ptr
  pub queue_head : Ptr
  pub queue_tail : Ptr
  pub none_pending_head : Ptr

unfoldable pub init : Clock
init = record {
  queued = λ e. false;
  next_activation = λ e. 0;
  next = λ e. none;
  previous = λ e. none;
  queue_head = none;
  queue_tail = none;
  none_pending_head = none;
}

-- What an operation does after it has left the mutex: whether it signals the scheduler, and the
-- delay with which it starts the timer.
pub record Calls : Type 0 where
  pub signal : Bool
  pub timer : Option ℕ

-- The order of two times as 64-bit signed numbers, which is that of these unsigned ones.
abbrev pub signed : ℕ → ℕ
signed time = (time + 2 ^ 63) % 2 ^ 64

-- The loop that sets `previous` to `v` from `p` on, as far as the events have the time `t`.
unfoldable pub correct_same_time :
    ℕ → (ℕ → Ptr) → (ℕ → ℕ) → ℕ → Ptr → Ptr → (ℕ → Ptr) → Option (ℕ → Ptr)
correct_same_time zero next time t v p previous = none
correct_same_time (suc fuel) next time t v none previous = some previous
correct_same_time (suc fuel) next time t v (some e) previous =
    let rest = correct_same_time fuel next time t v (next e) (update previous e v) in
    if time e == t then rest else some previous

-- The loop that sets `previous` to `v` from `p` on, as far as it is null.
unfoldable pub correct_heads : ℕ → (ℕ → Ptr) → Ptr → Ptr → (ℕ → Ptr) → Option (ℕ → Ptr)
correct_heads zero next v p previous = none
correct_heads (suc fuel) next v none previous = some previous
correct_heads (suc fuel) next v (some e) previous =
    let rest = correct_heads fuel next v (next e) (update previous e v) in
    if is_null (previous e) then rest else some previous

-- The search of `enqueue`, from the tail on: the first event that is not later than `t`.
unfoldable pub search_back : ℕ → (ℕ → Ptr) → (ℕ → ℕ) → ℕ → Ptr → Option Ptr
search_back zero previous time t p = none
search_back (suc fuel) previous time t none = some none
search_back (suc fuel) previous time t (some e) =
    let rest = search_back fuel previous time t (previous e) in
    if ltb t (time e) then rest else some (some e)

-- The search of `dequeue`: the event `e`, if it is in the queue, and the one before it.
unfoldable pub find : ℕ → (ℕ → Ptr) → ℕ → Ptr → Ptr → Option (Ptr × Ptr)
find zero next e current previous = none
find (suc fuel) next e none previous = some (none, previous)
find (suc fuel) next e (some x) previous =
    let rest = find fuel next e (next x) (some x) in
    if e == x then some (some x, previous) else rest

-- The loop of `getNextStartTime`: the first event later than `now`.
unfoldable pub first_after : ℕ → (ℕ → Ptr) → (ℕ → ℕ) → ℕ → Ptr → Option Ptr
first_after zero next time now p = none
first_after (suc fuel) next time now none = some none
first_after (suc fuel) next time now (some e) =
    let rest = first_after fuel next time now (next e) in
    if leb (time e) now then rest else some (some e)

-- The loop of `dequeueAll`.
unfoldable pub unlink_all : ℕ → Ptr → Clock → Option Clock
unlink_all zero p c = none
unlink_all (suc fuel) none c = some c
unlink_all (suc fuel) (some e) c = unlink_all fuel (c.next e) (record c {
  queued = update c.queued e false;
  next = update c.next e none;
  previous = update c.previous e none;
})

-- `isEmtpy` of src/clock.cpp.
unfoldable pub is_empty : Clock → Bool
is_empty c = is_null c.queue_head

pending_at : ℕ → Clock → Ptr → Bool
pending_at now c none = false
pending_at now c (some h) = leb (c.next_activation h) now

-- `isPending`.
unfoldable pub is_pending : ℕ → Clock → Bool
unfolding pending_at
is_pending now c = pending_at now c c.queue_head

-- `getHeadTime`.
unfoldable pub get_head_time : Clock → ℕ
get_head_time c = elim c.queue_head [ none ↦ 0 | some h ↦ c.next_activation h ]

module _ (events : ℕ) where
  -- `enqueue`, where the search found no earlier event.
  unfoldable pub enqueue_first : ℕ → Clock → Option (Clock × Bool)
  enqueue_first e c = do
    previous ← correct_heads (suc events) c.next (some e) c.queue_head c.previous
    some (
      record c {
        previous = update previous e none;
        next = update c.next e c.queue_head;
        queue_head = some e;
        none_pending_head = if is_null c.none_pending_head then none else some e;
      },
      true,
    )

  end_at : ℕ → Clock → Ptr → Option Clock
  end_at e c none = some (record c { queue_tail = some e })
  end_at e c (some n) = do
    previous ←
        correct_same_time (suc events) c.next c.next_activation (c.next_activation n) (some e)
          (some n) c.previous
    some (record c { previous = previous })

  -- `enqueue`, behind the event `p`.
  unfoldable pub enqueue_behind : ℕ → ℕ → ℕ → Clock → Option (Clock × Bool)
  unfolding end_at
  enqueue_behind p now e c =
      let same = c.next_activation p == c.next_activation e in
      let next = update (update c.next e (c.next p)) p (some e) in
      let first = not same && leb (c.next_activation p) now in
      do
        c' ←
            end_at e
              (record c {
                previous = update c.previous e (if same then c.previous p else some p);
                next = next;
                none_pending_head =
                    if same_ptr (next e) c.none_pending_head then some e else c.none_pending_head;
              })
              (next e)
        some (c', first)

  enqueue_at : ℕ → ℕ → Clock → Ptr → Option (Clock × Bool)
  enqueue_at now e c none = enqueue_first e c
  enqueue_at now e c (some p) = enqueue_behind p now e c

  enqueue_from : ℕ → ℕ → Clock → Ptr → Option (Clock × Bool)
  enqueue_from now e c none = some (
    record c { previous = update c.previous e none; queue_head = some e; queue_tail = some e },
    true,
  )
  enqueue_from now e c (some h) = do
    p ← search_back (suc events) c.previous c.next_activation (c.next_activation e) c.queue_tail
    enqueue_at now e c p

  -- `enqueue` of src/clock.cpp, whose result is whether the event is the first one in the future.
  unfoldable pub enqueue : ℕ → ℕ → Clock → Option (Clock × Bool)
  unfolding enqueue_from enqueue_at
  enqueue now e c =
      enqueue_from now e (record c { queued = update c.queued e true; next = update c.next e none })
        c.queue_head

  put_head : ℕ → Clock → Clock
  put_head e c = record c {
    next = update c.next e c.queue_head;
    previous = update c.previous e none;
    queue_head = some e;
  }

  head_from : ℕ → Clock → Ptr → Option Clock
  head_from e c none = some (put_head e (record c { queue_tail = some e }))
  head_from e c (some h) =
      let t = c.next_activation h in
      let corrected =
        correct_same_time (suc events) c.next c.next_activation t (some e) (some h) c.previous in
      if ltb (c.next_activation e) t
      then (do previous ← corrected; some (put_head e (record c { previous = previous })))
      else some (put_head e c)

  -- `enqueueHead`.
  unfoldable pub enqueue_head : ℕ → Clock → Option Clock
  unfolding head_from put_head
  enqueue_head e c = head_from e c c.queue_head

  -- `startAt`.
  unfoldable pub start_at : ℕ → ℕ → ℕ → Clock → Option (Clock × Calls)
  start_at now e time c =
      let c' = record c { next_activation = update c.next_activation e time } in
      if c.queued e
      then some (c, record { signal = false; timer = none })
      else if ltb (signed now) (signed time)
      then (do
        (d, first) ← enqueue now e c'
        let timer = if first then some ((time + 2 ^ 64 - now) % 2 ^ 64) else none
        some (d, record { signal = false; timer = timer }))
      else (do d ← enqueue_head e c'; some (d, record { signal = true; timer = none }))

  -- `startIn`; where it calls `startAt`, the second reading of the clock is `later`.
  unfoldable pub start_in : ℕ → ℕ → ℕ → ℕ → Clock → Option (Clock × Calls)
  start_in now later e zero c =
      if c.queued e then some (c, record { signal = false; timer = none }) else (do
        d ← enqueue_head e (record c { next_activation = update c.next_activation e now })
        some (d, record { signal = true; timer = none }))
  start_in now later e (suc time) c = start_at later e ((now + suc time) % 2 ^ 64) c

-- The events in the queue of the clock, the first one to trigger first: the part of the invariant
-- that the operations which only remove events rely on.
pub record Holds (events : ℕ) (c : Clock) (xs : List ℕ) : Type 0 where
  pub chain : Chain c.next c.queue_head xs
  pub end : c.queue_tail ≡ last_ptr xs
  pub once : Distinct xs
  pub known : Below events xs
