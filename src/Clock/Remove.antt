-- ===== src/Clock/Remove.antt =====
-- The operations of src/clock.cpp that take events out of the queue, and `getNextStartTime`.
use tasking_framework.Base.{
  ℕ, suc, false, Option, none, some, Ptr, same_ptr, is_null, update, leb, ◌==◌, if◌then◌else◌,
  ◌>>=◌,
}
use tasking_framework.Clock.{Clock, correct_same_time, find, first_after, unlink_all}

module _ (events : ℕ) where
  -- `dequeueAll`.
  unfoldable pub dequeue_all : Clock → Option Clock
  dequeue_all c = do
    d ← unlink_all (suc events) c.queue_head (record c { none_pending_head = none })
    some (record d { queue_head = none; queue_tail = none })

  -- The tail is taken out: `previous` is the event before it.
  unfoldable pub cut_tail : ℕ → Ptr → Clock → Option Clock
  cut_tail x previous c =
      if same_ptr (some x) c.queue_head
      then some (record c { queue_head = none; queue_tail = none })
      else (do p ← previous; some (record c { queue_tail = some p; next = update c.next p none }))

  unfoldable pub correct_after : ℕ → ℕ → Ptr → Clock → Option Clock
  correct_after x n previous c =
      let t = c.next_activation n in
      let corrected =
        correct_same_time (suc events) c.next c.next_activation t previous (some n) c.previous in
      if c.next_activation x == t
      then some c
      else (do p ← corrected; some (record c { previous = p }))

  -- An event is taken out that is not the tail.
  unfoldable pub cut_inside : ℕ → Ptr → Clock → Option Clock
  cut_inside x previous c = do
    n ← c.next x
    if same_ptr (some x) c.queue_head
        then correct_after x n previous (record c { queue_head = some n })
        else (do
          p ← previous
          correct_after x n previous (record c { next = update c.next p (some n) }))

  unfoldable pub cut : Ptr → Ptr → Clock → Option Clock
  cut none previous c = some c
  cut (some x) previous c =
      if same_ptr (some x) c.queue_tail then cut_tail x previous c else cut_inside x previous c

  -- The mark of `getNextStartTime` moves on from an event that is taken out.
  unfoldable pub unmark : ℕ → Clock → Clock
  unmark e c = record c {
    none_pending_head =
        if same_ptr (some e) c.none_pending_head then c.next e else c.none_pending_head;
  }

  unfoldable pub detach : ℕ → Clock → Clock
  detach e c = record c {
    queued = update c.queued e false;
    next = update c.next e none;
    previous = update c.previous e none;
  }

  -- `dequeue`.
  unfoldable pub dequeue : ℕ → Clock → Option Clock
  dequeue e c = do
    (x, previous) ← find (suc events) c.next e c.queue_head none
    d ← cut x previous (unmark e c)
    some (detach e d)

  pull_head : ℕ → Clock → Clock
  pull_head h c = record c {
    none_pending_head =
        if same_ptr (some h) c.none_pending_head then c.next h else c.none_pending_head;
    queue_head = c.next h;
    queued = update c.queued h false;
    next = update c.next h none;
  }

  new_head : Clock → Ptr → Option Clock
  new_head c none = some (record c { queue_tail = none })
  new_head c (some n) =
      let corrected =
        correct_same_time (suc events) c.next c.next_activation (c.next_activation n) none (some n)
          c.previous in
      if is_null (c.previous n)
      then some c
      else (do p ← corrected; some (record c { previous = p }))

  read_head : ℕ → Clock → Option (Clock × Ptr)
  read_head h c = do d ← new_head (pull_head h c) (c.next h); some (d, some h)

  read_at : ℕ → Clock → Ptr → Option (Clock × Ptr)
  read_at now c none = some (c, none)
  read_at now c (some h) = if leb (c.next_activation h) now then read_head h c else some (c, none)

  -- `readFirstPending`.
  unfoldable pub read_first_pending : ℕ → Clock → Option (Clock × Ptr)
  unfolding read_at read_head pull_head new_head
  read_first_pending now c = read_at now c c.queue_head

  time_of : Clock → Ptr → ℕ
  time_of c none = 0
  time_of c (some e) = c.next_activation e

  -- `getNextStartTime`, whose time is 0 if no event lies in the future.
  unfoldable pub get_next_start_time : ℕ → Clock → Option (Clock × ℕ)
  unfolding time_of
  get_next_start_time now c = do
    let from = if is_null c.none_pending_head then c.queue_head else c.none_pending_head
    e ← first_after (suc events) c.next c.next_activation now from
    some (record c { none_pending_head = e }, time_of c e)
