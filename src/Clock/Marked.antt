-- ===== src/Clock/Marked.antt =====
-- The mark of `getNextStartTime` of src/clock.cpp after two events are queued.
use tasking_framework.Base.{
  ℕ, ◌-◌, ◌^◌, ◌≡◌, ◌<◌, refl, true, false, none, some, arith, update, ◌==◌,
}
use tasking_framework.Clock.{
  Clock, Calls, start_at, enqueue, enqueue_behind, search_back, first_after,
}
use tasking_framework.Clock.Remove.{get_next_start_time}

module _ (events : ℕ) where
  -- A queue with `e` alone.
  abbrev with_one : ℕ → ℕ → Clock → Clock
  with_one e a c = record c {
    queued = update c.queued e true;
    next_activation = update c.next_activation e a;
    next = update c.next e none;
    previous = update c.previous e none;
    queue_head = some e;
    queue_tail = some e;
  }

  -- `f` behind it.
  abbrev with_two : ℕ → ℕ → ℕ → ℕ → Clock → Clock
  with_two e a f b c =
      let d = with_one e a c in
      record d {
        queued = update d.queued f true;
        next_activation = update d.next_activation f b;
        next = update (update (update d.next f none) f none) e (some f);
        previous = update d.previous f (some e);
        queue_tail = some f;
        none_pending_head = some f;
      }

  abbrev timer_only : ℕ → Calls
  timer_only t = record { signal = false; timer = some t }

  start_one :
      (now e a : ℕ) (c : Clock)
      → c.queue_head ≡ none
      → c.queued e ≡ false
      → now < a
      → a < 2 ^ 63
      → start_at events now e a c ≡ some (with_one e a c, timer_only (a - now))
  unfolding start_at enqueue
  start_one now e a c empty idle h k = ground (arith, empty, idle)

  start_two :
      (now e a f b : ℕ) (c : Clock)
      → c.none_pending_head ≡ none
      → c.queued f ≡ false
      → (e == f) ≡ false
      → now < a
      → a < b
      → b < 2 ^ 63
      → start_at events now f b (with_one e a c)
        ≡ some (with_two e a f b c, record { signal = false; timer = none })
  unfolding start_at enqueue search_back enqueue_behind
  start_two now e a f b c unmarked idle ne h lt k = ground (arith, unmarked, idle, ne)

  search_two :
      (now e a f b : ℕ) (c : Clock)
      → now < b
      → get_next_start_time events now (with_two e a f b c)
        ≡ some (record (with_two e a f b c) { none_pending_head = some f }, b)
  unfolding get_next_start_time first_after
  search_two now e a f b c h = ground arith

  -- In an empty queue without a mark, an event is started for the time `a` and another one for a
  -- later time `b`. The second one is marked, since it has no event behind it and there is no mark,
  -- and `getNextStartTime` returns `b` before the time `a` has come, and so misses the first event.
  pub get_next_start_time-late :
      (now e a f b : ℕ) (c : Clock)
      → c.queue_head ≡ none
      → c.none_pending_head ≡ none
      → c.queued e ≡ false
      → c.queued f ≡ false
      → (e == f) ≡ false
      → now < a
      → a < b
      → b < 2 ^ 63
      → (c₁ c₂ c₃ : Clock) × (calls₁ calls₂ : Calls) × (start_at events now e a c
          ≡ some (c₁, calls₁))
        × (start_at events now f b c₁ ≡ some (c₂, calls₂))
        × (c₂.queue_head ≡ some e)
        × (c₂.next_activation e ≡ a)
        × (get_next_start_time events now c₂ ≡ some (c₃, b))
  get_next_start_time-late now e a f b c empty unmarked idle idle' ne h lt k = (
    with_one e a c,
    with_two e a f b c,
    record (with_two e a f b c) { none_pending_head = some f },
    timer_only (a - now),
    record { signal = false; timer = none },
    start_one now e a c empty idle h (omega arith),
    start_two now e a f b c unmarked idle' ne h lt k,
    refl,
    ground (arith, ne),
    search_two now e a f b c (omega arith),
  )
