-- ===== src/Tests/Clocks.antt =====
-- A clock with events at the times 5 and 7, and runs of the queue.
use tasking_framework.Base.{
  ℕ, ◌≡◌, refl, true, false, none, some, [], ◌∷◌, arith, ◌==◌, if◌then◌else◌, Option, Ptr, ◌∈◌, ◌∉◌,
  ◌≤◌, ◌>>=◌, List,
}
use tasking_framework.Clock.{
  Clock, Calls, Holds, init, start_at, start_in, enqueue, search_back, enqueue_first, correct_heads,
  enqueue_behind, correct_same_time,
}
use tasking_framework.Clock.Remove.{read_first_pending, dequeue_all, get_next_start_time}
use tasking_framework.Clock.Empty.{dequeue_all-IsIdle, IsIdle, IsSame}
use tasking_framework.Clock.Twice.{start_in-twice}
use tasking_framework.Clock.Enqueue.{IsTimed}
use tasking_framework.Clock.Marked.{get_next_start_time-late}
use tasking_framework.Clock.Steps.{
  Call, Answer, start_now, dequeue, event, started, dequeued, on_queue, Implements,
}
use tasking_framework.Clock.Steps as Steps
use tasking_framework.Clock.Run.{run, run_queue, empty, run-run_queue}
use tasking_framework.Clock.NextStart.{get_next_start_time-first, IsMark, unmarked}

abbrev two_events : Clock
two_events = record {
  queued = λ e. if e == 2 then false else true;
  next_activation = λ e. if e == 0 then 5 else 7;
  next = λ e. if e == 0 then some 1 else none;
  previous = λ e. if e == 1 then some 0 else none;
  queue_head = some 0;
  queue_tail = some 1;
  none_pending_head = none;
}

two_events-Holds : Holds 3 two_events (0 ∷ 1 ∷ [])
two_events-Holds = record {
  chain = (refl, (refl, refl));
  end = refl;
  once = (refl, (refl, tt));
  known = (omega arith, (omega arith, tt));
}

dequeue_all-IsIdle_example :
    (d : Clock) × (dequeue_all 3 two_events ≡ some d)
    × Holds 3 d []
    × ((e : ℕ) → e ∈ (0 ∷ 1 ∷ []) → IsIdle d e)
    × ((e : ℕ) → e ∉ (0 ∷ 1 ∷ []) → IsSame two_events d e)
dequeue_all-IsIdle_example = dequeue_all-IsIdle 3 two_events (0 ∷ 1 ∷ []) two_events-Holds

start_in-twice_example :
    (c' d : Clock) × (start_in 3 4 4 2 0 two_events
      ≡ some (c', record { signal = true; timer = none }))
    × Holds 3 c' (2 ∷ 0 ∷ 1 ∷ [])
    × (start_in 3 4 4 2 0 c' ≡ some (d, record { signal = true; timer = none }))
    × (d.queue_head ≡ some 2)
    × (d.next 2 ≡ some 2)
start_in-twice_example =
    start_in-twice 3 4 4 4 4 2 two_events (0 ∷ 1 ∷ []) two_events-Holds (omega arith) refl refl

get_next_start_time-first_example :
    (d : Clock) × (get_next_start_time 3 6 two_events ≡ some (d, 7))
    × Holds 3 d (0 ∷ 1 ∷ [])
    × ((later : ℕ) → 6 ≤ later → IsMark d later (0 ∷ 1 ∷ []))
get_next_start_time-first_example =
    get_next_start_time-first 3 6 two_events (0 ∷ 1 ∷ []) two_events-Holds (unmarked refl)

two_events-IsTimed : IsTimed 3 4 two_events (0 ∷ 1 ∷ [])
two_events-IsTimed = record { holds = two_events-Holds; order = (refl, refl, (refl, refl, tt)) }

-- Event 0 is started for the time 5, event 1 and then event 2 for the time 9.
abbrev calls : List (ℕ × Call)
calls =
    (1, Steps.start_at 0 5)
    ∷ (1, Steps.start_at 1 9)
    ∷ (2, Steps.start_at 2 9)
    ∷ (6, Steps.read_first_pending)
    ∷ (7, start_now 0)
    ∷ (8, Steps.read_first_pending)
    ∷ (9, dequeue 1)
    ∷ (9, Steps.read_first_pending)
    ∷ []

init-Implements : Implements 3 0 init empty
unfolding init
init-Implements = record {
  timed = record { holds = record { chain = refl; end = refl; once = tt; known = tt }; order = tt };
  queued = refl;
  times = refl;
}

abbrev timer : Option ℕ → Answer
timer t = started (record { signal = false; timer = t })

run-run_queue_example :
    (d : Clock) × (run 3 calls init
      ≡ some (
        d,
        timer (some 4)
            ∷ timer none
            ∷ timer none
            ∷ event (some 0)
            ∷ started (record { signal = true; timer = none })
            ∷ event (some 0)
            ∷ dequeued
            ∷ event (some 2)
            ∷ [],
      ))
    × Implements 3 9 d (run_queue calls empty).0
unfolding run_queue on_queue
run-run_queue_example = run-run_queue 3 calls 0 init empty init-Implements (ground arith)

get_next_start_time-late_example :
    (c₁ c₂ c₃ : Clock) × (calls₁ calls₂ : Calls) × (start_at 3 1 0 10 init ≡ some (c₁, calls₁))
    × (start_at 3 1 1 20 c₁ ≡ some (c₂, calls₂))
    × (c₂.queue_head ≡ some 0)
    × (c₂.next_activation 0 ≡ 10)
    × (get_next_start_time 3 1 c₂ ≡ some (c₃, 20))
unfolding init
get_next_start_time-late_example =
    get_next_start_time-late 3 1 0 10 1 20 init refl refl refl refl refl (omega arith) (omega arith)
      (omega arith)

-- Three events started for the times 7, 5 and 7, and the first two taken out at the time 9.
abbrev order : Option (Ptr × Ptr × Ptr)
order = do
  (a, _) ← start_at 3 1 0 7 init
  (b, _) ← start_at 3 1 1 5 a
  (c, _) ← start_at 3 1 2 7 b
  (d, first) ← read_first_pending 3 9 c
  (e, second) ← read_first_pending 3 9 d
  some (first, second, e.queue_head)

order-run : order ≡ some (some 1, some 0, some 2)
unfolding start_at read_first_pending init enqueue search_back enqueue_first correct_heads
    enqueue_behind correct_same_time
order-run = refl
