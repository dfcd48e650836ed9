-- ===== src/Tests/Policies.antt =====
-- The run queues of src/schedulePolicy*.cpp at concrete queues.
use tasking_framework.Base.{
  ℕ, ◌≡◌, ◌++◌, refl, true, false, none, some, List, [], ◌∷◌, arith, ◌==◌, if◌then◌else◌,
}
use tasking_framework.Policy.Runs.{Call, queues, takes, run}
use tasking_framework.Policy.Fifo as Fifo
use tasking_framework.Policy.Fifo.Again as Again
use tasking_framework.Policy.Lifo as Lifo
use tasking_framework.Policy.Lifo.Stack as Stack
use tasking_framework.Policy.Priority as Priority
use tasking_framework.Policy.Priority.Levels.{IsOrdered, level}
use tasking_framework.Policy.Priority.Order as PriorityOrder
use tasking_framework.Policy.PSlot as PSlot
use tasking_framework.Policy.PSlot.Queue as PSlotQueue
use tasking_framework.Policy.PSlot.Next as PSlotNext
use tasking_framework.Policy.Priority.Place.{place}
use tasking_framework.Policy.Agree.{run-agree}

-- Task 1 has priority 5, all others have priority 2.
abbrev priority : ℕ → ℕ
priority t = if t == 1 then 5 else 2

abbrev calls : List Call
calls = queues 0 ∷ queues 1 ∷ takes ∷ queues 2 ∷ takes ∷ takes ∷ takes ∷ []

-- Tasks 0 and 2 in the FIFO queue.
abbrev fifo_two : Fifo.Fifo
fifo_two = record { head = some 0; tail = some 2; next = λ t. if t == 0 then some 2 else none }

fifo_two-Holds : Fifo.Holds fifo_two (0 ∷ 2 ∷ [])
fifo_two-Holds = record { chain = (refl, (refl, refl)); end = refl; once = (refl, (refl, tt)) }

-- Task 0 is queued again, and task 2 is lost.
queue-again_example :
    (s : Fifo.Fifo) × (Fifo.queue 0 fifo_two ≡ some (s, false)) × Fifo.Holds s (0 ∷ [])
queue-again_example = Again.queue-again 0 2 fifo_two [] [] fifo_two-Holds

runs_unqueued_task_example :
    let two = (Lifo.next_task (Lifo.next_task (Lifo.queue 1 (Lifo.queue 0 Lifo.init).0).0).0).0 in
    let again = Lifo.next_task (Lifo.queue 1 two).0 in
    (Lifo.Holds two []) × (again.1 ≡ some 1) × ((Lifo.next_task again.0).1 ≡ some 0)
runs_unqueued_task_example = Stack.runs_unqueued_task 0 1 (omega arith)

abbrev priority_two : Priority.PriorityQueue
priority_two = record { head = some 0; next = λ t. if t == 0 then some 2 else none }

priority_two-Holds : Priority.Holds 3 priority_two (0 ∷ 2 ∷ [])
priority_two-Holds = record {
  chain = (refl, (refl, refl));
  once = (refl, (refl, tt));
  known = (omega arith, (omega arith, tt));
}

queue-levels_example :
    (s : Priority.PriorityQueue) × (ys : List ℕ) × (Priority.queue 3 priority 1 priority_two
      ≡ some (s, false))
    × Priority.Holds 3 s ys
    × IsOrdered priority ys
    × ((p : ℕ)
        → level priority p ys
          ≡ level priority p (0 ∷ 2 ∷ []) ++ (if priority 1 == p then 1 ∷ [] else []))
queue-levels_example =
    PriorityOrder.queue-levels 3 priority 1 priority_two (0 ∷ 2 ∷ []) priority_two-Holds
      ((omega arith, tt), (tt, tt)) (omega arith) refl

abbrev slot_one :
    (s : PSlot.PSlot) × (PSlot.queue 4 priority 0 (PSlot.init 4 priority) ≡ some (s, true))
    × PSlot.Holds 4 priority s (place (PSlot.slot 4 priority) 0 [])
slot_one =
    PSlotQueue.queue-Holds 4 priority (omega arith) (omega arith) 0 (PSlot.init 4 priority) []
      (PSlotNext.init-Holds 4 priority (omega arith) (omega arith)) refl

slot_queue-Holds_example :
    (s : PSlot.PSlot) × (PSlot.queue 4 priority 1 slot_one.0 ≡ some (s, false))
    × PSlot.Holds 4 priority s (place (PSlot.slot 4 priority) 1 (0 ∷ []))
unfolding place
slot_queue-Holds_example =
    PSlotQueue.queue-Holds 4 priority (omega arith) (omega arith) 1 slot_one.0 (0 ∷ []) slot_one.2
      refl

slot_next_task-cons_example :
    (s : PSlot.PSlot) × (PSlot.next_task 4 priority slot_one.0 ≡ some (s, some 0))
    × PSlot.Holds 4 priority s []
unfolding place
slot_next_task-cons_example =
    PSlotNext.next_task-cons 4 priority (omega arith) (omega arith) slot_one.0 0 [] slot_one.2

run-agree_example :
    run (PSlotNext.by_slot 6 priority (omega arith) (omega arith) 3) calls (PSlot.init 6 priority)
    ≡ run (PriorityOrder.by_priority 3 priority) calls Priority.init
unfolding place
run-agree_example =
    run-agree 3 6 priority (omega arith) (omega arith) calls (λ t. ground arith)
      (omega arith, refl, (omega arith, refl, (omega arith, refl, tt)))

-- The priority policy runs task 1 first, and the others in the order of arrival.
priority-run :
    run
      (PriorityOrder.by_priority 3 priority)
      (queues 0 ∷ queues 2 ∷ queues 1 ∷ takes ∷ takes ∷ [])
      Priority.init
    ≡ some (some 1 ∷ some 0 ∷ [])
unfolding run Priority.queue Priority.next_task Priority.init
priority-run = refl
