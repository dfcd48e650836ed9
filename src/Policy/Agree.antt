-- ===== src/Policy/Agree.antt =====
-- The slot policy of src/schedulePolicyPSlot.cpp and the priority policy of
-- src/schedulePolicyPriority.cpp are two implementations of one order.
use mathlib.Core.Path.{fun_ext, subst}
use tasking_framework.Base.{ℕ, ◌^◌, ◌≡◌, ◌<◌, ◌∙◌, ap, some, sym, List, [], arith}
use tasking_framework.Policy.Runs.{Call, Allowed, model, run, run-model}
use tasking_framework.Policy.Priority.Place.{place}
use tasking_framework.Policy.Priority.Order.{by_priority}
use tasking_framework.Policy.Priority.Order as Priority
use tasking_framework.Policy.Priority as PriorityQueue
use tasking_framework.Policy.PSlot as PSlot
use tasking_framework.Policy.PSlot.{slot}
use tasking_framework.Policy.PSlot.Next.{by_slot, init-Holds}

slot-priority :
    (slots : ℕ) (priority : ℕ → ℕ) → ((t : ℕ) → priority t < slots) → slot slots priority ≡ priority
unfolding slot
slot-priority slots priority h = fun_ext λ t. ground (arith, h t)

-- Where all priorities lie below the number of slots, the two policies return the same tasks for any
-- calls that queue no task twice, from the empty queue on.
pub run-agree :
    (tasks slots : ℕ) (priority : ℕ → ℕ) (small : slots < 2 ^ 32) (pos : 0 < slots) (cs : List Call)
    → ((t : ℕ) → priority t < slots)
    → Allowed (place priority) tasks cs []
    → run (by_slot slots priority small pos tasks) cs (PSlot.init slots priority)
      ≡ run (by_priority tasks priority) cs PriorityQueue.init
run-agree tasks slots priority small pos cs h a =
    let same = slot-priority slots priority h in
    let a' = subst (λ f. Allowed (place f) tasks cs []) (sym same) a in
    run-model (by_slot slots priority small pos tasks) cs (PSlot.init slots priority) []
      (init-Holds slots priority small pos) a'
    ∙ ap (λ f. some (model (place f) cs [])) same
    ∙ sym (
        run-model (by_priority tasks priority) cs PriorityQueue.init []
          (Priority.init-Holds tasks priority) a)
