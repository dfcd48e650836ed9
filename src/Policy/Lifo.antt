-- ===== src/Policy/Lifo.antt =====
-- src/schedulePolicyLifo.cpp: the run queue that serves the last task first.
-- `next` is the field of each task's `ManagementData`.
pub mod Stack
use tasking_framework.Base.{
  ℕ, ◌≡◌, Bool, true, false, Option, none, some, List, Ptr, is_null, update, if◌then◌else◌,
  Distinct, Chain,
}

pub record Lifo : Type 0 where
  pub head : Ptr
  pub next : ℕ → Ptr

unfoldable pub init : Lifo
init = record { head = none; next = λ t. none }

-- `queue` of src/schedulePolicyLifo.cpp, whose result is whether the queue was empty.
unfoldable pub queue : ℕ → Lifo → Lifo × Bool
queue t s =
    let linked = if is_null s.head then s else record s { next = update s.next t s.head } in
    (record linked { head = some t }, is_null s.head)

-- `nextTask` of src/schedulePolicyLifo.cpp.
unfoldable pub next_task : Lifo → Lifo × Ptr
next_task s = elim s.head [ none ↦ (s, none) | some h ↦ (record s { head = s.next h }, some h) ]

-- The tasks in the queue, the next one first.
pub record Holds (s : Lifo) (xs : List ℕ) : Type 0 where
  pub chain : Chain s.next s.head xs
  pub once : Distinct xs
