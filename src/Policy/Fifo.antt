-- ===== src/Policy/Fifo.antt =====
-- src/schedulePolicyFifo.cpp: the run queue in order of arrival.
-- `next` is the field of each task's `ManagementData`. The mutex around each operation makes it one
-- step. Going through a null pointer yields `none`.
pub mod Order
pub mod Again
use tasking_framework.Base.{
  ℕ, ◌≡◌, Bool, true, false, Option, none, some, List, Ptr, is_null, update, if◌then◌else◌,
  Distinct, Chain, last_ptr,
}

pub record Fifo : Type 0 where
  pub head : Ptr
  pub tail : Ptr
  pub next : ℕ → Ptr

unfoldable pub init : Fifo
init = record { head = none; tail = none; next = λ t. none }

link_tail : Fifo → ℕ → Ptr → Option (Fifo × Bool)
link_tail s t none = none
link_tail s t (some l) = some (record s { next = update s.next l (some t); tail = some t }, false)

-- `queue` of src/schedulePolicyFifo.cpp, whose result is whether the queue was empty.
unfoldable pub queue : ℕ → Fifo → Option (Fifo × Bool)
unfolding link_tail
queue t s =
    let s' = record s { next = update s.next t none } in
    if is_null s'.head
    then some (record s' { head = some t; tail = some t }, true)
    else link_tail s' t s'.tail

-- `nextTask` of src/schedulePolicyFifo.cpp.
unfoldable pub next_task : Fifo → Option (Fifo × Ptr)
next_task s = elim s.head [
  | none ↦ some (s, none)
  | some h ↦
      let s' = record s { head = s.next h } in
      some (if is_null s'.head then record s' { tail = none } else s', some h)
]

-- The tasks in the queue, the next one first.
pub record Holds (s : Fifo) (xs : List ℕ) : Type 0 where
  pub chain : Chain s.next s.head xs
  pub end : s.tail ≡ last_ptr xs
  pub once : Distinct xs
