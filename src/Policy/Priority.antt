-- ===== src/Policy/Priority.antt =====
-- src/schedulePolicyPriority.cpp: the run queue ordered by priority.
-- `next` is the field of each task's `ManagementData`, `priority` that of its `settings`. The loop
-- of `queue` runs on fuel, one round for each task of the application and one more: the queue
-- holds a task at most once, so it has no more elements than that.
pub mod Place
pub mod Levels
pub mod Order
use tasking_framework.Base.{
  ℕ, zero, suc, ◌≡◌, ◌<◌, Bool, true, false, Option, none, some, List, [], ◌∷◌, Ptr, update, ltb,
  leb, if◌then◌else◌, Distinct, Below, Chain,
}

pub record PriorityQueue : Type 0 where
  pub head : Ptr
  pub next : ℕ → Ptr

unfoldable pub init : PriorityQueue
init = record { head = none; next = λ t. none }

-- `nextTask` of src/schedulePolicyPriority.cpp.
unfoldable pub next_task : PriorityQueue → Option (PriorityQueue × Ptr)
next_task s = elim s.head [
  | none ↦ some (s, none)
  | some h ↦ some (record s { head = s.next h }, some h)
]

module _ (tasks : ℕ) (priority : ℕ → ℕ) where
  -- The loop that searches the position: it goes on while the next task has the same priority or a
  -- higher one, and ends with the two tasks between which the new one goes.
  pub search : ℕ → (ℕ → Ptr) → ℕ → ℕ → Ptr → Option (ℕ × Ptr)
  search zero next p previous following = none
  search (suc fuel) next p previous none = some (previous, none)
  search (suc fuel) next p previous (some n) =
      let rest = search fuel next p n (next n) in
      if leb p (priority n) then rest else some (previous, some n)

  insert_between : ℕ → PriorityQueue → Option (ℕ × Ptr) → Option (PriorityQueue × Bool)
  insert_between t s none = none
  insert_between t s (some (previous, following)) =
      some (record s { next = update (update s.next t following) previous (some t) }, false)

  -- `queue` of src/schedulePolicyPriority.cpp, whose result is whether the queue was empty.
  unfoldable pub queue : ℕ → PriorityQueue → Option (PriorityQueue × Bool)
  unfolding insert_between search
  queue t s = elim s.head [
    | none ↦ some (record s { head = some t; next = update s.next t none }, true)
    | some h ↦
        if ltb (priority h) (priority t)
        then some (record s { head = some t; next = update s.next t s.head }, false)
        else insert_between t s (search (suc tasks) s.next (priority t) h (s.next h))
  ]

-- The tasks in the queue, the next one first.
pub record Holds (tasks : ℕ) (s : PriorityQueue) (xs : List ℕ) : Type 0 where
  pub chain : Chain s.next s.head xs
  pub once : Distinct xs
  pub known : Below tasks xs
