-- ===== src/Policy/PSlot.antt =====
-- src/schedulePolicyPSlot.cpp: a run queue with one FIFO for each priority slot.
-- `heads` and `tails` are the fields of the array `prioritySlots`, `next` the field of each task's
-- `ManagementData`. Access behind the end of the array, and through a null pointer, yields `none`.
pub mod Slots
pub mod Queue
pub mod Next
use tasking_framework.Base.{
  ℕ, zero, suc, ◌+◌, ◌-◌, ◌%◌, ◌^◌, ◌≡◌, ◌<◌, Bool, true, false, ◌&&◌, ◌||◌, Option, none, some,
  List, [], ◌∷◌, Ptr, is_null, update, ltb, leb, ◌==◌, if◌then◌else◌, Distinct, Below, Chain,
  last_ptr,
}
use tasking_framework.Policy.Priority.Levels.{IsOrdered, level}

pub record PSlot : Type 0 where
  pub heads : ℕ → Ptr
  pub tails : ℕ → Ptr
  pub next : ℕ → Ptr
  pub highest : ℕ

-- `slots` is `maxPrioritySlot`, and `priority` that of the task's settings.
module _ (slots : ℕ) (priority : ℕ → ℕ) where
  unfoldable pub init : PSlot
  init = record { heads = λ i. none; tails = λ i. none; next = λ t. none; highest = slots }

  -- The priority, limited to the highest slot; the subtraction is that of a 32-bit unsigned number.
  unfoldable pub slot : ℕ → ℕ
  slot t = if leb slots (priority t) then (slots + 2 ^ 32 - 1) % 2 ^ 32 else priority t

  link : ℕ → ℕ → PSlot → Ptr → Ptr → Option PSlot
  link t i s none tail = some (record s { heads = update s.heads i (some t) })
  link t i s (some h) none = none
  link t i s (some h) (some l) = some (record s { next = update s.next l (some t) })

  end_with : ℕ → ℕ → Bool → Option PSlot → Option (PSlot × Bool)
  end_with t i was_empty none = none
  end_with t i was_empty (some s) = some (record s { tails = update s.tails i (some t) }, was_empty)

  -- `queue` of src/schedulePolicyPSlot.cpp, whose result is whether all slots were empty.
  unfoldable pub queue : ℕ → PSlot → Option (PSlot × Bool)
  unfolding link end_with
  queue t s =
      let i = slot t in
      let was_empty = s.highest == slots in
      let s' = record s {
        next = update s.next t none;
        highest = if was_empty || ltb s.highest i then i else s.highest;
      } in
      if ltb i slots then end_with t i was_empty (link t i s' (s.heads i) (s.tails i)) else none

  -- The loop of `nextTask`: down to the next slot with a task, and to `slots` if there is none.
  pub down : (ℕ → Ptr) → ℕ → ℕ
  down heads zero = if ltb zero slots && is_null (heads zero) then slots else zero
  down heads (suc h) =
      let lower = down heads h in
      if ltb (suc h) slots && is_null (heads (suc h)) then lower else suc h

  take_head : PSlot → Ptr → Option (PSlot × Ptr)
  take_head s none = none
  take_head s (some h) =
      let s' = record s { heads = update s.heads s.highest (s.next h) } in
      some (
        if is_null (s.next h)
            then record s' {
              tails = update s.tails s.highest none;
              highest = down s'.heads s.highest;
            }
            else s',
        some h,
      )

  -- `nextTask` of src/schedulePolicyPSlot.cpp.
  unfoldable pub next_task : PSlot → Option (PSlot × Ptr)
  unfolding down take_head
  next_task s = if ltb s.highest slots then take_head s (s.heads s.highest) else some (s, none)

  -- The highest slot that holds a task of the list, which is in slot order.
  pub top : List ℕ → ℕ
  top [] = slots
  top (x ∷ xs) = slot x

  -- The tasks in the slots, the next one first.
  pub record Holds (s : PSlot) (xs : List ℕ) : Type 0 where
    pub heads : (i : ℕ) → i < slots → Chain s.next (s.heads i) (level slot i xs)
    pub tails : (i : ℕ) → i < slots → s.tails i ≡ last_ptr (level slot i xs)
    pub highest : s.highest ≡ top xs
    pub ordered : IsOrdered slot xs
    pub once : Distinct xs
