-- ===== src/Policy/Interface.antt =====
-- include/schedulePolicy.h: the interface class `SchedulePolicy`.
-- `queue` and `next_task` yield `none` where the code would go through a null pointer.
use tasking_framework.Base.{
  ℕ, ◌<◌, ◌≡◌, ◌||◌, Bool, Option, none, some, List, [], ◌∷◌, Ptr, ◌==◌, has, ◌∉◌, Distinct,
  is_empty,
}

pub record SchedulePolicy : Type 1 where
  pub State : Type 0
  -- Tasks have numbers below this one.
  pub tasks : ℕ
  pub queue : ℕ → State → Option (State × Bool)
  pub next_task : State → Option (State × Ptr)
  -- The state holds these tasks, in the order in which they will run.
  pub Holds : State → List ℕ → Type 0
  -- Where a new task goes.
  pub place : ℕ → List ℕ → List ℕ
  pub has-place : (a t : ℕ) (xs : List ℕ) → has a (place t xs) ≡ ((a == t) || has a xs)
  pub Holds-Distinct : (s : State) (xs : List ℕ) → Holds s xs → Distinct xs
  pub queue-place :
      (t : ℕ) (s : State) (xs : List ℕ)
      → Holds s xs
      → t < tasks
      → t ∉ xs
      → (s' : State) × (queue t s ≡ some (s', is_empty xs)) × Holds s' (place t xs)
  pub next_task-nil :
      (s : State) → Holds s [] → (s' : State) × (next_task s ≡ some (s', none)) × Holds s' []
  pub next_task-cons :
      (s : State) (x : ℕ) (xs : List ℕ)
      → Holds s (x ∷ xs)
      → (s' : State) × (next_task s ≡ some (s', some x)) × Holds s' xs
