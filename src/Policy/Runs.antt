-- ===== src/Policy/Runs.antt =====
-- Any sequence of calls of a schedule policy, against the list that it stands for.
use tasking_framework.Base.{ℕ, ◌≡◌, ◌<◌, refl, ap, Option, none, some, List, [], ◌∷◌, Ptr, ◌∉◌}
use tasking_framework.Policy.Interface.{SchedulePolicy}

-- A call of `queue` with a task, or of `nextTask`.
pub data Call : Type 0 where
  queues : ℕ → Call
  takes : Call

-- What the calls of `nextTask` return.
abbrev pub Outputs : Type 0
Outputs = List Ptr

module _ (place : ℕ → List ℕ → List ℕ) where
  -- The run on lists.
  abbrev pub model : List Call → List ℕ → Outputs
  model [] xs = []
  model (queues t ∷ cs) xs = model cs (place t xs)
  model (takes ∷ cs) [] = none ∷ model cs []
  model (takes ∷ cs) (x ∷ xs) = some x ∷ model cs xs

  -- No task is queued that is in the queue: what the states of the tasks are for.
  abbrev pub Allowed : ℕ → List Call → List ℕ → Type 0
  Allowed tasks [] xs = Unit {0}
  Allowed tasks (queues t ∷ cs) xs = (t < tasks) × (t ∉ xs) × Allowed tasks cs (place t xs)
  Allowed tasks (takes ∷ cs) [] = Allowed tasks cs []
  Allowed tasks (takes ∷ cs) (x ∷ xs) = Allowed tasks cs xs

module _ (policy : SchedulePolicy) where
  open policy use {
    State, tasks, queue, next_task, Holds, place, queue-place, next_task-nil, next_task-cons,
  }

  abbrev emit : Ptr → Option Outputs → Option Outputs
  emit p none = none
  emit p (some out) = some (p ∷ out)

  -- The run on the states of the policy; `none` is an access through a null pointer.
  unfoldable pub run : List Call → State → Option Outputs
  run [] s = some []
  run (queues t ∷ cs) s = elim (queue t s) [ none ↦ none | some (s', _) ↦ run cs s' ]
  run (takes ∷ cs) s = elim (next_task s) [ none ↦ none | some (s', p) ↦ emit p (run cs s') ]

  -- A policy that holds a list answers any calls as the list does, as long as no task is queued
  -- that is in the queue, and follows no null pointer.
  pub run-model :
      (cs : List Call) (s : State) (xs : List ℕ)
      → Holds s xs
      → Allowed place tasks cs xs
      → run cs s ≡ some (model place cs xs)
  unfolding run
  run-model [] s xs h a = refl
  run-model (queues t ∷ cs) s xs h a =
      let (s', e, h') = queue-place t s xs h a.0 a.1 in
      rw (e, run) (run-model cs s' (place t xs) h' a.2)
  run-model (takes ∷ cs) s [] h a =
      let (s', e, h') = next_task-nil s h in rw (e, run) (ap (emit none) (run-model cs s' [] h' a))
  run-model (takes ∷ cs) s (x ∷ xs) h a =
      let (s', e, h') = next_task-cons s x xs h in
      rw (e, run) (ap (emit (some x)) (run-model cs s' xs h' a))
