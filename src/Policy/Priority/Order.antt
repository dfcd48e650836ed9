-- ===== src/Policy/Priority/Order.antt =====
-- The priority policy of src/schedulePolicyPriority.cpp: highest priority first, and first come
-- first served among equals.
use tasking_framework.Base.{
  ℕ, suc, ◌≡◌, ◌<◌, refl, inl, inr, true, false, Bool-cases, none, some, List, [], ◌∷◌, ◌++◌, arith,
  ltb, ◌==◌, if◌then◌else◌, update, ◌∉◌, Distinct-length-le, is_empty, Chain, Chain-frame,
}
use tasking_framework.Policy.Interface.{SchedulePolicy}
use tasking_framework.Policy.Priority.{PriorityQueue, Holds, init, queue, next_task}
use tasking_framework.Policy.Priority.Place.{
  place, has-place, place-Distinct, place-Below, search-Found,
}
use tasking_framework.Policy.Priority.Levels.{IsOrdered, level, place-IsOrdered, level-place}

module _ (tasks : ℕ) (priority : ℕ → ℕ) where
  queue-head :
      (t x : ℕ) (s : PriorityQueue) (xs : List ℕ)
      → Holds tasks s (x ∷ xs)
      → t ∉ (x ∷ xs)
      → ltb (priority x) (priority t) ≡ true
      → (s' : PriorityQueue) × (queue tasks priority t s ≡ some (s', false))
        × Chain s'.next s'.head (t ∷ x ∷ xs)
  unfolding queue
  queue-head t x s xs h out higher = (
    record { head = some t; next = update s.next t (some x) },
    rw (h.chain.0, queue) (rw (higher, h.chain.0) refl),
    (
      refl,
      (ground arith, (Chain-frame s.next (some x) (x ∷ xs) t (some x) (refl, h.chain.1) out).1),
    ),
  )

  queue-inside :
      (t x : ℕ) (s : PriorityQueue) (xs : List ℕ)
      → Holds tasks s (x ∷ xs)
      → t ∉ (x ∷ xs)
      → ltb (priority x) (priority t) ≡ false
      → (s' : PriorityQueue) × (queue tasks priority t s ≡ some (s', false))
        × Chain s'.next s'.head (x ∷ place priority t xs)
  unfolding queue
  queue-inside t x s xs h out lower =
      let bound = Distinct-length-le tasks (x ∷ xs) h.once h.known in
      let found =
        search-Found tasks priority s.next t x xs (suc tasks) h.chain.1 h.once out (omega arith) in
      (
        record {
          head = some x;
          next = update (update s.next t found.following) found.previous (some t);
        },
        rw (h.chain.0, queue) (rw lower (rw found.result (ground arith))),
        found.chain,
      )

  -- Queueing a task that is not in the queue puts it behind all of the same or a higher priority,
  -- and says whether the queue was empty.
  pub queue-Holds :
      (t : ℕ) (s : PriorityQueue) (xs : List ℕ)
      → Holds tasks s xs
      → t < tasks
      → t ∉ xs
      → (s' : PriorityQueue) × (queue tasks priority t s ≡ some (s', is_empty xs))
        × Holds tasks s' (place priority t xs)
  unfolding queue place
  queue-Holds t s [] h b out = (
    record { head = some t; next = update s.next t none },
    ground arith,
    record { chain = (refl, ground arith); once = (refl, tt); known = (b, tt) },
  )
  queue-Holds t s (x ∷ xs) h b out =
      let once = place-Distinct priority t (x ∷ xs) h.once out in
      let known = place-Below priority tasks t (x ∷ xs) h.known b in
      elim (Bool-cases (ltb (priority x) (priority t))) [
        | inl higher ↦
            let (s', e, c) = queue-head t x s xs h out higher in
            (s', e, record { chain = rw higher c; once = once; known = known })
        | inr lower ↦
            let (s', e, c) = queue-inside t x s xs h out lower in
            (s', e, record { chain = rw lower c; once = once; known = known })
      ]

  pub next_task-nil :
      (s : PriorityQueue)
      → Holds tasks s []
      → (s' : PriorityQueue) × (next_task s ≡ some (s', none)) × Holds tasks s' []
  unfolding next_task
  next_task-nil s h = (s, ground arith, h)

  pub next_task-cons :
      (s : PriorityQueue) (x : ℕ) (xs : List ℕ)
      → Holds tasks s (x ∷ xs)
      → (s' : PriorityQueue) × (next_task s ≡ some (s', some x)) × Holds tasks s' xs
  unfolding next_task
  next_task-cons s x xs h = (
    record { head = s.next x; next = s.next },
    ground arith,
    record { chain = h.chain.1; once = h.once.1; known = h.known.1 },
  )

  -- The priority policy is a schedule policy that places a task by sorted insertion.
  abbrev pub by_priority : SchedulePolicy
  by_priority = record {
    State = PriorityQueue;
    tasks = tasks;
    queue = queue tasks priority;
    next_task = next_task;
    Holds = Holds tasks;
    place = place priority;
    has-place = has-place priority;
    Holds-Distinct = λ s xs h. h.once;
    queue-place = queue-Holds;
    next_task-nil = next_task-nil;
    next_task-cons = next_task-cons;
  }

  -- A queue in priority order stays so when a task that is not in it is queued, and in each level
  -- of priority the new task comes last: equal priorities are served in order of arrival.
  pub queue-levels :
      (t : ℕ) (s : PriorityQueue) (xs : List ℕ)
      → Holds tasks s xs
      → IsOrdered priority xs
      → t < tasks
      → t ∉ xs
      → (s' : PriorityQueue) × (ys : List ℕ) × (queue tasks priority t s ≡ some (s', is_empty xs))
        × Holds tasks s' ys
        × IsOrdered priority ys
        × ((p : ℕ)
            → level priority p ys ≡ level priority p xs ++ (if priority t == p then t ∷ [] else []))
  queue-levels t s xs h o b out =
      let (s', e, h') = queue-Holds t s xs h b out in
      (
        s',
        place priority t xs,
        e,
        h',
        place-IsOrdered priority t xs o,
        λ p. level-place priority t p xs o,
      )

  pub init-Holds : Holds tasks init []
  unfolding init
  init-Holds = record { chain = refl; once = tt; known = tt }
