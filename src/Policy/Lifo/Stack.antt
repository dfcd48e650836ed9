-- ===== src/Policy/Lifo/Stack.antt =====
-- The LIFO policy of src/schedulePolicyLifo.cpp: a stack, as long as no stale link is left.
use tasking_framework.Base.{
  ℕ, ◌≡◌, ◌≢◌, refl, ◌⊎◌, none, some, List, [], ◌∷◌, arith, Ptr, false, update, ◌∉◌, is_empty,
  Chain-frame,
}
use tasking_framework.Policy.Lifo.{Lifo, Holds, init, queue, next_task}

-- What a run of `queue` needs to know of the links: the queue is not empty, or the task's own link
-- is null.
abbrev pub IsClean : Lifo → ℕ → List ℕ → Type 0
IsClean s t xs = (xs ≢ []) ⊎ (s.next t ≡ none)

update_self : (f : ℕ → Ptr) (k : ℕ) (v : Ptr) → update f k v k ≡ v
update_self f k v = ground arith

pushed : Lifo → ℕ → Lifo
pushed s t = record { head = some t; next = update s.next t s.head }

queue-pushed : (t x : ℕ) (s : Lifo) → s.head ≡ some x → queue t s ≡ (pushed s t, false)
unfolding queue pushed
queue-pushed t x s e = ground arith

popped : Lifo → ℕ → Lifo
popped s x = record { head = s.next x; next = s.next }

next_task-popped : (x : ℕ) (s : Lifo) → s.head ≡ some x → next_task s ≡ (popped s x, some x)
unfolding next_task popped
next_task-popped x s e = ground arith

queue-cons_full :
    (t x : ℕ) (s : Lifo) (xs : List ℕ)
    → Holds s (x ∷ xs)
    → t ∉ (x ∷ xs)
    → Holds (queue t s).0 (t ∷ x ∷ xs) × ((queue t s).1 ≡ false)
unfolding pushed
queue-cons_full t x s xs h out =
    let framed = Chain-frame s.next s.head (x ∷ xs) t s.head h.chain out in
    rw (queue-pushed t x s h.chain.0) (
      record { chain = (refl, rw (update_self s.next t s.head) framed); once = (out, h.once) },
      refl,
    )

-- Queueing a task that is not in the queue puts it in front of the others, and says whether there
-- were none, provided that the queue is not empty or the link of the task is null.
pub queue-cons :
    (t : ℕ) (s : Lifo) (xs : List ℕ)
    → Holds s xs
    → t ∉ xs
    → IsClean s t xs
    → Holds (queue t s).0 (t ∷ xs) × ((queue t s).1 ≡ is_empty xs)
unfolding queue
queue-cons t s [] h out clean =
    (record { chain = (refl, ground arith); once = (refl, tt) }, ground arith)
queue-cons t s (x ∷ xs) h out clean = queue-cons_full t x s xs h out

-- Taking the next task takes the first one, and leaves the rest.
pub next_task-pop :
    (s : Lifo) (x : ℕ) (xs : List ℕ)
    → Holds s (x ∷ xs)
    → ((next_task s).1 ≡ some x) × Holds (next_task s).0 xs
unfolding popped
next_task-pop s x xs h =
    rw (next_task-popped x s h.chain.0) (refl, record { chain = h.chain.1; once = h.once.1 })

-- A queue that holds nothing, and a task whose link is stale: after the task is queued, the next
-- two tasks taken are that task and the one behind the stale link, which nobody has queued.
pub stale_link :
    (s : Lifo) (t u : ℕ)
    → Holds s []
    → s.next t ≡ some u
    → let one = next_task (queue t s).0 in (one.1 ≡ some t) × ((next_task one.0).1 ≡ some u)
unfolding queue next_task
stale_link s t u h e = (ground arith, ground arith)

-- Two tasks queued and run leave the second with a stale link, so that queueing it once more runs
-- the first again.
pub runs_unqueued_task :
    (a b : ℕ)
    → a ≢ b
    → let two = (next_task (next_task (queue b (queue a init).0).0).0).0 in
      let again = next_task (queue b two).0 in
      (Holds two []) × (again.1 ≡ some b) × ((next_task again.0).1 ≡ some a)
unfolding init queue next_task
runs_unqueued_task a b ne = (record { chain = ground arith; once = tt }, ground arith, ground arith)
