-- ===== src/Policy/Fifo/Order.antt =====
-- The FIFO policy of src/schedulePolicyFifo.cpp runs tasks in the order in which they were queued.
use tasking_framework.Base.{
  ℕ, ◌≡◌, refl, sym, none, some, List, [], ◌∷◌, ◌++◌, arith, Ptr, is_null, if◌then◌else◌, update,
  ◌∉◌, Distinct-snoc, is_empty, Chain-frame, Chain-snoc, last_ptr, last-cons, last-snoc, has,
  has-append, ◌||◌, ◌==◌,
}
use tasking_framework.Policy.Interface.{SchedulePolicy}
use tasking_framework.Policy.Fifo.{Fifo, Holds, init, queue, next_task}

-- Queueing a task that is not in the run queue returns, puts the task behind all others, and tells
-- that the run queue was empty exactly if it was.
pub queue-snoc :
    (t : ℕ) (s : Fifo) (xs : List ℕ)
    → Holds s xs
    → t ∉ xs
    → (s' : Fifo) × (queue t s ≡ some (s', is_empty xs)) × Holds s' (xs ++ t ∷ [])
unfolding queue
queue-snoc t s [] h out = (
  record { head = some t; tail = some t; next = update s.next t none },
  rw h.chain refl,
  record { chain = (refl, ground arith); end = refl; once = (refl, tt) },
)
queue-snoc t s (x ∷ xs) h out =
    let (l, e) = last-cons x xs in
    let cleared = Chain-frame s.next s.head (x ∷ xs) t none h.chain out in
    (
      record { head = s.head; tail = some t; next = update (update s.next t none) l (some t) },
      rw (h.chain.0, h.end, e) refl,
      record {
        chain =
            Chain-snoc (update s.next t none) s.head x xs l t cleared h.once out e (ground arith);
        end = sym (last-snoc x xs t);
        once = Distinct-snoc t (x ∷ xs) h.once out;
      },
    )

pub next_task-nil :
    (s : Fifo) → Holds s [] → (s' : Fifo) × (next_task s ≡ some (s', none)) × Holds s' []
unfolding next_task
next_task-nil s h = (s, rw h.chain refl, h)

tail_after : Fifo → ℕ → Ptr
tail_after s x = if is_null (s.next x) then none else s.tail

tail_after-last : (s : Fifo) (x : ℕ) (xs : List ℕ) → Holds s (x ∷ xs) → tail_after s x ≡ last_ptr xs
unfolding tail_after
tail_after-last s x [] h = rw h.chain.1 refl
tail_after-last s x (y ∷ xs) h = rw h.chain.1.0 h.end

-- Taking a task from a run queue that is not empty returns, hands out the first task and leaves the
-- others in their order.
pub next_task-uncons :
    (s : Fifo) (x : ℕ) (xs : List ℕ)
    → Holds s (x ∷ xs)
    → (s' : Fifo) × (next_task s ≡ some (s', some x)) × Holds s' xs
unfolding next_task tail_after
next_task-uncons s x xs h = (
  record { head = s.next x; tail = tail_after s x; next = s.next },
  ground arith,
  record { chain = h.chain.1; end = tail_after-last s x xs h; once = h.once.1 },
)

pub has-snoc : (a t : ℕ) (xs : List ℕ) → has a (xs ++ t ∷ []) ≡ ((a == t) || has a xs)
has-snoc a t xs = ground (arith, has-append a xs (t ∷ []))

-- The FIFO policy is a schedule policy that places a task behind all others.
abbrev pub fifo : ℕ → SchedulePolicy
fifo tasks = record {
  State = Fifo;
  tasks = tasks;
  queue = queue;
  next_task = next_task;
  Holds = Holds;
  place = λ t xs. xs ++ t ∷ [];
  has-place = has-snoc;
  Holds-Distinct = λ s xs h. h.once;
  queue-place = λ t s xs h _ out. queue-snoc t s xs h out;
  next_task-nil = next_task-nil;
  next_task-cons = next_task-uncons;
}

pub init-Holds : Holds init []
unfolding init
init-Holds = record { chain = refl; end = refl; once = tt }
