-- ===== src/Clock/Pending.antt =====
-- Theorems on `readFirstPending` of src/clock.cpp: it hands out the events in their order.
use tasking_framework.Base.{
  ℕ, zero, suc, ◌≡◌, ◌≤◌, ◌<◌, refl, false, none, some, List, [], ◌∷◌, arith, Ptr, is_null,
  same_ptr, update, if◌then◌else◌, ◌==◌, inl, inr, Bool-cases, length, Chain, Chain-frame,
  Distinct-length-le, last_ptr,
}
use tasking_framework.Clock.{Clock, Holds, correct_same_time}
use tasking_framework.Clock.Remove.{read_first_pending}

-- The loop over the events of one time returns if the list ends.
pub correct-returns :
    (fuel : ℕ) (next : ℕ → Ptr) (time : ℕ → ℕ) (t : ℕ) (v p : Ptr) (previous : ℕ → Ptr)
    (xs : List ℕ)
    → Chain next p xs
    → length xs < fuel
    → (q : ℕ → Ptr) × (correct_same_time fuel next time t v p previous ≡ some q)
unfolding correct_same_time
correct-returns zero next time t v p previous xs c b = absurd (omega arith)
correct-returns (suc fuel) next time t v p previous [] c b = (previous, rw c refl)
correct-returns (suc fuel) next time t v p previous (x ∷ xs) c b = elim (Bool-cases (time x == t)) [
  | inl e ↦
      let (q, r) =
        correct-returns fuel next time t v (next x) (update previous x v) xs c.1 (omega arith) in
      (q, rw (c.0, e) r)
  | inr e ↦ (previous, rw (c.0, e) refl)
]

module _ (events : ℕ) where
  -- The queue without its first event `h`, which `n` follows.
  abbrev pub without_head : ℕ → Ptr → Ptr → (ℕ → Ptr) → Clock → Clock
  without_head h n tail previous c = record {
    queued = update c.queued h false;
    next_activation = c.next_activation;
    next = update c.next h none;
    previous = previous;
    queue_head = n;
    queue_tail = tail;
    none_pending_head = if same_ptr (some h) c.none_pending_head then n else c.none_pending_head;
  }

  pub without_head-Holds :
      (c : Clock) (x : ℕ) (xs : List ℕ) (tail : Ptr) (previous : ℕ → Ptr)
      → Holds events c (x ∷ xs)
      → tail ≡ last_ptr xs
      → Holds events (without_head x (c.next x) tail previous c) xs
  without_head-Holds c x xs tail previous h e = record {
    chain = Chain-frame c.next (c.next x) xs x none h.chain.1 h.once.0;
    end = e;
    once = h.once.1;
    known = h.known.1;
  }

  -- If the first event of the queue is due, `readFirstPending` returns it, takes it out of the
  -- queue, which keeps the others in their order, and marks it as not queued and as not linked.
  pub read_first_pending-cons :
      (now : ℕ) (c : Clock) (x : ℕ) (xs : List ℕ)
      → Holds events c (x ∷ xs)
      → c.next_activation x ≤ now
      → (c' : Clock) × (read_first_pending events now c ≡ some (c', some x))
        × Holds events c' xs
        × (c'.queued x ≡ false)
        × (c'.next x ≡ none)
  unfolding read_first_pending
  read_first_pending-cons now c x [] h due = (
    without_head x (c.next x) none c.previous c,
    ground (arith, h.chain.0, h.chain.1),
    without_head-Holds c x [] none c.previous h refl,
    ground arith,
    ground arith,
  )
  read_first_pending-cons now c x (y ∷ ys) h due = elim (Bool-cases (is_null (c.previous y))) [
    | inl e ↦ (
      without_head x (c.next x) c.queue_tail c.previous c,
      ground (arith, h.chain.0, h.chain.1),
      without_head-Holds c x (y ∷ ys) c.queue_tail c.previous h h.end,
      ground arith,
      ground arith,
    )
    | inr e ↦
        let (q, r) =
          correct-returns (suc events) (update c.next x none) c.next_activation
            (c.next_activation y) none (some y) c.previous (y ∷ ys)
            (refl, (Chain-frame c.next (c.next x) (y ∷ ys) x none h.chain.1 h.once.0).1)
            (omega (arith, Distinct-length-le events (x ∷ y ∷ ys) h.once h.known)) in
        (
          without_head x (c.next x) c.queue_tail q c,
          ground (arith, h.chain.0, h.chain.1, r),
          without_head-Holds c x (y ∷ ys) c.queue_tail q h h.end,
          ground arith,
          ground arith,
        )
  ]
