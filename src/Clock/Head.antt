-- ===== src/Clock/Head.antt =====
-- Theorems on `enqueueHead` of src/clock.cpp, which queues an event that starts at once.
use tasking_framework.Base.{
  ℕ, suc, ◌≡◌, ◌<◌, refl, none, some, List, [], ◌∷◌, arith, Ptr, update, ltb, inl, inr, Bool-cases,
  ◌∉◌, Chain-frame, Distinct-length-le,
}
use tasking_framework.Clock.{Clock, Holds, enqueue_head}
use tasking_framework.Clock.Pending.{correct-returns}

module _ (events : ℕ) where
  -- The queue with the event `e` put in front.
  abbrev pub in_front : ℕ → Ptr → (ℕ → Ptr) → Clock → Clock
  in_front e tail previous c = record c {
    next = update c.next e c.queue_head;
    previous = update previous e none;
    queue_head = some e;
    queue_tail = tail;
  }

  pub in_front-Holds :
      (e : ℕ) (c : Clock) (x : ℕ) (xs : List ℕ) (previous : ℕ → Ptr)
      → Holds events c (x ∷ xs)
      → e < events
      → e ∉ (x ∷ xs)
      → Holds events (in_front e c.queue_tail previous c) (e ∷ x ∷ xs)
  in_front-Holds e c x xs previous h small out = record {
    chain = (
      refl,
      (
        ground (arith, h.chain.0),
        (Chain-frame c.next c.queue_head (x ∷ xs) e c.queue_head h.chain out).1,
      ),
    );
    end = h.end;
    once = (out, h.once);
    known = (small, h.known);
  }

  -- `enqueueHead` returns for an event that is not in the queue, and puts it in front of the others,
  -- whatever its time; it does not mark the event as queued.
  pub enqueue_head-cons :
      (e : ℕ) (c : Clock) (xs : List ℕ)
      → Holds events c xs
      → e < events
      → e ∉ xs
      → (d : Clock) × (enqueue_head events e c ≡ some d)
        × Holds events d (e ∷ xs)
        × (d.queued ≡ c.queued)
  unfolding enqueue_head
  enqueue_head-cons e c [] h small out = (
    in_front e (some e) c.previous c,
    rw h.chain refl,
    record {
      chain = (refl, ground (arith, h.chain));
      end = refl;
      once = (refl, tt);
      known = (small, tt);
    },
    refl,
  )
  enqueue_head-cons e c (x ∷ xs) h small out =
      let (q, r) =
        correct-returns (suc events) c.next c.next_activation (c.next_activation x) (some e)
          (some x) c.previous (x ∷ xs) (refl, h.chain.1)
          (omega (arith, Distinct-length-le events (x ∷ xs) h.once h.known)) in
      elim (Bool-cases (ltb (c.next_activation e) (c.next_activation x))) [
        | inl earlier ↦ (
          in_front e c.queue_tail q c,
          ground (arith, h.chain.0, r),
          in_front-Holds e c x xs q h small out,
          refl,
        )
        | inr later ↦ (
          in_front e c.queue_tail c.previous c,
          ground (arith, h.chain.0),
          in_front-Holds e c x xs c.previous h small out,
          refl,
        )
      ]
