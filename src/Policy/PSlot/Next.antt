-- ===== src/Policy/PSlot/Next.antt =====
-- `nextTask` of src/schedulePolicyPSlot.cpp takes the first task of the highest slot that has one.
use tasking_framework.Base.{
  ℕ, ◌^◌, ◌≡◌, ◌<◌, ◌∙◌, refl, sym, ap, true, false, none, some, List, [], ◌∷◌, arith, Ptr, is_null,
  ltb, ◌==◌, update, is_empty, Chain, last_ptr, at_each, update_ne, update_self,
}
use tasking_framework.Policy.Interface.{SchedulePolicy}
use tasking_framework.Policy.Priority.Levels.{level}
use tasking_framework.Policy.Priority.Place.{place, has-place}
use tasking_framework.Policy.PSlot.{
  PSlot, Holds, init, slot, queue, next_task, take_head, down, top,
}
use tasking_framework.Policy.PSlot.Slots.{slot-lt, top-level, down-top}
use tasking_framework.Policy.PSlot.Queue.{queue-Holds}

is_null-Chain : (next : ℕ → Ptr) (p : Ptr) (xs : List ℕ) → Chain next p xs → is_null p ≡ is_empty xs
is_null-Chain next p [] c = rw c refl
is_null-Chain next p (x ∷ xs) c = rw c.0 refl

level-cons : (f : ℕ → ℕ) (x : ℕ) (xs : List ℕ) → level f (f x) (x ∷ xs) ≡ x ∷ level f (f x) xs
level-cons f x xs = ground arith

level-cons_other :
    (f : ℕ → ℕ) (i x : ℕ) (xs : List ℕ) → (f x == i) ≡ false → level f i (x ∷ xs) ≡ level f i xs
level-cons_other f i x xs e = ground arith

module _ (slots : ℕ) (priority : ℕ → ℕ) (small : slots < 2 ^ 32) (pos : 0 < slots) where
  pub next_task-nil :
      (s : PSlot)
      → Holds slots priority s []
      → (s' : PSlot) × (next_task slots priority s ≡ some (s', none)) × Holds slots priority s' []
  unfolding next_task top
  next_task-nil s h = (s, ground (arith, h.highest), h)

  module _ (s : PSlot) (x : ℕ) (xs : List ℕ) (h : Holds slots priority s (x ∷ xs)) where
    f : ℕ → ℕ
    f = slot slots priority

    my-Chain : Chain s.next (s.heads (f x)) (x ∷ level f (f x) xs)
    unfolding f
    my-Chain = rw (level-cons f x xs) at (h.heads (f x) (slot-lt slots priority x pos small))

    heads' : ℕ → Ptr
    heads' = update s.heads (f x) (s.next x)

    heads'-Chain : (i : ℕ) → i < slots → Chain s.next (heads' i) (level f i xs)
    unfolding heads' f
    heads'-Chain =
        at_each (λ i. Chain s.next (heads' i) (level f i xs)) (f x) slots
          (rw (update_self s.heads (f x) (s.next x)) my-Chain.1)
          (λ i b ne.
            rw (update_ne s.heads (f x) (s.next x) i ne)
              (rw (level-cons_other f i x xs ne) at (h.heads i b)))

    -- The slot `k` has another task.
    more_at : ℕ → PSlot
    more_at k = record s { heads = update s.heads k (s.next x) }

    -- The slot `k` is empty now.
    done_at : ℕ → PSlot
    done_at k = record s {
      heads = update s.heads k (s.next x);
      tails = update s.tails k none;
      highest = down slots priority (update s.heads k (s.next x)) k;
    }

    head : (ltb s.highest slots ≡ true) × (s.heads s.highest ≡ some x)
    unfolding f top
    head = (ground (arith, h.highest, slot-lt slots priority x pos small), rw h.highest my-Chain.0)

    next_task-done :
        is_null (s.next x) ≡ true → next_task slots priority s ≡ some (done_at (f x), some x)
    unfolding next_task done_at f top
    next_task-done e =
        rw (head.0, head.1, take_head, e) refl ∙ ap (λ k. some (done_at k, some x)) h.highest

    next_task-more :
        is_null (s.next x) ≡ false → next_task slots priority s ≡ some (more_at (f x), some x)
    unfolding next_task more_at f top
    next_task-more e =
        rw (head.0, head.1, take_head, e) refl ∙ ap (λ k. some (more_at k, some x)) h.highest

    done-Holds : level f (f x) xs ≡ [] → Holds slots priority (done_at (f x)) xs
    unfolding done_at f heads'
    done-Holds e = record {
      heads = heads'-Chain;
      tails =
          at_each (λ i. update s.tails (f x) none i ≡ last_ptr (level f i xs)) (f x) slots
            (rw (update_self s.tails (f x) none, e) refl)
            (λ i b ne.
              rw (update_ne s.tails (f x) none i ne)
                (h.tails i b ∙ ap last_ptr (level-cons_other f i x xs ne)));
      highest =
          down-top slots priority heads' (f x) xs (slot-lt slots priority x pos small) h.ordered.0
            h.ordered.1 (λ i b. is_null-Chain s.next (heads' i) (level f i xs) (heads'-Chain i b));
      ordered = h.ordered.1;
      once = h.once.1;
    }

    more-Holds :
        (y : ℕ) (ys : List ℕ) → level f (f x) xs ≡ y ∷ ys → Holds slots priority (more_at (f x)) xs
    unfolding more_at f top heads'
    more-Holds y ys e = record {
      heads = heads'-Chain;
      tails =
          at_each (λ i. s.tails i ≡ last_ptr (level f i xs)) (f x) slots
            (h.tails (f x) (slot-lt slots priority x pos small)
              ∙ ap last_ptr (level-cons f x xs)
              ∙ rw e refl)
            (λ i b ne. h.tails i b ∙ ap last_ptr (level-cons_other f i x xs ne));
      highest =
          h.highest ∙ sym (top-level slots priority (f x) xs h.ordered.0 h.ordered.1 (λ q. cc));
      ordered = h.ordered.1;
      once = h.once.1;
    }

    next_task-cases :
        (ls : List ℕ)
        → level f (f x) xs ≡ ls
        → (s' : PSlot) × (next_task slots priority s ≡ some (s', some x))
          × Holds slots priority s' xs
    next_task-cases [] e =
        let c = rw e at my-Chain in (done_at (f x), next_task-done (rw c.1 refl), done-Holds e)
    next_task-cases (y ∷ ys) e =
        let c = rw e at my-Chain in
        (more_at (f x), next_task-more (rw c.1.0 refl), more-Holds y ys e)

    -- Taking a task takes the first of the highest slot that has one, and leaves the others.
    pub next_task-cons :
        (s' : PSlot) × (next_task slots priority s ≡ some (s', some x)) × Holds slots priority s' xs
    next_task-cons = next_task-cases (level f (f x) xs) refl

  pub init-Holds : Holds slots priority (init slots priority) []
  unfolding init top
  init-Holds = record {
    heads = λ i b. refl;
    tails = λ i b. refl;
    highest = refl;
    ordered = tt;
    once = tt;
  }

  -- The slot policy is a schedule policy. It places a task as the priority policy does, by its slot.
  abbrev pub by_slot : ℕ → SchedulePolicy
  by_slot tasks = record {
    State = PSlot;
    tasks = tasks;
    queue = queue slots priority;
    next_task = next_task slots priority;
    Holds = Holds slots priority;
    place = place (slot slots priority);
    has-place = has-place (slot slots priority);
    Holds-Distinct = λ s xs h. h.once;
    queue-place = λ t s xs h _ out. queue-Holds slots priority small pos t s xs h out;
    next_task-nil = next_task-nil;
    next_task-cons = next_task-cons;
  }
