-- ===== src/Policy/PSlot/Queue.antt =====
-- `queue` of src/schedulePolicyPSlot.cpp puts a task behind all others of its slot.
use mathlib.Core.List.{append-nil}
use tasking_framework.Base.{
  ℕ, ◌^◌, ◌≡◌, ◌<◌, ◌++◌, ◌∙◌, ◌⊎◌, has, refl, ap, true, false, inl, inr, Bool-cases, none, some,
  List, [], ◌∷◌, arith, ltb, ◌==◌, ◌||◌, if◌then◌else◌, update, ◌∈◌, ◌∉◌, is_empty, Chain,
  Chain-frame, Chain-snoc, last_ptr, last-snoc, last-mem, last-cons, at_each, update_ne,
  update_self,
}
use tasking_framework.Policy.Priority.Levels.{IsOrdered, level, level-place, place-IsOrdered}
use tasking_framework.Policy.Priority.Place.{place, place-Distinct}
use tasking_framework.Policy.PSlot.{PSlot, Holds, slot, queue, top}
use tasking_framework.Policy.PSlot.Slots.{slot-lt, mem-level, level-out, level-Distinct}

module _ (f : ℕ → ℕ) (t : ℕ) (xs : List ℕ) (o : IsOrdered f xs) where
  level-place_self : level f (f t) (place f t xs) ≡ level f (f t) xs ++ t ∷ []
  level-place_self = level-place f t (f t) xs o ∙ ground arith

  level-place_other : (i : ℕ) → (f t == i) ≡ false → level f i (place f t xs) ≡ level f i xs
  level-place_other i ne = level-place f t i xs o ∙ ground (arith, append-nil (level f i xs))

module _ (slots : ℕ) (priority : ℕ → ℕ) (small : slots < 2 ^ 32) (pos : 0 < slots) where
  raised : ℕ → PSlot → ℕ
  raised t s =
      if (s.highest == slots) || ltb s.highest (slot slots priority t)
      then slot slots priority t
      else s.highest

  raised-top :
      (t : ℕ) (s : PSlot) (xs : List ℕ)
      → Holds slots priority s xs
      → raised t s ≡ top slots priority (place (slot slots priority) t xs)
  unfolding raised top place
  raised-top t s [] h = ground (arith, h.highest)
  raised-top t s (x ∷ xs) h = ground (arith, h.highest, slot-lt slots priority x pos small)

  emptiness :
      (s : PSlot) (xs : List ℕ) → Holds slots priority s xs → (s.highest == slots) ≡ is_empty xs
  unfolding top
  emptiness s [] h = ground (arith, h.highest)
  emptiness s (x ∷ xs) h = ground (arith, h.highest, slot-lt slots priority x pos small)

  -- The new state, when the slot is empty.
  into_empty : ℕ → PSlot → PSlot
  into_empty t s = record {
    heads = update s.heads (slot slots priority t) (some t);
    tails = update s.tails (slot slots priority t) (some t);
    next = update s.next t none;
    highest = raised t s;
  }

  -- The new state, when the slot ends with the task `l`.
  behind : ℕ → ℕ → PSlot → PSlot
  behind l t s = record {
    heads = s.heads;
    tails = update s.tails (slot slots priority t) (some t);
    next = update (update s.next t none) l (some t);
    highest = raised t s;
  }

  queue-into_empty :
      (t : ℕ) (s : PSlot)
      → s.heads (slot slots priority t) ≡ none
      → queue slots priority t s ≡ some (into_empty t s, s.highest == slots)
  unfolding queue into_empty raised
  queue-into_empty t s e = ground (arith, slot-lt slots priority t pos small)

  queue-behind :
      (t l y : ℕ) (s : PSlot)
      → s.heads (slot slots priority t) ≡ some y
      → s.tails (slot slots priority t) ≡ some l
      → queue slots priority t s ≡ some (behind l t s, s.highest == slots)
  unfolding queue behind raised
  queue-behind t l y s e e' = ground (arith, slot-lt slots priority t pos small)

  module _ (t : ℕ) (s : PSlot) (xs : List ℕ) (h : Holds slots priority s xs) (out : t ∉ xs) where
    my_level : List ℕ
    my_level = level (slot slots priority) (slot slots priority t) xs

    my-Chain : Chain s.next (s.heads (slot slots priority t)) my_level
    unfolding my_level
    my-Chain = h.heads (slot slots priority t) (slot-lt slots priority t pos small)

    cleared :
        (i : ℕ)
        → i < slots
        → Chain (update s.next t none) (s.heads i) (level (slot slots priority) i xs)
    cleared i b =
        Chain-frame s.next (s.heads i) (level (slot slots priority) i xs) t none (h.heads i b)
          (level-out (slot slots priority) i t xs out)

    -- What the other slots hold is left alone.
    other_heads :
        (i l : ℕ)
        → i < slots
        → (slot slots priority t == i) ≡ false
        → l ∈ my_level
        → Chain
            (update (update s.next t none) l (some t))
            (s.heads i)
            (level (slot slots priority) i xs)
    unfolding my_level
    other_heads i l b ne m =
        Chain-frame (update s.next t none) (s.heads i) (level (slot slots priority) i xs) l (some t)
          (cleared i b) (l_out (Bool-cases (has l (level (slot slots priority) i xs))))
      where
        l_out :
            (has l (level (slot slots priority) i xs) ≡ true)
              ⊎ (has l (level (slot slots priority) i xs) ≡ false)
            → l ∉ level (slot slots priority) i xs
        l_out (inl e) = ground (
          arith,
          mem-level (slot slots priority) i l xs e,
          mem-level (slot slots priority) (slot slots priority t) l xs m,
        )
        l_out (inr e) = e

    into_empty-Holds :
        my_level ≡ [] → Holds slots priority (into_empty t s) (place (slot slots priority) t xs)
    unfolding into_empty my_level
    into_empty-Holds e =
        let k = slot slots priority t in
        record {
          heads =
              at_each
                (λ i.
                  Chain (update s.next t none) (update s.heads k (some t) i)
                    (level (slot slots priority) i (place (slot slots priority) t xs)))
                k slots
                (rw (level-place_self (slot slots priority) t xs h.ordered, e)
                  (ground arith, ground arith))
                (λ i b ne.
                  rw
                    (
                      level-place_other (slot slots priority) t xs h.ordered i ne,
                      update_ne s.heads k (some t) i ne,
                    )
                    (cleared i b));
          tails =
              at_each
                (λ i.
                  update s.tails k (some t) i
                  ≡ last_ptr (level (slot slots priority) i (place (slot slots priority) t xs)))
                k slots
                (rw (level-place_self (slot slots priority) t xs h.ordered, e) (ground arith))
                (λ i b ne.
                  rw
                    (
                      level-place_other (slot slots priority) t xs h.ordered i ne,
                      update_ne s.tails k (some t) i ne,
                    )
                    (h.tails i b));
          highest = raised-top t s xs h;
          ordered = place-IsOrdered (slot slots priority) t xs h.ordered;
          once = place-Distinct (slot slots priority) t xs h.once out;
        }

    behind-Holds :
        (l y : ℕ) (ys : List ℕ)
        → my_level ≡ y ∷ ys
        → last_ptr (y ∷ ys) ≡ some l
        → Holds slots priority (behind l t s) (place (slot slots priority) t xs)
    unfolding behind my_level
    behind-Holds l y ys e le =
        let k = slot slots priority t in
        let once = level-Distinct (slot slots priority) k xs h.once in
        let fresh = level-out (slot slots priority) k t xs out in
        let mine = cleared k (slot-lt slots priority t pos small) in
        record {
          heads =
              at_each
                (λ i.
                  Chain (update (update s.next t none) l (some t)) (s.heads i)
                    (level (slot slots priority) i (place (slot slots priority) t xs)))
                k slots
                (rw (level-place_self (slot slots priority) t xs h.ordered, e)
                  (Chain-snoc (update s.next t none) (s.heads k) y ys l t (rw e at mine)
                    (rw e at once) (rw e at fresh) le (ground arith)))
                (λ i b ne.
                  rw (level-place_other (slot slots priority) t xs h.ordered i ne)
                    (other_heads i l b ne (rw e (last-mem y ys le))));
          tails =
              at_each
                (λ i.
                  update s.tails k (some t) i
                  ≡ last_ptr (level (slot slots priority) i (place (slot slots priority) t xs)))
                k slots
                (rw (level-place_self (slot slots priority) t xs h.ordered, e, last-snoc y ys t)
                  (update_self s.tails k (some t)))
                (λ i b ne.
                  rw
                    (
                      level-place_other (slot slots priority) t xs h.ordered i ne,
                      update_ne s.tails k (some t) i ne,
                    )
                    (h.tails i b));
          highest = raised-top t s xs h;
          ordered = place-IsOrdered (slot slots priority) t xs h.ordered;
          once = place-Distinct (slot slots priority) t xs h.once out;
        }

    queue-cases :
        (ls : List ℕ)
        → my_level ≡ ls
        → (s' : PSlot) × (queue slots priority t s ≡ some (s', s.highest == slots))
          × Holds slots priority s' (place (slot slots priority) t xs)
    unfolding my_level
    queue-cases [] e =
        let c = rw e at my-Chain in (into_empty t s, queue-into_empty t s c, into_empty-Holds e)
    queue-cases (y ∷ ys) e =
        let c = rw e at my-Chain in
        let (l, le) = last-cons y ys in
        let end = h.tails (slot slots priority t) (slot-lt slots priority t pos small) in
        (
          behind l t s,
          queue-behind t l y s c.0 (end ∙ ap last_ptr e ∙ le),
          behind-Holds l y ys e le,
        )

    -- Queueing a task that is not in a slot puts it behind all tasks of its slot and of the higher
    -- ones, and says whether all slots were empty.
    pub queue-Holds :
        (s' : PSlot) × (queue slots priority t s ≡ some (s', is_empty xs))
        × Holds slots priority s' (place (slot slots priority) t xs)
    queue-Holds = rw (← emptiness s xs h) (queue-cases my_level refl)
