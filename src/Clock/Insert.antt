-- ===== src/Clock/Insert.antt =====
-- `enqueue` of src/clock.cpp on the whole queue, and whether it returns that the event is the first
-- one in the future.
use tasking_framework.Base.{
  ℕ, suc, ◌≡◌, ◌≤◌, ◌<◌, refl, ap, sym, ◌∙◌, Bool, true, ◌&&◌, ◌||◌, none, some, List, [], ◌∷◌,
  ◌++◌, arith, Ptr, update, ltb, leb, inl, inr, ◌∉◌, Distinct-length-le, Chain-frame, last_ptr,
  last_or, last_or-cons, last-cons,
}
use mathlib.Core.Path.{subst}
use tasking_framework.Clock.{Clock, search_back, enqueue, enqueue_from, enqueue_at}
use tasking_framework.Clock.Order.{InOrder}
use tasking_framework.Clock.Search.{
  early, late, early-late, late-head, early-last, search_back-early,
}
use tasking_framework.Clock.Enqueue.{
  IsTimed, IsQueued, insert, first-IsTimed, last-Behind, inside-Behind,
}

-- Whether no event of the queue lies after `now` and not after `t`.
abbrev pub none_between : (ℕ → ℕ) → ℕ → ℕ → List ℕ → Bool
none_between time now t [] = true
none_between time now t (x ∷ xs) =
    (leb (time x) now || ltb t (time x)) && none_between time now t xs

abbrev is_past : (ℕ → ℕ) → ℕ → Ptr → Bool
is_past time now none = true
is_past time now (some y) = leb (time y) now

module _ (time : ℕ → ℕ) (previous : ℕ → Ptr) (now t : ℕ) (h : now < t) where
  between-late :
      (y : ℕ) (xs : List ℕ)
      → t < time y
      → InOrder now time previous (some y) xs
      → none_between time now t xs ≡ true
  between-late y [] l o = refl
  between-late y (x ∷ xs) l o =
      let l' : t < time x = ground (arith, o.0) in ground (arith, between-late x xs l' o.2)

  between-early :
      (p : Ptr) (xs : List ℕ)
      → InOrder now time previous p xs
      → (is_past time now p && none_between time now t xs)
        ≡ is_past time now (last_or p (early time t xs))
  between-early none [] o = refl
  between-early (some y) [] o = ground arith
  between-early none (x ∷ xs) o = ground (arith, between-early (some x) xs o.2, between-late x xs)
  between-early (some y) (x ∷ xs) o =
      ground (arith, o.0, between-early (some x) xs o.2, between-late x xs)

module _ (events : ℕ) where
  module _ (now e : ℕ) (c : Clock) (b : e < events) (future : now < c.next_activation e) where
    -- The event is in the queue `xs`, and `first` is the result.
    abbrev Enqueued : Bool → List ℕ → Type 0
    Enqueued first xs =
        (d : Clock) × (enqueue_from events now e c c.queue_head ≡ some (d, first))
        × IsTimed events now d xs
        × IsQueued events e c d

    from_empty : IsTimed events now c [] → c.next e ≡ none → Enqueued true (e ∷ [])
    unfolding enqueue_from
    from_empty t unlinked = (
      record c { previous = update c.previous e none; queue_head = some e; queue_tail = some e },
      rw t.holds.chain refl,
      record {
        holds = record { chain = (refl, unlinked); end = refl; once = (refl, tt); known = (b, tt) };
        order = (refl, ground arith, tt);
      },
      record { queued = refl; times = refl },
    )

    -- The place that the search finds in a queue that is not empty.
    abbrev Found : Ptr → Type 0
    Found p =
        search_back (suc events) c.previous c.next_activation (c.next_activation e) c.queue_tail
        ≡ some p

    Found-Enqueued :
        (h : ℕ) (p : Ptr) (first : Bool) (xs : List ℕ)
        → c.queue_head ≡ some h
        → Found p
        → (d : Clock) × (enqueue_at events now e c p ≡ some (d, first))
          × IsTimed events now d xs
          × IsQueued events e c d
        → Enqueued first xs
    unfolding enqueue_from
    Found-Enqueued h p first xs head found (d, r, t, q) =
        (d, ap (λ k. enqueue_from events now e c k) head ∙ rw (found, r) refl, t, q)

    from_first :
        (z : ℕ) (zs : List ℕ)
        → IsTimed events now c (z ∷ zs)
        → e ∉ (z ∷ zs)
        → Found none
        → c.next_activation e < c.next_activation z
        → Enqueued true (e ∷ z ∷ zs)
    unfolding enqueue_at
    from_first z zs t out found later =
        Found-Enqueued z none true (e ∷ z ∷ zs) t.holds.chain.0 found
          (first-IsTimed events now e c b future z zs t out later)

    from_behind :
        (y : ℕ) (ys zs : List ℕ)
        → IsTimed events now c (y ∷ (ys ++ zs))
        → e ∉ (y ∷ (ys ++ zs))
        → Found (last_ptr (y ∷ ys))
        → ((p : ℕ) → last_ptr (y ∷ ys) ≡ some p → c.next_activation p ≤ c.next_activation e)
        → ((z : ℕ) (rest : List ℕ) → zs ≡ z ∷ rest → c.next_activation e < c.next_activation z)
        → Enqueued (is_past c.next_activation now (last_ptr (y ∷ ys))) (y ∷ (ys ++ e ∷ zs))
    unfolding enqueue_at
    from_behind y ys [] t out found le later =
        let (p, last) = last-cons y ys in
        rw last (
          Found-Enqueued y (some p) (leb (c.next_activation p) now) (y ∷ (ys ++ e ∷ []))
            t.holds.chain.0 (found ∙ ap some last)
            (last-Behind events now e c b future p y ys t out last (le p last)))
    from_behind y ys (z ∷ zs) t out found le later =
        let (p, last) = last-cons y ys in
        rw last (
          Found-Enqueued y (some p) (leb (c.next_activation p) now) (y ∷ (ys ++ e ∷ z ∷ zs))
            t.holds.chain.0 (found ∙ ap some last)
            (inside-Behind events now e c b future p y ys z zs t out last (le p last)
              (later z zs refl)))

    from_parts :
        (ys zs : List ℕ)
        → IsTimed events now c (ys ++ zs)
        → e ∉ (ys ++ zs)
        → c.next e ≡ none
        → Found (last_or none ys)
        → ((p : ℕ) → last_or none ys ≡ some p → c.next_activation p ≤ c.next_activation e)
        → ((z : ℕ) (rest : List ℕ) → zs ≡ z ∷ rest → c.next_activation e < c.next_activation z)
        → Enqueued (is_past c.next_activation now (last_or none ys)) (ys ++ e ∷ zs)
    from_parts [] [] t out unlinked found le later = from_empty t unlinked
    from_parts [] (z ∷ zs) t out unlinked found le later =
        from_first z zs t out found (later z zs refl)
    from_parts (y ∷ ys) zs t out unlinked found le later =
        let last = last_or-cons none y ys in
        rw last (from_behind y ys zs t out (found ∙ ap some last) (λ p k. le p (last ∙ k)) later)

    tail-last : (xs : List ℕ) → last_or none xs ≡ last_ptr xs
    tail-last [] = refl
    tail-last (x ∷ xs) = last_or-cons none x xs

    early-le :
        (xs : List ℕ) (p : ℕ)
        → last_or none (early c.next_activation (c.next_activation e) xs) ≡ some p
        → c.next_activation p ≤ c.next_activation e
    early-le xs p k = elim (early-last c.next_activation (c.next_activation e) none xs p k) [
      | inl n ↦ cc
      | inr le ↦ le
    ]

    from-Enqueued :
        (xs : List ℕ)
        → IsTimed events now c xs
        → e ∉ xs
        → c.next e ≡ none
        → Enqueued
            (none_between c.next_activation now (c.next_activation e) xs)
            (insert c.next_activation e xs)
    from-Enqueued xs t out unlinked =
        let time = c.next_activation in
        let at = time e in
        let whole = early-late time at xs in
        let bound = Distinct-length-le events xs t.holds.once t.holds.known in
        let found =
          ap (λ k. search_back (suc events) c.previous time at k) (t.holds.end ∙ sym (tail-last xs))
          ∙ search_back-early now time c.previous at future (suc events) xs t.order
              (omega (arith, bound)) in
        subst (λ first. Enqueued first (insert time e xs))
          (sym (between-early time c.previous now at future none xs t.order))
          (from_parts (early time at xs) (late time at xs)
            (subst (λ l. IsTimed events now c l) (sym whole) t) (subst (λ l. e ∉ l) (sym whole) out)
            unlinked found (early-le xs) (late-head time at xs))

  -- `enqueue` of an event that is not in the queue, at a time `now` before the event's: the call
  -- returns, the queue is in order and has the event behind those that are not later, and the result
  -- tells whether no other event lies between `now` and it. The event is marked as queued.
  pub enqueue-insert :
      (now e : ℕ) (c : Clock) (xs : List ℕ)
      → IsTimed events now c xs
      → e < events
      → e ∉ xs
      → now < c.next_activation e
      → (d : Clock) × (enqueue events now e c
          ≡ some (d, none_between c.next_activation now (c.next_activation e) xs))
        × IsTimed events now d (insert c.next_activation e xs)
        × (d.queued ≡ update c.queued e true)
        × (d.next_activation ≡ c.next_activation)
  unfolding enqueue
  enqueue-insert now e c xs t b out future =
      let h = t.holds in
      let c' = record c { queued = update c.queued e true; next = update c.next e none } in
      let t' : IsTimed events now c' xs = record {
        holds = record {
          chain = Chain-frame c.next c.queue_head xs e none h.chain out;
          end = h.end;
          once = h.once;
          known = h.known;
        };
        order = t.order;
      } in
      let (d, r, timed, q) = from-Enqueued now e c' b future xs t' out (ground arith) in
      (d, r, timed, q.queued, q.times)
