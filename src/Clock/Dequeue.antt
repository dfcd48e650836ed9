-- ===== src/Clock/Dequeue.antt =====
-- Theorems on `dequeue` of src/clock.cpp: it takes one event out, wherever it stands.
use tasking_framework.Base.{
  ℕ, zero, suc, ◌≡◌, ◌<◌, refl, false, none, some, List, [], ◌∷◌, ◌++◌, arith, Ptr, update, inl,
  inr, Bool-cases, length, ◌∉◌, has, Distinct, Below, Below-remove, Chain, Chain-frame,
  Distinct-length-le, last_or, remove, remove-Distinct, remove-absent, remove-append,
  not-mem-remove, mem-split, sym, ap, length-append,
}
use mathlib.Core.Path.{subst}
use tasking_framework.Clock.{Clock, Holds, find}
use tasking_framework.Clock.Order.{InOrder, InOrder-frame}
use tasking_framework.Clock.Enqueue.{IsTimed}
use tasking_framework.Clock.Remove.{dequeue, cut, unmark, detach}
use tasking_framework.Clock.Cut.{IsCut, cut-IsCut}

find-absent :
    (fuel : ℕ) (next : ℕ → Ptr) (e : ℕ) (q p : Ptr) (xs : List ℕ)
    → Chain next q xs
    → length xs < fuel
    → e ∉ xs
    → find fuel next e q p ≡ some (none, last_or p xs)
unfolding find
find-absent zero next e q p xs c b out = absurd (omega arith)
find-absent (suc fuel) next e q p [] c b out = rw c refl
find-absent (suc fuel) next e q p (x ∷ xs) c b out =
    let rest = find-absent fuel next e (next x) (some x) xs c.1 (omega arith) (ground arith) in
    ground (arith, c.0, rest)

find-present :
    (fuel : ℕ) (next : ℕ → Ptr) (e : ℕ) (q p : Ptr) (xs ys : List ℕ)
    → Chain next q (xs ++ e ∷ ys)
    → length (xs ++ e ∷ ys) < fuel
    → e ∉ xs
    → find fuel next e q p ≡ some (some e, last_or p xs)
unfolding find
find-present zero next e q p xs ys c b out = absurd (omega arith)
find-present (suc fuel) next e q p [] ys c b out = ground (arith, c.0)
find-present (suc fuel) next e q p (x ∷ xs) ys c b out =
    let rest = find-present fuel next e (next x) (some x) xs ys c.1 (omega arith) (ground arith) in
    ground (arith, c.0, rest)

module _ (events : ℕ) where
  ordered-at :
      (n : ℕ) (c d : Clock) (xs : List ℕ)
      → d.next_activation ≡ c.next_activation
      → InOrder n c.next_activation d.previous none xs
      → InOrder n d.next_activation d.previous none xs
  ordered-at n c d xs e o = subst (λ time. InOrder n time d.previous none xs) (sym e) o

  -- The event is out of the queue, which holds the list, and marked as not queued.
  abbrev pub Dequeued : ℕ → Clock → List ℕ → Type 0
  Dequeued e c ys =
      (d : Clock) × (dequeue events e c ≡ some d)
      × Holds events d ys
      × (d.queued ≡ update c.queued e false)
      × (d.next e ≡ none)
      × (d.next_activation ≡ c.next_activation)

  -- The same, where the pointers `previous` stay in order, if they were before.
  abbrev Keeps : ℕ → Clock → List ℕ → List ℕ → Type 0
  Keeps e c whole ys =
      (done : Dequeued e c ys) × ((n : ℕ)
        → InOrder n c.next_activation c.previous none whole
        → InOrder n c.next_activation done.0.previous none ys)

  dequeue-cut :
      (e : ℕ) (c d : Clock) (x p : Ptr) (whole ys : List ℕ)
      → find (suc events) c.next e c.queue_head none ≡ some (x, p)
      → cut events x p (unmark events e c) ≡ some d
      → IsCut events (unmark events e c) d whole ys
      → Distinct ys
      → Below events ys
      → e ∉ ys
      → Keeps e c whole ys
  unfolding dequeue detach unmark
  dequeue-cut e c d x p whole ys found r h once known out = (
    (
      detach events e d,
      rw (found, r) refl,
      record {
        chain = Chain-frame d.next d.queue_head ys e none h.chain out;
        end = h.end;
        once = once;
        known = known;
      },
      ap (λ q. update q e false) h.queued,
      ground arith,
      h.times,
    ),
    λ n o.
        InOrder-frame n c.next_activation c.next_activation d.previous (update d.previous e none)
          none ys (h.order n o) (λ a m. (refl, ground (arith, out))),
  )

  dequeue-absent : (e : ℕ) (c : Clock) (xs : List ℕ) → Holds events c xs → e ∉ xs → Keeps e c xs xs
  unfolding unmark cut
  dequeue-absent e c xs h out =
      let bound = Distinct-length-le events xs h.once h.known in
      dequeue-cut e c (unmark events e c) none (last_or none xs) xs xs
        (find-absent (suc events) c.next e c.queue_head none xs h.chain (omega (arith, bound)) out)
        refl
        (record { chain = h.chain; end = h.end; queued = refl; times = refl; order = λ n o. o })
        h.once h.known out

  dequeue-present :
      (e : ℕ) (c : Clock) (xs ys : List ℕ)
      → Holds events c (xs ++ e ∷ ys)
      → e ∉ xs
      → Keeps e c (xs ++ e ∷ ys) (remove e (xs ++ e ∷ ys))
  unfolding unmark
  dequeue-present e c xs ys h out =
      let l = xs ++ e ∷ ys in
      let bound = Distinct-length-le events l h.once h.known in
      let short = length-append xs (e ∷ ys) in
      let (d, r, cut_it) =
        cut-IsCut events e xs ys (unmark events e c) h.chain h.end h.once
          (omega (arith, bound, short)) in
      dequeue-cut e c d (some e) (last_or none xs) l (remove e l)
        (find-present (suc events) c.next e c.queue_head none xs ys h.chain (omega (arith, bound))
          out)
        r (rw (remove-append e xs ys out) cut_it) (remove-Distinct e l h.once)
        (Below-remove events e l h.known) (not-mem-remove e l h.once)

  dequeue-Keeps : (e : ℕ) (c : Clock) (xs : List ℕ) → Holds events c xs → Keeps e c xs (remove e xs)
  dequeue-Keeps e c xs h = elim (Bool-cases (has e xs)) [
    | inr out ↦ rw (remove-absent e xs out) (dequeue-absent e c xs h out)
    | inl m ↦
        let (ys, zs, eq, out) = mem-split e xs m in
        subst (λ l. Keeps e c l (remove e l)) (sym eq)
          (dequeue-present e c ys zs (subst (λ l. Holds events c l) eq h) out)
  ]

  -- `dequeue` returns for every event, whether it is in the queue or not: the queue holds the other
  -- events in their order, the event is marked as not queued and is not linked, and the other marks
  -- and the times are as before.
  pub dequeue-remove :
      (e : ℕ) (c : Clock) (xs : List ℕ) → Holds events c xs → Dequeued e c (remove e xs)
  dequeue-remove e c xs h = (dequeue-Keeps e c xs h).0

  -- It also leaves the pointers `previous` of the others in order.
  pub dequeue-IsTimed :
      (n e : ℕ) (c : Clock) (xs : List ℕ)
      → IsTimed events n c xs
      → (d : Clock) × (dequeue events e c ≡ some d)
        × IsTimed events n d (remove e xs)
        × (d.queued ≡ update c.queued e false)
        × (d.next_activation ≡ c.next_activation)
  dequeue-IsTimed n e c xs t =
      let ((d, r, holds, queued, _, times), order) = dequeue-Keeps e c xs t.holds in
      (
        d,
        r,
        record { holds = holds; order = ordered-at n c d (remove e xs) times (order n t.order) },
        queued,
        times,
      )
