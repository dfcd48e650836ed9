-- ===== src/Clock/Twice.antt =====
-- Starting an event without a delay twice, by `startIn` of src/clock.cpp.
use tasking_framework.Base.{
  ℕ, ◌≡◌, ◌<◌, refl, ap, ◌∙◌, true, false, none, some, List, ◌∷◌, arith, update, ◌∉◌,
}
use tasking_framework.Clock.{Clock, Holds, enqueue_head, start_in}
use tasking_framework.Clock.Head.{enqueue_head-cons}

module _ (events : ℕ) where
  -- The event in front is put in front once more.
  enqueue_head-again :
      (e : ℕ) (c : Clock)
      → c.queue_head ≡ some e
      → (d : Clock) × (enqueue_head events e c ≡ some d)
        × (d.next e ≡ some e)
        × (d.queue_head ≡ some e)
        × (d.queued ≡ c.queued)
  unfolding enqueue_head
  enqueue_head-again e c h = (
    record c {
      next = update c.next e c.queue_head;
      previous = update c.previous e none;
      queue_head = some e;
    },
    ground (arith, h),
    ground (arith, h),
    refl,
    refl,
  )

  now_at : ℕ → ℕ → Clock → Clock
  now_at e now c = record c { next_activation = update c.next_activation e now }

  start_in-now :
      (now later e : ℕ) (c d : Clock)
      → c.queued e ≡ false
      → enqueue_head events e (now_at e now c) ≡ some d
      → start_in events now later e 0 c ≡ some (d, record { signal = true; timer = none })
  unfolding start_in now_at
  start_in-now now later e c d idle h = rw (idle, h) refl

  -- The first call of `startIn` without a delay, for an event that is not in the queue and not
  -- marked as queued, puts it in front of the queue and does not mark it, so that a second such
  -- call signals the scheduler again and links the event, at the head of the queue, to itself.
  pub start_in-twice :
      (now later now' later' e : ℕ) (c : Clock) (xs : List ℕ)
      → Holds events c xs
      → e < events
      → e ∉ xs
      → c.queued e ≡ false
      → (c' d : Clock) × (start_in events now later e 0 c
          ≡ some (c', record { signal = true; timer = none }))
        × Holds events c' (e ∷ xs)
        × (start_in events now' later' e 0 c' ≡ some (d, record { signal = true; timer = none }))
        × (d.queue_head ≡ some e)
        × (d.next e ≡ some e)
  unfolding now_at
  start_in-twice now later now' later' e c xs h small out idle =
      let at_now : Holds events (now_at e now c) xs = record {
        chain = h.chain;
        end = h.end;
        once = h.once;
        known = h.known;
      } in
      let (c', r, h', same) = enqueue_head-cons events e (now_at e now c) xs at_now small out in
      let idle' = ap (λ q. q e) same ∙ idle in
      let (d, s, link, head, _) = enqueue_head-again e (now_at e now' c') h'.chain.0 in
      (
        c',
        d,
        start_in-now now later e c c' idle r,
        h',
        start_in-now now' later' e c' d idle' s,
        head,
        link,
      )
