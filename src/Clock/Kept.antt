-- ===== src/Clock/Kept.antt =====
-- The operations of src/clock.cpp at the head of the time queue leave its pointers in order.
use tasking_framework.Base.{
  ℕ, suc, ◌≡◌, ◌≤◌, ◌<◌, refl, false, none, some, List, [], ◌∷◌, arith, is_null, update, ltb, inl,
  inr, Bool-cases, ◌∉◌, Chain-frame, Distinct-length-le,
}
use tasking_framework.Clock.{Clock, enqueue_head}
use tasking_framework.Clock.Remove.{read_first_pending}
use tasking_framework.Clock.Pending.{without_head, without_head-Holds}
use tasking_framework.Clock.Head.{in_front, in_front-Holds}
use tasking_framework.Clock.Order.{InOrder-frame}
use tasking_framework.Clock.Correct.{correct-IsCorrected, InOrder-starts}
use tasking_framework.Clock.Enqueue.{IsTimed}

module _ (events n : ℕ) where
  -- `readFirstPending` with a first event that is due hands it out, and leaves the others.
  pub read_first_pending-IsTimed :
      (now : ℕ) (c : Clock) (x : ℕ) (xs : List ℕ)
      → IsTimed events n c (x ∷ xs)
      → c.next_activation x ≤ now
      → (d : Clock) × (read_first_pending events now c ≡ some (d, some x))
        × IsTimed events n d xs
        × (d.queued ≡ update c.queued x false)
        × (d.next_activation ≡ c.next_activation)
  unfolding read_first_pending
  read_first_pending-IsTimed now c x [] t due =
      let h = t.holds in
      (
        without_head events x (c.next x) none c.previous c,
        ground (arith, h.chain.0, h.chain.1),
        record { holds = without_head-Holds events c x [] none c.previous h refl; order = tt },
        refl,
        refl,
      )
  read_first_pending-IsTimed now c x (y ∷ ys) t due =
      let h = t.holds in
      let time = c.next_activation in
      let bound = Distinct-length-le events (x ∷ y ∷ ys) h.once h.known in
      let rest = Chain-frame c.next (c.next x) (y ∷ ys) x none h.chain.1 h.once.0 in
      elim (Bool-cases (is_null (c.previous y))) [
        | inl e ↦ (
          without_head events x (c.next x) c.queue_tail c.previous c,
          ground (arith, h.chain.0, h.chain.1),
          record {
            holds = without_head-Holds events c x (y ∷ ys) c.queue_tail c.previous h h.end;
            order = (refl, ground (arith, e), t.order.2.2);
          },
          refl,
          refl,
        )
        | inr e ↦
            let r =
              correct-IsCorrected (suc events) n (update c.next x none) time c.previous (some x)
                none y ys (refl, rest.1) h.once.1 (omega (arith, bound)) t.order.2 refl refl in
            (
              without_head events x (c.next x) c.queue_tail r.corrected c,
              ground (arith, h.chain.0, h.chain.1, r.returns),
              record {
                holds = without_head-Holds events c x (y ∷ ys) c.queue_tail r.corrected h h.end;
                order = r.order;
              },
              refl,
              refl,
            )
      ]

  -- `enqueueHead` of an event that is due puts it in front.
  pub enqueue_head-IsTimed :
      (e : ℕ) (c : Clock) (xs : List ℕ)
      → IsTimed events n c xs
      → e < events
      → e ∉ xs
      → c.next_activation e ≤ n
      → (d : Clock) × (enqueue_head events e c ≡ some d)
        × IsTimed events n d (e ∷ xs)
        × (d.queued ≡ c.queued)
        × (d.next_activation ≡ c.next_activation)
  unfolding enqueue_head
  enqueue_head-IsTimed e c [] t small out due = (
    in_front events e (some e) c.previous c,
    rw t.holds.chain refl,
    record {
      holds = record {
        chain = (refl, ground (arith, t.holds.chain));
        end = refl;
        once = (refl, tt);
        known = (small, tt);
      };
      order = (refl, ground arith, tt);
    },
    refl,
    refl,
  )
  enqueue_head-IsTimed e c (x ∷ xs) t small out due =
      let h = t.holds in
      let time = c.next_activation in
      let bound = Distinct-length-le events (x ∷ xs) h.once h.known in
      elim (Bool-cases (ltb (time e) (time x))) [
        | inl earlier ↦
            let r =
              correct-IsCorrected (suc events) n c.next time c.previous none (some e) x xs
                (refl, h.chain.1) h.once (omega (arith, bound)) t.order (ground arith)
                (ground arith) in
            (
              in_front events e c.queue_tail r.corrected c,
              ground (arith, h.chain.0, r.returns),
              record {
                holds = in_front-Holds events e c x xs r.corrected h small out;
                order = (
                  refl,
                  ground arith,
                  InOrder-starts n time r.corrected (update r.corrected e none) (some e) x xs
                      r.order (ground arith) (λ a m. ground (arith, out)),
                );
              },
              refl,
              refl,
            )
        | inr later ↦ (
          in_front events e c.queue_tail c.previous c,
          ground (arith, h.chain.0),
          record {
            holds = in_front-Holds events e c x xs c.previous h small out;
            order = (
              refl,
              ground arith,
              (
                ground arith,
                ground (arith, out),
                InOrder-frame n time time c.previous (update c.previous e none) (some x) xs
                    t.order.2 (λ a m. (refl, ground (arith, out))),
              ),
            );
          },
          refl,
          refl,
        )
      ]
