-- ===== src/Clock/Enqueue.antt =====
-- `enqueue` of src/clock.cpp puts an event into the time queue behind those that are not later.
use tasking_framework.Base.{
  ℕ, suc, ◌≡◌, ◌≤◌, ◌<◌, refl, sym, ◌∙◌, true, none, some, List, [], ◌∷◌, ◌++◌, arith, Ptr, is_null,
  same_ptr, update, leb, ◌==◌, if◌then◌else◌, length-append, ◌∈◌, ◌∉◌, Distinct, Distinct-length-le,
  Distinct-suffix, Distinct-apart, Distinct-insert, Below, Below-insert, has-append, Chain,
  Chain-cons, Chain-insert, Chain-drop, last_ptr, last_or, last_or-cons, last-mem, last-append,
  last-snoc,
}
use mathlib.Core.Path.{subst}
use tasking_framework.Clock.{Clock, Holds, enqueue_first, enqueue_behind}
use tasking_framework.Clock.Order.{
  InOrder, InOrder-frame, InOrder-append, InOrder-prefix, InOrder-suffix,
}
use tasking_framework.Clock.Correct.{correct-IsCorrected, correct_heads-same, InOrder-starts}
use tasking_framework.Clock.Search.{early, late}

-- The queue holds these events, and its pointers `previous` are in order from the time `n` on.
pub record IsTimed (events n : ℕ) (c : Clock) (xs : List ℕ) : Type 0 where
  pub holds : Holds events c xs
  pub order : InOrder n c.next_activation c.previous none xs

-- The queue with an event behind those that are not later.
abbrev pub insert : (ℕ → ℕ) → ℕ → List ℕ → List ℕ
insert time e xs = early time (time e) xs ++ e ∷ late time (time e) xs

module _ (events : ℕ) where
  -- What `enqueue` leaves of the clock's other fields.
  pub record IsQueued (e : ℕ) (c d : Clock) : Type 0 where
    pub queued : d.queued ≡ c.queued
    pub times : d.next_activation ≡ c.next_activation

  module _ (now e : ℕ) (c : Clock) (b : e < events) (future : now < c.next_activation e) where
    -- In front of all events.
    pub first-IsTimed :
        (x : ℕ) (xs : List ℕ)
        → IsTimed events now c (x ∷ xs)
        → e ∉ (x ∷ xs)
        → c.next_activation e < c.next_activation x
        → (d : Clock) × (enqueue_first events e c ≡ some (d, true))
          × IsTimed events now d (e ∷ x ∷ xs)
          × IsQueued e c d
    unfolding enqueue_first
    first-IsTimed x xs t out later =
        let h = t.holds in
        let time = c.next_activation in
        let bound = Distinct-length-le events (x ∷ xs) h.once h.known in
        let chain : Chain c.next (some x) (x ∷ xs) = (refl, h.chain.1) in
        let r =
          correct-IsCorrected (suc events) now c.next time c.previous none (some e) x xs chain
            h.once (omega (arith, bound)) t.order (ground arith) (ground arith) in
        let heads =
          correct_heads-same (suc events) now c.next time c.previous (some e) x xs h.once
            (omega arith) chain t.order in
        (
          record c {
            previous = update r.corrected e none;
            next = update c.next e c.queue_head;
            queue_head = some e;
            none_pending_head = if is_null c.none_pending_head then none else some e;
          },
          ground (arith, h.chain.0, heads, r.returns),
          record {
            holds = record {
              chain = Chain-cons c.next c.queue_head e (x ∷ xs) h.chain out;
              end = h.end;
              once = (out, h.once);
              known = (b, h.known);
            };
            order = (
              refl,
              ground arith,
              InOrder-starts now time r.corrected (update r.corrected e none) (some e) x xs r.order
                  (ground arith) (λ a m. ground (arith, out)),
            );
          },
          record { queued = refl; times = refl },
        )

    -- The pointers between `y ∷ ys` and the later events, with `e` linked behind the last of them, `p`.
    record IsLinked (p : ℕ) (next : ℕ → Ptr) (y : ℕ) (ys zs : List ℕ) : Type 0 where
      chain : Chain next c.queue_head (y ∷ (ys ++ e ∷ zs))
      after : Chain next (next e) zs
      once : Distinct (y ∷ (ys ++ e ∷ zs))
      known : Below events (y ∷ (ys ++ e ∷ zs))

    linked :
        (p y : ℕ) (ys zs : List ℕ)
        → Holds events c (y ∷ (ys ++ zs))
        → e ∉ (y ∷ (ys ++ zs))
        → last_ptr (y ∷ ys) ≡ some p
        → IsLinked p (update (update c.next e (c.next p)) p (some e)) y ys zs
    linked p y ys zs h out last =
        let chain = Chain-insert c.next c.queue_head y ys e p zs h.chain h.once out last in
        record {
          chain = chain;
          after =
              Chain-drop (update (update c.next e (c.next p)) p (some e)) c.queue_head (y ∷ ys) e zs
                chain;
          once = Distinct-insert e (y ∷ ys) zs h.once out;
          known = Below-insert e events (y ∷ ys) zs h.known b;
        }

    -- The order of all events, if it is right behind `e` and the pointer of `e` is.
    whole-InOrder :
        (p y : ℕ) (ys zs : List ℕ) (previous : ℕ → Ptr)
        → InOrder now c.next_activation c.previous none (y ∷ (ys ++ zs))
        → last_ptr (y ∷ ys) ≡ some p
        → c.next_activation p ≤ c.next_activation e
        → ((a : ℕ) → a ∈ (y ∷ ys) → previous a ≡ c.previous a)
        → previous e ≡ (if c.next_activation p == c.next_activation e then c.previous p else some p)
        → InOrder now c.next_activation previous (some e) zs
        → InOrder now c.next_activation previous none (y ∷ (ys ++ e ∷ zs))
    whole-InOrder p y ys zs q o last le same at rest =
        let time = c.next_activation in
        let front = InOrder-prefix now time c.previous none (y ∷ ys) zs o in
        let front' =
          InOrder-frame now time time c.previous q none (y ∷ ys) front
            (λ a m. (refl, same a (ground arith))) in
        let before : last_or none (y ∷ ys) ≡ some p = last_or-cons none y ys ∙ last in
        let here : InOrder now time q (some p) (e ∷ zs) =
          (ground arith, ground (arith, at, same p (last-mem y ys last)), rest) in
        InOrder-append now time q none (y ∷ ys) (e ∷ zs) front'
          (subst (λ k. InOrder now time q k (e ∷ zs)) (sym before) here)

    -- Behind the event `p`.
    abbrev pub Behind : ℕ → List ℕ → Type 0
    Behind p xs =
        (d : Clock) × (enqueue_behind events p now e c ≡ some (d, leb (c.next_activation p) now))
        × IsTimed events now d xs
        × IsQueued e c d

    pub last-Behind :
        (p y : ℕ) (ys : List ℕ)
        → IsTimed events now c (y ∷ (ys ++ []))
        → e ∉ (y ∷ (ys ++ []))
        → last_ptr (y ∷ ys) ≡ some p
        → c.next_activation p ≤ c.next_activation e
        → Behind p (y ∷ (ys ++ e ∷ []))
    unfolding enqueue_behind
    last-Behind p y ys t out last le =
        let time = c.next_activation in
        let l = linked p y ys [] t.holds out last in
        let next = update (update c.next e (c.next p)) p (some e) in
        let same = time p == time e in
        let previous = update c.previous e (if same then c.previous p else some p) in
        (
          record c {
            previous = previous;
            next = next;
            queue_tail = some e;
            none_pending_head =
                if same_ptr (next e) c.none_pending_head then some e else c.none_pending_head;
          },
          ground (arith, l.after),
          record {
            holds = record {
              chain = l.chain;
              end = sym (last-snoc y ys e);
              once = l.once;
              known = l.known;
            };
            order =
                whole-InOrder p y ys [] previous t.order last le
                  (λ a m. ground (arith, out, has-append a (y ∷ ys) [])) (ground arith) tt;
          },
          record { queued = refl; times = refl },
        )

    pub inside-Behind :
        (p y : ℕ) (ys : List ℕ) (z : ℕ) (zs : List ℕ)
        → IsTimed events now c (y ∷ (ys ++ z ∷ zs))
        → e ∉ (y ∷ (ys ++ z ∷ zs))
        → last_ptr (y ∷ ys) ≡ some p
        → c.next_activation p ≤ c.next_activation e
        → c.next_activation e < c.next_activation z
        → Behind p (y ∷ (ys ++ e ∷ z ∷ zs))
    unfolding enqueue_behind
    inside-Behind p y ys z zs t out last le later =
        let h = t.holds in
        let time = c.next_activation in
        let bound = Distinct-length-le events (y ∷ (ys ++ z ∷ zs)) h.once h.known in
        let size = length-append ys (z ∷ zs) in
        let l = linked p y ys (z ∷ zs) h out last in
        let next = update (update c.next e (c.next p)) p (some e) in
        let same = time p == time e in
        let previous = update c.previous e (if same then c.previous p else some p) in
        let before =
          subst (λ k. InOrder now time c.previous k (z ∷ zs)) (last_or-cons none y ys ∙ last)
            (InOrder-suffix now time c.previous none (y ∷ ys) (z ∷ zs) t.order) in
        let (apart, once) = Distinct-suffix (y ∷ ys) (e ∷ z ∷ zs) l.once in
        let before' =
          InOrder-frame now time time c.previous previous (some p) (z ∷ zs) before (λ a m.
            (refl, ground (arith, out, last-mem y ys last, has-append e (y ∷ ys) (z ∷ zs)))) in
        let r =
          correct-IsCorrected (suc events) now next time previous (some p) (some e) z zs
            (refl, l.after.1) once (omega (arith, bound, size)) before' (ground arith)
            (ground arith) in
        (
          record c {
            previous = r.corrected;
            next = next;
            none_pending_head =
                if same_ptr (next e) c.none_pending_head then some e else c.none_pending_head;
          },
          ground (arith, l.after.0, r.returns),
          record {
            holds = record {
              chain = l.chain;
              end = h.end ∙ last-append (y ∷ ys) z zs ∙ sym (last-append (y ∷ ys) e (z ∷ zs));
              once = l.once;
              known = l.known;
            };
            order =
                whole-InOrder p y ys (z ∷ zs) r.corrected t.order last le
                  (λ a m.
                    r.others a (Distinct-apart a (y ∷ ys) (z ∷ zs) h.once m)
                    ∙ ground (arith, m, out, has-append e (y ∷ ys) (z ∷ zs)))
                  (r.others e apart ∙ ground arith) r.order;
          },
          record { queued = refl; times = refl },
        )
