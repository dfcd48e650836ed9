-- ===== src/Events/Ends.antt =====
-- `handleEvents` of src/scheduler.cpp at a time that stands: it ends, and no event is pending.
use tasking_framework.Base.{
  ℕ, zero, suc, ◌^◌, ◌≡◌, ◌≤◌, ◌<◌, refl, ap, Bool, true, false, Option, none, some, List, [], ◌∷◌,
  arith, update, ltb, ◌>>=◌, inl, inr, Bool-cases,
}
use mathlib.Core.Path.{subst}
use tasking_framework.Clock.{Clock, is_pending}
use tasking_framework.Clock.Remove.{read_first_pending}
use tasking_framework.Clock.Steps as Steps
use tasking_framework.Clock.Steps.{
  Queue, Answer, started, put_in, put_front, on_queue, Implements, step, Refines,
}
use tasking_framework.Clock.Run.{one_call}
use tasking_framework.Events.{Events, handle_events, handle_read}
use tasking_framework.Events.Handled.{
  backlog, IsReady, Handles, handle-Handles, as_event, answers-read,
}

module _ (events triggers : ℕ) (fires : ℕ → Events → Bool) (now : ℕ) where
  -- The readings of a clock that stands.
  abbrev pub readings : ℕ → List (ℕ × ℕ)
  readings zero = []
  readings (suc k) = (now, now) ∷ readings k

  -- The loop ends in a state in which no event is pending.
  pub record Ends (done : Option Events) : Type 0 where
    pub left : Events
    pub queue : Queue
    pub returns : done ≡ some left
    pub ready : IsReady events now left queue
    pub idle : is_pending now left.clock ≡ false

  abbrev pub queue_with : List ℕ → (ℕ → Bool) → (ℕ → ℕ) → Queue
  queue_with xs queued times = record { events = xs; queued = queued; times = times }

  -- Nothing is due in a queue whose first event is later.
  unfoldable pub is_later : List ℕ → (ℕ → ℕ) → Bool
  is_later [] times = true
  is_later (x ∷ xs) times = ltb now (times x)

  idle_lem :
      (c : Clock) (xs : List ℕ) (queued : ℕ → Bool) (times : ℕ → ℕ)
      → Implements events now c (queue_with xs queued times)
      → is_later xs times ≡ true
      → is_pending now c ≡ false
  unfolding is_pending is_later
  idle_lem c [] queued times i l = rw i.timed.holds.chain refl
  idle_lem c (x ∷ xs) queued times i l =
      let at : c.next_activation x ≡ times x = ap (λ (f : ℕ → ℕ). f x) i.times in
      rw i.timed.holds.chain.0 (ground (arith, at, l))

  read_none :
      (xs : List ℕ) (queued : ℕ → Bool) (times : ℕ → ℕ)
      → is_later xs times ≡ true
      → on_queue now Steps.read_first_pending (queue_with xs queued times)
        ≡ (queue_with xs queued times, Steps.event none)
  unfolding on_queue is_later
  read_none [] queued times l = refl
  read_none (x ∷ xs) queued times l = ground arith

  -- The reading of a queue whose first event is later, and of one whose first event is due.
  pub read-idle :
      (s : Events) (xs : List ℕ) (queued : ℕ → Bool) (times : ℕ → ℕ)
      → IsReady events now s (queue_with xs queued times)
      → now < 2 ^ 63
      → is_later xs times ≡ true
      → (d : Clock) × (read_first_pending events now s.clock ≡ some (d, none))
        × Implements events now d (queue_with xs queued times)
        × (is_pending now d ≡ false)
  unfolding Refines step
  read-idle s xs queued times r b l =
      let q = queue_with xs queued times in
      let (d, done, i) =
        one_call events now now Steps.read_first_pending s.clock q r.clock (omega arith) b tt in
      let eq = read_none xs queued times l in
      let i' = subst (λ o. Implements events now d o.0) eq i in
      let read = answers-read (read_first_pending events now s.clock) d none (
        subst (λ o. (read_first_pending events now s.clock >>= as_event) ≡ some (d, o.1)) eq
          done) in
      (d, read, i', idle_lem d xs queued times i' l)

  pub read-due :
      (s : Events) (x : ℕ) (xs : List ℕ) (queued : ℕ → Bool) (times : ℕ → ℕ)
      → IsReady events now s (queue_with (x ∷ xs) queued times)
      → now < 2 ^ 63
      → times x ≤ now
      → (d : Clock) × (read_first_pending events now s.clock ≡ some (d, some x))
        × Implements events now d (queue_with xs (update queued x false) times)
  unfolding Refines step on_queue
  read-due s x xs queued times r b due =
      let q = queue_with (x ∷ xs) queued times in
      let q₁ = queue_with xs (update queued x false) times in
      let (d, done, i) =
        one_call events now now Steps.read_first_pending s.clock q r.clock (omega arith) b tt in
      let eq : on_queue now Steps.read_first_pending q ≡ (q₁, Steps.event (some x)) =
        ground arith in
      let read = answers-read (read_first_pending events now s.clock) d (some x) (
        subst (λ o. (read_first_pending events now s.clock >>= as_event) ≡ some (d, o.1)) eq
          done) in
      (d, read, subst (λ o. Implements events now d o.0) eq i)

  nothing-Ends :
      (k : ℕ) (s : Events) (xs : List ℕ) (queued : ℕ → Bool) (times : ℕ → ℕ)
      → IsReady events now s (queue_with xs queued times)
      → now < 2 ^ 63
      → is_later xs times ≡ true
      → Ends (handle_events events triggers fires (readings (suc k)) s)
  unfolding handle_events
  nothing-Ends k s xs queued times r b l =
      let q = queue_with xs queued times in
      let (d, read, i', idle) = read-idle s xs queued times r b l in
      record {
        left = record s { clock = d };
        queue = q;
        returns = rw read refl;
        ready = record { clock = i'; plain = r.plain };
        idle = idle;
      }

  -- A round that handles the first event, which is due.
  due-Ends :
      (k : ℕ) (s : Events) (x : ℕ) (xs : List ℕ) (queued : ℕ → Bool) (times : ℕ → ℕ)
      → IsReady events now s (queue_with (x ∷ xs) queued times)
      → now < 2 ^ 63
      → times x ≤ now
      → backlog now times (x ∷ xs) < suc k
      → ((s' : Events) (q' : Queue)
          → IsReady events now s' q'
          → backlog now q'.times q'.events < k
          → Ends (handle_events events triggers fires (readings k) s'))
      → Ends (handle_events events triggers fires (readings (suc k)) s)
  unfolding handle_events handle_read Handles
  due-Ends k s x xs queued times r b due less next =
      let q₁ = queue_with xs (update queued x false) times in
      let (d, read, i') = read-due s x xs queued times r b due in
      let (s', q', handled, r', back, _) =
        handle-Handles events triggers fires now x (record s { clock = d }) q₁
          (record { clock = i'; plain = r.plain }) b r.clock.timed.holds.known.0
          r.clock.timed.holds.once.0 (ground arith) due in
      let e = next s' q' r' (omega arith) in
      record {
        left = e.left;
        queue = e.queue;
        returns = rw (read, handled) e.returns;
        ready = e.ready;
        idle = e.idle;
      }

  events-Ends :
      (k : ℕ) (s : Events) (xs : List ℕ) (queued : ℕ → Bool) (times : ℕ → ℕ)
      → IsReady events now s (queue_with xs queued times)
      → now < 2 ^ 63
      → backlog now times xs < k
      → Ends (handle_events events triggers fires (readings k) s)
  unfolding is_later
  events-Ends zero s xs queued times r b less = absurd (omega arith)
  events-Ends (suc k) s [] queued times r b less = nothing-Ends k s [] queued times r b refl
  events-Ends (suc k) s (x ∷ xs) queued times r b less = elim (Bool-cases (ltb now (times x))) [
    | inl later ↦ nothing-Ends k s (x ∷ xs) queued times r b later
    | inr due ↦
        due-Ends k s x xs queued times r b (ground arith) less
          (λ s' q' r' less'. events-Ends k s' q'.events q'.queued q'.times r' b less')
  ]

  -- While the clock stands, `handleEvents` ends, for events that are not periodic and for periodic
  -- ones without a schedule, which it starts again for as long as their times have passed: within
  -- as many rounds as the queue's times lie back in milliseconds, one more for each event that is
  -- due and one to find none. The queue stays in order, and no event is pending afterwards.
  pub handle_events-Ends :
      (k : ℕ) (s : Events) (q : Queue)
      → IsReady events now s q
      → now < 2 ^ 63
      → backlog now q.times q.events < k
      → Ends (handle_events events triggers fires (readings k) s)
  handle_events-Ends k s q r b less = events-Ends k s q.events q.queued q.times r b less
