-- ===== src/Clock/Run.antt =====
-- Any calls of src/clock.cpp as time passes: its linked queue is a list of events.
use tasking_framework.Base.{
  ℕ, ◌^◌, ◌≡◌, ◌≤◌, ◌<◌, refl, sym, false, Option, none, some, List, [], ◌∷◌, ◌>>=◌,
}
use mathlib.Core.Path.{subst}
use tasking_framework.Clock.{Clock}
use tasking_framework.Clock.Order.{InOrder-later}
use tasking_framework.Clock.Enqueue.{IsTimed}
use tasking_framework.Clock.Steps.{
  Call, Answer, Queue, on_queue, Implements, IsAllowed, step, Refines, step-Refines, queue_of,
}

-- Calls with the times at which they are made, the last of which is `n` before the first call.
unfoldable pub run_queue : List (ℕ × Call) → Queue → Queue × List Answer
run_queue [] q = (q, [])
run_queue ((now, call) ∷ calls) q =
    let (q', a) = on_queue now call q in
    let (q'', answers) = run_queue calls q' in (q'', a ∷ answers)

abbrev pub last_time : ℕ → List (ℕ × Call) → ℕ
last_time n [] = n
last_time n ((now, call) ∷ calls) = last_time now calls

-- Time does not go back, and every call is allowed.
abbrev pub AreAllowed : ℕ → ℕ → List (ℕ × Call) → Queue → Type 0
AreAllowed events n [] q = Unit {0}
AreAllowed events n ((now, call) ∷ calls) q =
    (n ≤ now)
    × (now < 2 ^ 63)
    × IsAllowed events now call q
    × AreAllowed events now calls (on_queue now call q).0

abbrev pub empty : Queue
empty = record { events = []; queued = λ e. false; times = λ e. 0 }

module _ (events : ℕ) where
  unfoldable pub run : List (ℕ × Call) → Clock → Option (Clock × List Answer)
  run [] c = some (c, [])
  run ((now, call) ∷ calls) c = do
    (d, a) ← step events now call c
    (d', answers) ← run calls d
    some (d', a ∷ answers)

  later-IsTimed :
      (n now : ℕ) (c : Clock) (xs : List ℕ)
      → n ≤ now
      → IsTimed events n c xs
      → IsTimed events now c xs
  later-IsTimed n now c xs le t = record {
    holds = t.holds;
    order = InOrder-later n now c.next_activation c.previous none xs le t.order;
  }

  whole :
      (before n : ℕ) (c : Clock) (q : Queue)
      → Implements before n c q
      → queue_of events c q.events ≡ q
  whole before n c q i = λ k. record { events = q.events; queued = i.queued k; times = i.times k }

  pub one_call :
      (n now : ℕ) (call : Call) (c : Clock) (q : Queue)
      → Implements events n c q
      → n ≤ now
      → now < 2 ^ 63
      → IsAllowed events now call q
      → Refines events now call c q
  one_call n now call c q i le k a =
      let same = whole events n c q i in
      subst (λ r. Refines events now call c r) same
        (step-Refines events now call c q.events k (later-IsTimed n now c q.events le i.timed)
          (subst (λ r. IsAllowed events now call r) (sym same) a))

  -- Any calls of `startAt`, of `startIn` without a delay, `dequeue` and `readFirstPending`, as time
  -- passes, return and answer as a list of events does: an event whose time has come goes to the
  -- front, one in the future behind those that are not later, the timer is started exactly for the
  -- next event in the future, and the first event is handed out once it is due. An event that is in
  -- the queue without being marked as queued must not be started, and times are below 2 ^ 63.
  pub run-run_queue :
      (calls : List (ℕ × Call)) (n : ℕ) (c : Clock) (q : Queue)
      → Implements events n c q
      → AreAllowed events n calls q
      → (d : Clock) × (run calls c ≡ some (d, (run_queue calls q).1))
        × Implements events (last_time n calls) d (run_queue calls q).0
  unfolding run run_queue Refines
  run-run_queue [] n c q i a = (c, refl, i)
  run-run_queue ((now, call) ∷ calls) n c q i (le, k, here, rest) =
      let (d, r, i') = one_call n now call c q i le k here in
      let (d', r', i'') = run-run_queue calls now d (on_queue now call q).0 i' rest in
      (d', rw (r, r') refl, i'')
