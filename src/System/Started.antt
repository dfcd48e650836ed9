-- ===== src/System/Started.antt =====
-- `Scheduler::start` of src/scheduler.cpp, with and without a reset of the associated tasks.
use tasking_framework.Base.{
  ℕ, zero, suc, ◌+◌, ◌≡◌, ◌<◌, ◌∙◌, refl, inl, inr, ap, Bool, true, false, Bool-cases, ◌>>=◌, some,
  List, [], ◌∷◌, arith, Ptr, ◌∈◌, ◌∉◌, length, if◌then◌else◌, Chain, Distinct, Distinct-length-le,
  Below-each,
}
use tasking_framework.Policy.Interface.{SchedulePolicy}
use tasking_framework.System.World.{World, Platform, inputs_activated}
use tasking_framework.System.Activation.{perform}
use tasking_framework.System.Group.{differ}
use tasking_framework.System.Execution.{start_one, start_loop, start}
use tasking_framework.System.Counting.{in_turn}

module _ (policy : SchedulePolicy) {E : Type 0} (platform : Platform E) where
  open policy use {State, tasks, queue, Holds, place, has-place, queue-place}

  abbrev next_task_of : World State E → ℕ → Ptr
  next_task_of w t = (w.tasks t).next_task_at_scheduler

  -- The tasks that are associated to the scheduler, in the order of its list.
  abbrev pub Associated : World State E → List ℕ → Type 0
  Associated w ts = Chain (next_task_of w) w.associated_tasks ts

  -- The run queue after the activated tasks of a list have been placed in it.
  abbrev pub with_activated : (ℕ → Bool) → List ℕ → List ℕ → List ℕ
  with_activated activated [] xs = xs
  with_activated activated (t ∷ ts) xs =
      with_activated activated ts (if activated t then place t xs else xs)

  -- The state with this run queue and this number of signals.
  abbrev pub with_queue : World State E → State → ℕ → World State E
  with_queue w q n = record w { queue = q; signals = n }

  same_activated :
      (t : ℕ) (w : World State E) (s : State) (n : ℕ)
      → inputs_activated t (with_queue w s n) ≡ inputs_activated t w
  unfolding inputs_activated
  same_activated t w s n = refl

  performed :
      (t : ℕ) (w : World State E) (s q : State) (n : ℕ) (b : Bool)
      → w.running ≡ true
      → queue t s ≡ some (q, b)
      → perform policy platform t (with_queue w s n) ≡ some (with_queue w q (n + 1))
  unfolding perform
  performed t w s q n b on e =
      ap
        (λ r.
          if r
          then queue t s >>= (λ p. some (with_queue w p.0 (n + 1)))
          else some (with_queue w s n))
        on
      ∙ ap (λ r. r >>= (λ p. some (with_queue w p.0 (n + 1)))) e

  abbrev Placed : ℕ → Ptr → List ℕ → World State E → List ℕ → State → ℕ → Type 0
  Placed fuel p ts w xs s n =
      (q : State) × (k : ℕ) × (start_loop policy platform false fuel p (with_queue w s n)
        ≡ some (with_queue w q k))
      × Holds q (with_activated (λ t. inputs_activated t w) ts xs)

  start_loop-place :
      (fuel : ℕ) (p : Ptr) (ts : List ℕ) (w : World State E) (xs : List ℕ) (s : State) (n : ℕ)
      → w.running ≡ true
      → Chain (next_task_of w) p ts
      → length ts < fuel
      → Distinct ts
      → ((a : ℕ) → a ∈ ts → a < tasks)
      → Holds s xs
      → ((a : ℕ) → a ∈ ts → a ∉ xs)
      → Placed fuel p ts w xs s n
  unfolding start_loop start_one
  start_loop-place zero p ts w xs s n on c b d known h out = absurd (omega arith)
  start_loop-place (suc fuel) p [] w xs s n on c b d known h out = (s, n, rw c refl, h)
  start_loop-place (suc fuel) p (t ∷ ts) w xs s n on c b d known h out =
      let here : t ∈ (t ∷ ts) = ground arith in
      elim (Bool-cases (inputs_activated t w)) [
        | inl go ↦
            let (q, e, h') = queue-place t s xs h (known t here) (out t here) in
            let (q', k, done, h'') =
              start_loop-place fuel (next_task_of w t) ts w (place t xs) q (n + 1) on c.1
                (omega arith) d.1 (λ a m. known a (ground arith)) h'
                (λ a m. ground (arith, has-place a t xs, out a, differ t a ts d.0 m)) in
            (
              q',
              k,
              rw (c.0, same_activated t w s n ∙ go)
                  (in_turn (λ v. start_loop policy platform false fuel (next_task_of v t) v)
                    (performed t w s q n _ on e) done),
              rw go h'',
            )
        | inr stay ↦
            let (q', k, done, h'') =
              start_loop-place fuel (next_task_of w t) ts w xs s n on c.1 (omega arith) d.1
                (λ a m. known a (ground arith)) h (λ a m. out a (ground arith)) in
            (q', k, rw (c.0, same_activated t w s n ∙ stay) done, rw stay h'')
      ]

  -- `start` without a reset returns. It places the associated tasks whose inputs are activated in the
  -- run queue, one after the other in the order of the scheduler's list, and starts the scheduler;
  -- nothing else changes but the number of signals, so that the tasks keep their states. The
  -- associated tasks are distinct tasks of the application that are not in the run queue.
  pub start-place :
      (ts : List ℕ) (w : World State E) (xs : List ℕ)
      → Associated w ts
      → Distinct ts
      → ((a : ℕ) → a ∈ ts → a < tasks)
      → Holds w.queue xs
      → ((a : ℕ) → a ∈ ts → a ∉ xs)
      → (q : State) × (n : ℕ) × (start policy platform false w
          ≡ some (record w { running = true; queue = q; signals = n }))
        × Holds q (with_activated (λ t. inputs_activated t w) ts xs)
  unfolding start inputs_activated
  start-place ts w xs c d known h out =
      let bound = Distinct-length-le tasks ts d (Below-each tasks ts known) in
      start_loop-place (suc tasks) w.associated_tasks ts (record w { running = true }) xs w.queue
        w.signals refl c (omega (arith, bound)) d known h out
