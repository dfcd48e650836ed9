-- ===== src/System/UnitTest/Drained.antt =====
-- The inner loop of `schedule` of src/schedulerUnitTest.cpp ends: every execution takes a task out of
-- the run queue or consumes notifications that were pending.
use tasking_framework.Base.{
  ℕ, zero, suc, ◌+◌, ◌≡◌, ◌≤◌, ◌<◌, ◌∙◌, ◌==◌, refl, inl, inr, Bool-cases, eq_of_test, ap, true,
  false, Option, none, some, List, [], ◌∷◌, arith, ◌∈◌, ◌∉◌, has, length,
}
use mathlib.Core.Path.{subst}
use tasking_framework.Policy.Interface.{SchedulePolicy}
use tasking_framework.System.World.{task_wait, World, Platform}
use tasking_framework.System.Execution.{execute}
use tasking_framework.System.UnitTest.{run_read, run_tasks}
use tasking_framework.System.Counting.{total, SameWiring, SameWiring-trans}
use tasking_framework.System.Executed.{IsQuiet, IsSound, Executes, execute-Executes}

-- A loop that ends in its first round, or one round later than another.
pub at_once :
    {A : Type 0} (n : ℕ) (f : ℕ → A) (r : A) → ((k : ℕ) → f (suc k) ≡ r) → (k : ℕ) → n < k → f k ≡ r
at_once n f r e zero b = absurd (omega arith)
at_once n f r e (suc k) b = e k

pub one_later :
    {A : Type 0} (n : ℕ) (f g : ℕ → A) (r : A)
    → ((k : ℕ) → n < k → g k ≡ r)
    → ((k : ℕ) → f (suc k) ≡ g k)
    → (k : ℕ) → suc n < k
    → f k ≡ r
one_later n f g r ends e zero b = absurd (omega arith)
one_later n f g r ends e (suc k) b = e k ∙ ends k (omega arith)

module _ (policy : SchedulePolicy) {E C : Type 0} (platform : Platform E) (time : E → C)
    (body : ℕ → World policy.State E → Option (World policy.State E))
    (quiet : IsQuiet policy platform time body) where
  open policy use {State, tasks, next_task, next_task-nil, next_task-cons, Holds-Distinct}

  -- The run queue is empty, every task that was in it waits, and no other task has changed.
  pub record IsDrained (w : World State E) (xs : List ℕ) (w' : World State E) : Type 0 where
    pub sound : IsSound policy platform time w' []
    pub wiring : SameWiring policy platform time w w'
    pub waiting : (a : ℕ) → a ∈ xs → (w'.tasks a).state ≡ task_wait
    pub others : (a : ℕ) → a ∉ xs → w'.tasks a ≡ w.tasks a

  -- Executing one task and then the others.
  IsDrained-cons :
      (t : ℕ) (xs : List ℕ) (w w' w'' : World State E)
      → t ∉ xs
      → (x : Executes policy platform time body quiet t w xs w') → IsDrained w' x.queue w''
      → IsDrained w (t ∷ xs) w''
  IsDrained-cons t xs w w' w'' out x d = record {
    sound = d.sound;
    wiring = SameWiring-trans policy platform time w w' w'' x.wiring d.wiring;
    waiting = λ a m. elim (Bool-cases (t == a)) [
      | inl e ↦
          subst (λ n. (w''.tasks n).state ≡ task_wait) (eq_of_test t a e)
            (elim x.ended [
              | inl q ↦ d.waiting t q
              | inr s ↦ elim (Bool-cases (has t x.queue)) [
                | inl q ↦ d.waiting t q
                | inr o ↦ ap (λ task. task.state) (d.others t o) ∙ s
              ]
            ])
      | inr n ↦ d.waiting a (x.places a n ∙ ground arith)
    ];
    others = λ a o.
        let n : t == a ≡ false = ground arith in
        d.others a (x.places a n ∙ ground arith) ∙ x.others a n;
  }

  popped :
      (w : World State E) (q : State) → SameWiring policy platform time w (record w { queue = q })
  popped w q = record {
    lists = λ c. refl;
    next = λ i. refl;
    owner = λ i. refl;
    thresholds = λ i. refl;
    members = λ a. refl;
    groups = λ a. refl;
    running = refl;
    times = refl;
  }

  IsSound-popped :
      (w : World State E) (q : State) (ys xs : List ℕ)
      → IsSound policy platform time w ys
      → policy.Holds q xs
      → ((a : ℕ) → a ∈ xs → a ∈ ys)
      → IsSound policy platform time (record w { queue = q }) xs
  IsSound-popped w q ys xs s h sub = record {
    queued = record { holds = h; in_run = λ a m. s.queued.in_run a (sub a m) };
    known = s.known;
    consistent = s.consistent;
    own = s.own;
    bound = s.bound;
    alone = s.alone;
  }

  IsDrained-popped :
      (xs : List ℕ) (w w' : World State E) (q : State)
      → IsDrained (record w { queue = q }) xs w'
      → IsDrained w xs w'
  IsDrained-popped xs w w' q d = record {
    sound = d.sound;
    wiring =
        SameWiring-trans policy platform time w (record w { queue = q }) w' (popped w q) d.wiring;
    waiting = d.waiting;
    others = d.others;
  }

  last_round :
      (fuel : ℕ) (w : World State E) (q : State)
      → next_task w.queue ≡ some (q, none)
      → run_tasks policy platform body (suc fuel) w ≡ some (record w { queue = q })
  unfolding run_tasks run_read
  last_round fuel w q read = rw read refl

  one_round :
      (fuel : ℕ) (w w' : World State E) (q : State) (t : ℕ)
      → next_task w.queue ≡ some (q, some t)
      → execute policy platform body t (record w { queue = q }) ≡ some w'
      → run_tasks policy platform body (suc fuel) w ≡ run_tasks policy platform body fuel w'
  unfolding run_tasks run_read
  one_round fuel w w' q t read done = rw (read, done) refl

  -- While the scheduler runs, the loop over the run queue ends, within as many rounds as there are
  -- tasks in the run queue and notifications pending, and one to find the queue empty. Then every task
  -- that was in the run queue waits, the run queue is empty, and no other task has changed. More fuel
  -- gives the same result. The tasks are in no group, own the inputs that they name and send nothing,
  -- and the counters of the inputs are consistent.
  pub run_tasks-IsDrained :
      (n : ℕ) (w : World State E) (xs : List ℕ)
      → IsSound policy platform time w xs
      → w.running ≡ true
      → length xs + total w.inputs platform.inputs ≤ n
      → (w' : World State E) × ((fuel : ℕ)
          → n < fuel
          → run_tasks policy platform body fuel w ≡ some w')
        × IsDrained w xs w'
  run_tasks-IsDrained n w [] s on b =
      let (q, read, h) = next_task-nil w.queue s.queued.holds in
      let w' = record w { queue = q } in
      (
        w',
        at_once n (λ fuel. run_tasks policy platform body fuel w) (some w')
            (λ fuel. last_round fuel w q read),
        record {
          sound = IsSound-popped w q [] [] s h (λ a m. m);
          wiring = popped w q;
          waiting = λ a m. absurd (cc);
          others = λ a o. refl;
        },
      )
  run_tasks-IsDrained zero w (x ∷ xs) s on b = absurd (omega arith)
  run_tasks-IsDrained (suc n) w (x ∷ xs) s on b =
      let (q, read, h) = next_task-cons w.queue x xs s.queued.holds in
      let once = Holds-Distinct w.queue (x ∷ xs) s.queued.holds in
      let v = record w { queue = q } in
      let (w', done, e) =
        execute-Executes policy platform time body quiet x v xs
          (IsSound-popped w q (x ∷ xs) xs s h (λ a m. ground arith))
          (s.known x (s.queued.in_run x (ground arith))) once.0 on in
      let (w'', ends, d) =
        run_tasks-IsDrained n w' e.queue e.sound (e.wiring.running ∙ on) (omega (arith, e.fewer)) in
      (
        w'',
        one_later n (λ fuel. run_tasks policy platform body fuel w)
            (λ fuel. run_tasks policy platform body fuel w') (some w'') ends
            (λ fuel. one_round fuel w w' q x read done),
        IsDrained-popped (x ∷ xs) w w'' q (IsDrained-cons x xs v w' w'' once.0 e d),
      )
