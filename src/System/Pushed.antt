-- ===== src/System/Pushed.antt =====
-- `push` of src/taskChannel.cpp keeps the state of an application in order: the run queue, the counters of
-- the inputs, and the wiring.
use mathlib.Core.Path.{subst, fun_ext}
use tasking_framework.Base.{
  ℕ, ◌^◌, ◌≡◌, ◌≤◌, ◌<◌, ◌∙◌, inl, inr, ap, sym, true, Bool-cases, some, List, arith, has, length,
  Distinct, Chain,
}
use tasking_framework.Input.{Input, notify, is_activated}
use tasking_framework.Input.Counts.{IsConsistent}
use tasking_framework.Policy.Interface.{SchedulePolicy}
use tasking_framework.System.World.{World, Platform}
use tasking_framework.System.Activation.{push}
use tasking_framework.System.Push.{
  next_input, Connected, IsExact, Notifies, next_input-Notifies, task-Notifies, push-Notifies,
}
use tasking_framework.System.Counting.{SameWiring}
use tasking_framework.System.Executed.{IsSound, IsSound-after}

notify-IsConsistent :
    (i : Input) → IsConsistent i → i.activation_threshold < 2 ^ 32 → IsConsistent (notify i).0
unfolding notify is_activated
notify-IsConsistent i c b = ground arith

notify_threshold : (i : Input) → (notify i).0.activation_threshold ≡ i.activation_threshold
unfolding notify
notify_threshold i = ground arith

module _ (policy : SchedulePolicy) {E C : Type 0} (platform : Platform E) (time : E → C) where
  open policy use {State, tasks}

  -- Each channel has a list of inputs of the application's tasks, and thresholds are 32-bit numbers.
  pub record IsLinked (w : World State E) (lists : ℕ → List ℕ) : Type 0 where
    pub chains : (c : ℕ) → Chain (next_input w) (w.channels c).inputs (lists c)
    pub once : (c : ℕ) → Distinct (lists c)
    pub short : (c : ℕ) → length (lists c) ≤ platform.inputs
    pub connected : (c : ℕ) → Connected policy platform w (lists c)
    pub narrow : (i : ℕ) → (w.inputs i).activation_threshold < 2 ^ 32

  pub IsLinked-after :
      (w w' : World State E) (lists : ℕ → List ℕ)
      → IsLinked w lists
      → SameWiring policy platform time w w'
      → IsLinked w' lists
  IsLinked-after w w' lists l s = record {
    chains = λ c.
        subst (λ p. Chain (next_input w') p (lists c)) (sym (s.lists c))
          (subst (λ next. Chain next (w.channels c).inputs (lists c)) (sym (fun_ext s.next))
            (l.chains c));
    once = l.once;
    short = l.short;
    connected = λ c i m. (let (t, e, b) = l.connected c i m in (t, s.owner i ∙ e, b));
    narrow = λ i. subst (λ n. n < 2 ^ 32) (sym (s.thresholds i)) (l.narrow i);
  }

  push-SameWiring :
      (is xs : List ℕ) (w w' : World State E)
      → Notifies policy platform w xs is w'
      → SameWiring policy platform time w w'
  push-SameWiring is xs w w' n = record {
    lists = λ c. ap (λ f. (f c).inputs) n.channels;
    next = next_input-Notifies policy platform w xs is w' n;
    owner = task-Notifies policy platform w xs is w' n;
    thresholds = λ i. ground (arith, n.inputs i, notify_threshold (w.inputs i));
    members = λ a. ap (λ shape. shape.0) (n.shape a);
    groups = λ a. ap (λ shape. shape.1) (n.shape a);
    running = n.running;
    times = ap time n.rest;
  }

  push-IsConsistent :
      (is xs : List ℕ) (w w' : World State E) (lists : ℕ → List ℕ)
      → Notifies policy platform w xs is w'
      → IsLinked w lists
      → ((i : ℕ) → IsConsistent (w.inputs i))
      → (i : ℕ) → IsConsistent (w'.inputs i)
  push-IsConsistent is xs w w' lists n l c i =
      subst IsConsistent (sym (n.inputs i)) (elim (Bool-cases (has i is)) [
        | inl m ↦ rw m (notify-IsConsistent (w.inputs i) (c i) (l.narrow i))
        | inr o ↦ rw o (c i)
      ])

  -- A push returns, and the state is in order still; neither the wiring nor what lies outside of the
  -- scheduler changes. Every task in TASK_RUN is in the run queue if that was so and the scheduler runs.
  pub push-IsSound :
      (c : ℕ) (w : World State E) (xs : List ℕ) (lists : ℕ → List ℕ)
      → IsSound policy platform time w xs
      → IsLinked w lists
      → (w' : World State E) × (push policy platform c w ≡ some w')
        × (ys : List ℕ) × IsSound policy platform time w' ys
        × SameWiring policy platform time w w'
        × (w'.rest ≡ w.rest)
        × (w.running ≡ true → IsExact policy platform w xs → IsExact policy platform w' ys)
  push-IsSound c w xs lists s l =
      let (w', done, n) =
        push-Notifies policy platform c (lists c) w xs s.queued (l.chains c) (l.once c)
          (l.connected c) (l.short c) in
      let wiring = push-SameWiring (lists c) xs w w' n in
      (
        w',
        done,
        n.queue,
        IsSound-after policy platform time w w' xs n.queue s wiring n.queued
            (λ a r. elim (n.started a r) [ inl r' ↦ s.known a r' | inr b ↦ b ])
            (push-IsConsistent (lists c) xs w w' lists n l s.consistent),
        wiring,
        n.rest,
        n.exact,
      )
