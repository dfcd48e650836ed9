-- ===== src/System/Queued.antt =====
-- Each task is at most once in the run queue: `activate` of src/task.cpp queues a task only from
-- TASK_WAIT, and the tasks in the queue are in TASK_RUN.
use tasking_framework.Base.{
  ℕ, ◌<◌, ◌≡◌, ◌==◌, ◌⊎◌, Bool, ◌&&◌, ◌+◌, ◌∙◌, if◌then◌else◌, sym, ap, update_self, update_ne,
  refl, inl, inr, true, false, Bool-cases, some, List, arith, ◌∈◌, ◌∉◌, has,
}
use tasking_framework.Policy.Interface.{SchedulePolicy}
use tasking_framework.System.World.{
  TaskState, task_wait, task_run, task_finish, task_reset, task_pending, World, Platform, set_state,
  inputs_activated, Task,
}
use tasking_framework.System.Activation.{perform, activate}

module _ (policy : SchedulePolicy) {E : Type 0} (platform : Platform E) where
  open policy use {State, tasks, queue, Holds, place, has-place, queue-place}

  -- The policy holds these tasks, each of which is in state TASK_RUN.
  pub record IsQueued (w : World State E) (xs : List ℕ) : Type 0 where
    pub holds : Holds w.queue xs
    pub in_run : (t : ℕ) → t ∈ xs → (w.tasks t).state ≡ task_run

  pub out_of_queue :
      (t : ℕ) (w : World State E) (xs : List ℕ) (s : TaskState)
      → IsQueued w xs
      → (w.tasks t).state ≡ s
      → (s ≡ task_run → ⊥)
      → t ∉ xs
  out_of_queue t w xs s q e ne = elim (Bool-cases (has t xs)) [
    | inl m ↦ absurd (ne (sym e ∙ q.in_run t m))
    | inr out ↦ out
  ]

  kept :
      (t : ℕ) (w : World State E) (xs : List ℕ)
      → IsQueued w xs
      → (a : ℕ) → a ∈ xs
      → ((set_state t task_run w).tasks a).state ≡ task_run
  kept t w xs q a m = ground (arith, q.in_run a m)

  entered :
      (t : ℕ) (w : World State E) (xs : List ℕ)
      → IsQueued w xs
      → (a : ℕ) → a ∈ place t xs
      → ((set_state t task_run w).tasks a).state ≡ task_run
  entered t w xs q a m = ground (arith, has-place a t xs, q.in_run a)

  -- The queue after a call of `perform`: unchanged unless the scheduler runs.
  abbrev pub after_perform : ℕ → World State E → List ℕ → List ℕ
  after_perform t w xs = if w.running then place t xs else xs

  -- What an activation leaves alone.
  pub record SameParts (w w' : World State E) : Type 0 where
    pub inputs : w'.inputs ≡ w.inputs
    pub channels : w'.channels ≡ w.channels
    pub groups : w'.groups ≡ w.groups
    pub running : w'.running ≡ w.running
    pub associated_tasks : w'.associated_tasks ≡ w.associated_tasks
    pub rest : w'.rest ≡ w.rest

  pub same_parts :
      (w : World State E) (f : ℕ → Task) (q : State) (n : ℕ)
      → SameParts w (record w { tasks = f; queue = q; signals = n })
  same_parts w f q n = record {
    inputs = refl;
    channels = refl;
    groups = refl;
    running = refl;
    associated_tasks = refl;
    rest = refl;
  }

  -- A task that is not in the run queue can be put into TASK_RUN and performed: it is placed in
  -- the queue if the scheduler runs.
  pub perform-IsQueued :
      (t : ℕ) (w : World State E) (xs : List ℕ)
      → IsQueued w xs
      → t < tasks
      → t ∉ xs
      → (w' : World State E) × (perform policy platform t (set_state t task_run w) ≡ some w')
        × IsQueued w' (after_perform t w xs)
        × (w'.tasks ≡ (set_state t task_run w).tasks)
        × SameParts w w'
  unfolding perform
  perform-IsQueued t w xs q b out =
      let (s', e, h) = queue-place t w.queue xs q.holds b out in
      elim (Bool-cases w.running) [
        | inl on ↦ (
          record (set_state t task_run w) { queue = s'; signals = w.signals + 1 },
          rw (on, e) refl,
          rw on (record { holds = h; in_run = entered t w xs q }),
          refl,
          same_parts w (set_state t task_run w).tasks s' (w.signals + 1),
        )
        | inr off ↦ (
          set_state t task_run w,
          rw off refl,
          rw off (record { holds = q.holds; in_run = kept t w xs q }),
          refl,
          same_parts w (set_state t task_run w).tasks w.queue w.signals,
        )
      ]

pub and_false : (b : Bool) → (b && false) ≡ false
and_false true = refl
and_false false = refl

pub and_true : (b : Bool) → (b && true) ≡ b
and_true true = refl
and_true false = refl

-- The state after an activation, by whether the inputs are activated: TASK_WAIT goes to TASK_RUN and
-- TASK_RESET to TASK_PENDING, and any other state stays.
unfoldable pub next_state : Bool → TaskState → TaskState
next_state true task_wait = task_run
next_state true task_reset = task_pending
next_state true s = s
next_state false s = s

keeps :
    (b : Bool) (s : TaskState) {r : TaskState}
    → r ≡ s
    → next_state true s ≡ s
    → next_state false s ≡ s
    → next_state b r ≡ r
keeps true s e f g = rw e f
keeps false s e f g = rw e g

-- Whether an activation starts the task.
unfoldable pub starts : Bool → TaskState → Bool
starts activated task_wait = activated
starts activated s = false

-- A task that runs after an activation ran before, or is started.
pub next_state-run :
    (b : Bool) (s : TaskState) → next_state b s ≡ task_run → (s ≡ task_run) ⊎ (starts b s ≡ true)
unfolding next_state starts
next_state-run true task_wait e = inr refl
next_state-run true task_run e = inl e
next_state-run true task_finish e = inl e
next_state-run true task_reset e = absurd (cc)
next_state-run true task_pending e = inl e
next_state-run false s e = inl e

module _ (policy : SchedulePolicy) {E : Type 0} (platform : Platform E) where
  open policy use {State, tasks, place}

  -- The queue after an activation.
  abbrev pub after_activate : ℕ → World State E → List ℕ → List ℕ
  after_activate t w xs =
      if w.running && starts (inputs_activated t w) (w.tasks t).state then place t xs else xs

  -- The outcome of an activation.
  pub record Activates (t : ℕ) (w : World State E) (xs : List ℕ) (w' : World State E) : Type 0 where
    pub queued : IsQueued policy platform w' (after_activate t w xs)
    pub task :
        w'.tasks t
        ≡ record (w.tasks t) { state = next_state (inputs_activated t w) (w.tasks t).state }
    pub others : (a : ℕ) → (t == a) ≡ false → w'.tasks a ≡ w.tasks a
    pub same : SameParts policy platform w w'

  Activation : ℕ → World State E → List ℕ → Type 0
  Activation t w xs =
      (w' : World State E) × (activate policy platform t w ≡ some w') × Activates t w xs w'

  stays :
      (t : ℕ) (w : World State E) (xs : List ℕ)
      → IsQueued policy platform w xs
      → activate policy platform t w ≡ some w
      → next_state (inputs_activated t w) (w.tasks t).state ≡ (w.tasks t).state
      → starts (inputs_activated t w) (w.tasks t).state ≡ false
      → Activation t w xs
  unfolding Activation
  stays t w xs q e n s = (
    w,
    e,
    record {
      queued = rw (s, and_false w.running) q;
      task = ap (λ state. record (w.tasks t) { state = state }) (sym n);
      others = λ a ne. refl;
      same = same_parts policy platform w w.tasks w.queue w.signals;
    },
  )

  becomes_pending :
      (t : ℕ) (w : World State E) (xs : List ℕ)
      → IsQueued policy platform w xs
      → (w.tasks t).state ≡ task_reset
      → inputs_activated t w ≡ true
      → Activation t w xs
  unfolding Activation activate next_state starts
  becomes_pending t w xs q e on =
      let out = out_of_queue policy platform t w xs task_reset q e (λ r. cc) in
      let goes : next_state (inputs_activated t w) (w.tasks t).state ≡ task_pending =
        rw (e, on) refl in
      let no_start : starts (inputs_activated t w) (w.tasks t).state ≡ false = rw e refl in
      (
        set_state t task_pending w,
        rw (e, on) refl,
        record {
          queued =
              rw (no_start, and_false w.running)
                (record { holds = q.holds; in_run = λ a m. ground (arith, q.in_run a m) });
          task =
              update_self w.tasks t _
              ∙ ap (λ state. record (w.tasks t) { state = state }) (sym goes);
          others = λ a ne. update_ne w.tasks t _ a ne;
          same = same_parts policy platform w _ w.queue w.signals;
        },
      )

  becomes_run :
      (t : ℕ) (w : World State E) (xs : List ℕ)
      → IsQueued policy platform w xs
      → t < tasks
      → (w.tasks t).state ≡ task_wait
      → inputs_activated t w ≡ true
      → Activation t w xs
  unfolding Activation activate next_state starts
  becomes_run t w xs q b e on =
      let out = out_of_queue policy platform t w xs task_wait q e (λ r. cc) in
      let goes : next_state (inputs_activated t w) (w.tasks t).state ≡ task_run = rw (e, on) refl in
      let start : starts (inputs_activated t w) (w.tasks t).state ≡ true = rw e on in
      let (w', done, q', changed, same) = perform-IsQueued policy platform t w xs q b out in
      (
        w',
        rw (e, on) done,
        record {
          queued = rw (start, and_true w.running) q';
          task =
              ap (λ f. f t) changed
              ∙ update_self w.tasks t _
              ∙ ap (λ state. record (w.tasks t) { state = state }) (sym goes);
          others = λ a ne. rw changed (update_ne w.tasks t _ a ne);
          same = same;
        },
      )

  by_state :
      (s : TaskState) (t : ℕ) (w : World State E) (xs : List ℕ)
      → IsQueued policy platform w xs
      → t < tasks
      → (w.tasks t).state ≡ s
      → Activation t w xs
  unfolding activate next_state starts
  by_state task_wait t w xs q b e = elim (Bool-cases (inputs_activated t w)) [
    | inl on ↦ becomes_run t w xs q b e on
    | inr off ↦ stays t w xs q (rw (e, off) refl) (rw (e, off) refl) (rw (e, off) refl)
  ]
  by_state task_run t w xs q b e =
      stays t w xs q (rw e refl) (keeps (inputs_activated t w) task_run e refl refl) (rw e refl)
  by_state task_finish t w xs q b e =
      stays t w xs q (rw e refl) (keeps (inputs_activated t w) task_finish e refl refl) (rw e refl)
  by_state task_reset t w xs q b e = elim (Bool-cases (inputs_activated t w)) [
    | inl on ↦ becomes_pending t w xs q e on
    | inr off ↦ stays t w xs q (rw (e, off) refl) (rw (e, off) refl) (rw e refl)
  ]
  by_state task_pending t w xs q b e =
      stays t w xs q (rw e refl) (keeps (inputs_activated t w) task_pending e refl refl) (rw e refl)

  -- Activating a task of the application always returns. The task goes from TASK_WAIT to TASK_RUN
  -- and from TASK_RESET to TASK_PENDING if its inputs are activated, and keeps its state otherwise;
  -- it is placed in the run queue exactly when it goes to TASK_RUN while the scheduler runs, where
  -- it was not before; no other task and no other part of the state changes but the signals.
  pub activate-Activates :
      (t : ℕ) (w : World State E) (xs : List ℕ)
      → IsQueued policy platform w xs
      → t < tasks
      → (w' : World State E) × (activate policy platform t w ≡ some w') × Activates t w xs w'
  unfolding Activation
  activate-Activates t w xs q b = by_state (w.tasks t).state t w xs q b refl
