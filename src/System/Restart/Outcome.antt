-- ===== src/System/Restart/Outcome.antt =====
-- `Task::reset` of src/task.cpp: what happens to the inputs, to their channels and to what lies
-- outside, and when the task runs again.
use mathlib.Core.Path.{subst}
use tasking_framework.Base.{
  ℕ, ◌<◌, ◌≡◌, ◌==◌, ◌∙◌, ap, refl, inl, inr, Bool, false, ◌&&◌, Bool-cases, some, List, map, arith,
  if◌then◌else◌, ◌∈◌, ◌∉◌, update_self, update_ne,
}
use tasking_framework.InputArray.{array_is_activated}
use tasking_framework.Policy.Interface.{SchedulePolicy}
use tasking_framework.System.World.{
  TaskState, task_wait, task_run, task_reset, task_pending, World, Platform, set_state,
  inputs_activated,
}
use tasking_framework.System.Queued.{IsQueued, perform-IsQueued}
use tasking_framework.System.Reset.{is_pending, finish_reset, reset}
use tasking_framework.System.Resetting.{Resetting}
use tasking_framework.System.Restart.{begin-Resetting}
use tasking_framework.System.Restart.Replay.{
  link_of, kind_of, reset_all, reactivates, feeds, refilled, reset_outside,
}
use tasking_framework.System.Restart.Steps.{ResetsInputs, array_reset-ResetsInputs}

module _ (policy : SchedulePolicy) {E : Type 0} (platform : Platform E) where
  open policy use {State, tasks, place}

  pending_state :
      (b : Bool) (s s' : TaskState)
      → s ≡ (if b then task_pending else s')
      → s' ≡ task_reset
      → is_pending s ≡ b
  unfolding is_pending
  pending_state b s s' e r = ground (arith, e, r)

  module _ (t : ℕ) (w : World State E) (xs : List ℕ) (b : t < tasks) where
    -- Whether the task runs again: a reset of one of its inputs activates it, and its inputs activate it
    -- still after all of them are reset.
    abbrev pub runs_again : Bool
    runs_again =
        let task = w.tasks t in
        reactivates task.condition task.inputs task.inputs w.inputs
        && array_is_activated task.condition (map (reset_all task.inputs w.inputs) task.inputs)

    -- What a reset does to the state.
    pub record Outcome (w' : World State E) : Type 0 where
      pub state : (w'.tasks t).state ≡ (if runs_again then task_run else task_wait)
      pub queued : IsQueued policy platform w' (if runs_again && w.running then place t xs else xs)
      pub inputs : w'.inputs ≡ reset_all (w.tasks t).inputs w.inputs
      pub channels :
          (c : ℕ)
          → w'.channels c ≡ refilled (feeds (link_of w.inputs) c (w.tasks t).inputs) (w.channels c)
      pub rest :
          w'.rest
          ≡ reset_outside policy platform
              (kind_of w.channels)
              (link_of w.inputs)
              (w.tasks t).inputs
              w.rest
      pub others : (a : ℕ) → (t == a) ≡ false → w'.tasks a ≡ w.tasks a
      pub running : w'.running ≡ w.running

    decided :
        (w₁ : World State E)
        → ResetsInputs policy platform t (w.tasks t).inputs (set_state t task_reset w) w₁
        → (is_pending (w₁.tasks t).state && inputs_activated t w₁) ≡ runs_again
    unfolding is_pending inputs_activated
    decided w₁ r =
        let is = (w.tasks t).inputs in
        let condition = (w.tasks t).condition in
        let self = update_self w.tasks t (record (w.tasks t) { state = task_reset }) in
        let again = ap (λ task. reactivates task.condition task.inputs is w.inputs) self in
        let activated =
          ap (λ c. array_is_activated c (map w₁.inputs (w₁.tasks t).inputs))
            (r.condition ∙ ap (λ task. task.condition) self)
          ∙ ap (λ m. array_is_activated condition (map w₁.inputs m))
              (r.members ∙ ap (λ task. task.inputs) self)
          ∙ ap (λ f. array_is_activated condition (map f is)) r.inputs in
        let pending = pending_state _ _ _ r.state (ap (λ task. task.state) self) ∙ again in
        rw (pending, activated) refl

    finish-Outcome :
        (w₁ : World State E)
        → Resetting policy platform t w xs w₁
        → ResetsInputs policy platform t (w.tasks t).inputs (set_state t task_reset w) w₁
        → t ∉ xs
        → (w' : World State E) × (finish_reset policy platform t w₁ ≡ some w') × Outcome w'
    unfolding finish_reset
    finish-Outcome w₁ r i out =
        let same = decided w₁ i in
        elim (Bool-cases runs_again) [
          | inl again ↦
              let (u, done, q, changed, parts) =
                perform-IsQueued policy platform t w₁ xs r.queued b out in
              (
                u,
                rw (same, again) done,
                record {
                  state = ap (λ f. (f t).state) changed ∙ ground (arith, again);
                  queued = subst (IsQueued policy platform u) (rw (again, r.running) refl) q;
                  inputs = parts.inputs ∙ i.inputs;
                  channels = λ c. ap (λ f. f c) parts.channels ∙ i.channels c;
                  rest = parts.rest ∙ i.rest;
                  others =
                      λ a ne. ap (λ f. f a) changed ∙ update_ne w₁.tasks t _ a ne ∙ r.others a ne;
                  running = parts.running ∙ r.running;
                },
              )
          | inr idle ↦ (
            set_state t task_wait w₁,
            rw (same, idle) refl,
            record {
              state = ground (arith, idle);
              queued = rw idle (record {
                holds = r.queued.holds;
                in_run = λ a m. ground (arith, r.queued.in_run a m);
              });
              inputs = i.inputs;
              channels = i.channels;
              rest = i.rest;
              others = λ a ne. update_ne w₁.tasks t _ a ne ∙ r.others a ne;
              running = r.running;
            },
          )
        ]

    -- Resetting a task that is not in the run queue, and all of whose inputs belong to it, always
    -- returns. Each of its inputs is reset in turn, the barriers of its inputs count from their start
    -- values again, and the channels of other classes are reset. The task goes to TASK_RUN, and into the
    -- run queue if the scheduler runs, exactly when a reset of one of its inputs activates it and its
    -- inputs activate it after all the resets too; else it waits and the run queue is as before. No other
    -- task changes.
    pub reset-Outcome :
        IsQueued policy platform w xs
        → t ∉ xs
        → ((i : ℕ) → i ∈ (w.tasks t).inputs → (w.inputs i).task ≡ some t)
        → (w' : World State E) × (reset policy platform t w ≡ some w') × Outcome w'
    unfolding reset
    reset-Outcome q out own =
        let (w₁, done, r, i) =
          array_reset-ResetsInputs policy platform t w xs b (w.tasks t).inputs
            (set_state t task_reset w) (begin-Resetting policy platform t w xs b q out) own in
        let (w₂, done', o) = finish-Outcome w₁ r i out in (w₂, rw done done', o)
