-- ===== src/System/Restart.antt =====
-- `Task::reset` of src/task.cpp: a task that has run waits again, or is queued again at once.
pub mod Replay
pub mod Steps
pub mod Outcome
use mathlib.Core.Path.{subst}
use tasking_framework.Base.{
  ℕ, ◌<◌, ◌≡◌, ◌==◌, ◌∙◌, ap, refl, inl, inr, false, ◌&&◌, Bool-cases, some, List, arith,
  if◌then◌else◌, ◌∈◌, ◌∉◌, update_ne,
}
use tasking_framework.Policy.Interface.{SchedulePolicy}
use tasking_framework.System.World.{
  task_wait, task_run, task_reset, World, Platform, set_state, inputs_activated,
}
use tasking_framework.System.Queued.{IsQueued, after_perform, perform-IsQueued}
use tasking_framework.System.Reset.{finish_reset, reset, is_pending}
use tasking_framework.System.Resetting.{Resetting, Reset, array_reset-Resetting}

module _ (policy : SchedulePolicy) {E : Type 0} (platform : Platform E) where
  open policy use {State, tasks}

  module _ (t : ℕ) (w : World State E) (xs : List ℕ) (b : t < tasks) where
    -- How a reset ends: the task waits and the run queue is as before, or its inputs were activated
    -- again and it is in TASK_RUN, placed in the run queue if the scheduler runs.
    pub data Restarts (w' : World State E) : Type 0 where
      waits : (w'.tasks t).state ≡ task_wait → IsQueued policy platform w' xs → Restarts w'
      runs :
          (w'.tasks t).state ≡ task_run
          → IsQueued policy platform w' (after_perform policy platform t w xs)
          → Restarts w'

    -- What a reset leaves alone.
    pub record Unchanged (w' : World State E) : Type 0 where
      pub owner : (i : ℕ) → (w'.inputs i).task ≡ (w.inputs i).task
      pub others : (a : ℕ) → (t == a) ≡ false → w'.tasks a ≡ w.tasks a
      pub running : w'.running ≡ w.running
      pub next : (w'.tasks t).next_task_at_scheduler ≡ (w.tasks t).next_task_at_scheduler

    finish-Restarts :
        (w' : World State E)
        → Resetting policy platform t w xs w'
        → t ∉ xs
        → (w'' : World State E) × (finish_reset policy platform t w' ≡ some w'')
          × Restarts w''
          × Unchanged w''
    unfolding finish_reset
    finish-Restarts w' r out =
        elim (Bool-cases (is_pending (w'.tasks t).state && inputs_activated t w')) [
          | inl again ↦
              let (w'', done, q, changed, same) =
                perform-IsQueued policy platform t w' xs r.queued b out in
              (
                w'',
                rw again done,
                runs (ap (λ f. (f t).state) changed ∙ ground arith) (
                    subst (IsQueued policy platform w'')
                      (ap (λ on. if on then policy.place t xs else xs) r.running) q),
                record {
                  owner = λ i. ap (λ f. (f i).task) same.inputs ∙ r.owner i;
                  others =
                      λ a ne. ap (λ f. f a) changed ∙ update_ne w'.tasks t _ a ne ∙ r.others a ne;
                  running = same.running ∙ r.running;
                  next = ap (λ f. (f t).next_task_at_scheduler) changed ∙ ground (arith, r.next);
                },
              )
          | inr idle ↦ (
            set_state t task_wait w',
            rw idle refl,
            waits (ground arith) (record {
              holds = r.queued.holds;
              in_run = λ a m. ground (arith, r.queued.in_run a m);
            }),
            record {
              owner = r.owner;
              others = λ a ne. update_ne w'.tasks t _ a ne ∙ r.others a ne;
              running = r.running;
              next = ground (arith, r.next);
            },
          )
        ]

    pub begin-Resetting :
        IsQueued policy platform w xs
        → t ∉ xs
        → Resetting policy platform t w xs (set_state t task_reset w)
    begin-Resetting q out = record {
      queued = record { holds = q.holds; in_run = λ a m. ground (arith, q.in_run a m) };
      resetting = inl (ground arith);
      owner = λ j. refl;
      others = λ a ne. update_ne w.tasks t _ a ne;
      members = ground arith;
      next = ground arith;
      running = refl;
    }

    pub reset-Unchanged :
        IsQueued policy platform w xs
        → t ∉ xs
        → ((i : ℕ) → i ∈ (w.tasks t).inputs → (w.inputs i).task ≡ some t)
        → (w' : World State E) × (reset policy platform t w ≡ some w') × Restarts w' × Unchanged w'
    unfolding reset Reset
    reset-Unchanged q out own =
        let (w₁, done, r) =
          array_reset-Resetting policy platform t w xs b (w.tasks t).inputs
            (set_state t task_reset w) own (begin-Resetting q out) in
        let (w₂, done', e, same) = finish-Restarts w₁ r out in (w₂, rw done done', e, same)
