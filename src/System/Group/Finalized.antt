-- ===== src/System/Group/Finalized.antt =====
-- `finalizeExecution` of src/task.cpp and src/taskGroup.cpp for a task in a group.
use mathlib.Core.Path.{subst}
use tasking_framework.Base.{
  ℕ, ◌≡◌, ◌≢◌, ◌==◌, ◌∙◌, ap, refl, inl, inr, Bool, true, false, ◌&&◌, Bool-cases, none, some, List,
  [], ◌∷◌, arith, Ptr, ◌∈◌, ◌∉◌,
}
use tasking_framework.Policy.Interface.{SchedulePolicy}
use tasking_framework.System.World.{
  TaskState, task_wait, task_run, task_finish, task_reset, task_pending, World, Platform, set_state,
}
use tasking_framework.System.Queued.{IsQueued}
use tasking_framework.System.Reset.{
  is_finish, are_all_executed, group_finalize, finalize_in, finalize_execution,
}
use tasking_framework.System.Group.{
  members, equal, tail, AreRestarted, CanRestart, group_reset-AreRestarted,
}

finished : (s : TaskState) → is_finish s ≡ true → s ≡ task_finish
unfolding is_finish
finished task_finish e = refl
finished task_wait e = absurd (cc)
finished task_run e = absurd (cc)
finished task_reset e = absurd (cc)
finished task_pending e = absurd (cc)

not_finished : (s : TaskState) → is_finish s ≡ false → s ≢ task_finish
unfolding is_finish
not_finished task_finish e f = absurd (cc)
not_finished task_wait e f = absurd (cc)
not_finished task_run e f = absurd (cc)
not_finished task_reset e f = absurd (cc)
not_finished task_pending e f = absurd (cc)

module _ (policy : SchedulePolicy) {E : Type 0} (platform : Platform E) where
  open policy use {State, tasks}

  -- Whether every task of the group has run, or one of them has not.
  data IsDecided (slots : List Ptr) (w : World State E) (executed : Bool) : Type 0 where
    all :
        executed ≡ true
        → ((a : ℕ) → a ∈ members slots → (w.tasks a).state ≡ task_finish)
        → IsDecided slots w executed
    one :
        executed ≡ false
        → (a : ℕ) → a ∈ members slots
        → (w.tasks a).state ≢ task_finish
        → IsDecided slots w executed

  executed_behind :
      (t : ℕ) (slots : List Ptr) (w : World State E) (executed : Bool)
      → is_finish (w.tasks t).state ≡ true
      → IsDecided slots w executed
      → IsDecided (some t ∷ slots) w (is_finish (w.tasks t).state && executed)
  executed_behind t slots w executed y (all e f) = all (rw (y, e) refl) (λ a m.
      elim (Bool-cases (t == a)) [
        | inl z ↦
            subst (λ n. (w.tasks n).state ≡ task_finish) (equal t a z)
              (finished (w.tasks t).state y)
        | inr z ↦ f a (tail t a (members slots) m z)
      ])
  executed_behind t slots w executed y (one e a m ne) = one (rw (y, e) refl) a (ground arith) ne

  IsDecided-cons :
      (t : ℕ) (slots : List Ptr) (w : World State E) (executed : Bool)
      → IsDecided slots w executed
      → IsDecided (some t ∷ slots) w (is_finish (w.tasks t).state && executed)
  IsDecided-cons t slots w executed d = elim (Bool-cases (is_finish (w.tasks t).state)) [
    | inr n ↦ one (rw n refl) t (ground arith) (not_finished (w.tasks t).state n)
    | inl y ↦ executed_behind t slots w executed y d
  ]

  are_all_executed-IsDecided :
      (slots : List Ptr) (w : World State E)
      → IsDecided slots w (are_all_executed policy platform slots w)
  unfolding are_all_executed
  are_all_executed-IsDecided [] w = all refl (λ a m. absurd (cc))
  are_all_executed-IsDecided (none ∷ slots) w = all refl (λ a m. absurd (cc))
  are_all_executed-IsDecided (some t ∷ slots) w =
      IsDecided-cons t slots w (are_all_executed policy platform slots w)
        (are_all_executed-IsDecided slots w)

  -- How a task of a group ends its execution.
  pub data Finalizes (ts : List ℕ) (w : World State E) (xs : List ℕ) (w' : World State E)
      : Type 0 where
    resets :
        (ys : List ℕ)
        → ((a : ℕ) → a ∈ ts → (w.tasks a).state ≡ task_finish)
        → AreRestarted policy platform ts w xs w' ys
        → Finalizes ts w xs w'
    awaits : (a : ℕ) → a ∈ ts → (w.tasks a).state ≢ task_finish → w' ≡ w → Finalizes ts w xs w'

  -- When a task that is in a group and not in the run queue has run, it is marked as finished, and
  -- the call returns. If a task of the group has not finished, that is all. If all have, every task
  -- of the group is reset: it waits outside of the run queue, or it is in TASK_RUN and queued if the
  -- scheduler runs; no other task changes or is queued. The tasks of the group are distinct, and the
  -- inputs of each belong to it.
  pub finalize_execution-Finalizes :
      (t g : ℕ) (w : World State E) (xs : List ℕ)
      → (w.tasks t).group ≡ some g
      → IsQueued policy platform w xs
      → t ∉ xs
      → CanRestart policy platform (members (w.groups g)) (set_state t task_finish w)
      → (w' : World State E) × (finalize_execution policy platform t w ≡ some w')
        × Finalizes (members (w.groups g)) (set_state t task_finish w) xs w'
  unfolding finalize_execution group_finalize
  finalize_execution-Finalizes t g w xs e q out c =
      let w₀ = set_state t task_finish w in
      let q₀ : IsQueued policy platform w₀ xs = record {
        holds = q.holds;
        in_run = λ a m. ground (arith, q.in_run a m, out);
      } in
      let asked : finalize_execution policy platform t w
          ≡ group_finalize policy platform (w.groups g) w₀ =
        ap (λ p. finalize_in policy platform p t w) e in
      elim (are_all_executed-IsDecided (w.groups g) w₀) [
        | all y f ↦
            let (w', ys, done, r) =
              group_reset-AreRestarted policy platform (w.groups g) w₀ xs c q₀ f in
            (w', asked ∙ rw y done, resets ys f r)
        | one n a m ne ↦ (w₀, asked ∙ rw n refl, awaits a m ne refl)
      ]
