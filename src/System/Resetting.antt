-- ===== src/System/Resetting.antt =====
-- `Task::reset` of src/task.cpp: what holds while the inputs of the task are reset.
use mathlib.Core.Path.{subst}
use tasking_framework.Base.{
  ℕ, ◌<◌, ◌≡◌, ◌==◌, ◌∙◌, ◌⊎◌, sym, ap, refl, inl, inr, Bool, true, false, Bool-cases, Option, none,
  some, List, [], ◌∷◌, arith, Ptr, ◌∈◌, update,
}
use tasking_framework.Input as Input
use tasking_framework.Policy.Interface.{SchedulePolicy}
use tasking_framework.System.World.{
  TaskState, task_wait, task_run, task_finish, task_reset, task_pending, World, Kind, plain,
  barrier, derived, Platform, set_input, inputs_activated,
}
use tasking_framework.System.Activation.{activate, activate_at, set_counter}
use tasking_framework.System.Queued.{
  IsQueued, Activates, activate-Activates, next_state, starts, and_false,
}
use tasking_framework.System.Reset.{channel_reset, reset_of, reset_at, input_reset, array_reset}

-- A reset changes the counters of an input alone.
pub reset_links :
    (i : Input.Input)
    → ((Input.reset i).0.task ≡ i.task)
      × ((Input.reset i).0.channel ≡ i.channel)
      × ((Input.reset i).0.channel_next_input ≡ i.channel_next_input)
unfolding Input.reset
reset_links i = ground arith

kept_task : (f : ℕ → Input.Input) (i j : ℕ) → (update f i (Input.reset (f i)).0 j).task ≡ (f j).task
kept_task f i j = ground (arith, reset_links (f i))

-- The states of a task while it is reset.
abbrev pub IsResetting : TaskState → Type 0
IsResetting s = (s ≡ task_reset) ⊎ (s ≡ task_pending)

Resetting-next : (b : Bool) (s : TaskState) → IsResetting s → IsResetting (next_state b s)
unfolding next_state
Resetting-next true task_reset r = inr refl
Resetting-next false task_reset r = inl refl
Resetting-next true task_pending r = inr refl
Resetting-next false task_pending r = inr refl
Resetting-next b task_wait (inl e) = cc
Resetting-next b task_wait (inr e) = cc
Resetting-next b task_run (inl e) = cc
Resetting-next b task_run (inr e) = cc
Resetting-next b task_finish (inl e) = cc
Resetting-next b task_finish (inr e) = cc

Resetting-starts : (b : Bool) (s : TaskState) → IsResetting s → starts b s ≡ false
unfolding starts
Resetting-starts b task_reset r = refl
Resetting-starts b task_pending r = refl
Resetting-starts b task_wait (inl e) = cc
Resetting-starts b task_wait (inr e) = cc
Resetting-starts b task_run r = refl
Resetting-starts b task_finish r = refl

module _ (policy : SchedulePolicy) {E : Type 0} (platform : Platform E) where
  open policy use {State, tasks}

  -- While the task `t` is reset: the run queue does not change, and `t` stays in one of the two
  -- states; the inputs keep their tasks, and no other task changes.
  pub record Resetting (t : ℕ) (w : World State E) (xs : List ℕ) (w' : World State E) : Type 0 where
    pub queued : IsQueued policy platform w' xs
    pub resetting : IsResetting (w'.tasks t).state
    pub owner : (i : ℕ) → (w'.inputs i).task ≡ (w.inputs i).task
    pub others : (a : ℕ) → (t == a) ≡ false → w'.tasks a ≡ w.tasks a
    pub members : (w'.tasks t).inputs ≡ (w.tasks t).inputs
    pub next : (w'.tasks t).next_task_at_scheduler ≡ (w.tasks t).next_task_at_scheduler
    pub running : w'.running ≡ w.running

  -- What a reset of a channel leaves alone.
  pub record SameTasks (w w' : World State E) : Type 0 where
    pub tasks : w'.tasks ≡ w.tasks
    pub inputs : w'.inputs ≡ w.inputs
    pub queue : w'.queue ≡ w.queue
    pub running : w'.running ≡ w.running

  SameTasks-refl : (w : World State E) → SameTasks w w
  SameTasks-refl w = record { tasks = refl; inputs = refl; queue = refl; running = refl }

  reset_of-SameTasks :
      (k : Kind) (c : ℕ) (w : World State E) → SameTasks w (reset_of policy platform k c w)
  unfolding reset_of set_counter
  reset_of-SameTasks plain c w = SameTasks-refl w
  reset_of-SameTasks barrier c w = record {
    tasks = refl;
    inputs = refl;
    queue = refl;
    running = refl;
  }
  reset_of-SameTasks derived c w = record {
    tasks = refl;
    inputs = refl;
    queue = refl;
    running = refl;
  }

  pub reset_at-SameTasks :
      (p : Ptr) (w : World State E) → SameTasks w (reset_at policy platform p w)
  unfolding reset_at channel_reset
  reset_at-SameTasks none w = SameTasks-refl w
  reset_at-SameTasks (some c) w = reset_of-SameTasks (w.channels c).kind c w

  module _ (t : ℕ) (w : World State E) (xs : List ℕ) (b : t < tasks) where
    -- After the channel of an input is reset and the counters of the input are.
    pub Resetting-set_input :
        (i : ℕ) (w' w'' : World State E)
        → Resetting t w xs w'
        → SameTasks w' w''
        → Resetting t w xs (set_input i (Input.reset (w''.inputs i)).0 w'')
    Resetting-set_input i w' w'' r s = record {
      queued = record {
        holds = subst (λ q. policy.Holds q xs) (sym s.queue) r.queued.holds;
        in_run = λ a m. ap (λ f. (f a).state) s.tasks ∙ r.queued.in_run a m;
      };
      resetting = subst (λ f. IsResetting (f t).state) (sym s.tasks) r.resetting;
      owner = λ j. kept_task w''.inputs i j ∙ ap (λ f. (f j).task) s.inputs ∙ r.owner j;
      others = λ a ne. ap (λ f. f a) s.tasks ∙ r.others a ne;
      members = ap (λ f. (f t).inputs) s.tasks ∙ r.members;
      next = ap (λ f. (f t).next_task_at_scheduler) s.tasks ∙ r.next;
      running = s.running ∙ r.running;
    }

    pub Resetting-activate :
        (w' : World State E)
        → Resetting t w xs w'
        → (w'' : World State E) × (activate policy platform t w' ≡ some w'')
          × Resetting t w xs w''
          × Activates policy platform t w' xs w''
    Resetting-activate w' r =
        let (w'', done, a) = activate-Activates policy platform t w' xs r.queued b in
        let same = Resetting-starts (inputs_activated t w') (w'.tasks t).state r.resetting in
        (
          w'',
          done,
          record {
            queued =
                subst (IsQueued policy platform w'') (rw (same, and_false w'.running) refl)
                  a.queued;
            resetting =
                subst IsResetting (sym (ap (λ task. task.state) a.task))
                  (Resetting-next (inputs_activated t w') (w'.tasks t).state r.resetting);
            owner = λ j. ap (λ f. (f j).task) a.same.inputs ∙ r.owner j;
            others = λ a' ne. a.others a' ne ∙ r.others a' ne;
            members = ap (λ task. task.inputs) a.task ∙ r.members;
            next = ap (λ task. task.next_task_at_scheduler) a.task ∙ r.next;
            running = a.same.running ∙ r.running;
          },
          a,
        )

    pub input_reset-activate :
        (i : ℕ) (w' w₁ : World State E)
        → w₁ ≡ reset_at policy platform (w'.inputs i).channel w'
        → (Input.reset (w₁.inputs i)).1 ≡ true
        → (w₁.inputs i).task ≡ some t
        → input_reset policy platform i w'
          ≡ activate policy platform t (set_input i (Input.reset (w₁.inputs i)).0 w₁)
    unfolding input_reset activate_at
    input_reset-activate i w' w₁ at go e =
        rw (← at, go)
          (ap (λ p. activate_at policy platform p (set_input i (Input.reset (w₁.inputs i)).0 w₁))
            ((reset_links (w₁.inputs i)).0 ∙ e))

    unfoldable pub Reset : Option (World State E) → Type 0
    Reset r = (w' : World State E) × (r ≡ some w') × Resetting t w xs w'

    pub input_reset-Resetting :
        (i : ℕ) (w' : World State E)
        → Resetting t w xs w'
        → (w.inputs i).task ≡ some t
        → Reset (input_reset policy platform i w')
    unfolding Reset input_reset
    input_reset-Resetting i w' r e =
        let w₁ = reset_at policy platform (w'.inputs i).channel w' in
        let same = reset_at-SameTasks (w'.inputs i).channel w' in
        let owned : (w₁.inputs i).task ≡ some t =
          ap (λ f. (f i).task) same.inputs ∙ r.owner i ∙ e in
        let counted = Resetting-set_input i w' w₁ r same in
        elim (Bool-cases (Input.reset (w₁.inputs i)).1) [
          | inl go ↦
              let v = set_input i (Input.reset (w₁.inputs i)).0 w₁ in
              let (u, done, r', _) = Resetting-activate v counted in
              (u, input_reset-activate i w' w₁ refl go owned ∙ done, r')
          | inr stay ↦ (set_input i (Input.reset (w₁.inputs i)).0 w₁, rw stay refl, counted)
        ]

    pub array_reset-Resetting :
        (is : List ℕ) (w' : World State E)
        → ((i : ℕ) → i ∈ is → (w.inputs i).task ≡ some t)
        → Resetting t w xs w'
        → Reset (array_reset policy platform is w')
    unfolding Reset array_reset
    array_reset-Resetting [] w' own r = (w', refl, r)
    array_reset-Resetting (i ∷ is) w' own r =
        let (w₁, done, r₁) = input_reset-Resetting i w' r (own i (ground arith)) in
        let (w₂, done', r₂) = array_reset-Resetting is w₁ (λ j m. own j (ground arith)) r₁ in
        (w₂, rw done done', r₂)
