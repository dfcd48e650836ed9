-- ===== src/System/Restart/Steps.antt =====
-- `InputArray::reset` of src/taskInputArray.cpp resets the inputs of a task one after the other.
use mathlib.Core.Path.{subst, fun_ext}
use tasking_framework.Base.{
  ℕ, ◌<◌, ◌≡◌, ◌∙◌, sym, ap, refl, inl, inr, Bool, true, false, ◌||◌, Bool-cases, some, List, [],
  ◌∷◌, map, arith, if◌then◌else◌, ◌∈◌, update,
}
use tasking_framework.Input as Input
use tasking_framework.InputArray.{array_is_activated}
use tasking_framework.Policy.Interface.{SchedulePolicy}
use tasking_framework.System.World.{
  TaskState, task_wait, task_run, task_finish, task_reset, task_pending, World, Platform, set_input,
  inputs_activated,
}
use tasking_framework.System.Queued.{Activates, next_state}
use tasking_framework.System.Reset.{reset_at, input_reset, array_reset}
use tasking_framework.System.Resetting.{
  IsResetting, reset_links, Resetting, reset_at-SameTasks, Resetting-set_input, Resetting-activate,
  input_reset-activate,
}
use tasking_framework.System.Restart.Replay.{
  link_of, kind_of, reset_all, reactivates, feeds, refilled, refilled_twice, refilled-kind,
  reset_outside, reset_at-ResetsChannel, points,
}

or_false : (b : Bool) → (b || false) ≡ b
or_false b = ground arith

-- A reset of an input leaves the inputs' channels.
one_links :
    (i : ℕ) (f g : ℕ → Input.Input) → g ≡ update f i (Input.reset (f i)).0 → link_of g ≡ link_of f
one_links i f g e = fun_ext (λ j. ap (λ h. (h j).channel) e ∙ ground (arith, reset_links (f i)))

module _ (policy : SchedulePolicy) {E : Type 0} (platform : Platform E) where
  open policy use {State, tasks}

  -- What resetting the inputs of the list has done, where the inputs of the task `t` are `members`.
  pub record ResetsInputs (t : ℕ) (is : List ℕ) (w w' : World State E) : Type 0 where
    pub inputs : w'.inputs ≡ reset_all is w.inputs
    pub channels : (c : ℕ) → w'.channels c ≡ refilled (feeds (link_of w.inputs) c is) (w.channels c)
    pub rest :
        w'.rest ≡ reset_outside policy platform (kind_of w.channels) (link_of w.inputs) is w.rest
    pub state : (w'.tasks t).state ≡ (
        if reactivates (w.tasks t).condition (w.tasks t).inputs is w.inputs
        then task_pending
        else (w.tasks t).state)
    pub condition : (w'.tasks t).condition ≡ (w.tasks t).condition
    pub members : (w'.tasks t).inputs ≡ (w.tasks t).inputs

  ResetsInputs-nil : (t : ℕ) (w : World State E) → ResetsInputs t [] w w
  unfolding reset_all feeds refilled reset_outside reactivates
  ResetsInputs-nil t w = record {
    inputs = refl;
    channels = λ c. refl;
    rest = refl;
    state = refl;
    condition = refl;
    members = refl;
  }

  ResetsInputs-cons :
      (t i : ℕ) (is : List ℕ) (w w' w'' : World State E)
      → ResetsInputs t (i ∷ []) w w'
      → ResetsInputs t is w' w''
      → ResetsInputs t (i ∷ is) w w''
  unfolding reset_all feeds reset_outside reactivates
  ResetsInputs-cons t i is w w' w'' one more =
      let links = one_links i w.inputs w'.inputs one.inputs in
      let kinds : kind_of w'.channels ≡ kind_of w.channels = fun_ext (λ c.
        ap (λ c'. c'.kind) (one.channels c)
        ∙ refilled-kind (feeds (link_of w.inputs) c (i ∷ [])) (w.channels c)) in
      let link = link_of w.inputs in
      let kind = kind_of w.channels in
      let again =
        ap (λ c. reactivates c (w'.tasks t).inputs is w'.inputs) one.condition
        ∙ ap (λ m. reactivates (w.tasks t).condition m is w'.inputs) one.members
        ∙ ap (λ f. reactivates (w.tasks t).condition (w.tasks t).inputs is f) one.inputs in
      record {
        inputs = more.inputs ∙ ap (λ f. reset_all is f) one.inputs;
        channels = λ c.
            more.channels c
            ∙ ap (λ l. refilled (feeds l c is) (w'.channels c)) links
            ∙ ap (λ ch. refilled (feeds link c is) ch) (one.channels c)
            ∙ refilled_twice (feeds link c (i ∷ [])) (feeds link c is) (w.channels c)
            ∙ ap (λ b. refilled (b || feeds link c is) (w.channels c))
                (or_false (points (link i) c));
        rest =
            more.rest
            ∙ ap (λ k. reset_outside policy platform k (link_of w'.inputs) is w'.rest) kinds
            ∙ ap (λ l. reset_outside policy platform kind l is w'.rest) links
            ∙ ap (λ e. reset_outside policy platform kind link is e) one.rest;
        state = ground (arith, more.state, again, one.state);
        condition = more.condition ∙ one.condition;
        members = more.members ∙ one.members;
      }

  activates-state :
      (b : Bool) (s : TaskState) → IsResetting s → next_state b s ≡ (if b then task_pending else s)
  unfolding next_state
  activates-state b task_reset r = ground arith
  activates-state b task_pending r = ground arith
  activates-state b task_wait (inl e) = cc
  activates-state b task_wait (inr e) = cc
  activates-state b task_run (inl e) = cc
  activates-state b task_run (inr e) = cc
  activates-state b task_finish (inl e) = cc
  activates-state b task_finish (inr e) = cc

  module _ (t : ℕ) (w : World State E) (xs : List ℕ) (b : t < tasks) where
    -- After the channel of the input and the input's counters are reset.
    abbrev counted : ℕ → World State E → World State E
    counted i w' =
        let w₁ = reset_at policy platform (w'.inputs i).channel w' in
        set_input i (Input.reset (w₁.inputs i)).0 w₁

    record Counts (i : ℕ) (w' v : World State E) : Type 0 where
      inputs : v.inputs ≡ update w'.inputs i (Input.reset (w'.inputs i)).0
      channels :
          (c : ℕ) → v.channels c ≡ refilled (feeds (link_of w'.inputs) c (i ∷ [])) (w'.channels c)
      rest :
          v.rest
          ≡ reset_outside policy platform (kind_of w'.channels) (link_of w'.inputs) (i ∷ []) w'.rest
      tasks : v.tasks ≡ w'.tasks

    counted-Counts : (i : ℕ) (w' : World State E) → Counts i w' (counted i w')
    unfolding feeds reset_outside
    counted-Counts i w' =
        let p = (w'.inputs i).channel in
        let same = reset_at-SameTasks policy platform p w' in
        let r = reset_at-ResetsChannel policy platform p w' in
        record {
          inputs = ap (λ f. update f i (Input.reset (f i)).0) same.inputs;
          channels = λ c.
              r.channels c ∙ sym (ap (λ b. refilled b (w'.channels c)) (or_false (points p c)));
          rest = r.rest;
          tasks = same.tasks;
        }

    activated-Counts :
        (i : ℕ) (w' v : World State E)
        → Counts i w' v
        → inputs_activated t v
          ≡ array_is_activated
              (w'.tasks t).condition
              (map (update w'.inputs i (Input.reset (w'.inputs i)).0) (w'.tasks t).inputs)
    unfolding inputs_activated
    activated-Counts i w' v c =
        ap (λ f. array_is_activated (f t).condition (map v.inputs (f t).inputs)) c.tasks
        ∙ ap (λ f. array_is_activated (w'.tasks t).condition (map f (w'.tasks t).inputs)) c.inputs

    reset_flag :
        (i : ℕ) (w' : World State E)
        → (Input.reset ((reset_at policy platform (w'.inputs i).channel w').inputs i)).1
          ≡ (Input.reset (w'.inputs i)).1
    reset_flag i w' =
        ap (λ f. (Input.reset (f i)).1)
          (reset_at-SameTasks policy platform (w'.inputs i).channel w').inputs

    stays-ResetsInputs :
        (i : ℕ) (w' v : World State E)
        → Counts i w' v
        → (Input.reset (w'.inputs i)).1 ≡ false
        → ResetsInputs t (i ∷ []) w' v
    unfolding reset_all reactivates
    stays-ResetsInputs i w' v c stay = record {
      inputs = c.inputs;
      channels = c.channels;
      rest = c.rest;
      state = ap (λ f. (f t).state) c.tasks ∙ rw stay refl;
      condition = ap (λ f. (f t).condition) c.tasks;
      members = ap (λ f. (f t).inputs) c.tasks;
    }

    goes-ResetsInputs :
        (i : ℕ) (w' v u : World State E)
        → Counts i w' v
        → (Input.reset (w'.inputs i)).1 ≡ true
        → IsResetting (w'.tasks t).state
        → Activates policy platform t v xs u
        → ResetsInputs t (i ∷ []) w' u
    unfolding reset_all reactivates
    goes-ResetsInputs i w' v u c go r a =
        let state = ap (λ f. (f t).state) c.tasks in
        let next =
          activates-state (inputs_activated t v) (v.tasks t).state
            (subst IsResetting (sym state) r) in
        let on = activated-Counts i w' v c in
        record {
          inputs = a.same.inputs ∙ c.inputs;
          channels = λ d. ap (λ f. f d) a.same.channels ∙ c.channels d;
          rest = a.same.rest ∙ c.rest;
          state = ap (λ task. task.state) a.task ∙ ground (arith, next, on, state, go);
          condition = ap (λ task. task.condition) a.task ∙ ap (λ f. (f t).condition) c.tasks;
          members = ap (λ task. task.inputs) a.task ∙ ap (λ f. (f t).inputs) c.tasks;
        }

    input_reset-ResetsInputs :
        (i : ℕ) (w' : World State E)
        → Resetting policy platform t w xs w'
        → (w.inputs i).task ≡ some t
        → (w'' : World State E) × (input_reset policy platform i w' ≡ some w'')
          × Resetting policy platform t w xs w''
          × ResetsInputs t (i ∷ []) w' w''
    unfolding input_reset
    input_reset-ResetsInputs i w' r e =
        let w₁ = reset_at policy platform (w'.inputs i).channel w' in
        let same = reset_at-SameTasks policy platform (w'.inputs i).channel w' in
        let v = counted i w' in
        let c = counted-Counts i w' in
        let rv = Resetting-set_input policy platform t w xs b i w' w₁ r same in
        let owned = ap (λ f. (f i).task) same.inputs ∙ r.owner i ∙ e in
        let flag = reset_flag i w' in
        elim (Bool-cases (Input.reset (w'.inputs i)).1) [
          | inl go ↦
              let start =
                input_reset-activate policy platform t w xs b i w' w₁ refl (flag ∙ go) owned in
              let (u, done, ru, a) = Resetting-activate policy platform t w xs b v rv in
              (u, start ∙ done, ru, goes-ResetsInputs i w' v u c go r.resetting a)
          | inr stay ↦ (v, rw (flag, stay) refl, rv, stays-ResetsInputs i w' v c stay)
        ]

    pub array_reset-ResetsInputs :
        (is : List ℕ) (w' : World State E)
        → Resetting policy platform t w xs w'
        → ((i : ℕ) → i ∈ is → (w.inputs i).task ≡ some t)
        → (w'' : World State E) × (array_reset policy platform is w' ≡ some w'')
          × Resetting policy platform t w xs w''
          × ResetsInputs t is w' w''
    unfolding array_reset
    array_reset-ResetsInputs [] w' r own = (w', refl, r, ResetsInputs-nil t w')
    array_reset-ResetsInputs (i ∷ is) w' r own =
        let (w₁, done, r₁, one) = input_reset-ResetsInputs i w' r (own i (ground arith)) in
        let (w₂, done', r₂, more) =
          array_reset-ResetsInputs is w₁ r₁ (λ j m. own j (ground arith)) in
        (w₂, rw done done', r₂, ResetsInputs-cons t i is w' w₁ w₂ one more)
