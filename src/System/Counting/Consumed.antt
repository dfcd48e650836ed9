-- ===== src/System/Counting/Consumed.antt =====
-- `reset` of src/taskInputArray.cpp and src/task.cpp and the notifications that are pending: a task that is
-- to run again at once has consumed some.
use tasking_framework.Base.{
  ℕ, ◌==◌, ◌≡◌, ◌≤◌, ◌<◌, ◌∙◌, ◌⊎◌, inl, inr, refl, ap, sym, true, Bool-cases, some, List, [], ◌∷◌,
  arith, update, ◌∈◌, ◌∉◌, ◌&&◌,
}
use mathlib.Core.Path.{subst}
use tasking_framework.Input.{Input}
use tasking_framework.Input as Input
use tasking_framework.Input.Counts.{IsConsistent, reset-pending}
use tasking_framework.Policy.Interface.{SchedulePolicy}
use tasking_framework.System.World.{
  TaskState, task_wait, task_run, task_reset, set_state, World, Platform, set_input,
  inputs_activated,
}
use tasking_framework.System.Queued.{IsQueued, perform-IsQueued, Activates, activate-Activates}
use tasking_framework.System.Shape.{Activates-SameShape}
use tasking_framework.System.Reset.{
  reset_at, input_reset, array_reset, finish_reset, reset, is_pending,
}
use tasking_framework.System.Restart.{Restarts, Unchanged, begin-Resetting, reset-Unchanged}
use tasking_framework.System.Resetting.{
  reset_links, Resetting, Reset, reset_at-SameTasks, Resetting-set_input, input_reset-activate,
  input_reset-Resetting,
}
use tasking_framework.System.Counting.{
  total, total-update, reset-less, reset-threshold, not_pending, some_injective, in_turn,
  SameWiring, SameWiring-refl, SameWiring-trans, Resets, reset_at-SameWiring,
}

module _ (policy : SchedulePolicy) {E C : Type 0} (platform : Platform E) (time : E → C) where
  open policy use {State, tasks}

  module _ (resets : Resets policy platform time) where
    -- The effect on the counters, while the task `t` is reset.
    record Counted (t : ℕ) (w w' : World State E) : Type 0 where
      wiring : SameWiring policy platform time w w'
      consistent : (i : ℕ) → IsConsistent (w'.inputs i)
      less : total w'.inputs platform.inputs ≤ total w.inputs platform.inputs
      progress :
          ((w'.tasks t).state ≡ (w.tasks t).state)
          ⊎ (total w'.inputs platform.inputs < total w.inputs platform.inputs)

    Counted-refl :
        (t : ℕ) (w : World State E) → ((i : ℕ) → IsConsistent (w.inputs i)) → Counted t w w
    Counted-refl t w c = record {
      wiring = SameWiring-refl policy platform time w;
      consistent = c;
      less = omega arith;
      progress = inl refl;
    }

    Counted-trans : (t : ℕ) (u v w : World State E) → Counted t u v → Counted t v w → Counted t u w
    Counted-trans t u v w a b = record {
      wiring = SameWiring-trans policy platform time u v w a.wiring b.wiring;
      consistent = b.consistent;
      less = omega (arith, a.less, b.less);
      progress = elim a.progress [
        | inr l ↦ inr (omega (arith, l, b.less))
        | inl e ↦ elim b.progress [ inr l ↦ inr (omega (arith, l, a.less)) | inl e' ↦ inl (e' ∙ e) ]
      ];
    }

    -- The counters of one input are reset, behind its channel.
    abbrev counted : ℕ → World State E → World State E
    counted i w =
        let w₁ = reset_at policy platform (w.inputs i).channel w in
        set_input i (Input.reset (w₁.inputs i)).0 w₁

    counted-inputs :
        (i : ℕ) (w : World State E)
        → (counted i w).inputs ≡ update w.inputs i (Input.reset (w.inputs i)).0
    counted-inputs i w =
        ap (λ f. update f i (Input.reset (f i)).0)
          (reset_at-SameTasks policy platform (w.inputs i).channel w).inputs

    counted-SameWiring :
        (i : ℕ) (w : World State E) → SameWiring policy platform time w (counted i w)
    counted-SameWiring i w =
        let w₁ = reset_at policy platform (w.inputs i).channel w in
        let s = reset_at-SameWiring policy platform time resets (w.inputs i).channel w in
        let links = reset_links (w₁.inputs i) in
        let same = reset-threshold (w₁.inputs i) in
        record {
          lists = s.lists;
          next = λ j. ground (arith, s.next j, s.next i, links);
          owner = λ j. ground (arith, s.owner j, s.owner i, links);
          thresholds = λ j. ground (arith, s.thresholds j, s.thresholds i, same);
          members = s.members;
          groups = s.groups;
          running = s.running;
          times = s.times;
        }

    counted-total :
        (i : ℕ) (w : World State E)
        → ((j : ℕ) → IsConsistent (w.inputs j))
        → i < platform.inputs
        → (total (counted i w).inputs platform.inputs ≤ total w.inputs platform.inputs)
          × ((Input.reset (w.inputs i)).1 ≡ true
              → total (counted i w).inputs platform.inputs < total w.inputs platform.inputs)
    counted-total i w c b =
        let e = ap (λ f. total f platform.inputs) (counted-inputs i w) in
        let moved = total-update w.inputs i (Input.reset (w.inputs i)).0 platform.inputs b in
        let (le, lt) = reset-less (w.inputs i) (c i) in
        (omega (arith, e, moved, le), λ go. (let l = lt go in omega (arith, e, moved, l)))

    counted-IsConsistent :
        (i : ℕ) (w : World State E)
        → ((j : ℕ) → IsConsistent (w.inputs j))
        → (j : ℕ) → IsConsistent ((counted i w).inputs j)
    counted-IsConsistent i w c j =
        subst (λ f. IsConsistent (f j)) (sym (counted-inputs i w))
          (elim (Bool-cases (j == i)) [
            | inl e ↦ rw e (reset-pending (w.inputs i) (c i)).1
            | inr n ↦ rw n (c j)
          ])

    activate-SameWiring :
        (t : ℕ) (w : World State E) (xs : List ℕ) (w' : World State E)
        → Activates policy platform t w xs w'
        → SameWiring policy platform time w w'
    activate-SameWiring t w xs w' a = record {
      lists = λ c. ap (λ f. (f c).inputs) a.same.channels;
      next = λ i. ap (λ f. (f i).channel_next_input) a.same.inputs;
      owner = λ i. ap (λ f. (f i).task) a.same.inputs;
      thresholds = λ i. ap (λ f. (f i).activation_threshold) a.same.inputs;
      members = λ k. ap (λ shape. shape.0) (Activates-SameShape policy platform t w xs w' a k);
      groups = λ k. ap (λ shape. shape.1) (Activates-SameShape policy platform t w xs w' a k);
      running = a.same.running;
      times = ap time a.same.rest;
    }

    -- Resetting one input of the task while it is reset.
    input_reset-Counted :
        (t i : ℕ) (w w' : World State E) (xs : List ℕ) (b : t < tasks)
        → Resetting policy platform t w xs w'
        → ((j : ℕ) → IsConsistent (w'.inputs j))
        → i < platform.inputs
        → (w.inputs i).task ≡ some t
        → (w'' : World State E) × (input_reset policy platform i w' ≡ some w'') × Counted t w' w''
    unfolding input_reset
    input_reset-Counted t i w w' xs b r c k own =
        let p = (w'.inputs i).channel in
        let w₁ = reset_at policy platform p w' in
        let same = reset_at-SameTasks policy platform p w' in
        let v = counted i w' in
        let (le, lt) = counted-total i w' c k in
        let r' = Resetting-set_input policy platform t w xs b i w' w₁ r same in
        elim (Bool-cases (Input.reset (w₁.inputs i)).1) [
          | inl go ↦
              let (w'', done, a) = activate-Activates policy platform t v xs r'.queued b in
              let went : (Input.reset (w'.inputs i)).1 ≡ true =
                ap (λ f. (Input.reset (f i)).1) (sym same.inputs) ∙ go in
              let e = ap (λ f. total f platform.inputs) a.same.inputs in
              let l = lt went in
              (
                w'',
                input_reset-activate policy platform t w xs b i w' w₁ refl go
                      (ap (λ f. (f i).task) same.inputs ∙ r.owner i ∙ own)
                    ∙ done,
                record {
                  wiring =
                      SameWiring-trans policy platform time w' v w'' (counted-SameWiring i w')
                        (activate-SameWiring t v xs w'' a);
                  consistent = λ j.
                      subst (λ f. IsConsistent (f j)) (sym a.same.inputs)
                        (counted-IsConsistent i w' c j);
                  less = omega (arith, e, l);
                  progress = inr (omega (arith, e, l));
                },
              )
          | inr stay ↦ (
            v,
            rw stay refl,
            record {
              wiring = counted-SameWiring i w';
              consistent = counted-IsConsistent i w' c;
              less = le;
              progress = inl (ap (λ f. (f t).state) same.tasks);
            },
          )
        ]

    array_reset-Counted :
        (t : ℕ) (is : List ℕ) (w w' : World State E) (xs : List ℕ) (b : t < tasks)
        → Resetting policy platform t w xs w'
        → ((j : ℕ) → IsConsistent (w'.inputs j))
        → ((i : ℕ) → i ∈ is → i < platform.inputs)
        → ((i : ℕ) → i ∈ is → (w.inputs i).task ≡ some t)
        → (w'' : World State E) × (array_reset policy platform is w' ≡ some w'')
          × Resetting policy platform t w xs w''
          × Counted t w' w''
    unfolding array_reset Reset
    array_reset-Counted t [] w w' xs b r c known own = (w', refl, r, Counted-refl t w' c)
    array_reset-Counted t (i ∷ is) w w' xs b r c known own =
        let here : i ∈ (i ∷ is) = ground arith in
        let (w₁, done, c₁) = input_reset-Counted t i w w' xs b r c (known i here) (own i here) in
        let (v, done', r') = input_reset-Resetting policy platform t w xs b i w' r (own i here) in
        let same = some_injective (sym done' ∙ done) in
        let (w₂, done₂, r₂, c₂) =
          array_reset-Counted t is w w₁ xs b (subst (Resetting policy platform t w xs) same r')
            c₁.consistent (λ j m. known j (ground arith)) (λ j m. own j (ground arith)) in
        (
          w₂,
          in_turn (array_reset policy platform is) done done₂,
          r₂,
          Counted-trans t w' w₁ w₂ c₁ c₂,
        )

    -- The state of a task that is started or waits again.
    set_state-SameWiring :
        (t : ℕ) (s : TaskState) (w : World State E)
        → SameWiring policy platform time w (set_state t s w)
    set_state-SameWiring t s w = record {
      lists = λ c. refl;
      next = λ i. refl;
      owner = λ i. refl;
      thresholds = λ i. refl;
      members = λ a. ground arith;
      groups = λ a. ground arith;
      running = refl;
      times = refl;
    }

    finish_reset-Counted :
        (t : ℕ) (w : World State E) (xs : List ℕ)
        → IsQueued policy platform w xs
        → t < tasks
        → t ∉ xs
        → (w' : World State E) × (finish_reset policy platform t w ≡ some w')
          × SameWiring policy platform time w w'
          × (w'.inputs ≡ w.inputs)
          × ((w'.tasks t).state ≡ task_run → is_pending (w.tasks t).state ≡ true)
    unfolding finish_reset
    finish_reset-Counted t w xs q b out =
        elim (Bool-cases (is_pending (w.tasks t).state && inputs_activated t w)) [
          | inl again ↦
              let (w', done, _, changed, same) = perform-IsQueued policy platform t w xs q b out in
              let base = set_state-SameWiring t task_run w in
              (
                w',
                rw again done,
                record {
                  lists = λ c. ap (λ f. (f c).inputs) same.channels;
                  next = λ i. ap (λ f. (f i).channel_next_input) same.inputs;
                  owner = λ i. ap (λ f. (f i).task) same.inputs;
                  thresholds = λ i. ap (λ f. (f i).activation_threshold) same.inputs;
                  members = λ a. ap (λ f. (f a).inputs) changed ∙ base.members a;
                  groups = λ a. ap (λ f. (f a).group) changed ∙ base.groups a;
                  running = same.running;
                  times = ap time same.rest;
                },
                same.inputs,
                λ e. ground (arith, again),
              )
          | inr idle ↦ (
            set_state t task_wait w,
            rw idle refl,
            set_state-SameWiring t task_wait w,
            refl,
            λ e. ground arith,
          )
        ]

    -- What a reset of the task does to the counters.
    pub record Consumes (t : ℕ) (w w' : World State E) : Type 0 where
      pub wiring : SameWiring policy platform time w w'
      pub consistent : (i : ℕ) → IsConsistent (w'.inputs i)
      pub less : total w'.inputs platform.inputs ≤ total w.inputs platform.inputs
      pub again :
          (w'.tasks t).state ≡ task_run
          → total w'.inputs platform.inputs < total w.inputs platform.inputs

    pub reset-Consumes :
        (t : ℕ) (w : World State E) (xs : List ℕ) (b : t < tasks)
        → IsQueued policy platform w xs
        → t ∉ xs
        → ((j : ℕ) → IsConsistent (w.inputs j))
        → ((i : ℕ) → i ∈ (w.tasks t).inputs → i < platform.inputs)
        → ((i : ℕ) → i ∈ (w.tasks t).inputs → (w.inputs i).task ≡ some t)
        → (w' : World State E) × (reset policy platform t w ≡ some w')
          × Restarts policy platform t w xs b w'
          × Unchanged policy platform t w xs b w'
          × Consumes t w w'
    unfolding reset
    reset-Consumes t w xs b q out c known own =
        let w₀ = set_state t task_reset w in
        let (w₁, done, r, c₁) =
          array_reset-Counted t (w.tasks t).inputs w w₀ xs b
            (begin-Resetting policy platform t w xs b q out) c known own in
        let (w₂, done', wiring, inputs, pending_before) =
          finish_reset-Counted t w₁ xs r.queued b out in
        let (v, reset_done, e, u) = reset-Unchanged policy platform t w xs b q out own in
        let done₂ : reset policy platform t w ≡ some w₂ =
          in_turn (finish_reset policy platform t) done done' in
        let same : w₂ ≡ v = some_injective (sym done₂ ∙ reset_done) in
        let sum = ap (λ f. total f platform.inputs) inputs in
        let before : (w₀.tasks t).state ≡ task_reset = ground arith in
        (
          w₂,
          done₂,
          subst (Restarts policy platform t w xs b) (sym same) e,
          subst (Unchanged policy platform t w xs b) (sym same) u,
          record {
            wiring =
                SameWiring-trans policy platform time w w₀ w₂ (set_state-SameWiring t task_reset w)
                  (SameWiring-trans policy platform time w₀ w₁ w₂ c₁.wiring wiring);
            consistent = λ i. subst (λ f. IsConsistent (f i)) (sym inputs) (c₁.consistent i);
            less = omega (arith, sum, c₁.less);
            again = λ run. elim c₁.progress [
              | inr l ↦ omega (arith, sum, l)
              | inl e' ↦
                  (let p = pending_before run in
                    absurd (not_pending (w₁.tasks t).state (e' ∙ before) p))
            ];
          },
        )
