-- ===== src/System/Push.antt =====
-- `push` of src/taskChannel.cpp notifies each associated input once.
use mathlib.Core.Path.{fun_ext, subst}
use tasking_framework.Base.{
  ℕ, zero, suc, ◌<◌, ◌≤◌, ◌≡◌, ◌∙◌, sym, ap, refl, inl, inr, ◌⊎◌, ◌==◌, eq_of_test, true,
  Bool-cases, Option, some, List, [], ◌∷◌, arith, Ptr, if◌then◌else◌, ◌∈◌, ◌∉◌, Distinct, has,
  length, update, Chain,
}
use tasking_framework.Input.{Input, notify}
use tasking_framework.Policy.Interface.{SchedulePolicy}
use tasking_framework.System.World.{task_run, World, Platform, set_input, inputs_activated}
use tasking_framework.System.Activation.{activate, activate_at, notify_input, push_loop, push}
use tasking_framework.System.Queued.{
  IsQueued, Activates, after_activate, next_state-run, activate-Activates,
}
use tasking_framework.System.Shape.{SameShape, Activates-SameShape}

-- A notification changes the counters of an input alone.
pub notify_links :
    (i : Input)
    → ((notify i).0.task ≡ i.task)
      × ((notify i).0.channel ≡ i.channel)
      × ((notify i).0.channel_next_input ≡ i.channel_next_input)
unfolding notify
notify_links i = ground arith

abbrev pub next_input : {Q E : Type 0} → World Q E → ℕ → Ptr
next_input w i = (w.inputs i).channel_next_input

module _ (policy : SchedulePolicy) {E : Type 0} (platform : Platform E) where
  open policy use {State, tasks, place, has-place}

  -- Each input of the list belongs to a task of the application.
  abbrev pub Connected : World State E → List ℕ → Type 0
  Connected w is = (i : ℕ) → i ∈ is → (t : ℕ) × ((w.inputs i).task ≡ some t) × (t < tasks)

  -- Every task in TASK_RUN is in the run queue.
  abbrev pub IsExact : World State E → List ℕ → Type 0
  IsExact w xs = (a : ℕ) → (w.tasks a).state ≡ task_run → a ∈ xs

  -- The outcome of notifying the inputs of a list: each is notified once and no other is touched,
  -- and the run queue holds each task at most once still.
  pub record Notifies (w : World State E) (xs is : List ℕ) (w' : World State E) : Type 0 where
    pub queue : List ℕ
    pub queued : IsQueued policy platform w' queue
    pub inputs : (i : ℕ) → w'.inputs i ≡ (if has i is then (notify (w.inputs i)).0 else w.inputs i)
    pub channels : w'.channels ≡ w.channels
    pub groups : w'.groups ≡ w.groups
    pub running : w'.running ≡ w.running
    pub rest : w'.rest ≡ w.rest
    pub shape : (a : ℕ) → SameShape (w'.tasks a) (w.tasks a)
    pub started :
        (a : ℕ) → (w'.tasks a).state ≡ task_run → ((w.tasks a).state ≡ task_run) ⊎ (a < tasks)
    pub exact : w.running ≡ true → IsExact w xs → IsExact w' queue

  Notified : ℕ → World State E → List ℕ → Option (World State E) → Type 0
  Notified i w xs r = (w' : World State E) × (r ≡ some w') × Notifies w xs (i ∷ []) w'

  IsQueued-set_input :
      (i : ℕ) (input : Input) (w : World State E) (xs : List ℕ)
      → IsQueued policy platform w xs
      → IsQueued policy platform (set_input i input w) xs
  IsQueued-set_input i input w xs q = record { holds = q.holds; in_run = q.in_run }

  one_input :
      (i : ℕ) (w : World State E) (j : ℕ)
      → update w.inputs i (notify (w.inputs i)).0 j
        ≡ (if has j (i ∷ []) then (notify (w.inputs j)).0 else w.inputs j)
  one_input i w j = ground arith

  activate-IsExact :
      (t : ℕ) (w : World State E) (xs : List ℕ) (w' : World State E)
      → Activates policy platform t w xs w'
      → w.running ≡ true
      → IsExact w xs
      → IsExact w' (after_activate policy platform t w xs)
  activate-IsExact t w xs w' a on e k r = elim (Bool-cases (t == k)) [
    | inl y ↦
        let same = eq_of_test t k y in
        let ran = subst (λ n. (w'.tasks n).state ≡ task_run) (sym same) r in
        let s = (w.tasks t).state in
        let b = inputs_activated t w in
        subst (λ n. n ∈ after_activate policy platform t w xs) same
          (elim (next_state-run b s (sym (ap (λ task. task.state) a.task) ∙ ran)) [
            | inl r' ↦ ground (arith, e t r', has-place t t xs)
            | inr go ↦ ground (arith, go, on, has-place t t xs)
          ])
    | inr n ↦
        let old = e k (sym (ap (λ task. task.state) (a.others k n)) ∙ r) in
        ground (arith, old, has-place k t xs)
  ]

  after_activation :
      (i t : ℕ) (w : World State E) (xs : List ℕ)
      → IsQueued policy platform w xs
      → (w.inputs i).task ≡ some t
      → t < tasks
      → Notified i w xs (activate policy platform t (set_input i (notify (w.inputs i)).0 w))
  unfolding Notified
  after_activation i t w xs q e b =
      let (w', done, a) =
        activate-Activates policy platform t (set_input i (notify (w.inputs i)).0 w) xs
          (IsQueued-set_input i (notify (w.inputs i)).0 w xs q) b in
      (
        w',
        done,
        record {
          queue = _;
          queued = a.queued;
          inputs = λ j. ap (λ f. f j) a.same.inputs ∙ one_input i w j;
          channels = a.same.channels;
          groups = a.same.groups;
          running = a.same.running;
          rest = a.same.rest;
          shape =
              Activates-SameShape policy platform t (set_input i (notify (w.inputs i)).0 w) xs w' a;
          started = λ k r. elim (Bool-cases (t == k)) [
            | inl y ↦ inr (subst (λ n. n < tasks) (eq_of_test t k y) b)
            | inr n ↦ inl (sym (ap (λ task. task.state) (a.others k n)) ∙ r)
          ];
          exact = λ on e k r.
              activate-IsExact t (set_input i (notify (w.inputs i)).0 w) xs w' a on e k r;
        },
      )

  notify_input-activate :
      (i t : ℕ) (w : World State E)
      → (notify (w.inputs i)).1 ≡ true
      → (w.inputs i).task ≡ some t
      → notify_input policy platform i w
        ≡ activate policy platform t (set_input i (notify (w.inputs i)).0 w)
  unfolding notify_input
  notify_input-activate i t w go e = rw go (
      ap (λ p. activate_at policy platform p (set_input i (notify (w.inputs i)).0 w))
        ((notify_links (w.inputs i)).0 ∙ e))

  -- A notification of an input of a task of the application.
  notify_input-Notifies :
      (i t : ℕ) (w : World State E) (xs : List ℕ)
      → IsQueued policy platform w xs
      → (w.inputs i).task ≡ some t
      → t < tasks
      → Notified i w xs (notify_input policy platform i w)
  unfolding Notified notify_input
  notify_input-Notifies i t w xs q e b = elim (Bool-cases (notify (w.inputs i)).1) [
    | inl go ↦
        subst (Notified i w xs) (sym (notify_input-activate i t w go e))
          (after_activation i t w xs q e b)
    | inr stay ↦ rw stay (
      set_input i (notify (w.inputs i)).0 w,
      refl,
      record {
        queue = xs;
        queued = IsQueued-set_input i (notify (w.inputs i)).0 w xs q;
        inputs = one_input i w;
        channels = refl;
        groups = refl;
        running = refl;
        rest = refl;
        shape = λ a. refl;
        started = λ a r. inl r;
        exact = λ on e. e;
      },
    )
  ]

  pub next_input-Notifies :
      (w : World State E) (xs is : List ℕ) (w' : World State E)
      → Notifies w xs is w'
      → (i : ℕ) → next_input w' i ≡ next_input w i
  next_input-Notifies w xs is w' n i = ground (arith, n.inputs i, notify_links (w.inputs i))

  pub task-Notifies :
      (w : World State E) (xs is : List ℕ) (w' : World State E)
      → Notifies w xs is w'
      → (i : ℕ) → (w'.inputs i).task ≡ (w.inputs i).task
  task-Notifies w xs is w' n i = ground (arith, n.inputs i, notify_links (w.inputs i))

  -- Notifying one input and then the others.
  Notifies-cons :
      (i : ℕ) (is xs : List ℕ) (w w' w'' : World State E)
      → i ∉ is
      → (one : Notifies w xs (i ∷ []) w') → Notifies w' one.queue is w''
      → Notifies w xs (i ∷ is) w''
  Notifies-cons i is xs w w' w'' out one more = record {
    queue = more.queue;
    queued = more.queued;
    inputs = λ j. ground (arith, more.inputs j, one.inputs j);
    channels = more.channels ∙ one.channels;
    groups = more.groups ∙ one.groups;
    running = more.running ∙ one.running;
    rest = more.rest ∙ one.rest;
    shape = λ a. more.shape a ∙ one.shape a;
    started = λ a r. elim (more.started a r) [ inl r' ↦ one.started a r' | inr b ↦ inr b ];
    exact = λ on e. more.exact (one.running ∙ on) (one.exact on e);
  }

  Notifies-nil :
      (w : World State E) (xs : List ℕ) → IsQueued policy platform w xs → Notifies w xs [] w
  Notifies-nil w xs q = record {
    queue = xs;
    queued = q;
    inputs = λ i. refl;
    channels = refl;
    groups = refl;
    running = refl;
    rest = refl;
    shape = λ a. refl;
    started = λ a r. inl r;
    exact = λ on e. e;
  }

  push_loop-Notifies :
      (fuel : ℕ) (p : Ptr) (is : List ℕ) (w : World State E) (xs : List ℕ)
      → IsQueued policy platform w xs
      → Chain (next_input w) p is
      → Distinct is
      → Connected w is
      → length is < fuel
      → (w' : World State E) × (push_loop policy platform fuel p w ≡ some w') × Notifies w xs is w'
  unfolding push_loop Notified
  push_loop-Notifies zero p is w xs q c d k l = absurd (omega arith)
  push_loop-Notifies (suc fuel) p [] w xs q c d k l = (w, rw c refl, Notifies-nil w xs q)
  push_loop-Notifies (suc fuel) p (i ∷ is) w xs q c d k l =
      let (t, e, b) = k i (ground arith) in
      let (w', done, one) = notify_input-Notifies i t w xs q e b in
      let links = fun_ext (next_input-Notifies w xs (i ∷ []) w' one) in
      let rest = subst (λ next. Chain next (next i) is) (sym links) c.1 in
      let connected : Connected w' is = λ j m.
        (let (u, e', b') = k j (ground arith) in
          (u, task-Notifies w xs (i ∷ []) w' one j ∙ e', b')) in
      let (w'', done', more) =
        push_loop-Notifies fuel (next_input w' i) is w' one.queue one.queued rest d.1 connected
          (omega arith) in
      (w'', rw (c.0, done) done', Notifies-cons i is xs w w' w'' d.0 one more)

  -- A push on a channel, whose inputs belong to tasks of the application and are no more than the
  -- application has, always returns. It notifies each of the inputs once and touches no other, and
  -- the run queue still holds each task at most once, each in TASK_RUN, and every task in TASK_RUN if
  -- it did before and the scheduler runs.
  pub push-Notifies :
      (c : ℕ) (is : List ℕ) (w : World State E) (xs : List ℕ)
      → IsQueued policy platform w xs
      → Chain (next_input w) (w.channels c).inputs is
      → Distinct is
      → Connected w is
      → length is ≤ platform.inputs
      → (w' : World State E) × (push policy platform c w ≡ some w') × Notifies w xs is w'
  unfolding push
  push-Notifies c is w xs q chain d k l =
      push_loop-Notifies (suc platform.inputs) (w.channels c).inputs is w xs q chain d k
        (omega arith)
