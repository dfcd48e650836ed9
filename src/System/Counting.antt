-- ===== src/System/Counting.antt =====
-- The notifications that are pending at the inputs of src/taskInput.cpp, and the wiring that no step of a
-- task or of a channel changes.
pub mod Consumed
use tasking_framework.Base.{
  ℕ, zero, suc, ◌==◌, eq_of_test, ◌+◌, ◌≡◌, ◌≤◌, ◌<◌, ◌∙◌, ◌⊎◌, inl, inr, refl, ap, sym, Bool, true,
  false, Bool-cases, Option, ◌>>=◌, none, some, List, [], ◌∷◌, arith, Ptr, update, update_self, ◌∈◌,
  ◌∉◌, ◌&&◌, if◌then◌else◌,
}
use mathlib.Core.Path.{subst}
use tasking_framework.Input.{Input}
use tasking_framework.Input as Input
use tasking_framework.Input.Counts.{pending, IsConsistent, reset-pending}
use tasking_framework.Policy.Interface.{SchedulePolicy}
use tasking_framework.System.World.{
  TaskState, task_wait, task_run, task_reset, task_pending, set_state, World, Platform, Kind, plain,
  barrier, derived, set_input, inputs_activated,
}
use tasking_framework.System.Activation.{activate, set_counter}
use tasking_framework.System.Queued.{IsQueued, perform-IsQueued, Activates, activate-Activates}
use tasking_framework.System.Shape.{Activates-SameShape}
use tasking_framework.System.Reset.{
  reset_of, channel_reset, reset_at, input_reset, array_reset, finish_reset, reset, is_pending,
}
use tasking_framework.System.Restart.{Restarts, Unchanged, begin-Resetting, reset-Unchanged}
use tasking_framework.System.Resetting.{
  reset_links, Resetting, Reset, array_reset-Resetting, reset_at-SameTasks, Resetting-set_input,
  input_reset-activate, input_reset-Resetting,
}

-- The notifications that are pending at the inputs below `n`.
abbrev pub total : (ℕ → Input) → ℕ → ℕ
total f zero = 0
total f (suc n) = pending (f n) + total f n

total-above :
    (f : ℕ → Input) (i : ℕ) (v : Input) (n : ℕ) → n ≤ i → total (update f i v) n ≡ total f n
total-above f i v zero b = refl
total-above f i v (suc n) b = ground (arith, total-above f i v n)

pub total-update :
    (f : ℕ → Input) (i : ℕ) (v : Input) (n : ℕ)
    → i < n
    → total (update f i v) n + pending (f i) ≡ total f n + pending v
total-update f i v zero b = absurd (omega arith)
total-update f i v (suc n) b = ground (arith, total-update f i v n, total-above f i v n)

-- A reset that asks for the task has consumed a notification.
pub reset-less :
    (i : Input)
    → IsConsistent i
    → (pending (Input.reset i).0 ≤ pending i)
      × ((Input.reset i).1 ≡ true → pending (Input.reset i).0 < pending i)
unfolding Input.reset
reset-less i c = (ground arith, λ go. ground arith)

pub some_injective : {A : Type 0} {a b : A} → some a ≡ some b → a ≡ b
some_injective e = cc

pub in_turn :
    {A B : Type 0} {o : Option A} {a : A} {r : Option B} (f : A → Option B)
    → o ≡ some a
    → f a ≡ r
    → (o >>= f) ≡ r
in_turn f e e' = ap (λ o. o >>= f) e ∙ e'

pub reset-threshold : (i : Input) → (Input.reset i).0.activation_threshold ≡ i.activation_threshold
unfolding Input.reset
reset-threshold i = ground arith

pub not_pending : (s : TaskState) → s ≡ task_reset → is_pending s ≡ true → ⊥
unfolding is_pending
not_pending s e p = ground arith

module _ (policy : SchedulePolicy) {E C : Type 0} (platform : Platform E) (time : E → C) where
  open policy use {State, tasks}

  -- What no step of a task or of a channel changes: the lists of the channels, the wiring of inputs
  -- and tasks, and the time.
  pub record SameWiring (w w' : World State E) : Type 0 where
    pub lists : (c : ℕ) → (w'.channels c).inputs ≡ (w.channels c).inputs
    pub next : (i : ℕ) → (w'.inputs i).channel_next_input ≡ (w.inputs i).channel_next_input
    pub owner : (i : ℕ) → (w'.inputs i).task ≡ (w.inputs i).task
    pub thresholds :
        (i : ℕ) → (w'.inputs i).activation_threshold ≡ (w.inputs i).activation_threshold
    pub members : (a : ℕ) → (w'.tasks a).inputs ≡ (w.tasks a).inputs
    pub groups : (a : ℕ) → (w'.tasks a).group ≡ (w.tasks a).group
    pub running : w'.running ≡ w.running
    pub times : time w'.rest ≡ time w.rest

  pub SameWiring-refl : (w : World State E) → SameWiring w w
  SameWiring-refl w = record {
    lists = λ c. refl;
    next = λ i. refl;
    owner = λ i. refl;
    thresholds = λ i. refl;
    members = λ t. refl;
    groups = λ t. refl;
    running = refl;
    times = refl;
  }

  pub SameWiring-trans : (u v w : World State E) → SameWiring u v → SameWiring v w → SameWiring u w
  SameWiring-trans u v w a b = record {
    lists = λ c. b.lists c ∙ a.lists c;
    next = λ i. b.next i ∙ a.next i;
    owner = λ i. b.owner i ∙ a.owner i;
    thresholds = λ i. b.thresholds i ∙ a.thresholds i;
    members = λ t. b.members t ∙ a.members t;
    groups = λ t. b.groups t ∙ a.groups t;
    running = b.running ∙ a.running;
    times = b.times ∙ a.times;
  }

  -- What the channels of other classes do in `reset` does not change the time.
  abbrev pub Resets : Type 0
  Resets = (c : ℕ) (e : E) → time (platform.channel_reset c e) ≡ time e

  module _ (resets : Resets) where
    reset_of-SameWiring :
        (k : Kind) (c : ℕ) (w : World State E) → SameWiring w (reset_of policy platform k c w)
    unfolding reset_of set_counter
    reset_of-SameWiring plain c w = SameWiring-refl w
    reset_of-SameWiring barrier c w = record {
      lists = λ d. ground arith;
      next = λ i. refl;
      owner = λ i. refl;
      thresholds = λ i. refl;
      members = λ t. refl;
      groups = λ t. refl;
      running = refl;
      times = refl;
    }
    reset_of-SameWiring derived c w = record {
      lists = λ d. refl;
      next = λ i. refl;
      owner = λ i. refl;
      thresholds = λ i. refl;
      members = λ t. refl;
      groups = λ t. refl;
      running = refl;
      times = resets c w.rest;
    }

    pub reset_at-SameWiring :
        (p : Ptr) (w : World State E) → SameWiring w (reset_at policy platform p w)
    unfolding reset_at channel_reset
    reset_at-SameWiring none w = SameWiring-refl w
    reset_at-SameWiring (some c) w = reset_of-SameWiring (w.channels c).kind c w
