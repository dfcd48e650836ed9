-- ===== src/System/Group.antt =====
-- `GroupImpl` of src/taskGroup.cpp with `Task::reset`: the tasks of a group are reset together.
pub mod Finalized
use mathlib.Core.Path.{subst}
use tasking_framework.Base.{
  ℕ, ◌<◌, ◌≡◌, ◌≢◌, ◌==◌, ◌∙◌, ◌||◌, sym, ap, refl, inl, inr, Bool, true, false, ◌&&◌, Bool-cases,
  Option, none, some, List, [], ◌∷◌, arith, Ptr, if◌then◌else◌, ◌∈◌, ◌∉◌, has, update, Distinct,
  ◌>>=◌,
}
use tasking_framework.Policy.Interface.{SchedulePolicy}
use tasking_framework.System.World.{
  TaskState, task_wait, task_run, task_finish, task_reset, task_pending, World, Platform, set_state,
}
use tasking_framework.System.Queued.{IsQueued, after_perform, out_of_queue}
use tasking_framework.System.Reset.{
  is_finish, are_all_executed, group_reset, group_finalize, finalize_in, finalize_execution,
}
use tasking_framework.System.Restart.{Restarts, waits, runs, Unchanged, reset-Unchanged}

-- The tasks in the slots of a group, up to the first free slot.
abbrev pub members : List Ptr → List ℕ
members [] = []
members (none ∷ slots) = []
members (some t ∷ slots) = t ∷ members slots

-- A task after its reset: it waits outside of the run queue, or it is to run, and queued if the
-- scheduler runs.
pub data IsRestarted (running : Bool) (ys : List ℕ) (t : ℕ) (s : TaskState) : Type 0 where
  waiting : s ≡ task_wait → t ∉ ys → IsRestarted running ys t s
  to_run : s ≡ task_run → has t ys ≡ running → IsRestarted running ys t s

IsRestarted-has :
    (running : Bool) (xs ys : List ℕ) (t : ℕ) (s : TaskState)
    → has t ys ≡ has t xs
    → IsRestarted running xs t s
    → IsRestarted running ys t s
IsRestarted-has running xs ys t s e (waiting w out) = waiting w (e ∙ out)
IsRestarted-has running xs ys t s e (to_run r q) = to_run r (e ∙ q)

only : (t a : ℕ) → a ∈ (t ∷ []) → t ≡ a
only t a m = ground arith

apart : (t a : ℕ) (ts : List ℕ) → a ∉ (t ∷ ts) → t == a ≡ false
apart t a ts m = ground arith

pub equal : (t a : ℕ) → t == a ≡ true → t ≡ a
equal t a e = ground arith

pub tail : (t a : ℕ) (ts : List ℕ) → a ∈ (t ∷ ts) → t == a ≡ false → a ∈ ts
tail t a ts m n = ground arith

pub differ : (t a : ℕ) (ts : List ℕ) → t ∉ ts → a ∈ ts → t == a ≡ false
differ t a ts out m = elim (Bool-cases (t == a)) [
  | inl y ↦
      (let e : true ≡ false = sym m ∙ ap (λ n. has n ts) (sym (equal t a y)) ∙ out in absurd (cc))
  | inr n ↦ n
]

module _ (policy : SchedulePolicy) {E : Type 0} (platform : Platform E) where
  open policy use {State, tasks, place, has-place}

  -- The state after a reset of these tasks, and the run queue.
  pub record AreRestarted (ts : List ℕ) (w : World State E) (xs : List ℕ) (w' : World State E)
      (ys : List ℕ) : Type 0 where
    pub queued : IsQueued policy platform w' ys
    pub each : (a : ℕ) → a ∈ ts → IsRestarted w.running ys a (w'.tasks a).state
    pub others : (a : ℕ) → a ∉ ts → w'.tasks a ≡ w.tasks a
    pub places : (a : ℕ) → a ∉ ts → has a ys ≡ has a xs
    pub owner : (i : ℕ) → (w'.inputs i).task ≡ (w.inputs i).task
    pub running : w'.running ≡ w.running

  -- Every task of the group has a number, has the inputs that it names, and has run.
  pub record CanRestart (ts : List ℕ) (w : World State E) : Type 0 where
    pub known : (a : ℕ) → a ∈ ts → a < tasks
    pub owns : (a : ℕ) → a ∈ ts → (i : ℕ) → i ∈ (w.tasks a).inputs → (w.inputs i).task ≡ some a
    pub once : Distinct ts

  pub one_reset :
      (t : ℕ) (w w' : World State E) (xs : List ℕ) (b : t < tasks)
      → t ∉ xs
      → Restarts policy platform t w xs b w'
      → Unchanged policy platform t w xs b w'
      → (ys : List ℕ) × AreRestarted (t ∷ []) w xs w' ys
  one_reset t w w' xs b out (waits s q) u = (
    xs,
    record {
      queued = q;
      each = λ a m.
          subst (λ n. IsRestarted w.running xs n (w'.tasks n).state) (only t a m) (waiting s out);
      others = λ a m. u.others a (apart t a [] m);
      places = λ a m. refl;
      owner = u.owner;
      running = u.running;
    },
  )
  one_reset t w w' xs b out (runs s q) u = (
    after_perform policy platform t w xs,
    record {
      queued = q;
      each = λ a m.
          subst
            (λ n. IsRestarted w.running (after_perform policy platform t w xs) n (w'.tasks n).state)
            (only t a m) (to_run s (ground (arith, has-place t t xs, out)));
      others = λ a m. u.others a (apart t a [] m);
      places = λ a m. ground (arith, has-place a t xs);
      owner = u.owner;
      running = u.running;
    },
  )

  pub two_resets :
      (t : ℕ) (ts : List ℕ) (w w₁ w₂ : World State E) (xs ys zs : List ℕ)
      → t ∉ ts
      → AreRestarted (t ∷ []) w xs w₁ ys
      → AreRestarted ts w₁ ys w₂ zs
      → AreRestarted (t ∷ ts) w xs w₂ zs
  two_resets t ts w w₁ w₂ xs ys zs out h r =
      let head : IsRestarted w.running zs t (w₂.tasks t).state =
        IsRestarted-has w.running ys zs t (w₂.tasks t).state (r.places t out) (
          subst (λ task. IsRestarted w.running ys t task.state) (sym (r.others t out))
            (h.each t (ground arith))) in
      record {
        queued = r.queued;
        each = λ a m. elim (Bool-cases (t == a)) [
          | inl y ↦ subst (λ n. IsRestarted w.running zs n (w₂.tasks n).state) (equal t a y) head
          | inr n ↦
              subst (λ on. IsRestarted on zs a (w₂.tasks a).state) h.running
                (r.each a (tail t a ts m n))
        ];
        others = λ a m. r.others a (ground arith) ∙ h.others a (ground arith);
        places = λ a m. r.places a (ground arith) ∙ h.places a (ground arith);
        owner = λ i. r.owner i ∙ h.owner i;
        running = r.running ∙ h.running;
      }

  not_queued :
      (t : ℕ) (w : World State E) (xs : List ℕ)
      → IsQueued policy platform w xs
      → (w.tasks t).state ≡ task_finish
      → t ∉ xs
  not_queued t w xs q e = out_of_queue policy platform t w xs task_finish q e (λ e'. absurd (cc))

  pub group_reset-AreRestarted :
      (slots : List Ptr) (w : World State E) (xs : List ℕ)
      → CanRestart (members slots) w
      → IsQueued policy platform w xs
      → ((a : ℕ) → a ∈ members slots → (w.tasks a).state ≡ task_finish)
      → (w' : World State E) × (ys : List ℕ) × (group_reset policy platform slots w ≡ some w')
        × AreRestarted (members slots) w xs w' ys
  unfolding group_reset
  group_reset-AreRestarted [] w xs c q f = (
    w,
    xs,
    refl,
    record {
      queued = q;
      each = λ a m. absurd (cc);
      others = λ a m. refl;
      places = λ a m. refl;
      owner = λ i. refl;
      running = refl;
    },
  )
  group_reset-AreRestarted (none ∷ slots) w xs c q f = (
    w,
    xs,
    refl,
    record {
      queued = q;
      each = λ a m. absurd (cc);
      others = λ a m. refl;
      places = λ a m. refl;
      owner = λ i. refl;
      running = refl;
    },
  )
  group_reset-AreRestarted (some t ∷ slots) w xs c q f =
      let here : t ∈ (t ∷ members slots) = ground arith in
      let out = not_queued t w xs q (f t here) in
      let b = c.known t here in
      let (w₁, done, e, u) = reset-Unchanged policy platform t w xs b q out (c.owns t here) in
      let (ys, r) = one_reset t w w₁ xs b out e u in
      let same : (a : ℕ) → a ∈ members slots → w₁.tasks a ≡ w.tasks a =
        λ a m. u.others a (differ t a (members slots) c.once.0 m) in
      let (w₂, zs, done', r') =
        group_reset-AreRestarted slots w₁ ys
          (record {
            known = λ a m. c.known a (ground arith);
            owns = λ a m i k.
                u.owner i
                ∙ c.owns a (ground arith) i (subst (λ task. i ∈ task.inputs) (same a m) k);
            once = c.once.1;
          })
          r.queued (λ a m. ap (λ task. task.state) (same a m) ∙ f a (ground arith)) in
      (w₂, zs, rw done done', two_resets t (members slots) w w₁ w₂ xs ys zs c.once.0 r r')
