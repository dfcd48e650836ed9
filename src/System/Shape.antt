-- ===== src/System/Shape.antt =====
-- What a task keeps in every step of src/task.cpp: its inputs and its group.
use tasking_framework.Base.{ℕ, ◌≡◌, ◌==◌, ap, inl, inr, Bool-cases, eq_of_test, List, Ptr}
use mathlib.Core.Path.{subst}
use tasking_framework.Policy.Interface.{SchedulePolicy}
use tasking_framework.System.World.{World, Platform, Task}
use tasking_framework.System.Queued.{Activates}

abbrev pub SameShape : Task → Task → Type 0
SameShape t u = ◌≡◌ {A = List ℕ × Ptr} (t.inputs, t.group) (u.inputs, u.group)

pub Activates-SameShape :
    (policy : SchedulePolicy) {E : Type 0} (platform : Platform E) (t : ℕ)
    (w : World policy.State E) (xs : List ℕ) (w' : World policy.State E)
    → Activates policy platform t w xs w'
    → (k : ℕ) → SameShape (w'.tasks k) (w.tasks k)
Activates-SameShape policy platform t w xs w' a k = elim (Bool-cases (t == k)) [
  | inl e ↦
      subst (λ n. SameShape (w'.tasks n) (w.tasks n)) (eq_of_test t k e)
        (ap (λ task. (task.inputs, task.group)) a.task)
  | inr n ↦ ap (λ task. (task.inputs, task.group)) (a.others k n)
]
