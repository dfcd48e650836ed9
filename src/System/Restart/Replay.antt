-- ===== src/System/Restart/Replay.antt =====
-- The resets of src/taskInput.cpp and src/taskChannel.cpp over the inputs of a task, each described for itself:
-- what becomes of the inputs, of their channels, and of what lies outside.
use tasking_framework.Base.{
  ℕ, ◌≡◌, ◌==◌, sym, ap, refl, Bool, true, false, ◌&&◌, ◌||◌, Option, none, some, List, [], ◌∷◌,
  map, arith, if◌then◌else◌, update, Ptr,
}
use tasking_framework.Input as Input
use tasking_framework.InputArray.{array_is_activated}
use tasking_framework.Policy.Interface.{SchedulePolicy}
use tasking_framework.System.World.{World, Channel, Kind, plain, barrier, derived, Platform}
use tasking_framework.System.Activation.{set_counter}
use tasking_framework.System.Reset.{reset_of, reset_at, channel_reset}
use tasking_framework.System.Resetting.{}

abbrev pub link_of : (ℕ → Input.Input) → ℕ → Ptr
link_of f i = (f i).channel

abbrev pub kind_of : (ℕ → Channel) → ℕ → Kind
kind_of f c = (f c).kind

-- The inputs after those of the list have been reset, one after the other.
unfoldable pub reset_all : List ℕ → (ℕ → Input.Input) → ℕ → Input.Input
reset_all [] f = f
reset_all (i ∷ is) f = reset_all is (update f i (Input.reset (f i)).0)

-- Whether resetting the inputs of the list in turn activates a task with this condition and these
-- inputs: one of them has enough missed notifications, and the inputs activate the task then.
unfoldable pub reactivates :
    Option (List Input.Input → Bool) → List ℕ → List ℕ → (ℕ → Input.Input) → Bool
reactivates condition members [] f = false
reactivates condition members (i ∷ is) f =
    let f' = update f i (Input.reset (f i)).0 in
    ((Input.reset (f i)).1 && array_is_activated condition (map f' members))
    || reactivates condition members is f'

unfoldable pub points : Ptr → ℕ → Bool
points none c = false
points (some d) c = d == c

-- Whether an input of the list belongs to the channel.
unfoldable pub feeds : (ℕ → Ptr) → ℕ → List ℕ → Bool
unfolding points
feeds link c [] = false
feeds link c (i ∷ is) = points (link i) c || feeds link c is

unfoldable pub is_barrier : Kind → Bool
is_barrier barrier = true
is_barrier k = false

-- A barrier that is reset counts from its start value again.
unfoldable pub refilled : Bool → Channel → Channel
unfolding is_barrier
refilled b c = if b && is_barrier c.kind then record c { counter = c.start_value } else c

pub refilled_twice : (a b : Bool) (c : Channel) → refilled b (refilled a c) ≡ refilled (a || b) c
unfolding refilled
refilled_twice a b c = ground arith

pub refilled-kind : (b : Bool) (c : Channel) → (refilled b c).kind ≡ c.kind
unfolding refilled
refilled-kind b c = ground arith

refilled_other :
    (d c : ℕ) (f : ℕ → Channel) → is_barrier (f d).kind ≡ false → refilled (d == c) (f c) ≡ f c
unfolding refilled
refilled_other d c f e = ground (arith, e)

refilled_here :
    (d c : ℕ) (f : ℕ → Channel)
    → is_barrier (f d).kind ≡ true
    → update f d (record (f d) { counter = (f d).start_value }) c ≡ refilled (d == c) (f c)
unfolding refilled
refilled_here d c f e = ground (arith, e)

module _ (policy : SchedulePolicy) {E : Type 0} (platform : Platform E) where
  open policy use {State, tasks, place}

  -- What lies outside after the channels of the inputs in the list have been reset: those of other
  -- classes change it.
  unfoldable pub outside_of : Kind → ℕ → E → E
  outside_of derived c e = platform.channel_reset c e
  outside_of k c e = e

  unfoldable pub outside_at : (ℕ → Kind) → Ptr → E → E
  unfolding outside_of
  outside_at kinds none e = e
  outside_at kinds (some c) e = outside_of (kinds c) c e

  unfoldable pub reset_outside : (ℕ → Kind) → (ℕ → Ptr) → List ℕ → E → E
  unfolding outside_at
  reset_outside kinds link [] e = e
  reset_outside kinds link (i ∷ is) e = reset_outside kinds link is (outside_at kinds (link i) e)

  pub record ResetsChannel (p : Ptr) (w w' : World State E) : Type 0 where
    pub channels : (c : ℕ) → w'.channels c ≡ refilled (points p c) (w.channels c)
    pub rest : w'.rest ≡ outside_at (kind_of w.channels) p w.rest

  reset_of-ResetsChannel :
      (k : Kind) (d : ℕ) (w : World State E)
      → (w.channels d).kind ≡ k
      → ResetsChannel (some d) w (reset_of policy platform k d w)
  unfolding reset_of set_counter outside_at outside_of points is_barrier
  reset_of-ResetsChannel plain d w e = record {
    channels = λ c. sym (refilled_other d c w.channels (ap is_barrier e));
    rest = sym (ap (λ k. outside_of k d w.rest) e);
  }
  reset_of-ResetsChannel barrier d w e = record {
    channels = λ c. refilled_here d c w.channels (ap is_barrier e);
    rest = sym (ap (λ k. outside_of k d w.rest) e);
  }
  reset_of-ResetsChannel derived d w e = record {
    channels = λ c. sym (refilled_other d c w.channels (ap is_barrier e));
    rest = sym (ap (λ k. outside_of k d w.rest) e);
  }

  pub reset_at-ResetsChannel :
      (p : Ptr) (w : World State E) → ResetsChannel p w (reset_at policy platform p w)
  unfolding reset_at channel_reset outside_at points refilled
  reset_at-ResetsChannel none w = record { channels = λ c. refl; rest = refl }
  reset_at-ResetsChannel (some d) w = reset_of-ResetsChannel (w.channels d).kind d w refl
