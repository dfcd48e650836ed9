-- ===== src/Input/Counts.antt =====
-- What the counters of an input of src/taskInput.cpp mean: no notification is lost or made up.
use tasking_framework.Base.{
  ℕ, ◌+◌, ◌^◌, ◌≡◌, ◌≤◌, ◌<◌, Bool, true, false, not, ◌&&◌, arith, if◌then◌else◌,
}
use tasking_framework.Input.{Input, configure, set_synchron, is_activated, notify, reset}

-- All notifications that have not been consumed.
abbrev pub pending : Input → ℕ
pending i = i.notifications + i.missed_notifications

-- A synchronized input counts up to its threshold, which is not zero, and misses a notification
-- only beyond; any other input misses none.
pub record IsConsistent (i : Input) : Type 0 where
  pub positive : i.synchron ≡ true → 0 < i.activation_threshold
  pub capped : i.synchron ≡ true → i.notifications ≤ i.activation_threshold
  pub overflow :
      i.synchron ≡ true → 0 < i.missed_notifications → i.notifications ≡ i.activation_threshold
  pub direct : i.synchron ≡ false → i.missed_notifications ≡ 0

-- A notification of a consistent input whose counters do not overflow adds one to what is pending,
-- keeps the input consistent, and asks for the task exactly when the input is activated afterwards
-- and was not both synchronized and activated before.
pub notify-pending :
    (i : Input)
    → IsConsistent i
    → pending i + 1 < 2 ^ 32
    → (pending (notify i).0 ≡ pending i + 1)
      × IsConsistent (notify i).0
      × ((notify i).1 ≡ (not (i.synchron && is_activated i) && is_activated (notify i).0))
unfolding notify
notify-pending i c b = (ground arith, ground arith, ground arith)

-- A reset of a consistent input consumes what the input had counted, and what it had missed stays pending; a synchronized
-- input asks for its task exactly when that makes it activated again.
pub reset-pending :
    (i : Input)
    → IsConsistent i
    → (pending (reset i).0 ≡ (if i.synchron then i.missed_notifications else 0))
      × IsConsistent (reset i).0
      × ((reset i).1 ≡ (i.synchron && is_activated (reset i).0))
unfolding reset is_activated
reset-pending i c = (ground arith, ground arith, ground arith)

-- Changing the mode of a consistent input, whose counters together do not overflow, loses no
-- notification and keeps the input consistent.
pub set_synchron-pending :
    (b : Bool) (i : Input)
    → IsConsistent i
    → pending i < 2 ^ 32
    → (pending (set_synchron b i) ≡ pending i) × IsConsistent (set_synchron b i)
unfolding set_synchron
set_synchron-pending b i c h = (ground arith, ground arith)

-- A newly configured input that has counted nothing is consistent.
pub configure-IsConsistent :
    (n : ℕ) (final : Bool) (i : Input) → pending i ≡ 0 → IsConsistent (configure n final i)
unfolding configure
configure-IsConsistent n final i h = ground arith
