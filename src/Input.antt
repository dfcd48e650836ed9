-- ===== src/Input.antt =====
-- include/impl/taskInput_impl.h and src/taskInput.cpp: one input of a task, apart from the calls that
-- go to its channel and its task, which stand in System. Counters are 32-bit unsigned numbers, so an
-- increment wraps. Pointers to tasks, channels and inputs are their numbers.
pub mod Counts
use tasking_framework.Base.{
  ℕ, ◌+◌, ◌-◌, ◌%◌, ◌^◌, ◌≡◌, Bool, true, false, not, ◌&&◌, Option, none, some, Ptr, is_null, ltb,
  leb, ◌==◌, if◌then◌else◌,
}

-- `std::numeric_limits<unsigned int>::max()`.
abbrev pub uninitialized : ℕ
uninitialized = 2 ^ 32 - 1

-- `++` and `+=` on an unsigned int.
abbrev pub wrap : ℕ → ℕ
wrap n = n % 2 ^ 32

pub record Input : Type 0 where
  pub task : Ptr
  pub channel : Ptr
  pub final : Bool
  pub synchron : Bool
  pub notifications : ℕ
  pub missed_notifications : ℕ
  pub activation_threshold : ℕ
  pub channel_next_input : Ptr

-- The constructor.
unfoldable pub init : Input
init = record {
  task = none;
  channel = none;
  final = false;
  synchron = false;
  notifications = 0;
  missed_notifications = 0;
  activation_threshold = uninitialized;
  channel_next_input = none;
}

-- `configure` with a number of activations.
unfoldable pub configure : ℕ → Bool → Input → Input
configure activations final i = record i {
  activation_threshold = activations;
  final = final;
  synchron = ltb 0 activations;
}

unfoldable pub set_synchron : Bool → Input → Input
set_synchron sync_state i =
    let synchron = sync_state && ltb 0 i.activation_threshold in
    if synchron
    then (if ltb i.activation_threshold i.notifications
        then record i {
          synchron = synchron;
          missed_notifications = i.notifications - i.activation_threshold;
          notifications = i.activation_threshold;
        }
        else record i { synchron = synchron })
    else record i {
      synchron = synchron;
      notifications = wrap (i.notifications + i.missed_notifications);
      missed_notifications = 0;
    }

unfoldable pub is_activated : Input → Bool
is_activated i =
    if i.final && (i.activation_threshold == 0)
    then ltb 0 i.notifications
    else leb i.activation_threshold i.notifications

unfoldable pub is_optional : Input → Bool
is_optional i = i.activation_threshold == 0

unfoldable pub is_final : Input → Bool
is_final i = i.final

unfoldable pub is_valid : Input → Bool
is_valid i =
    not (i.activation_threshold == uninitialized) && not (is_null i.channel) && not (is_null i.task)

-- The part of `notifyInput` that stays in the input, and whether it goes on to activate the task.
unfoldable pub notify : Input → Input × Bool
unfolding is_activated
notify i =
    if i.synchron
    then (if is_activated i
        then (record i { missed_notifications = wrap (i.missed_notifications + 1) }, false)
        else (let i' = record i { notifications = wrap (i.notifications + 1) } in
            (i', is_activated i')))
    else (let i' = record i { notifications = wrap (i.notifications + 1) } in (i', is_activated i'))

-- The part of `reset` that stays in the input, and whether it goes on to activate the task.
unfoldable pub reset : Input → Input × Bool
reset i =
    if i.synchron
    then (if leb i.activation_threshold i.missed_notifications
        then (
          record i {
            missed_notifications = i.missed_notifications - i.activation_threshold;
            notifications = i.activation_threshold;
          },
          true,
        )
        else (record i { notifications = i.missed_notifications; missed_notifications = 0 }, false))
    else (record i { notifications = 0 }, false)
