-- ===== src/System/Wiring.antt =====
-- How an application connects its parts: `associateTo` and `deassociate` of src/taskChannel.cpp,
-- `configure`, `associate`, `deassociate` and `connectTask` of src/taskInput.cpp, `configureInput`
-- and `joinTo` of src/task.cpp, and `join` and `isValid` of src/taskGroup.cpp.
-- The walk along a channel's list of inputs is bounded by the number of inputs.
use tasking_framework.Base.{
  ℕ, zero, suc, Bool, true, false, ◌&&◌, Option, none, some, List, [], ◌∷◌, Ptr, same_ptr, ◌==◌,
  get_elem?, if◌then◌else◌, ◌>>=◌, update, map,
}
use tasking_framework.Input.{Input}
use tasking_framework.Input as Input
use tasking_framework.InputArray.{array_is_valid}
use tasking_framework.System.World.{World, Platform, set_task, set_input}

-- The task in the first free slot, if there is one.
fill_slot : ℕ → List Ptr → List Ptr
fill_slot t [] = []
fill_slot t (none ∷ ts) = some t ∷ ts
fill_slot t (some u ∷ ts) = some u ∷ fill_slot t ts

has_free_slot : List Ptr → Bool
has_free_slot [] = false
has_free_slot (none ∷ ts) = true
has_free_slot (some u ∷ ts) = has_free_slot ts

module _ {Q E : Type 0} (platform : Platform E) where
  unfoldable pub set_channel_inputs : ℕ → Ptr → World Q E → World Q E
  set_channel_inputs c p w = record w {
    channels = update w.channels c (record (w.channels c) { inputs = p });
  }

  unfoldable pub set_next_input : ℕ → Ptr → World Q E → World Q E
  set_next_input i p w = set_input i (record (w.inputs i) { channel_next_input = p }) w

  -- The search of `associateTo`: whether the input stands in the list.
  unfoldable pub in_list : ℕ → ℕ → Ptr → World Q E → Option Bool
  in_list zero i p w = none
  in_list (suc fuel) i none w = some false
  in_list (suc fuel) i (some j) w =
      let rest = in_list fuel i (w.inputs j).channel_next_input w in
      if i == j then some true else rest

  -- `Channel::associateTo`.
  unfoldable pub associate_to : ℕ → ℕ → World Q E → Option (World Q E × Bool)
  unfolding in_list set_channel_inputs set_next_input
  associate_to c i w = do
    present ← in_list (suc platform.inputs) i (w.channels c).inputs w
    some (
        if present
        then (w, false)
        else (set_channel_inputs c (some i) (set_next_input i (w.channels c).inputs w), true))

  -- The loop of `deassociate`, with `previous` and `search`: the last input of the list, or the one
  -- before the input that is looked for.
  unfoldable pub find_previous : ℕ → ℕ → ℕ → Ptr → World Q E → Option ℕ
  find_previous zero i previous search w = none
  find_previous (suc fuel) i previous none w = some previous
  find_previous (suc fuel) i previous (some j) w =
      let rest = find_previous fuel i j (w.inputs j).channel_next_input w in
      if i == j then some previous else rest

  unfoldable pub unlink : ℕ → Ptr → World Q E → Option (World Q E)
  unlink i none w = none
  unlink i (some h) w = do
    previous ← find_previous (suc platform.inputs) i h (w.inputs h).channel_next_input w
    some (
        if same_ptr (some i) (w.inputs previous).channel_next_input
        then set_next_input previous (w.inputs i).channel_next_input w
        else w)

  -- `Channel::deassociate`; it reads the first input of the list through a pointer.
  unfoldable pub deassociate_from : ℕ → ℕ → World Q E → Option (World Q E)
  unfolding unlink find_previous set_channel_inputs set_next_input
  deassociate_from c i w =
      if same_ptr (some i) (w.channels c).inputs
      then some (set_channel_inputs c (w.inputs i).channel_next_input w)
      else unlink i (w.channels c).inputs w

  -- `Input::associate`.
  unfoldable pub associate : ℕ → ℕ → World Q E → Option (World Q E × Bool)
  associate i c w = associate_to c i (set_input i (record (w.inputs i) { channel = some c }) w)

  unfoldable pub deassociate_at : Ptr → ℕ → World Q E → Option (World Q E)
  deassociate_at none i w = some w
  deassociate_at (some c) i w = do
    w' ← deassociate_from c i w
    some (set_input i (record (w'.inputs i) { channel = none }) w')

  -- `Input::deassociate`.
  unfoldable pub deassociate : ℕ → World Q E → Option (World Q E)
  unfolding deassociate_at
  deassociate i w = deassociate_at (w.inputs i).channel i w

  leave_channel : Ptr → ℕ → World Q E → Option (World Q E)
  leave_channel none i w = some w
  leave_channel (some c) i w = deassociate_from c i w

  -- `Input::configure` with a channel.
  unfoldable pub configure_channel : ℕ → ℕ → ℕ → Bool → World Q E → Option (World Q E)
  unfolding leave_channel
  configure_channel i c activations final w = do
    w' ← leave_channel (w.inputs i).channel i w
    (w'', _) ← associate_to c i (
        set_input i (Input.configure activations final (record (w'.inputs i) { channel = some c }))
          w')
    some w''

  -- `InputArray::connectTask`, over `Input::connectTask`.
  unfoldable pub connect_task : ℕ → List ℕ → World Q E → World Q E
  connect_task t [] w = w
  connect_task t (i ∷ is) w =
      connect_task t is (set_input i (record (w.inputs i) { task = some t }) w)

  -- `Task::configureInput`; an index behind the end of the array is stopped by an assertion.
  unfoldable pub configure_input : ℕ → ℕ → ℕ → World Q E → Option (World Q E × Bool)
  configure_input t key c w = elim (get_elem? (w.tasks t).inputs key) [
    | none ↦ none
    | some i ↦ associate i c w
  ]

  -- `Task::isValid`.
  unfoldable pub task_is_valid : ℕ → World Q E → Bool
  task_is_valid t w = array_is_valid (map w.inputs (w.tasks t).inputs)

  -- `Group::isValid`.
  unfoldable pub group_is_valid : List Ptr → World Q E → Bool
  group_is_valid [] w = true
  group_is_valid (none ∷ ts) w = false
  group_is_valid (some t ∷ ts) w = task_is_valid t w && group_is_valid ts w

  -- `Group::join`, with `Task::joinTo`.
  unfoldable pub join : ℕ → ℕ → World Q E → World Q E
  unfolding fill_slot has_free_slot
  join g t w =
      if has_free_slot (w.groups g)
      then record (set_task t (record (w.tasks t) { group = some g }) w) {
        groups = update w.groups g (fill_slot t (w.groups g));
      }
      else w
