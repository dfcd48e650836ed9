-- ===== src/Tests/Inputs.antt =====
-- The inputs of src/taskInput.cpp and src/taskInputArray.cpp at concrete counters.
use tasking_framework.Base.{
  ◌≡◌, refl, true, false, not, ◌&&◌, ◌||◌, none, some, List, [], ◌∷◌, arith,
}
use tasking_framework.Input.{Input, is_activated, is_final, is_optional, notify, reset}
use tasking_framework.Input.Counts.{pending, IsConsistent, notify-pending, reset-pending}
use tasking_framework.InputArray.{array_is_activated}
use tasking_framework.InputArray.Activation.{
  some_final, all_activated, documented, non_final, activated-documented, activated_condition,
}

-- Threshold 2, reached, with one more notification missed.
abbrev full : Input
full = record {
  task = some 0;
  channel = some 0;
  final = false;
  synchron = true;
  notifications = 2;
  missed_notifications = 1;
  activation_threshold = 2;
  channel_next_input = none;
}

full-IsConsistent : IsConsistent full
full-IsConsistent = ground arith

notify-pending_example :
    (pending (notify full).0 ≡ 4)
    × IsConsistent (notify full).0
    × ((notify full).1 ≡ (not (true && is_activated full) && is_activated (notify full).0))
notify-pending_example = notify-pending full full-IsConsistent (omega arith)

reset-pending_example :
    (pending (reset full).0 ≡ 1)
    × IsConsistent (reset full).0
    × ((reset full).1 ≡ is_activated (reset full).0)
reset-pending_example = reset-pending full full-IsConsistent

-- An activated input that is final, beside one that is not activated.
abbrev array : List Input
array = record full { notifications = 0 } ∷ record full { final = true } ∷ []

activated-documented_example :
    array_is_activated none array ≡ (documented array || all_activated (non_final array))
activated-documented_example = activated-documented array

-- A final input alone activates the task before it is activated, and the documentation says that it
-- does not.
abbrev waiting : List Input
waiting = record full { final = true; notifications = 0 } ∷ []

waiting_activates : array_is_activated none waiting ≡ true
unfolding array_is_activated is_activated is_final
waiting_activates = refl

waiting_documented : documented waiting ≡ false
unfolding documented some_final all_activated is_activated is_optional
waiting_documented = refl

activated_condition_example :
    array_is_activated (some (λ is. false)) array ≡ some_final (record full { final = true } ∷ [])
activated_condition_example = activated_condition (λ is. false) array

-- The final input does not overrule a condition that fails, when it stands first.
first_final_ignored :
    array_is_activated (some (λ is. false)) (record full { final = true } ∷ []) ≡ false
unfolding array_is_activated is_activated
first_final_ignored = refl
