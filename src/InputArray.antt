-- ===== src/InputArray.antt =====
-- src/taskInputArray.cpp: the inputs of a task. The array is a list of inputs, and `condition` the
-- alternative condition, a function pointer that may be null. A loop over the array is a recursion
-- on its list. The calls that go on to channels and tasks stand in System.
pub mod Activation
use tasking_framework.Base.{
  ℕ, suc, ◌+◌, Bool, true, false, not, ◌&&◌, Option, none, some, List, [], ◌∷◌, if◌then◌else◌,
  length, drop,
}
use tasking_framework.Input.{Input, is_activated, is_optional, is_final, is_valid}

unfoldable pub array_is_valid : List Input → Bool
array_is_valid [] = true
array_is_valid (i ∷ is) = is_valid i && array_is_valid is

-- The first loop of `isActivated` from index `n` on: the value of `activate`, and that of
-- `lastChecked`, which stays at the length of the array unless an input says no.
scan : ℕ → ℕ → List Input → Bool × ℕ
scan len n [] = (true, len)
scan len n (i ∷ is) =
    let rest = scan len (suc n) is in
    if not (is_activated i)
    then (if not (is_final i) && not (is_optional i) then (false, n) else rest)
    else (if is_final i then (true, len) else rest)

-- The second loop: whether an input is activated and final.
pub any_final : List Input → Bool
any_final [] = false
any_final (i ∷ is) = if is_activated i && is_final i then true else any_final is

first_pass : Option (List Input → Bool) → List Input → Bool × ℕ
first_pass none is = scan (length is) 0 is
first_pass (some condition) is = if condition is then (true, length is) else (false, 0)

-- `isActivated`: the second loop starts behind `lastChecked`.
unfoldable pub array_is_activated : Option (List Input → Bool) → List Input → Bool
unfolding first_pass scan any_final
array_is_activated condition is =
    let (activate, last_checked) = first_pass condition is in
    if any_final (drop (last_checked + 1) is) then true else activate
