-- ===== src/Names/Numbers.antt =====
-- The identifications of tasks and channels in src/task.cpp and src/taskChannel.cpp: those that are
-- given, those made from names, and those that a constructor counts. `count` is the static variable
-- of the constructor, and identifications have 32 bits.
use tasking_framework.Base.{
  ℕ, zero, suc, ◌+◌, ◌%◌, ◌^◌, ◌≡◌, ◌<◌, refl, Bool, Option, List, [], ◌∷◌, arith, ◌==◌,
  if◌then◌else◌,
}
use tasking_framework.Names.{get_identification_from_name}

-- The constructor of `Channel` with an identification: the variable afterwards, and the channel's
-- identification.
unfoldable pub channel_id : ℕ → ℕ → ℕ × ℕ
channel_id count id = if id == 0 then ((count + 1) % 2 ^ 32, count) else (count, id)

-- The constructor of `Channel` with a name, and `setChannelName`.
unfoldable pub channel_id_from_name : Bool → Option (List ℕ) → ℕ
channel_id_from_name signed_char name = get_identification_from_name signed_char 4 name

-- The constructor of `Task` with an identification.
unfoldable pub task_id : ℕ → ℕ → ℕ × ℕ
task_id count id = if id == 0 then ((count + 1) % 2 ^ 32, count) else (count, id)

-- The constructor of `Task` with a name, which calls the other one.
unfoldable pub task_id_from_name : Bool → ℕ → Option (List ℕ) → ℕ × ℕ
unfolding task_id
task_id_from_name signed_char count name =
    task_id count (get_identification_from_name signed_char 4 name)

-- `setTaskName`.
unfoldable pub set_task_name : Bool → Option (List ℕ) → ℕ
set_task_name signed_char name = get_identification_from_name signed_char 4 name

-- The identifications of channels that are constructed one after the other.
pub constructed : ℕ → List ℕ → List ℕ
constructed count [] = []
constructed count (id ∷ ids) =
    let (count', given) = channel_id count id in given ∷ constructed count' ids

-- Those that the constructor has counted.
counted : List ℕ → List ℕ → List ℕ
counted [] gs = []
counted (id ∷ ids) [] = []
counted (id ∷ ids) (g ∷ gs) = if id == 0 then g ∷ counted ids gs else counted ids gs

abbrev zeros : List ℕ → ℕ
zeros [] = 0
zeros (id ∷ ids) = if id == 0 then suc (zeros ids) else zeros ids

abbrev from : ℕ → ℕ → List ℕ
from count zero = []
from count (suc n) = count ∷ from (count + 1) n

-- The channels without a given identification get consecutive numbers, whatever others are
-- constructed between them, as long as the variable does not overflow.
constructed-from :
    (count : ℕ) (ids : List ℕ)
    → count + zeros ids < 2 ^ 32
    → counted ids (constructed count ids) ≡ from count (zeros ids)
unfolding counted constructed channel_id
constructed-from count [] b = refl
constructed-from count (id ∷ ids) b =
    ground (arith, constructed-from (count + 1) ids, constructed-from count ids)
