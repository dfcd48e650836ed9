-- ===== src/Tests/Wirings.antt =====
-- Inputs that join and leave the channels of a small application.
use tasking_framework.Base.{
  ℕ, ◌≡◌, refl, false, true, none, some, List, [], ◌∷◌, arith, ◌==◌, ltb, if◌then◌else◌, update,
  remove,
}
use tasking_framework.Policy.Fifo as Fifo
use tasking_framework.System.World.{World, Platform, task_wait, plain}
use tasking_framework.System.Wiring.{associate, deassociate}
use tasking_framework.System.Connected.{IsConnected}
use tasking_framework.System.Connected.Association.{associate-IsConnected, deassociate-IsConnected}

abbrev platform : Platform (Unit {0})
platform = record {
  inputs = 3;
  channel_reset = λ c e. e;
  synchronize_start = λ c t n e. e;
  synchronize_end = λ c t e. e;
}

-- Inputs 1 and 0 are in the list of channel 0; input 2 has no channel.
abbrev wired : World Fifo.Fifo (Unit {0})
wired = record {
  inputs = λ i. record {
    task = none;
    channel = if ltb i 2 then some 0 else none;
    final = false;
    synchron = true;
    notifications = 0;
    missed_notifications = 0;
    activation_threshold = 1;
    channel_next_input = if i == 1 then some 0 else none;
  };
  channels = λ c. record {
    kind = plain;
    inputs = if c == 0 then some 1 else none;
    counter = 0;
    start_value = 0;
  };
  tasks = λ t. record {
    state = task_wait;
    inputs = [];
    condition = none;
    next_task_at_scheduler = none;
    group = none;
  };
  groups = λ g. [];
  running = true;
  associated_tasks = none;
  queue = Fifo.init;
  signals = 0;
  rest = tt;
}

abbrev lists : ℕ → List ℕ
lists c = if c == 0 then 1 ∷ 0 ∷ [] else []

wired-IsConnected : IsConnected platform wired lists
wired-IsConnected = record {
  listed = λ c. ground arith;
  once = λ c. ground arith;
  known = λ c. ground arith;
  owned = λ c i. ground arith;
}

-- Input 2 joins channel 0.
associate-IsConnected_example :
    (w : World Fifo.Fifo (Unit {0})) × (associate platform 2 0 wired ≡ some (w, true))
    × IsConnected platform w (update lists 0 (2 ∷ 1 ∷ 0 ∷ []))
associate-IsConnected_example =
    associate-IsConnected platform 2 0 wired lists wired-IsConnected (omega arith) refl

-- Input 0, the last one of the list, leaves it.
deassociate-IsConnected_example :
    (w : World Fifo.Fifo (Unit {0})) × (deassociate platform 0 wired ≡ some w)
    × ((w.inputs 0).channel ≡ none)
    × IsConnected platform w (λ c. remove 0 (lists c))
deassociate-IsConnected_example = deassociate-IsConnected platform 0 wired lists wired-IsConnected
