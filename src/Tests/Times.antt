-- ===== src/Tests/Times.antt =====
-- Names of tasks and channels, a schedule with triggers at the offsets 3, 3 and 8, and events.
use tasking_framework.Base.{
  inr, ℕ, ◌≡◌, ◌≤◌, ◌<◌, ◌+◌, ◌*◌, refl, true, false, none, some, List, [], ◌∷◌, arith, ◌==◌,
  if◌then◌else◌, ◌∈◌, get_elem?, remove,
}
use tasking_framework.Names.{pack, get_identification_from_name, convert_identification_to_string}
use tasking_framework.Names.RoundTrip.{
  text, convert_identification_to_string-get_identification_from_name,
  get_elem?-convert_identification_to_string,
}
use tasking_framework.Clock as Clock
use tasking_framework.Schedule.{Triggers, Schedule, sort_in}
use tasking_framework.Schedule.Sorted.{Holds, sort_in-Holds}
use tasking_framework.Schedule.Play.{Plays, Plays-period}
use tasking_framework.Events.{
  shall_fire, handle_events, Events, set_periodic_schedule, first_activation,
}
use tasking_framework.Clock.Steps.{Queue}
use tasking_framework.Events.Handled.{IsReady}
use tasking_framework.Events.Ends.{Ends, readings, handle_events-Ends}
use tasking_framework.Events.Timing.{first_activation-next}
use tasking_framework.Events.Stopped.{IsStopped, set_periodic_schedule-IsStopped}

-- "sensor".
abbrev sensor : List ℕ
sensor = 115 ∷ 101 ∷ 110 ∷ 115 ∷ 111 ∷ 114 ∷ []

abbrev buffer : List ℕ
buffer = 1 ∷ 1 ∷ 1 ∷ 1 ∷ 1 ∷ 1 ∷ []

convert_identification_to_string-get_identification_from_name_example :
    (out : List ℕ) × (convert_identification_to_string 4
        (get_identification_from_name true 4 (some sensor))
        (some buffer)
        5
      ≡ some out)
    × (text out ≡ 115 ∷ 101 ∷ 110 ∷ 115 ∷ [])
convert_identification_to_string-get_identification_from_name_example =
    convert_identification_to_string-get_identification_from_name true 4 115
      (101 ∷ 110 ∷ 115 ∷ 111 ∷ 114 ∷ []) buffer 5 (omega arith) (omega arith) (omega arith)

get_elem?-convert_identification_to_string_example :
    (out : List ℕ) × (convert_identification_to_string 4 0x41424344 (some buffer) 3 ≡ some out)
    × (get_elem? out 3 ≡ some 1)
get_elem?-convert_identification_to_string_example =
    get_elem?-convert_identification_to_string 4 0x41424344 3 3 buffer (omega arith)

-- A byte above 127 takes one from the character before it, where `char` is signed.
borrowed-run : get_identification_from_name true 4 (some (65 ∷ 228 ∷ [])) ≡ 0x40e40000
unfolding get_identification_from_name pack
borrowed-run = refl

abbrev triggers : Triggers
triggers = record {
  offset_time = λ t. if t == 2 then 8 else 3;
  next = λ t. if t == 0 then some 1 else if t == 1 then some 2 else none;
}

abbrev schedule : Schedule
schedule = record {
  triggers = some 0;
  active_trigger = none;
  start_time_off_period = 0;
  period = 0;
}

schedule-Holds : Holds 4 triggers schedule (0 ∷ 1 ∷ 2 ∷ [])
schedule-Holds = record {
  chain = (refl, (refl, (refl, refl)));
  once = (refl, (refl, (refl, tt)));
  known = (omega arith, (omega arith, (omega arith, tt)));
  sorted = omega arith;
}

sort_in-Holds_example :
    (s' : Triggers) × (p' : Schedule) × (ys : List ℕ) × (sort_in 4 3 triggers schedule
      ≡ some (s', p'))
    × Holds 4 s' p' ys
    × (3 ∈ ys)
    × (remove 3 ys ≡ 0 ∷ 1 ∷ 2 ∷ [])
sort_in-Holds_example =
    sort_in-Holds 4 3 triggers schedule (0 ∷ 1 ∷ 2 ∷ []) schedule-Holds (omega arith) refl

-- The trigger 2 at the offset 8 lies outside of the period.
abbrev playing : Schedule
playing = record {
  triggers = some 0;
  active_trigger = some 0;
  start_time_off_period = 20;
  period = 5;
}

playing-Holds : Holds 4 triggers playing (0 ∷ 1 ∷ 2 ∷ [])
playing-Holds = record {
  chain = schedule-Holds.chain;
  once = schedule-Holds.once;
  known = schedule-Holds.known;
  sorted = schedule-Holds.sorted;
}

Plays-period_example :
    Plays 4 triggers playing (0 ∷ 1 ∷ 2 ∷ []) (record playing { start_time_off_period = 25 })
Plays-period_example = Plays-period 4 triggers 0 playing (1 ∷ 2 ∷ []) playing-Holds refl

first_activation-next_example :
    (k : ℕ) × (first_activation 25 25 10 3 ≡ 3 + k * 10)
    × (25 < first_activation 25 25 10 3)
    × (first_activation 25 25 10 3 ≤ 25 + 10)
first_activation-next_example =
    first_activation-next 25 25 10 3 (omega arith) (omega arith) (omega arith) (omega arith)

abbrev events : Events
events = record {
  clock = Clock.init;
  events =
      λ e. record { configured = false; periodical = false; period = 0; periodic_schedule = none };
  schedules = λ p. schedule;
  triggers = triggers;
  calls = [];
}

clock-Holds : Clock.Holds 1 Clock.init []
unfolding Clock.init
clock-Holds = record { chain = refl; end = refl; once = tt; known = tt }

set_periodic_schedule-IsStopped_example :
    (s' : Events) × (set_periodic_schedule 1 4 25 25 25 0 10 3 0 events ≡ some s')
    × IsStopped 1 4 0 s'
set_periodic_schedule-IsStopped_example =
    set_periodic_schedule-IsStopped 1 4 25 25 25 0 10 3 0 0 events [] clock-Holds refl refl
      (omega arith) (omega arith) (omega arith) (omega arith) (omega arith)

-- A clock with the event 0, which should have been handled at the times 5, 7 and 9.
abbrev late_clock : Clock.Clock
late_clock = record {
  queued = λ e. e == 0;
  next_activation = λ e. 5;
  next = λ e. none;
  previous = λ e. none;
  queue_head = some 0;
  queue_tail = some 0;
  none_pending_head = none;
}

abbrev late_queue : Queue
late_queue = record { events = 0 ∷ []; queued = λ e. e == 0; times = λ e. 5 }

abbrev late_events : Events
late_events = record {
  clock = late_clock;
  events =
      λ e. record { configured = true; periodical = true; period = 2; periodic_schedule = none };
  schedules = λ p. schedule;
  triggers = triggers;
  calls = [];
}

late_events-IsReady : IsReady 3 9 late_events late_queue
late_events-IsReady = record {
  clock = record {
    timed = record {
      holds = record { chain = (refl, refl); end = refl; once = (refl, tt); known = omega arith };
      order = (refl, refl, tt);
    };
    queued = refl;
    times = refl;
  };
  plain = λ e. inr (refl, refl, omega arith, omega arith);
}

handle_events-Ends_example :
    Ends 3 3 shall_fire 9 (handle_events 3 3 shall_fire (readings 3 3 shall_fire 9 6) late_events)
handle_events-Ends_example =
    handle_events-Ends 3 3 shall_fire 9 6 late_events late_queue late_events-IsReady (omega arith)
      (omega arith)
