-- ===== src/System/UnitTest/Calls.antt =====
-- What an event calls when it is handled by src/schedulerUnitTest.cpp keeps the tasks and inputs in order.
use tasking_framework.Base.{ℕ, ◌≡◌, ◌∙◌, refl, ap, true, Option, some, List, [], ◌∷◌}
use tasking_framework.Events.{Call, signal, start_timer, on_fire, push_event, push_trigger}
use tasking_framework.Policy.Interface.{SchedulePolicy}
use tasking_framework.System.World.{World, Platform}
use tasking_framework.System.Activation.{push}
use tasking_framework.System.UnitTest.{Simulation, perform_call, perform_calls}
use tasking_framework.System.UnitTest.Relative.{clock_time}
use tasking_framework.System.Counting.{in_turn}
use tasking_framework.System.Executed.{IsSound}
use tasking_framework.System.Push.{IsExact}
use tasking_framework.System.Pushed.{IsLinked, IsLinked-after, push-IsSound}

module _ (policy : SchedulePolicy) {U : Type 0} (platform : Platform (Simulation U)) (events : ℕ)
    (lists : ℕ → List ℕ) where
  open policy use {State}

  -- The scheduler runs, the tasks, the inputs and the channels' lists are in order, and the tasks in
  -- TASK_RUN are those in the run queue.
  pub record IsAlive (w : World State (Simulation U)) (xs : List ℕ) : Type 0 where
    pub sound : IsSound policy platform (clock_time events) w xs
    pub linked : IsLinked policy platform (clock_time events) w lists
    pub running : w.running ≡ true
    pub exact : IsExact policy platform w xs

  pub IsAlive-rest :
      (w : World State (Simulation U)) (xs : List ℕ) (e : Simulation U)
      → IsAlive w xs
      → IsAlive (record w { rest = e }) xs
  IsAlive-rest w xs e a = record {
    sound = record {
      queued = record { holds = a.sound.queued.holds; in_run = a.sound.queued.in_run };
      known = a.sound.known;
      consistent = a.sound.consistent;
      own = a.sound.own;
      bound = a.sound.bound;
      alone = a.sound.alone;
    };
    linked = record {
      chains = a.linked.chains;
      once = a.linked.once;
      short = a.linked.short;
      connected = a.linked.connected;
      narrow = a.linked.narrow;
    };
    running = a.running;
    exact = a.exact;
  }

  module _ (event_channel trigger_channel : ℕ → ℕ)
      (fired : ℕ
        → World policy.State (Simulation U)
        → Option (World policy.State (Simulation U))) where
    -- What an event does when it fires concerns the application's own state.
    abbrev pub FiresQuietly : Type 0
    FiresQuietly =
        (e : ℕ) (w : World State (Simulation U))
        → (u : U) × (fired e w ≡ some (record w { rest = record w.rest { user = u } }))

    -- The state after some calls: in order, at the same time and with the same events.
    pub record Calls (r : Option (World State (Simulation U))) (w : World State (Simulation U))
        : Type 0 where
      pub after : World State (Simulation U)
      pub queue : List ℕ
      pub done : r ≡ some after
      pub alive : IsAlive after queue
      pub same : after.rest.events ≡ w.rest.events
      pub time : after.rest.now ≡ w.rest.now

    push-Calls :
        (c : ℕ) (w : World State (Simulation U)) (xs : List ℕ)
        → IsAlive w xs
        → Calls (push policy platform c w) w
    push-Calls c w xs a =
        let (w', done, ys, s, wiring, rest, exact) =
          push-IsSound policy platform (clock_time events) c w xs lists a.sound a.linked in
        record {
          after = w';
          queue = ys;
          done = done;
          alive = record {
            sound = s;
            linked = IsLinked-after policy platform (clock_time events) w w' lists a.linked wiring;
            running = wiring.running ∙ a.running;
            exact = exact a.running a.exact;
          };
          same = ap (λ e. e.events) rest;
          time = ap (λ e. e.now) rest;
        }

    idle-Calls : (w : World State (Simulation U)) (xs : List ℕ) → IsAlive w xs → Calls (some w) w
    idle-Calls w xs a = record {
      after = w;
      queue = xs;
      done = refl;
      alive = a;
      same = refl;
      time = refl;
    }

    module _ (quiet : FiresQuietly) where
      perform_call-Calls :
          (c : Call) (w : World State (Simulation U)) (xs : List ℕ)
          → IsAlive w xs
          → Calls (perform_call policy platform event_channel trigger_channel fired c w) w
      unfolding perform_call
      perform_call-Calls signal w xs a = idle-Calls w xs a
      perform_call-Calls (start_timer delay) w xs a = idle-Calls w xs a
      perform_call-Calls (on_fire e) w xs a =
          let (u, done) = quiet e w in
          record {
            after = record w { rest = record w.rest { user = u } };
            queue = xs;
            done = done;
            alive = IsAlive-rest w xs (record w.rest { user = u }) a;
            same = refl;
            time = refl;
          }
      perform_call-Calls (push_event e) w xs a = push-Calls (event_channel e) w xs a
      perform_call-Calls (push_trigger t) w xs a = push-Calls (trigger_channel t) w xs a

      pub perform_calls-Calls :
          (cs : List Call) (w : World State (Simulation U)) (xs : List ℕ)
          → IsAlive w xs
          → Calls (perform_calls policy platform event_channel trigger_channel fired cs w) w
      unfolding perform_calls
      perform_calls-Calls [] w xs a = idle-Calls w xs a
      perform_calls-Calls (c ∷ cs) w xs a =
          let one = perform_call-Calls c w xs a in
          let more = perform_calls-Calls cs one.after one.queue one.alive in
          record {
            after = more.after;
            queue = more.queue;
            done =
                in_turn (perform_calls policy platform event_channel trigger_channel fired cs)
                  one.done more.done;
            alive = more.alive;
            same = more.same ∙ one.same;
            time = more.time ∙ one.time;
          }
