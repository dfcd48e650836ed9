-- ===== src/Schedule.antt =====
-- src/taskPeriodicSchedule.cpp and include/impl/taskPeriodicSchedule_impl.h: a series of triggers,
-- a list in the order of their offsets that is played in every period. Triggers have numbers; the
-- two fields of a trigger are functions in the store, which all schedules share. The calls of `push`
-- on the triggers are the result of `push_triggers`, in their order. The loops run on fuel, one
-- round for each trigger of the application and one more.
pub mod Sorted
pub mod Play
use tasking_framework.Base.{
  ℕ, zero, suc, ◌+◌, ◌%◌, ◌^◌, Bool, true, false, Option, none, some, List, [], ◌∷◌, ◌++◌, Ptr,
  is_null, update, ltb, leb, ◌==◌, if◌then◌else◌, ◌>>=◌,
}

pub record Triggers : Type 0 where
  pub offset_time : ℕ → ℕ
  pub next : ℕ → Ptr

pub record Schedule : Type 0 where
  pub triggers : Ptr
  pub active_trigger : Ptr
  pub start_time_off_period : ℕ
  pub period : ℕ

-- `PeriodicScheduleImpl::PeriodicScheduleImpl`.
unfoldable pub init : Schedule
init = record { triggers = none; active_trigger = none; start_time_off_period = 0; period = 0 }

-- The loop of `sortIn`, with the trigger that follows: it ends at the trigger behind which one with
-- this offset goes.
unfoldable pub search_previous : ℕ → Triggers → ℕ → ℕ → Ptr → Option ℕ
search_previous zero s offset previous following = none
search_previous (suc fuel) s offset previous none = some previous
search_previous (suc fuel) s offset previous (some n) =
    let rest = search_previous fuel s offset n (s.next n) in
    if ltb (s.offset_time n) offset then rest else some previous

-- The loop of `pushTriggers`, with the trigger that follows the active one: the triggers that are
-- pushed, and the last of them.
unfoldable pub push_same : ℕ → Triggers → ℕ → Ptr → Option (List ℕ × ℕ)
push_same zero s active following = none
push_same (suc fuel) s active none = some ([], active)
push_same (suc fuel) s active (some n) =
    let rest = (do (pushed, last) ← push_same fuel s n (s.next n); some (n ∷ pushed, last)) in
    if s.offset_time active == s.offset_time n then rest else some ([], active)

module _ (triggers : ℕ) where
  sort_at : ℕ → Triggers → Schedule → Ptr → Option (Triggers × Schedule)
  sort_at t s p none =
      some (record s { next = update s.next t none }, record p { triggers = some t })
  sort_at t s p (some h) =
      let offset = s.offset_time t in
      if ltb offset (s.offset_time h)
      then some (record s { next = update s.next t (some h) }, record p { triggers = some t })
      else (do
        previous ← search_previous (suc triggers) s offset h (s.next h)
        some (record s { next = update (update s.next t (s.next previous)) previous (some t) }, p))

  -- `sortIn`.
  unfoldable pub sort_in : ℕ → Triggers → Schedule → Option (Triggers × Schedule)
  unfolding sort_at
  sort_in t s p = sort_at t s p p.triggers

  -- `pushTriggers`.
  unfoldable pub push_triggers : Triggers → Schedule → Option (Schedule × List ℕ)
  push_triggers s p = do
    t ← p.active_trigger
    (pushed, last) ← push_same (suc triggers) s t (s.next t)
    some (record p { active_trigger = some last }, t ∷ pushed)

next_of : Triggers → Ptr → Ptr
next_of s none = none
next_of s (some t) = s.next t

start_over : Schedule → Ptr → Schedule
start_over p none = record p {
  active_trigger = p.triggers;
  start_time_off_period = (p.start_time_off_period + p.period) % 2 ^ 64;
}
start_over p (some t) = record p { active_trigger = some t }

-- `stepToNextTriggerOffset`: the schedule and the time.
unfoldable pub step_to_next_trigger_offset : Triggers → Schedule → Option (Schedule × ℕ)
unfolding next_of start_over
step_to_next_trigger_offset s p =
    let p' = start_over p (next_of s p.active_trigger) in
    do t ← p'.active_trigger; some (p', (p'.start_time_off_period + s.offset_time t) % 2 ^ 64)
