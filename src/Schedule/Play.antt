-- ===== src/Schedule/Play.antt =====
-- Playing a schedule: `pushTriggers` and `stepToNextTriggerOffset` of src/taskPeriodicSchedule.cpp.
use tasking_framework.Base.{
  ℕ, zero, suc, ◌+◌, ◌%◌, ◌^◌, ◌≡◌, ◌≤◌, ◌<◌, refl, none, some, List, [], ◌∷◌, ◌++◌, arith, Ptr,
  ◌==◌, if◌then◌else◌, ap, sym, ◌∙◌, inl, inr, Bool-cases, eq_of_test, length, Distinct-length-le,
  Chain,
}
use mathlib.Core.Path.{subst}
use tasking_framework.Schedule.{
  Triggers, Schedule, push_same, push_triggers, step_to_next_trigger_offset,
}
use tasking_framework.Schedule.Sorted.{Holds}

module _ (offset : ℕ → ℕ) where
  -- The triggers at the front with this offset, and those behind them.
  abbrev pub block : ℕ → List ℕ → List ℕ
  block k [] = []
  block k (x ∷ xs) = if k == offset x then x ∷ block k xs else []

  abbrev pub behind : ℕ → List ℕ → List ℕ
  behind k [] = []
  behind k (x ∷ xs) = if k == offset x then behind k xs else x ∷ xs

-- The last of a list, or the number before it.
abbrev last_of : ℕ → List ℕ → ℕ
last_of x [] = x
last_of x (y ∷ xs) = last_of y xs

abbrev first_ptr : List ℕ → Ptr
first_ptr [] = none
first_ptr (x ∷ xs) = some x

push_same-block :
    (fuel : ℕ) (s : Triggers) (x : ℕ) (p : Ptr) (xs : List ℕ)
    → Chain s.next p xs
    → length xs < fuel
    → push_same fuel s x p
      ≡ some (
        block s.offset_time (s.offset_time x) xs,
        last_of x (block s.offset_time (s.offset_time x) xs),
      )
unfolding push_same
push_same-block zero s x p xs c b = absurd (omega arith)
push_same-block (suc fuel) s x p [] c b = rw c refl
push_same-block (suc fuel) s x p (y ∷ xs) c b =
    let rest = push_same-block fuel s y (s.next y) xs c.1 (omega arith) in
    elim (Bool-cases (s.offset_time x == s.offset_time y)) [
      | inl same ↦
          let offset = s.offset_time in
          let rest' =
            subst
              (λ k.
                push_same fuel s y (s.next y)
                ≡ some (block offset k xs, last_of y (block offset k xs)))
              (sym (eq_of_test (offset x) (offset y) same)) rest in
          rw (c.0, same, rest') refl
      | inr other ↦ rw (c.0, other) refl
    ]

-- The trigger behind the block.
next-block :
    (s : Triggers) (k x : ℕ) (xs : List ℕ)
    → Chain s.next (s.next x) xs
    → s.next (last_of x (block s.offset_time k xs)) ≡ first_ptr (behind s.offset_time k xs)
next-block s k x [] c = c
next-block s k x (y ∷ xs) c = ground (arith, c.0, next-block s k y xs c.1)

block-behind : (offset : ℕ → ℕ) (k : ℕ) (xs : List ℕ) → block offset k xs ++ behind offset k xs ≡ xs
block-behind offset k [] = refl
block-behind offset k (x ∷ xs) = ground (arith, block-behind offset k xs)

behind-le : (offset : ℕ → ℕ) (k : ℕ) (xs : List ℕ) → length (behind offset k xs) ≤ length xs
behind-le offset k [] = omega arith
behind-le offset k (x ∷ xs) = ground (arith, behind-le offset k xs)

behind-Chain :
    (next : ℕ → Ptr) (offset : ℕ → ℕ) (k : ℕ) (p : Ptr) (xs : List ℕ)
    → Chain next p xs
    → Chain next (first_ptr (behind offset k xs)) (behind offset k xs)
behind-Chain next offset k p [] c = refl
behind-Chain next offset k p (x ∷ xs) c = elim (Bool-cases (k == offset x)) [
  | inl e ↦ rw e (behind-Chain next offset k (next x) xs c.1)
  | inr e ↦ rw e (refl, c.1)
]

-- The schedule at the next trigger: the first of those that are left, or the first one of the
-- next period.
abbrev pub next_stop : Schedule → ℕ → List ℕ → Schedule
next_stop p h [] = record p {
  active_trigger = some h;
  start_time_off_period = (p.start_time_off_period + p.period) % 2 ^ 64;
}
next_stop p h (x ∷ xs) = record p { active_trigger = some x }

-- Where the schedule starts next.
abbrev pub start_of : Triggers → Schedule → ℕ → List ℕ → ℕ
start_of s p h [] = ((p.start_time_off_period + p.period) % 2 ^ 64 + s.offset_time h) % 2 ^ 64
start_of s p h (x ∷ xs) = (p.start_time_off_period + s.offset_time x) % 2 ^ 64

module _ (triggers : ℕ) where
  step-next_stop :
      (s : Triggers) (p : Schedule) (h x : ℕ) (xs : List ℕ)
      → p.triggers ≡ some h
      → s.next x ≡ first_ptr xs
      → step_to_next_trigger_offset s (record p { active_trigger = some x })
        ≡ some (next_stop p h xs, start_of s p h xs)
  unfolding step_to_next_trigger_offset
  step-next_stop s p h x [] first e = ground (arith, first, e)
  step-next_stop s p h x (y ∷ xs) first e = ground (arith, first, e)

  -- Pushing pushes the active trigger and all behind it with the same offset, and the step after
  -- it goes to the next trigger with another offset, or to the first trigger of the next period.
  pub push_triggers-step :
      (s : Triggers) (p : Schedule) (h x : ℕ) (xs : List ℕ)
      → p.triggers ≡ some h
      → p.active_trigger ≡ some x
      → Chain s.next (s.next x) xs
      → length xs ≤ triggers
      → (p' : Schedule) × (push_triggers triggers s p
          ≡ some (p', x ∷ block s.offset_time (s.offset_time x) xs))
        × (step_to_next_trigger_offset s p'
            ≡ some (
              next_stop p h (behind s.offset_time (s.offset_time x) xs),
              start_of s p h (behind s.offset_time (s.offset_time x) xs),
            ))
  unfolding push_triggers
  push_triggers-step s p h x xs first active c b =
      let k = s.offset_time x in
      let offset = s.offset_time in
      let pushed = push_same-block (suc triggers) s x (s.next x) xs c (omega arith) in
      (
        record p { active_trigger = some (last_of x (block offset k xs)) },
        rw active (rw pushed refl),
        step-next_stop s p h (last_of x (block offset k xs)) (behind offset k xs) first
            (next-block s k x xs c),
      )

  -- Alternating pushes and steps, as the clock makes them: what is pushed, and where it ends.
  pub data Plays (s : Triggers) : Schedule → List ℕ → Schedule → Type 0 where
    stop : {p : Schedule} → Plays s p [] p
    more :
        {p q : Schedule} {pushed : List ℕ} (p' r : Schedule) (now rest : List ℕ) (time : ℕ)
        → push_triggers triggers s p ≡ some (p', now)
        → step_to_next_trigger_offset s p' ≡ some (r, time)
        → Plays s r rest q
        → pushed ≡ now ++ rest
        → Plays s p pushed q

  module _ (s : Triggers) (h : ℕ) where
    Plays-block :
        (p q : Schedule) (x : ℕ) (xs rest : List ℕ)
        → p.triggers ≡ some h
        → p.active_trigger ≡ some x
        → Chain s.next (s.next x) xs
        → length xs ≤ triggers
        → behind s.offset_time (s.offset_time x) xs ≡ rest
        → Plays s (next_stop p h rest) rest q
        → Plays s p (x ∷ xs) q
    Plays-block p q x xs rest first active c b e later =
        let k = s.offset_time x in
        let offset = s.offset_time in
        let (p', pushed, stepped) = push_triggers-step s p h x xs first active c b in
        let stepped' =
          subst (λ l. step_to_next_trigger_offset s p' ≡ some (next_stop p h l, start_of s p h l)) e
            stepped in
        let covered =
          ap (λ l. x ∷ l) (sym (block-behind offset k xs) ∙ ap (λ l. block offset k xs ++ l) e) in
        more p' (next_stop p h rest) (x ∷ block offset k xs) rest (start_of s p h rest) pushed
          stepped' later covered

    Plays-cases :
        (n : ℕ) (p : Schedule) (x : ℕ) (xs rest : List ℕ)
        → p.triggers ≡ some h
        → p.active_trigger ≡ some x
        → Chain s.next (s.next x) xs
        → length xs ≤ triggers
        → length rest ≤ n
        → behind s.offset_time (s.offset_time x) xs ≡ rest
        → Plays s p (x ∷ xs) (next_stop p h [])
    Plays-cases n p x xs [] first active c b le e =
        Plays-block p (next_stop p h []) x xs [] first active c b e stop
    Plays-cases zero p x xs (y ∷ rest) first active c b le e = absurd (omega arith)
    Plays-cases (suc n) p x xs (y ∷ rest) first active c b le e =
        let k = s.offset_time x in
        let offset = s.offset_time in
        let short = subst (λ l. length l ≤ length xs) e (behind-le offset k xs) in
        let chain =
          subst (λ l. Chain s.next (first_ptr l) l) e
            (behind-Chain s.next offset k (s.next x) xs c) in
        let k' = s.offset_time y in
        Plays-block p (next_stop p h []) x xs (y ∷ rest) first active c b e (
          Plays-cases n (record p { active_trigger = some y }) y rest (behind offset k' rest) first
            refl chain.1 (omega arith) (omega (arith, behind-le offset k' rest)) refl)

    -- From the first trigger on, a period pushes every trigger of the schedule exactly once, in the
    -- order of the list, and ends at the first trigger of the next period. That holds for a trigger
    -- whose offset lies outside of the period as well, which the documentation says is never fired.
    pub Plays-period :
        (p : Schedule) (xs : List ℕ)
        → Holds triggers s p (h ∷ xs)
        → p.active_trigger ≡ some h
        → Plays s p (h ∷ xs) (next_stop p h [])
    Plays-period p xs holds active =
        let k = s.offset_time h in
        let bound = Distinct-length-le triggers (h ∷ xs) holds.once holds.known in
        Plays-cases (length xs) p h xs (behind s.offset_time k xs) holds.chain.0 active
          holds.chain.1 (omega arith) (behind-le s.offset_time k xs) refl
