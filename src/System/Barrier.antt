-- ===== src/System/Barrier.antt =====
-- The barrier of src/taskBarrier.cpp: it lets pushes pass in silence until as many have come as it
-- expects.
use mathlib.Core.Path.{fun_ext}
use tasking_framework.Base.{
  ℕ, zero, suc, ◌-◌, ◌==◌, ltb, if◌then◌else◌, none, ◌≡◌, ◌∙◌, ap, refl, Option, some, arith, ◌>>=◌,
}
use tasking_framework.Policy.Interface.{SchedulePolicy}
use tasking_framework.System.World.{World, Platform}
use tasking_framework.System.Activation.{push, set_counter, barrier_push}

module _ (policy : SchedulePolicy) {E : Type 0} (platform : Platform E) where
  open policy use {State}

  -- A number of pushes on the barrier, one after the other.
  pub pushes : ℕ → ℕ → World State E → Option (World State E)
  pushes zero c w = some w
  pushes (suc n) c w = do w' ← barrier_push policy platform c w; pushes n c w'

  set_counter-twice :
      (c m n : ℕ) (w : World State E)
      → set_counter policy platform c n (set_counter policy platform c m w)
        ≡ set_counter policy platform c n w
  unfolding set_counter
  set_counter-twice c m n w =
      ap (λ channels. record w { channels = channels }) (fun_ext λ j. ground arith)

  -- The body of `Barrier::push` at a value of the counter.
  push_at : ℕ → ℕ → World State E → Option (World State E)
  push_at n c w =
      if ltb 0 n
      then (let w' = set_counter policy platform c (n - 1) w in
          if n - 1 == 0 then push policy platform c w' else some w')
      else some w

  barrier_push-push_at :
      (n c : ℕ) (w : World State E)
      → (w.channels c).counter ≡ n
      → barrier_push policy platform c w ≡ push_at n c w
  unfolding barrier_push push_at
  barrier_push-push_at n c w e = ap (λ k. push_at k c w) e

  -- The push that brings the counter to zero.
  last_push :
      (c : ℕ) (w : World State E)
      → (w.channels c).counter ≡ 1
      → barrier_push policy platform c w
        ≡ push policy platform c (set_counter policy platform c 0 w)
  unfolding push_at
  last_push c w e = barrier_push-push_at 1 c w e

  -- A push before that.
  early_push :
      (n c : ℕ) (w : World State E)
      → (w.channels c).counter ≡ suc (suc n)
      → barrier_push policy platform c w ≡ some (set_counter policy platform c (suc n) w)
  unfolding push_at
  early_push n c w e =
      let less : suc (suc n) - 1 ≡ suc n = omega arith in
      barrier_push-push_at (suc (suc n)) c w e ∙ rw less (ground arith)

  then_done : (r : Option (World State E)) → (r >>= λ w. some w) ≡ r
  then_done none = refl
  then_done (some w) = refl

  counter_set :
      (c n : ℕ) (w : World State E) → ((set_counter policy platform c n w).channels c).counter ≡ n
  unfolding set_counter
  counter_set c n w = ground arith

  -- A barrier that expects some pushes, at least one, passes exactly the last of them on to its
  -- inputs, with its counter at zero; the pushes before it reach no input.
  pub pushes-fire :
      (n c : ℕ) (w : World State E)
      → (w.channels c).counter ≡ suc n
      → pushes (suc n) c w ≡ push policy platform c (set_counter policy platform c 0 w)
  unfolding pushes
  pushes-fire zero c w e = then_done (barrier_push policy platform c w) ∙ last_push c w e
  pushes-fire (suc n) c w e =
      ap (λ r. r >>= pushes (suc n) c) (early_push n c w e)
      ∙ pushes-fire n c (set_counter policy platform c (suc n) w) (counter_set c (suc n) w)
      ∙ ap (push policy platform c) (set_counter-twice c (suc n) 0 w)
