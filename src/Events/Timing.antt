-- ===== src/Events/Timing.antt =====
-- The first activation of a periodic event in src/taskEvent.cpp.
use tasking_framework.Base.{ℕ, ◌+◌, ◌-◌, ◌*◌, ◌/◌, ◌%◌, ◌^◌, ◌≡◌, ◌≤◌, ◌<◌, true, arith, ltb}
use native.Mathlib.Nat.{mod-eq_of_lt, lt-div-mul-add, div-mul-le_self}
use tasking_framework.Events.{first_activation}

wrapped :
    (later offset : ℕ)
    → offset ≤ later
    → later < 2 ^ 64
    → (later + 2 ^ 64 - offset) % 2 ^ 64 ≡ later - offset
wrapped later offset h b = omega arith

-- Where the offset has passed, the first activation of a periodic event is the earliest time after
-- the current one that lies a multiple of the period behind the offset, if that does not overflow.
pub first_activation-next :
    (now later period offset : ℕ)
    → 0 < period
    → offset < now
    → now ≤ later
    → later + period < 2 ^ 64
    → (k : ℕ) × (first_activation now later period offset ≡ offset + k * period)
      × (later < first_activation now later period offset)
      × (first_activation now later period offset ≤ later + period)
unfolding first_activation
first_activation-next now later period offset some_period past order room =
    let d : ℕ = later - offset in
    let q : ℕ = d / period in
    let low : q * period ≤ d = div-mul-le_self d period in
    let high : d < q * period + period = lt-div-mul-add some_period in
    let sum : (q + 1) * period ≡ q * period + period = grind arith in
    let test : ltb offset now ≡ true = ground arith in
    let test' : ltb 0 period ≡ true = ground arith in
    let same = wrapped later offset (omega arith) (omega arith) in
    let fits : offset + (q + 1) * period < 2 ^ 64 = omega (arith, low, sum) in
    let value : first_activation now later period offset ≡ offset + (q + 1) * period =
      rw (test, test', same) (mod-eq_of_lt fits) in
    (
      q + 1,
      value,
      rw value (omega (arith, low, high, sum)),
      rw value (omega (arith, low, high, sum)),
    )
