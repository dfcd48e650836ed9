-- ===== src/LinuxClock.antt =====
-- arch/linux/clockExecutionModel.cpp: the time of the Linux clock. The operating system's time, which
-- `clock_gettime` returns, is an argument. A `long` is a 64-bit number, where those from 2 ^ 63 on are
-- negative; `timer`, the thread and its condition variable are the operating system's.
use tasking_framework.Base.{
  ℕ, ◌+◌, ◌-◌, ◌*◌, ◌/◌, ◌%◌, ◌^◌, ◌≡◌, ◌≤◌, ◌<◌, Bool, inl, inr, Bool-cases, arith, ltb, leb,
  if◌then◌else◌,
}

-- `struct timespec`.
pub record Timespec : Type 0 where
  pub sec : ℕ
  pub nsec : ℕ

abbrev pub minus : ℕ → ℕ → ℕ
minus a b = (a + 2 ^ 64 - b) % 2 ^ 64

is_negative : ℕ → Bool
is_negative n = leb (2 ^ 63) n

-- Division of a `long` by a million, which rounds to zero.
by_million : ℕ → ℕ
by_million n = if leb (2 ^ 63) n then (2 ^ 64 - (2 ^ 64 - n) / 1000000) % 2 ^ 64 else n / 1000000

-- `ClockExecutionModel::getTime`.
unfoldable pub get_time : Timespec → Timespec → ℕ
unfolding by_million
get_time now zero_time =
    (minus now.sec zero_time.sec * 1000 + by_million (minus now.nsec zero_time.nsec)) % 2 ^ 64

borrow : Timespec → Timespec
unfolding is_negative
borrow t =
    if is_negative t.nsec
    then record { sec = minus t.sec 1; nsec = (t.nsec + 1000000000) % 2 ^ 64 }
    else t

-- `ClockExecutionModel::setZeroTime`: the zero time.
unfoldable pub set_zero_time : Timespec → ℕ → Timespec
unfolding borrow
set_zero_time now offset = borrow (record {
  sec = minus now.sec (offset / 1000);
  nsec = minus now.nsec (offset * 1000000 % 2 ^ 64);
})

-- `ClockExecutionModel::computeAbsoluteWakeUpTime`.
unfoldable pub compute_absolute_wake_up_time : Timespec → ℕ → Timespec
compute_absolute_wake_up_time now time_span =
    let sec = (now.sec + time_span / 1000) % 2 ^ 64 in
    let nsec = now.nsec + time_span % 1000 * 1000000 in
    if ltb 1000000000 nsec
    then record { sec = (sec + 1) % 2 ^ 64; nsec = nsec - 1000000000 }
    else record { sec = sec; nsec = nsec }

-- The nanoseconds between the zero time and the time at which it was set, in milliseconds.
passed :
    (nsec offset : ℕ)
    → nsec < 1000000000
    → offset < 2 ^ 43
    → (nsec < offset * 1000000
        → (1000 + by_million (minus nsec ((minus nsec (offset * 1000000) + 1000000000) % 2 ^ 64)))
            % 2 ^ 64
          ≡ offset)
      × (offset * 1000000 ≤ nsec → by_million (minus nsec (minus nsec (offset * 1000000))) ≡ offset)
unfolding by_million
passed nsec offset b c = (λ less. ground arith, λ less. ground arith)

borrowed :
    (now : Timespec) (offset : ℕ)
    → now.nsec < 1000000000
    → offset / 1000 < now.sec
    → now.sec < 2 ^ 40
    → offset < 2 ^ 43
    → now.nsec < offset * 1000000
    → (minus now.sec (set_zero_time now offset).sec ≡ offset / 1000 + 1)
      × ((set_zero_time now offset).nsec
          ≡ (minus now.nsec (offset * 1000000) + 1000000000) % 2 ^ 64)
unfolding set_zero_time borrow is_negative
borrowed now offset b c d e l = (ground arith, ground arith)

plain :
    (now : Timespec) (offset : ℕ)
    → now.nsec < 1000000000
    → offset / 1000 < now.sec
    → now.sec < 2 ^ 40
    → offset < 2 ^ 43
    → offset * 1000000 ≤ now.nsec
    → (minus now.sec (set_zero_time now offset).sec ≡ offset / 1000)
      × ((set_zero_time now offset).nsec ≡ minus now.nsec (offset * 1000000))
unfolding set_zero_time borrow is_negative
plain now offset b c d e l = (ground arith, ground arith)

-- The time read at the moment when the zero time is set is not the offset, but counts its whole
-- seconds twice.
pub get_time-set_zero_time :
    (now : Timespec) (offset : ℕ)
    → now.nsec < 1000000000
    → offset / 1000 < now.sec
    → now.sec < 2 ^ 40
    → offset < 2 ^ 43
    → get_time now (set_zero_time now offset) ≡ offset + offset / 1000 * 1000
unfolding get_time
get_time-set_zero_time now offset b c d e = elim (Bool-cases (ltb now.nsec (offset * 1000000))) [
  | inl l ↦
      let (at, nsec) = borrowed now offset b c d e (ground arith) in
      let m = (passed now.nsec offset b e).0 (ground arith) in rw (at, nsec) (omega (arith, m))
  | inr n ↦
      let (at, nsec) = plain now offset b c d e (ground arith) in
      let m = (passed now.nsec offset b e).1 (ground arith) in rw (at, nsec) (omega (arith, m))
]

-- The moment to wake up is the time span behind, and its nanoseconds are a second at most, which they
-- should be less than.
pub compute_absolute_wake_up_time_lem :
    (now : Timespec) (time_span : ℕ)
    → now.nsec < 1000000000
    → now.sec < 2 ^ 40
    → time_span < 2 ^ 40
    → let t = compute_absolute_wake_up_time now time_span in
      (t.sec * 1000000000 + t.nsec ≡ now.sec * 1000000000 + now.nsec + time_span * 1000000)
      × (t.nsec ≤ 1000000000)
unfolding compute_absolute_wake_up_time
compute_absolute_wake_up_time_lem now span b c d = ground arith
