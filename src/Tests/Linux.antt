-- ===== src/Tests/Linux.antt =====
-- The Linux clock at concrete times.
use tasking_framework.Base.{◌≡◌, arith}
use tasking_framework.LinuxClock.{Timespec, get_time, set_zero_time, get_time-set_zero_time}

abbrev now : Timespec
now = record { sec = 1000; nsec = 250000000 }

-- With an offset of 1500 milliseconds the clock starts at 2500.
get_time-set_zero_time_example : get_time now (set_zero_time now 1500) ≡ 2500
get_time-set_zero_time_example =
    get_time-set_zero_time now 1500 (omega arith) (omega arith) (omega arith) (omega arith)
