-- ===== src/Callstack/Time.antt =====
-- The time that `calc_time_spent` computes.
use utrace.Common.{ℕ, ◌+◌, ◌*◌, ◌≤◌, ◌<◌, ◌≡◌, arith, leb, if◌then◌else◌}
use utrace.Common.Int.{ℤ, ◌+ℤ◌, pos_part}
use utrace.Tracee.{Timeval}
use utrace.Callstack.{time_since}

abbrev pub micros : Timeval → ℕ
micros tv = tv.tv_sec * 1000000 + tv.tv_usec

abbrev pub IsTimeval : Timeval → Type 0
IsTimeval tv = tv.tv_usec < 1000000

-- What was spent, in microseconds, where the seconds did not run backwards.
abbrev pub spent_micros : ℤ × ℕ → ℕ
spent_micros d = pos_part d.0 * 1000000 + d.1

-- For two times in normal form whose seconds do not run backwards, the time that calc_time_spent
-- computes is the elapsed time if the microseconds did not wrap, and two seconds more than that if
-- they did
pub time_since_lem :
    (start tv : Timeval)
    → IsTimeval start
    → IsTimeval tv
    → start.tv_sec ≤ tv.tv_sec
    → spent_micros (time_since tv start) + micros start
      ≡ micros tv + (if leb start.tv_usec tv.tv_usec then 0 else 2000000)
unfolding time_since ◌+ℤ◌
time_since_lem start tv h k l = ground arith
