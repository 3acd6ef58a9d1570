-- ===== src/Time.antt =====
-- Times (ep/ep_time.c) that are not negative, as seconds and nanoseconds.
pub mod Order
use gdp.Base.{ℕ, suc, ◌+◌, ◌-◌, ◌*◌, ◌/◌, ◌%◌, Bool, true, false, if◌then◌else◌, ltb}

-- `EP_TIME_SPEC`, less the accuracy.
pub record TimeSpec : Type 0 where
  pub tv_sec : ℕ
  pub tv_nsec : ℕ

abbrev pub one_second : ℕ
one_second = 1000000000

-- `ep_time_add_delta`
unfoldable pub time_add_delta : TimeSpec → TimeSpec → TimeSpec
time_add_delta delta tv =
    let sec = tv.tv_sec + delta.tv_sec in
    let nsec = tv.tv_nsec + delta.tv_nsec in
    if ltb one_second nsec
    then record { tv_sec = suc sec; tv_nsec = nsec - one_second }
    else record { tv_sec = sec; tv_nsec = nsec }

-- `ep_time_diff_usec`, where `b` is not the earlier one.
unfoldable pub time_diff_usec : TimeSpec → TimeSpec → ℕ
time_diff_usec a b =
    (b.tv_sec * 1000000 + b.tv_nsec / 1000) - (a.tv_sec * 1000000 + a.tv_nsec / 1000)

-- `ep_time_before`
unfoldable pub time_before : TimeSpec → TimeSpec → Bool
time_before a b =
    if ltb a.tv_sec b.tv_sec
    then true
    else if ltb b.tv_sec a.tv_sec
    then false
    else ltb a.tv_nsec b.tv_nsec

-- `ep_time_to_nsec`
unfoldable pub time_to_nsec : TimeSpec → ℕ
time_to_nsec tv = tv.tv_sec * one_second + tv.tv_nsec

-- `ep_time_from_nsec`
unfoldable pub time_from_nsec : ℕ → TimeSpec
time_from_nsec nsec = record { tv_sec = nsec / one_second; tv_nsec = nsec % one_second }

-- `ep_time_from_usec`
unfoldable pub time_from_usec : ℕ → TimeSpec
time_from_usec usec = record { tv_sec = usec / 1000000; tv_nsec = usec % 1000000 * 1000 }

-- `ep_time_from_sec`
unfoldable pub time_from_sec : ℕ → TimeSpec
time_from_sec sec = record { tv_sec = sec; tv_nsec = 0 }
