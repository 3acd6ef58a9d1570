-- ===== src/Time/Order.antt =====
-- Times as counts of nanoseconds (ep/ep_time.c).
use gdp.Base.{ℕ, ◌+◌, ◌*◌, ◌<◌, ◌≡◌, arith, true, ltb, ◌↔◌, ◌≢◌, Bool-cases, inl, inr}
use gdp.Time.{
  TimeSpec, one_second, time_add_delta, time_before, time_to_nsec, time_from_nsec, time_from_usec,
}

-- The nanoseconds are less than a second.
abbrev pub IsNormal : TimeSpec → Type 0
IsNormal tv = tv.tv_nsec < one_second

-- Of two normal times one is before the other where it has fewer nanoseconds in all.
pub time_before-time_to_nsec :
    (a b : TimeSpec)
    → IsNormal a
    → IsNormal b
    → (time_before a b ≡ true) ↔ (time_to_nsec a < time_to_nsec b)
unfolding time_before time_to_nsec
time_before-time_to_nsec a b h k = (λ e. ground (arith, e), λ l. ground (arith, l))

-- The sum of two normal times has the nanoseconds of both, and it is normal unless the parts below a
-- second make up a second.
pub time_to_nsec-time_add_delta :
    (delta tv : TimeSpec)
    → IsNormal delta
    → IsNormal tv
    → (time_to_nsec (time_add_delta delta tv) ≡ time_to_nsec tv + time_to_nsec delta)
      × (IsNormal (time_add_delta delta tv) ↔ (tv.tv_nsec + delta.tv_nsec ≢ one_second))
unfolding time_to_nsec time_add_delta
time_to_nsec-time_add_delta delta tv h k =
    elim (Bool-cases (ltb one_second (tv.tv_nsec + delta.tv_nsec))) [
      | inl t ↦
          rw t (ground (arith, t), (λ n e. ground (arith, t, e), λ d. ground (arith, t, h, k)))
      | inr t ↦ rw t (ground (arith, t), (λ n e. ground (arith, n, e), λ d. ground (arith, t, d)))
    ]

-- A count of nanoseconds or microseconds as a time is normal, and counts the same.
pub time_to_nsec-time_from_nsec :
    (n : ℕ)
    → (time_to_nsec (time_from_nsec n) ≡ n)
      × IsNormal (time_from_nsec n)
      × (time_to_nsec (time_from_usec n) ≡ n * 1000)
      × IsNormal (time_from_usec n)
unfolding time_to_nsec time_from_nsec time_from_usec
time_to_nsec-time_from_nsec n = (omega arith, omega arith, omega arith, omega arith)
