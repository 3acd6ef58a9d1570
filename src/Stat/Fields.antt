-- ===== src/Stat/Fields.antt =====
-- The parts of a status code (ep/ep_stat.h).
use gdp.Base.{ℕ, ◌+◌, ◌*◌, ◌/◌, ◌%◌, ◌^◌, ◌<◌, ◌≡◌, ◌↔◌, true, arith, bit_and, bit_or}
use gdp.Base.Bits.{bit_or-disjoint, bit_and-mask}
use gdp.Stat.{
  stat_new, stat_severity, stat_registry, stat_module, stat_detail, stat_is_ok, stat_from_int,
  stat_to_int,
}

-- The word as a sum of its shifted parts.
stat_new_sum :
    (s r m d : ℕ)
    → stat_new s r m d ≡ s % 2 ^ 3 * 2 ^ 29 + r % 2 ^ 11 * 2 ^ 18 + m % 2 ^ 8 * 2 ^ 10 + d % 2 ^ 10
stat_new_sum s r m d =
    let s' = bit_and s 7 * 2 ^ 29 % 2 ^ 32 in
    let r' = bit_and r 2047 * 2 ^ 18 % 2 ^ 32 in
    let m' = bit_and m 255 * 2 ^ 10 % 2 ^ 32 in
    omega (
      arith,
      bit_and-mask 3 s,
      bit_and-mask 11 r,
      bit_and-mask 8 m,
      bit_and-mask 10 d,
      bit_or-disjoint 29 s' r',
      bit_or-disjoint 18 (bit_or s' r') m',
      bit_or-disjoint 10 (bit_or (bit_or s' r') m') (bit_and d 1023),
    )

-- The four parts are read back, each cut to its width, whatever was put in.
pub stat_new_fields :
    (s r m d : ℕ)
    → (stat_severity (stat_new s r m d) ≡ s % 2 ^ 3)
      × (stat_registry (stat_new s r m d) ≡ r % 2 ^ 11)
      × (stat_module (stat_new s r m d) ≡ m % 2 ^ 8)
      × (stat_detail (stat_new s r m d) ≡ d % 2 ^ 10)
stat_new_fields s r m d =
    let c = stat_new s r m d in
    let e = stat_new_sum s r m d in
    (
      omega (arith, e, bit_and-mask 3 (c / 2 ^ 29)),
      omega (arith, e, bit_and-mask 11 (c / 2 ^ 18)),
      omega (arith, e, bit_and-mask 8 (c / 2 ^ 10)),
      omega (arith, e, bit_and-mask 10 c),
    )

-- An integer of 32 bits that is put into a status is read back, and the status tests as success
-- exactly when the integer is below 2^29.
pub stat_from_int-is_ok :
    (i : ℕ)
    → i < 2 ^ 32
    → (stat_to_int (stat_from_int i) ≡ i) × ((stat_is_ok (stat_from_int i) ≡ true) ↔ (i < 2 ^ 29))
stat_from_int-is_ok i h = (
  omega arith,
  (
    λ e. ground (arith, bit_and-mask 3 (i % 2 ^ 32 / 2 ^ 29)),
    λ l. ground (arith, bit_and-mask 3 (i % 2 ^ 32 / 2 ^ 29)),
  ),
)
