-- ===== src/B64/Masks.antt =====
-- The shifts and masks by which bytes become six bits and six bits become bytes, as arithmetic.
use gdp.Base.{
  ℕ, ◌+◌, ◌*◌, ◌/◌, ◌%◌, ◌<◌, ◌≡◌, refl, arith, Bool, true, ◌&&◌, ◌==◌, bit_and, bit_or,
  holds_below, at_each,
}
use gdp.Base.Bits.{bit_and-mask, bit_or-disjoint}

high_test : ℕ → Bool
high_test b = (bit_and b 0xf0 / 16 == b / 16) && (bit_and b 0xc0 / 64 == b / 64)

high_table : holds_below 256 high_test ≡ true
unfolding holds_below high_test
high_table = refl

middle_test : ℕ → Bool
middle_test v = (bit_and v 0x30 / 16 == v / 16) && (bit_and v 0x3c / 4 == v / 4)

middle_table : holds_below 64 middle_test ≡ true
unfolding holds_below middle_test
middle_table = refl

pub high_four : (b : ℕ) → b < 256 → bit_and b 0xf0 / 16 ≡ b / 16
unfolding high_test
high_four b h = ground (arith, at_each 256 high_test high_table b h)

pub high_two : (b : ℕ) → b < 256 → bit_and b 0xc0 / 64 ≡ b / 64
unfolding high_test
high_two b h = ground (arith, at_each 256 high_test high_table b h)

pub six_high_two : (v : ℕ) → v < 64 → bit_and v 0x30 / 16 ≡ v / 16
unfolding middle_test
six_high_two v h = ground (arith, at_each 64 middle_test middle_table v h)

pub six_high_four : (v : ℕ) → v < 64 → bit_and v 0x3c / 4 ≡ v / 4
unfolding middle_test
six_high_four v h = ground (arith, at_each 64 middle_test middle_table v h)

pub low_two : (b : ℕ) → bit_and b 0x03 ≡ b % 4
low_two b = bit_and-mask 2 b

pub low_four : (b : ℕ) → bit_and b 0x0f ≡ b % 16
low_four b = bit_and-mask 4 b

pub low_six : (b : ℕ) → bit_and b 0x3f ≡ b % 64
low_six b = bit_and-mask 6 b

-- Joined six bits: the low two of a byte and the high four of the next, and so on.
pub join_two_four : (a b : ℕ) → a < 4 → b < 16 → bit_or (a * 16) b ≡ a * 16 + b
join_two_four a b p q = bit_or-disjoint 4 (a * 16) b (omega arith) (omega arith)

pub join_four_two : (a b : ℕ) → a < 16 → b < 4 → bit_or (a * 4) b ≡ a * 4 + b
join_four_two a b p q = bit_or-disjoint 2 (a * 4) b (omega arith) (omega arith)

-- Joined bytes.
pub join_six_two : (a b : ℕ) → b < 4 → bit_or (a * 4) b ≡ a * 4 + b
join_six_two a b p = bit_or-disjoint 2 (a * 4) b (omega arith) (omega arith)

pub join_four_four : (a b : ℕ) → b < 16 → bit_or (a * 16) b ≡ a * 16 + b
join_four_four a b p = bit_or-disjoint 4 (a * 16) b (omega arith) (omega arith)

pub join_two_six : (a b : ℕ) → b < 64 → bit_or (a * 64) b ≡ a * 64 + b
join_two_six a b p = bit_or-disjoint 6 (a * 64) b (omega arith) (omega arith)
