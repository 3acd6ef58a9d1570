-- ===== src/Base/Flags.antt =====
-- The tests of single flags after `|` and `&`.
use Prim.Native.Nat.{ℕ, zero, suc, ◌*◌, ◌/◌, ◌%◌, ◌^◌, bit_and, bit_or, bit_and-bitwise}
use mathlib.Core.Path.{◌≡◌}
use mathlib.Core.Bool.{◌&&◌, ◌||◌}
use native.Mathlib.Omega.{arith}
use native.Mathlib.Nat.{pow-suc}
use gdp.Base.Tests.{bitset, ◌==◌}
use gdp.Base.Bits.{and_digit, or_digit}

-- The next flag is this one of the half.
bitset-suc : (k a : ℕ) → bitset (2 ^ suc k) a ≡ bitset (2 ^ k) (a / 2)
bitset-suc k a =
    let even : 2 ^ suc k / 2 ≡ 2 ^ k = omega (arith, pow-suc 2 k) in
    let d : bit_and (2 ^ suc k) a ≡ 2 * bit_and (2 ^ k) (a / 2) =
      ground (arith, and_digit (2 ^ suc k) a, pow-suc 2 k, even) in
    ground (arith, d)

bitset-one : (a : ℕ) → bitset 1 a ≡ (a % 2 == 1)
bitset-one a =
    let d : bit_and 1 a ≡ a % 2 = ground (arith, and_digit 1 a, bit_and-bitwise 0 (a / 2)) in
    ground (arith, d)

one_or : (a b : ℕ) → bitset 1 (bit_or a b) ≡ bitset 1 a || bitset 1 b
one_or a b = ground (arith, bitset-one a, bitset-one b, bitset-one (bit_or a b), or_digit a b)

one_and : (a b : ℕ) → bitset 1 (bit_and a b) ≡ bitset 1 a && bitset 1 b
one_and a b = ground (arith, bitset-one a, bitset-one b, bitset-one (bit_and a b), and_digit a b)

-- A flag is set in `a | b` where it is in one of them, and in `a & b` where it is in both.
pub bitset-or : (k a b : ℕ) → bitset (2 ^ k) (bit_or a b) ≡ bitset (2 ^ k) a || bitset (2 ^ k) b
bitset-or zero a b = one_or a b
bitset-or (suc k) a b =
    let half : bit_or a b / 2 ≡ bit_or (a / 2) (b / 2) = omega (arith, or_digit a b) in
    rw (bitset-suc k (bit_or a b), bitset-suc k a, bitset-suc k b, half)
      (bitset-or k (a / 2) (b / 2))

pub bitset-and : (k a b : ℕ) → bitset (2 ^ k) (bit_and a b) ≡ bitset (2 ^ k) a && bitset (2 ^ k) b
bitset-and zero a b = one_and a b
bitset-and (suc k) a b =
    let half : bit_and a b / 2 ≡ bit_and (a / 2) (b / 2) = omega (arith, and_digit a b) in
    rw (bitset-suc k (bit_and a b), bitset-suc k a, bitset-suc k b, half)
      (bitset-and k (a / 2) (b / 2))
