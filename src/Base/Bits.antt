-- ===== src/Base/Bits.antt =====
-- Masks and shifts at any width, from the digit recursion that the native operations stand for.
use Prim.Native.Nat.{
  ℕ, zero, suc, ◌+◌, ◌-◌, ◌*◌, ◌/◌, ◌%◌, ◌^◌, ◌≤◌, ◌<◌, min, max, bit_and, bit_or, digits,
  bit_and-bitwise, bit_or-bitwise,
}
use mathlib.Core.Path.{◌≡◌, refl, ap}
use native.Mathlib.Omega.{arith}
use native.Mathlib.Nat.{pow-suc, pow-le-pow_right, div-add-mod'}

-- The digits of `a` joined to those of `b`: fuel beyond `a` changes nothing.
module _ (z : ℕ → ℕ) (f : ℕ → ℕ → ℕ) where
  digits_more : (n m a b : ℕ) → a ≤ n → a ≤ m → digits z f n a b ≡ digits z f m a b
  digits_more zero zero zero b p q = refl
  digits_more zero (suc m) zero b p q = refl
  digits_more (suc n) zero zero b p q = refl
  digits_more (suc n) (suc m) zero b p q = refl
  digits_more zero m (suc a) b p q = absurd (omega arith)
  digits_more (suc n) zero (suc a) b p q = absurd (omega arith)
  digits_more (suc n) (suc m) (suc a) b p q =
      omega (arith, digits_more n m (suc a / 2) (b / 2) (omega arith) (omega arith))

-- One binary digit of each operation.
pub and_digit : (a b : ℕ) → bit_and a b ≡ 2 * bit_and (a / 2) (b / 2) + min (a % 2) (b % 2)
and_digit zero b = omega (arith, bit_and-bitwise 0 b, bit_and-bitwise 0 (b / 2))
and_digit (suc a) b =
    let half : suc a / 2 ≤ a = omega arith in
    omega (
      arith,
      bit_and-bitwise (suc a) b,
      bit_and-bitwise (suc a / 2) (b / 2),
      digits_more (λ _. zero) min a (suc a / 2) (suc a / 2) (b / 2) half (omega arith),
    )

pub or_digit : (a b : ℕ) → bit_or a b ≡ 2 * bit_or (a / 2) (b / 2) + max (a % 2) (b % 2)
or_digit zero b = omega (arith, bit_or-bitwise 0 b, bit_or-bitwise 0 (b / 2))
or_digit (suc a) b =
    let half : suc a / 2 ≤ a = omega arith in
    omega (
      arith,
      bit_or-bitwise (suc a) b,
      bit_or-bitwise (suc a / 2) (b / 2),
      digits_more (λ x. x) max a (suc a / 2) (suc a / 2) (b / 2) half (omega arith),
    )

-- Operands below `n`, by halving.
below_zero : (n a : ℕ) → a < n → (bit_and a 0 ≡ 0) × (bit_or a 0 ≡ a)
below_zero zero a h = absurd (omega arith)
below_zero (suc n) zero h = (refl, refl)
below_zero (suc n) (suc a) h =
    let (p, q) = below_zero n (suc a / 2) (omega arith) in
    (omega (arith, and_digit (suc a) 0), omega (arith, or_digit (suc a) 0))

pub bit_and-zero : (a : ℕ) → bit_and a 0 ≡ 0
bit_and-zero a = (below_zero (suc a) a (omega arith)).0

pub bit_or-zero : (a : ℕ) → bit_or a 0 ≡ a
bit_or-zero a = (below_zero (suc a) a (omega arith)).1

shifted : (a k : ℕ) → a * 2 ^ suc k ≡ 2 * (a * 2 ^ k)
shifted a k = omega (arith, ap (λ (t : ℕ). a * t) (pow-suc 2 k))

-- `a << k | b`, where `b` has at most `k` bits, is a sum.
pub bit_or-shift : (k a b : ℕ) → b < 2 ^ k → bit_or (a * 2 ^ k) b ≡ a * 2 ^ k + b
bit_or-shift zero a b h = ground (arith, bit_or-zero a)
bit_or-shift (suc k) a b h =
    ground (arith, or_digit (a * 2 ^ suc k) b, shifted a k, pow-suc 2 k, bit_or-shift k a (b / 2))

pow-pos : (k : ℕ) → 0 < 2 ^ k
pow-pos k = pow-le-pow_right {n = 2} (omega arith) {i = 0} (omega arith)

low_part : (k q r : ℕ) → r < 2 ^ k → bit_and (q * 2 ^ k + r) (2 ^ k - 1) ≡ r
low_part zero q r h = ground (arith, bit_and-zero (q * 1 + r))
low_part (suc k) q r h = ground (
  arith,
  and_digit (q * 2 ^ suc k + r) (2 ^ suc k - 1),
  shifted q k,
  pow-suc 2 k,
  low_part k q (r / 2),
)

-- `a & (2^k - 1)` is the rest by `2^k`.
pub bit_and-mask : (k a : ℕ) → bit_and a (2 ^ k - 1) ≡ a % 2 ^ k
bit_and-mask k a = ground (arith, pow-pos k, low_part k (a / 2 ^ k) (a % 2 ^ k))

-- `x | b`, where the low `k` bits of `x` are zero and `b` has no others.
pub bit_or-disjoint : (k x b : ℕ) → x % 2 ^ k ≡ 0 → b < 2 ^ k → bit_or x b ≡ x + b
bit_or-disjoint k x b e h =
    let whole : x ≡ x / 2 ^ k * 2 ^ k = grind (arith, div-add-mod' x (2 ^ k)) in
    rw whole (bit_or-shift k (x / 2 ^ k) b h)
