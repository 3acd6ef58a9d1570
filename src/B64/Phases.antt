-- ===== src/B64/Phases.antt =====
-- What the encoder puts out and the decoder takes in at each position, as arithmetic.
use gdp.Base.{ℕ, ◌+◌, ◌*◌, ◌/◌, ◌%◌, ◌<◌, ◌≡◌, refl, arith, [], ◌∷◌}
use gdp.B64.{Encoding, emit, emit_byte, getenc}
use gdp.B64.Masks.{
  high_four, high_two, six_high_two, six_high_four, low_two, low_four, low_six, join_two_four,
  join_four_two, join_six_two, join_four_four, join_two_six,
}

pub emit_zero :
    (e : Encoding) (n b : ℕ)
    → emit e 0 n b ≡ record { out = getenc (b / 4) e ∷ []; nextc = b % 4 * 16 }
unfolding emit
emit_zero e n b = rw (low_two b)

pub emit_one :
    (e : Encoding) (a b : ℕ)
    → a < 4
    → b < 256
    → emit e 1 (a * 16) b ≡ record { out = getenc (a * 16 + b / 16) e ∷ []; nextc = b % 16 * 4 }
unfolding emit
emit_one e a b p q = rw (high_four b q, low_four b, join_two_four a (b / 16) p (omega arith))

pub emit_two :
    (e : Encoding) (a b : ℕ)
    → a < 16
    → b < 256
    → emit e 2 (a * 4) b
      ≡ record { out = getenc (a * 4 + b / 64) e ∷ getenc (b % 64) e ∷ []; nextc = a * 4 + b / 64 }
unfolding emit
emit_two e a b p q = rw (high_two b q, low_six b, join_four_two a (b / 64) p (omega arith))

pub byte_zero : (n v : ℕ) → emit_byte 0 n v ≡ record { out = []; nextc = v * 4 }
unfolding emit_byte
byte_zero n v = refl

-- A byte and six bits make up: the six high bits come first.
pub byte_one :
    (a r v : ℕ)
    → a < 64
    → r < 4
    → v < 16
    → emit_byte 1 (a * 4) (r * 16 + v) ≡ record { out = (a * 4 + r) ∷ []; nextc = v * 16 }
unfolding emit_byte
byte_one a r v p q s =
    let top : (r * 16 + v) / 16 ≡ r = omega arith in
    let low : (r * 16 + v) % 16 ≡ v = omega arith in
    let whole : (a * 4 + r) % 256 ≡ a * 4 + r = omega arith in
    rw (
      six_high_two (r * 16 + v) (omega arith),
      low_four (r * 16 + v),
      top,
      low,
      join_six_two a r q,
      whole,
    )

pub byte_two :
    (a r v : ℕ)
    → a < 16
    → r < 16
    → v < 4
    → emit_byte 2 (a * 16) (r * 4 + v) ≡ record { out = (a * 16 + r) ∷ []; nextc = v * 64 }
unfolding emit_byte
byte_two a r v p q s =
    let top : (r * 4 + v) / 4 ≡ r = omega arith in
    let low : (r * 4 + v) % 4 ≡ v = omega arith in
    let whole : (a * 16 + r) % 256 ≡ a * 16 + r = omega arith in
    rw (
      six_high_four (r * 4 + v) (omega arith),
      low_two (r * 4 + v),
      top,
      low,
      join_four_four a r q,
      whole,
    )

pub byte_three :
    (a v : ℕ)
    → a < 4
    → v < 64
    → emit_byte 3 (a * 64) v ≡ record { out = (a * 64 + v) ∷ []; nextc = a * 64 }
unfolding emit_byte
byte_three a v p q =
    let low : v % 64 ≡ v = omega arith in
    let whole : (a * 64 + v) % 256 ≡ a * 64 + v = omega arith in
    rw (low_six v, low, join_two_six a v q, whole)
