-- ===== src/Wire/RoundTrip.antt =====
-- What the writers write and the readers read.
use gdp.Base.{
  ℕ, ◌+◌, ◌*◌, ◌/◌, ◌%◌, ◌^◌, ◌<◌, ◌≡◌, ap, arith, some, none, length, List, [], ◌∷◌, ◌++◌, All,
  bit_and, bit_or,
}
use gdp.Base.Bits.{bit_or-disjoint, bit_and-mask}
use gdp.Wire.{put8, put16, put32, get8, get16, get32}

abbrev pub IsByte : ℕ → Type 0
IsByte b = b < 256

-- Two and four bytes as one number.
pub join16 : (a b : ℕ) → b < 256 → bit_or (a * 2 ^ 8) b ≡ a * 256 + b
join16 a b h = bit_or-disjoint 8 (a * 256) b (omega arith) h

pub join32 :
    (a b c d : ℕ)
    → b < 256
    → c < 256
    → d < 256
    → bit_or (bit_or (bit_or (a * 2 ^ 24) (b * 2 ^ 16)) (c * 2 ^ 8)) d
      ≡ a * 16777216 + b * 65536 + c * 256 + d
join32 a b c d hb hc hd =
    let x = bit_or (a * 2 ^ 24) (b * 2 ^ 16) in
    omega (
      arith,
      bit_or-disjoint 24 (a * 2 ^ 24) (b * 2 ^ 16),
      bit_or-disjoint 16 x (c * 2 ^ 8),
      bit_or-disjoint 8 (bit_or x (c * 2 ^ 8)) d,
    )

low_byte : (v : ℕ) → bit_and v 0xff ≡ v % 256
low_byte v = bit_and-mask 8 v

pub put8_bytes : (v : ℕ) → put8 v ≡ v % 256 ∷ []
unfolding put8
put8_bytes v = rw (low_byte v)

pub put16_bytes : (v : ℕ) → put16 v ≡ v / 256 % 256 ∷ v % 256 ∷ []
unfolding put16
put16_bytes v = rw (low_byte v, low_byte (v / 2 ^ 8))

pub put32_bytes :
    (v : ℕ) → put32 v ≡ v / 16777216 % 256 ∷ v / 65536 % 256 ∷ v / 256 % 256 ∷ v % 256 ∷ []
unfolding put32
put32_bytes v = rw (low_byte v, low_byte (v / 2 ^ 8), low_byte (v / 2 ^ 16), low_byte (v / 2 ^ 24))

pub put16-IsByte : (v : ℕ) → All IsByte (put16 v)
put16-IsByte v = rw (put16_bytes v) (omega arith)

pub put32-IsByte : (v : ℕ) → All IsByte (put32 v)
put32-IsByte v = rw (put32_bytes v) (omega arith)

pub get8-put8 : (v : ℕ) (rest : List ℕ) → v < 2 ^ 8 → get8 (put8 v ++ rest) ≡ some (v, rest)
unfolding get8
get8-put8 v rest h = rw (put8_bytes v) (ap (λ (t : ℕ). some (t, rest)) (omega arith))

pub get16-put16 : (v : ℕ) (rest : List ℕ) → v < 2 ^ 16 → get16 (put16 v ++ rest) ≡ some (v, rest)
unfolding get16
get16-put16 v rest h =
    rw (put16_bytes v)
      (ap (λ (t : ℕ). some (t, rest)) (omega (arith, join16 (v / 256 % 256) (v % 256))))

pub get32-put32 : (v : ℕ) (rest : List ℕ) → v < 2 ^ 32 → get32 (put32 v ++ rest) ≡ some (v, rest)
unfolding get32
get32-put32 v rest h = rw (put32_bytes v) (
    ap (λ (t : ℕ). some (t, rest))
      (omega (arith, join32 (v / 16777216 % 256) (v / 65536 % 256) (v / 256 % 256) (v % 256))))

-- A successful read takes a number of its width off the front, and writing it gives the input back.
pub put16-get16 :
    (src : List ℕ) (v : ℕ) (rest : List ℕ)
    → All IsByte src
    → get16 src ≡ some (v, rest)
    → (v < 2 ^ 16) × (put16 v ++ rest ≡ src) × All IsByte rest
unfolding get16
put16-get16 [] v rest hb e = cc
put16-get16 (a ∷ []) v rest hb e = cc
put16-get16 (a ∷ b ∷ r) v rest (ha, (hb, hr)) e = ground (arith, join16 a b, put16_bytes v, e)

pub put32-get32 :
    (src : List ℕ) (v : ℕ) (rest : List ℕ)
    → All IsByte src
    → get32 src ≡ some (v, rest)
    → (v < 2 ^ 32) × (put32 v ++ rest ≡ src) × All IsByte rest
unfolding get32
put32-get32 [] v rest hb e = cc
put32-get32 (a ∷ []) v rest hb e = cc
put32-get32 (a ∷ b ∷ []) v rest hb e = cc
put32-get32 (a ∷ b ∷ c ∷ []) v rest hb e = cc
put32-get32 (a ∷ b ∷ c ∷ d ∷ r) v rest (ha, (hb, (hc, (hd, hr)))) e =
    ground (arith, join32 a b c d, put32_bytes v, e)

-- A read of four bytes succeeds exactly when four are there.
pub get32_size :
    (src : List ℕ) (v : ℕ) (rest : List ℕ)
    → get32 src ≡ some (v, rest)
    → length src ≡ 4 + length rest
unfolding get32
get32_size [] v rest e = cc
get32_size (a ∷ []) v rest e = cc
get32_size (a ∷ b ∷ []) v rest e = cc
get32_size (a ∷ b ∷ c ∷ []) v rest e = cc
get32_size (a ∷ b ∷ c ∷ d ∷ r) v rest e = ground arith

pub get32_short : (src : List ℕ) → get32 src ≡ none → length src < 4
unfolding get32
get32_short [] e = omega arith
get32_short (a ∷ []) e = omega arith
get32_short (a ∷ b ∷ []) e = omega arith
get32_short (a ∷ b ∷ c ∷ []) e = omega arith
get32_short (a ∷ b ∷ c ∷ d ∷ r) e = cc

pub get16_size :
    (src : List ℕ) (v : ℕ) (rest : List ℕ)
    → get16 src ≡ some (v, rest)
    → length src ≡ 2 + length rest
unfolding get16
get16_size [] v rest e = cc
get16_size (a ∷ []) v rest e = cc
get16_size (a ∷ b ∷ r) v rest e = ground arith
