-- ===== src/Xlate/Digits.antt =====
-- Hexadecimal digits, and what the loop makes of an encoded byte (ep/ep_xlate.c).
use gdp.Base.{
  ℕ, ◌/◌, ◌%◌, ◌<◌, ◌≡◌, refl, arith, true, false, ◌&&◌, List, ◌∷◌, ◌==◌, bitset, holds_below,
  at_each, ==_iff, Bool-cases, inl, inr,
}
use gdp.Base.Bits.{bit_or-shift}
use gdp.Xlate.{
  isxdigit, from_hex, hex_byte, two_digits, hex_char, takes_hex, bslash, decode, xlate_bslash,
  xlate_amper,
}

pub isxdigit-hex_char : (d : ℕ) → d < 16 → isxdigit (hex_char d) ≡ true
unfolding holds_below
isxdigit-hex_char = at_each 16 (λ d. isxdigit (hex_char d)) refl

pub from_hex-hex_char : (d : ℕ) → d < 16 → from_hex (hex_char d) ≡ d
unfolding holds_below from_hex
from_hex-hex_char d l =
    (==_iff (from_hex (hex_char d)) d).0 (at_each 16 (λ d. from_hex (hex_char d) == d) refl d l)

abbrev pub two_chars : ℕ → List ℕ → List ℕ
two_chars c rest = hex_char (c / 16 % 16) ∷ hex_char (c % 16) ∷ rest

-- The two digits of a byte, read back.
pub hex_byte-two_chars : (c : ℕ) (rest : List ℕ) → c < 256 → hex_byte (two_chars c rest) ≡ c
hex_byte-two_chars c rest l =
    let hi : from_hex (hex_char (c / 16 % 16)) ≡ c / 16 % 16 =
      from_hex-hex_char (c / 16 % 16) (omega arith) in
    let lo : from_hex (hex_char (c % 16)) ≡ c % 16 = from_hex-hex_char (c % 16) (omega arith) in
    rw (hi, lo) (omega (arith, bit_or-shift 4 (c / 16 % 16) (c % 16) (omega arith)))

pub two_digits-two_chars : (c : ℕ) (rest : List ℕ) → two_digits (two_chars c rest) ≡ true
two_digits-two_chars c rest =
    rw (isxdigit-hex_char (c / 16 % 16) (omega arith), isxdigit-hex_char (c % 16) (omega arith))
      refl

-- An encoded byte, where its first character is one that digits follow.
pub decode_hex :
    (how e c : ℕ) (rest : List ℕ)
    → takes_hex how e ≡ true
    → c < 256
    → decode how e (two_chars c rest) ≡ (c, rest)
unfolding decode
decode_hex how e c rest t l = rw (t, two_digits-two_chars c rest, hex_byte-two_chars c rest l) refl

-- An encoded byte after a backslash and an `x`.
pub decode_bslash :
    (how c : ℕ) (rest : List ℕ)
    → bitset xlate_bslash how ≡ true
    → c < 256
    → decode how b'\\' (b'x' ∷ two_chars c rest) ≡ (c, rest)
unfolding decode bslash
decode_bslash how c rest b l = rw (b, two_digits-two_chars c rest, hex_byte-two_chars c rest l) refl

-- A byte that stands for itself.
pub decode_plain :
    (how c : ℕ) (rest : List ℕ)
    → takes_hex how c ≡ false
    → ((c == b'\\') && bitset xlate_bslash how) ≡ false
    → bitset xlate_amper how ≡ false
    → decode how c rest ≡ (c, rest)
unfolding decode
decode_plain how c rest t b a = elim (Bool-cases (c == b'&')) [
  | inl p ↦ rw (decode, t, b, p, a) refl
  | inr p ↦ rw (decode, t, b, p) refl
]
