-- ===== src/B64/Empty.antt =====
-- Empty input for an encoding that wraps lines.
use gdp.Base.{
  ℕ, ◌+◌, ◌^◌, ◌≤◌, ◌≡◌, ◌⊎◌, refl, arith, true, some, none, [], bitset, bit_and, ltb, ◌==◌,
  Bool-cases, inl, inr,
}
use gdp.Stat.{stat_abort}
use gdp.B64.{Encoding, b64_pad, wrapmask, encmaxline, enc_len, b64_encode}

line_lengths : (e : Encoding) (m : ℕ) → encmaxline e ≡ some m → (m ≡ 64) ⊎ (m ≡ 76)
unfolding encmaxline
line_lengths e m h = elim (Bool-cases (bit_and e.flags wrapmask == 1)) [
  | inl p ↦ inl (ground (arith, p, h))
  | inr p ↦ elim (Bool-cases (bit_and e.flags wrapmask == 2)) [
    | inl q ↦ inr (ground (arith, p, q, h))
    | inr q ↦ ground (arith, p, q, h)
  ]
]

huge :
    (e : Encoding) (m : ℕ)
    → encmaxline e ≡ some m
    → bitset b64_pad e.flags ≡ true
    → 2 ^ 56 ≤ enc_len 0 e
unfolding enc_len
huge e m h p = elim (line_lengths e m h) [
  | inl q ↦ rw (h, p, q) (omega arith)
  | inr q ↦ rw (h, p, q) (omega arith)
]

-- For an encoding that wraps lines and pads, empty input is said to need at least 2^56 characters, and
-- encoding it is refused, as an overflow, by every text buffer of at most that size.
pub b64_encode_empty :
    (e : Encoding) (m tsize : ℕ)
    → encmaxline e ≡ some m
    → bitset b64_pad e.flags ≡ true
    → tsize ≤ 2 ^ 56
    → (2 ^ 56 ≤ enc_len 0 e) × (b64_encode [] tsize e ≡ (stat_abort, none))
unfolding b64_encode
b64_encode_empty e m tsize h p small =
    let big = huge e m h p in
    let refused : ltb tsize (enc_len 0 e + 1) ≡ true = ground (arith, big, small) in
    (big, rw refused refl)
