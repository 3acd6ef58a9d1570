-- ===== src/Xlate/Bounds.antt =====
-- The lengths of what is put out and of what is read (ep/ep_xlate.c).
use gdp.Base.{
  ℕ, zero, suc, ◌-◌, ◌*◌, ◌%◌, ◌^◌, ◌<◌, ◌≤◌, ◌≡◌, refl, arith, Bool, not, ◌||◌, some, List, [],
  ◌∷◌, ◌==◌, ltb, bit_or, length, length-append, length-drop, Bool-cases, inl, inr,
}
use gdp.Xlate.{
  decode, isoctal, octal, bslash, amper_name, amper, less_one, xlate_loop, xlate_in, encode_char,
  must_encode, put_byte, xlate_out,
}

-- The bytes of one byte: from one to four.
pub length-put_byte :
    (isprint : ℕ → Bool) (forbid : List ℕ) (how c : ℕ)
    → ((put_byte isprint forbid how c).1 ≡ length (put_byte isprint forbid how c).0)
      × (1 ≤ length (put_byte isprint forbid how c).0)
      × (length (put_byte isprint forbid how c).0 ≤ 4)
unfolding put_byte
length-put_byte isprint forbid how c = elim (Bool-cases (must_encode isprint forbid how c)) [
  | inr m ↦ rw (put_byte, m) (refl, omega arith, omega arith)
  | inl m ↦ elim (Bool-cases (encode_char how == b'\\')) [
    | inl p ↦ rw (put_byte, m, p) (refl, omega arith, omega arith)
    | inr p ↦ rw (put_byte, m, p) (refl, omega arith, omega arith)
  ]
]

-- The number that a translation out returns is that of the bytes put out: at least those of the value,
-- and at most four for each.
pub length-xlate_out :
    (isprint : ℕ → Bool) (tval forbid : List ℕ) (how : ℕ)
    → ((xlate_out isprint tval forbid how).1 ≡ length (xlate_out isprint tval forbid how).0)
      × (length tval ≤ length (xlate_out isprint tval forbid how).0)
      × (length (xlate_out isprint tval forbid how).0 ≤ 4 * length tval)
unfolding xlate_out
length-xlate_out isprint [] forbid how = (refl, omega arith, omega arith)
length-xlate_out isprint (c ∷ tval) forbid how =
    let (own, low, high) = length-put_byte isprint forbid how c in
    let (all, lows, highs) = length-xlate_out isprint tval forbid how in
    let both =
      length-append (put_byte isprint forbid how c).0 (xlate_out isprint tval forbid how).0 in
    (
      omega (arith, own, all, both),
      omega (arith, low, lows, both),
      omega (arith, high, highs, both),
    )

length-octal : (i ch : ℕ) (text : List ℕ) → length (octal i ch text).1 ≤ length text
unfolding octal
length-octal zero ch text = omega arith
length-octal (suc i) ch [] = omega arith
length-octal (suc i) ch (d ∷ text) =
    let next = length-octal i (bit_or (ch * 2 ^ 3) (d - b'0') % 256) text in
    elim (Bool-cases (isoctal d)) [
      | inl p ↦ rw (octal, p) (omega (arith, next))
      | inr p ↦ rw (octal, p) (omega arith)
    ]

length-bslash : (text : List ℕ) → length (bslash text).1 ≤ length text
unfolding bslash
length-bslash [] = omega arith
length-bslash (c ∷ text) = ground (arith, length-drop 2 text, length-octal 2 (c - b'0') text)

length-amper_name : (room : ℕ) (text : List ℕ) → length (amper_name room text).1 ≤ length text
unfolding amper_name
length-amper_name zero text = omega arith
length-amper_name (suc room) [] = omega arith
length-amper_name (suc room) (c ∷ text) = ground (arith, length-amper_name room text)

length-amper : (text : List ℕ) → length (amper text).1 ≤ length text
unfolding amper
length-amper text = ground (arith, length-amper_name 31 text, length-drop 1 (amper_name 31 text).1)

length-decode : (how ch : ℕ) (text : List ℕ) → length (decode how ch text).1 ≤ length text
unfolding decode
length-decode how ch text =
    ground (arith, length-drop 2 text, length-bslash text, length-amper text)

-- With a buffer of at least one byte, less than the largest size, the loop ends, and what it writes
-- leaves room for the NUL.
pub length-xlate_loop :
    (fuel : ℕ) (text : List ℕ) (ol stopchar how : ℕ)
    → 0 < ol
    → ol < 2 ^ 64
    → length text < fuel
    → (bytes : List ℕ) × (xlate_loop fuel text ol stopchar how ≡ some bytes)
      × (length bytes < ol)
      × (length bytes ≤ length text)
unfolding xlate_loop
length-xlate_loop zero text ol stopchar how h l f = absurd (omega (arith, f))
length-xlate_loop (suc fuel) [] ol stopchar how h l f = ([], refl, h, omega arith)
length-xlate_loop (suc fuel) (ch ∷ text) ol stopchar how h l f =
    let rest = (decode how ch text).1 in
    let less = length-decode how ch text in
    elim (Bool-cases ((ch == 0) || ((ch == stopchar) || not (ltb 0 (less_one ol))))) [
      | inl s ↦ ([], rw (xlate_loop, s) refl, h, omega arith)
      | inr s ↦
          let count : less_one ol ≡ ol - 1 = omega arith in
          let more : 0 < less_one ol = ground (arith, s) in
          let (bytes, e, room, short) =
            length-xlate_loop fuel rest (less_one ol) stopchar how more (omega arith)
              (omega (arith, less, f)) in
          (
            (decode how ch text).0 ∷ bytes,
            rw (xlate_loop, s, e) refl,
            omega (arith, room, count),
            omega (arith, short, less),
          )
    ]

-- A translation in with a buffer of at least one byte, less than the largest size, ends; it writes no
-- more bytes than the text has, and with the NUL no more than the buffer holds.
pub length-xlate_in :
    (text : List ℕ) (olen stopchar how : ℕ)
    → 0 < olen
    → olen < 2 ^ 64
    → (bytes : List ℕ) × (xlate_in text olen stopchar how ≡ some bytes)
      × (suc (length bytes) ≤ olen)
      × (length bytes ≤ length text)
length-xlate_in text olen stopchar how h l =
    length-xlate_loop (suc (length text)) text olen stopchar how h l (omega arith)
