-- ===== src/Xlate/RoundTrip.antt =====
-- What is translated out is translated in again (ep/ep_xlate.c).
use gdp.Base.{
  ℕ, zero, suc, ◌-◌, ◌^◌, ◌<◌, ◌≡◌, refl, arith, sym, ap, Bool, true, false, some, List, [], ◌∷◌,
  ◌++◌, ◌==◌, ltb, bitset, length, All, Bool-cases, inl, inr,
}
use gdp.Xlate.{
  takes_hex, decode, less_one, xlate_loop, xlate_in, encode_char, must_encode, put_byte, xlate_out,
  xlate_percent, xlate_bslash, xlate_amper, xlate_plus, xlate_equal,
}
use gdp.Xlate.Bounds.{length-xlate_out}
use gdp.Xlate.Digits.{two_chars, decode_hex, decode_bslash, decode_plain}

-- One of the encodings, alone, and no names after an ampersand.
pub record IsStyle (how : ℕ) (percent bslash equal plus : Bool) : Type 0 where
  pub percents : bitset xlate_percent how ≡ percent
  pub bslashes : bitset xlate_bslash how ≡ bslash
  pub equals : bitset xlate_equal how ≡ equal
  pub pluses : bitset xlate_plus how ≡ plus
  pub ampers : bitset xlate_amper how ≡ false

pub data OneStyle (how : ℕ) : Type 0 where
  by_percent : IsStyle how true false false false → OneStyle how
  by_bslash : IsStyle how false true false false → OneStyle how
  by_equal : IsStyle how false false true false → OneStyle how
  by_plus : IsStyle how false false false true → OneStyle how

-- A character that is no NUL, and not where the translation stops.
abbrev pub IsText : ℕ → ℕ → Type 0
IsText stopchar c = ((c == 0) ≡ false) × ((c == stopchar) ≡ false)

-- One turn of the loop.
loop_step :
    (fuel ch c : ℕ) (text rest : List ℕ) (ol stopchar how : ℕ) (bytes : List ℕ)
    → decode how ch text ≡ (c, rest)
    → IsText stopchar ch
    → 1 < ol
    → ol < 2 ^ 64
    → xlate_loop fuel rest (ol - 1) stopchar how ≡ some bytes
    → xlate_loop (suc fuel) (ch ∷ text) ol stopchar how ≡ some (c ∷ bytes)
unfolding xlate_loop
loop_step fuel ch c text rest ol stopchar how bytes e (z, s) l m h =
    let count : less_one ol ≡ ol - 1 = omega arith in
    let room : ltb 0 (ol - 1) ≡ true = ground arith in
    let e0 = ap (λ (r : ℕ × List ℕ). r.0) e in
    let e1 = ap (λ (r : ℕ × List ℕ). r.1) e in rw (xlate_loop, z, s, count, room, e1, h, e0) refl

-- What stands for a byte that is put out, and is read back.
abbrev IsReadBack : (isprint : ℕ → Bool) → List ℕ → (how c : ℕ) → List ℕ → Type 0
IsReadBack isprint forbid how c rest =
    (e : ℕ) × (text : List ℕ) × ((put_byte isprint forbid how c).0 ++ rest ≡ e ∷ text)
    × (decode how e text ≡ (c, rest))

module _ (isprint : ℕ → Bool) (forbid : List ℕ) (how c : ℕ) (rest : List ℕ) where
  -- A byte that is put out as it is.
  plain :
      must_encode isprint forbid how c ≡ false
      → decode how c rest ≡ (c, rest)
      → IsReadBack isprint forbid how c rest
  unfolding put_byte
  plain m d = (c, rest, rw (put_byte, m) refl, d)

  -- The three encodings in which two digits follow.
  hex_style :
      (e : ℕ)
      → encode_char how ≡ e
      → (e == b'\\') ≡ false
      → takes_hex how e ≡ true
      → ((c == e) ≡ false → takes_hex how c ≡ false)
      → bitset xlate_bslash how ≡ false
      → bitset xlate_amper how ≡ false
      → c < 256
      → IsReadBack isprint forbid how c rest
  unfolding put_byte
  hex_style e enc other hit miss b a l = elim (Bool-cases (must_encode isprint forbid how c)) [
    | inl m ↦
        (e, two_chars c rest, rw (put_byte, m, enc, other) refl, decode_hex how e c rest hit l)
    | inr m ↦
        plain m (decode_plain how c rest (miss (ground (arith, m, enc))) (ground (arith, b)) a)
  ]

  bslash_style : IsStyle how false true false false → c < 256 → IsReadBack isprint forbid how c rest
  unfolding put_byte
  bslash_style s l =
      let enc : encode_char how ≡ b'\\' = rw (s.percents, s.bslashes) refl in
      elim (Bool-cases (must_encode isprint forbid how c)) [
        | inl m ↦ (
          b'\\',
          b'x' ∷ two_chars c rest,
          rw (put_byte, m, enc) refl,
          decode_bslash how c rest s.bslashes l,
        )
        | inr m ↦ plain m (
            decode_plain how c rest (ground (arith, s.percents, s.equals, s.pluses))
              (ground (arith, m, enc)) s.ampers)
      ]

  read_back : OneStyle how → c < 256 → IsReadBack isprint forbid how c rest
  read_back (by_percent s) l =
      hex_style b'%' (rw s.percents refl) refl (rw s.percents refl)
        (λ p. ground (arith, p, s.equals, s.pluses)) s.bslashes s.ampers l
  read_back (by_bslash s) l = bslash_style s l
  read_back (by_equal s) l =
      hex_style b'=' (rw (s.percents, s.bslashes, s.equals) refl) refl (rw s.equals refl)
        (λ p. ground (arith, p, s.percents, s.pluses)) s.bslashes s.ampers l
  read_back (by_plus s) l =
      hex_style b'+' (rw (s.percents, s.bslashes, s.equals, s.pluses) refl) refl (rw s.pluses refl)
        (λ p. ground (arith, p, s.percents, s.equals)) s.bslashes s.ampers l

All-suffix : (P : ℕ → Type 0) (xs ys : List ℕ) → All P (xs ++ ys) → All P ys
All-suffix P [] ys h = h
All-suffix P (x ∷ xs) ys (h, hs) = All-suffix P xs ys hs

All-first :
    (P : ℕ → Type 0) (xs : List ℕ) (e : ℕ) (after : List ℕ) → xs ≡ e ∷ after → All P xs → P e
All-first P [] e after q h = absurd (cc q)
All-first P (x ∷ xs) e after q (h, hs) = let same : x ≡ e = cc q in rw (sym same) h

-- The same, for any fuel that the text does not use up.
loop_back :
    (isprint : ℕ → Bool) (tval forbid : List ℕ) (how olen stopchar fuel : ℕ)
    → OneStyle how
    → All (λ (c : ℕ). c < 256) tval
    → All (IsText stopchar) (xlate_out isprint tval forbid how).0
    → length tval < olen
    → olen < 2 ^ 64
    → length tval < fuel
    → xlate_loop fuel (xlate_out isprint tval forbid how).0 olen stopchar how ≡ some tval
unfolding xlate_out xlate_loop
loop_back isprint tval forbid how olen stopchar zero style b text room l f =
    absurd (omega (arith, f))
loop_back isprint [] forbid how olen stopchar (suc fuel) style b text room l f = refl
loop_back isprint (c ∷ tval) forbid how olen stopchar (suc fuel) style (b, bs) text room l f =
    let out = (xlate_out isprint tval forbid how).0 in
    let (e, after, put, read) = read_back isprint forbid how c out style b in
    let first = All-first (IsText stopchar) _ e after put text in
    let tail : All (IsText stopchar) out =
      All-suffix _ (put_byte isprint forbid how c).0 out text in
    let rest =
      loop_back isprint tval forbid how (olen - 1) stopchar fuel style bs tail (omega (arith, room))
        (omega (arith, l)) (omega (arith, f)) in
    rw put
      (loop_step fuel e c after out olen stopchar how tval read first (omega (arith, room)) l rest)

-- A byte string that is put out in one encoding, where nothing that is put out is NUL or the character
-- to stop at, is read back whole into a buffer with room for a NUL behind it.
pub xlate_in-xlate_out :
    (isprint : ℕ → Bool) (tval forbid : List ℕ) (how olen stopchar : ℕ)
    → OneStyle how
    → All (λ (c : ℕ). c < 256) tval
    → All (IsText stopchar) (xlate_out isprint tval forbid how).0
    → length tval < olen
    → olen < 2 ^ 64
    → xlate_in (xlate_out isprint tval forbid how).0 olen stopchar how ≡ some tval
unfolding xlate_out xlate_loop
xlate_in-xlate_out isprint tval forbid how olen stopchar style bytes text room l =
    loop_back isprint tval forbid how olen stopchar
      (suc (length (xlate_out isprint tval forbid how).0)) style bytes text room l
      (omega (arith, (length-xlate_out isprint tval forbid how).1))
