-- ===== src/Tests/Xlates.antt =====
-- The text `a%b` and a byte above ASCII, translated out and in.
use gdp.Base.{ℕ, suc, ◌≡◌, ◌≤◌, refl, arith, Bool, true, some, List, [], ◌∷◌, length}
use gdp.Xlate.{strchr, put_byte, xlate_in, xlate_loop, xlate_out, decode, from_hex}
use gdp.Xlate.Bounds.{length-xlate_in}
use gdp.Xlate.RoundTrip.{OneStyle, by_percent, by_bslash, xlate_in-xlate_out}

abbrev printable : ℕ → Bool
printable c = true

abbrev text : List ℕ
text = b'a' ∷ b'%' ∷ b'b' ∷ 0xe9 ∷ 10 ∷ []

abbrev encoded : List ℕ
encoded = (xlate_out printable text (10 ∷ []) 0x101).0

percent_style : OneStyle 0x101
percent_style =
    by_percent
      (record { percents = refl; bslashes = refl; equals = refl; pluses = refl; ampers = refl })

bslash_style : OneStyle 0x102
bslash_style =
    by_bslash
      (record { percents = refl; bslashes = refl; equals = refl; pluses = refl; ampers = refl })

encoded_text :
    encoded ≡ b'a' ∷ b'%' ∷ b'2' ∷ b'5' ∷ b'b' ∷ b'%' ∷ b'E' ∷ b'9' ∷ b'%' ∷ b'0' ∷ b'A' ∷ []
unfolding xlate_out put_byte strchr
encoded_text = refl

-- A short buffer cuts the text.
cut_short : xlate_in encoded 3 0 0x101 ≡ some (b'a' ∷ b'%' ∷ [])
unfolding xlate_out put_byte strchr xlate_loop decode from_hex
cut_short = refl

xlate_in-xlate_out_example :
    xlate_in (xlate_out printable (b'a' ∷ b'\\' ∷ 0xe9 ∷ []) [] 0x102).0 4 0 0x102
    ≡ some (b'a' ∷ b'\\' ∷ 0xe9 ∷ [])
unfolding xlate_out put_byte strchr
xlate_in-xlate_out_example =
    xlate_in-xlate_out printable (b'a' ∷ b'\\' ∷ 0xe9 ∷ []) [] 0x102 4 0 bslash_style
      (omega arith, (omega arith, (omega arith, tt)))
      (
        (refl, refl),
        (
          (refl, refl),
          (
            (refl, refl),
            (
              (refl, refl),
              ((refl, refl), ((refl, refl), ((refl, refl), ((refl, refl), ((refl, refl), tt))))),
            ),
          ),
        ),
      )
      (omega arith) (omega arith)

length-xlate_in_example :
    (bytes : List ℕ) × (xlate_in (b'&' ∷ b'x' ∷ b';' ∷ []) 2 0 0x04 ≡ some bytes)
    × (suc (length bytes) ≤ 2)
    × (length bytes ≤ 3)
length-xlate_in_example =
    length-xlate_in (b'&' ∷ b'x' ∷ b';' ∷ []) 2 0 0x04 (omega arith) (omega arith)
