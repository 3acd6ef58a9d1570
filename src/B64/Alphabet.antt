-- ===== src/B64/Alphabet.antt =====
-- Every six bits have a character, and the decoder's table gives them back.
use gdp.Base.{
  bitset, bit_and, ◌∙◌, ℕ, ◌<◌, ◌≡◌, ◌≢◌, refl, arith, not, Bool, true, false, ◌&&◌, ◌||◌, ◌==◌,
  ltb, List, [], ◌∷◌, ◌%◌, holds_below, at_each, get_or, if◌then◌else◌, Bool-cases, inl, inr,
}
use gdp.B64.{
  Encoding, enc_mime, enc_url, b64_igncrud, b64_pad, wrapmask, enc_chars, getenc, Symbol, ill, ign,
  six, decode_map, put_chars, put_char,
}

occurs : ℕ → List ℕ → Bool
occurs c [] = false
occurs c (x ∷ xs) = (c == x) || occurs c xs

-- The letters and digits, as a test and by number.
pub is_letter : ℕ → Bool
unfolding occurs
is_letter c = occurs c enc_chars

letter : ℕ → ℕ
letter v = get_or enc_chars v 0

-- The table after the letters and digits are in.
letter_map : (ℕ → Symbol) → ℕ → Symbol
unfolding put_chars
letter_map start = put_chars enc_chars 0 start

-- Bytes that mean something else to the decoder: the end of the text, line ends, padding.
abbrev pub special : ℕ → Bool
special c = (c == 0) || ((c == 10) || ((c == 13) || ((c == b'=') || not (ltb c 128))))

-- The two characters of an encoding are bytes of their own, below 128.
pub record IsEncoding (e : Encoding) : Type 0 where
  pub differ : e.char_62 ≢ e.char_63
  pub new_62 : is_letter e.char_62 ≡ false
  pub new_63 : is_letter e.char_63 ≡ false
  pub plain_62 : special e.char_62 ≡ false
  pub plain_63 : special e.char_63 ≡ false

is_six : ℕ → Symbol → Bool
is_six v ill = false
is_six v ign = false
is_six v (six w) = v == w

is_six→eq : (v : ℕ) (s : Symbol) → is_six v s ≡ true → s ≡ six v
unfolding is_six
is_six→eq v ill h = cc
is_six→eq v ign h = cc
is_six→eq v (six w) h = ground arith

letter_test : (ℕ → Symbol) → ℕ → Bool
letter_test start v =
    is_six v (letter_map start (letter v)) && (is_letter (letter v) && not (special (letter v)))

letter_table : (start : ℕ → Symbol) → holds_below 62 (letter_test start) ≡ true
unfolding holds_below letter_test is_six letter_map letter is_letter
letter_table start = refl

abbrev start_map : Encoding → ℕ → Symbol
start_map e x = if bitset b64_igncrud e.flags then ign else ill

letters : Encoding → ℕ → Symbol
letters e = put_char e.char_63 (six 63) (put_char e.char_62 (six 62) (letter_map (start_map e)))

-- The later assignments to the table touch no plain character.
decode_map_plain : (e : Encoding) (c : ℕ) → special c ≡ false → decode_map e c ≡ letters e c
unfolding decode_map letters letter_map
decode_map_plain e c plain = elim (Bool-cases (bitset b64_pad e.flags)) [
  | inl p ↦ elim (Bool-cases (bit_and e.flags wrapmask == 0)) [
    | inl w ↦ rw (p, w) (ground (arith, plain))
    | inr w ↦ rw (p, w) (ground (arith, plain))
  ]
  | inr p ↦ elim (Bool-cases (bit_and e.flags wrapmask == 0)) [
    | inl w ↦ rw (p, w) (ground (arith, plain))
    | inr w ↦ rw (p, w) (ground (arith, plain))
  ]
]

-- A character is a byte other than 0.
plain_byte : (c : ℕ) → special c ≡ false → ((c == 0) ≡ false) × (c % 256 ≡ c)
plain_byte c plain = (ground (arith, plain), ground (arith, plain))

and_parts : (a b c : Bool) → (a && (b && not c)) ≡ true → (a ≡ true) × (b ≡ true) × (c ≡ false)
and_parts a b c h = ground arith

letter_facts :
    (e : Encoding) (v : ℕ)
    → v < 62
    → (letter_map (start_map e) (letter v) ≡ six v)
      × (is_letter (letter v) ≡ true)
      × (special (letter v) ≡ false)
unfolding letter_test
letter_facts e v h =
    let t = at_each 62 (letter_test (start_map e)) (letter_table (start_map e)) v h in
    let (a, b, c) = and_parts (is_six v (letter_map (start_map e) (letter v))) _ _ t in
    (is_six→eq v _ a, b, c)

-- What the decoder needs to know of the character for `v`.
pub record IsChar (e : Encoding) (v : ℕ) (c : ℕ) : Type 0 where
  pub goes_on : (c == 0) ≡ false
  pub means : decode_map e (c % 256) ≡ six v

plain-IsChar : (e : Encoding) (v c : ℕ) → special c ≡ false → letters e c ≡ six v → IsChar e v c
plain-IsChar e v c plain same = record {
  goes_on = (plain_byte c plain).0;
  means = rw ((plain_byte c plain).1) (decode_map_plain e c plain ∙ same);
}

letter-IsChar : (e : Encoding) (v : ℕ) → IsEncoding e → v < 62 → IsChar e v (letter v)
unfolding letters put_char
letter-IsChar e v ok h =
    let (a, b, c) = letter_facts e v h in
    plain-IsChar e v (letter v) c (ground (arith, a, b, ok.new_62, ok.new_63))

-- The character for six bits is read as those six bits.
pub getenc-IsChar : (e : Encoding) (v : ℕ) → IsEncoding e → v < 64 → IsChar e v (getenc v e)
unfolding getenc letter letters put_char
getenc-IsChar e v ok small = elim (Bool-cases (v == 62)) [
  | inl p ↦ rw p (plain-IsChar e v e.char_62 ok.plain_62 (ground (arith, p, ok.differ)))
  | inr p ↦ elim (Bool-cases (v == 63)) [
    | inl q ↦ rw (p, q) (plain-IsChar e v e.char_63 ok.plain_63 (ground (arith, q)))
    | inr q ↦ rw (p, q) (letter-IsChar e v ok (ground (arith, p, q)))
  ]
]

pub url_IsEncoding : IsEncoding enc_url
unfolding is_letter occurs
url_IsEncoding = record {
  differ = λ e. omega (arith, e);
  new_62 = refl;
  new_63 = refl;
  plain_62 = refl;
  plain_63 = refl;
}

pub mime_IsEncoding : IsEncoding enc_mime
unfolding is_letter occurs
mime_IsEncoding = record {
  differ = λ e. omega (arith, e);
  new_62 = refl;
  new_63 = refl;
  plain_62 = refl;
  plain_63 = refl;
}
