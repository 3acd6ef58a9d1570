-- ===== src/Xlate.antt =====
-- Byte strings in external formats (ep/ep_xlate.c). A C string is the list of its bytes before the NUL:
-- at the end of the list a read gives 0.
pub mod Digits
pub mod Bounds
pub mod RoundTrip
use gdp.Base.{
  ℕ, zero, suc, ◌+◌, ◌-◌, ◌*◌, ◌/◌, ◌%◌, ◌^◌, Bool, true, false, not, ◌&&◌, ◌||◌, Option, none,
  some, List, [], ◌∷◌, ◌++◌, if◌then◌else◌, ◌==◌, ltb, leb, bit_and, bit_or, bitset, get_or, drop,
  length,
}

abbrev pub xlate_percent : ℕ
xlate_percent = 0x01

abbrev pub xlate_bslash : ℕ
xlate_bslash = 0x02

abbrev pub xlate_amper : ℕ
xlate_amper = 0x04

abbrev pub xlate_plus : ℕ
xlate_plus = 0x08

abbrev pub xlate_equal : ℕ
xlate_equal = 0x10

abbrev pub xlate_8bit : ℕ
xlate_8bit = 0x100

abbrev pub xlate_nprint : ℕ
xlate_nprint = 0x200

abbrev pub between : ℕ → ℕ → ℕ → Bool
between lo hi c = leb lo c && leb c hi

-- `ISOCTAL`
abbrev pub isoctal : ℕ → Bool
isoctal c = between b'0' b'7' c

-- `isxdigit` of the C library.
abbrev pub isxdigit : ℕ → Bool
isxdigit c = between b'0' b'9' c || (between b'A' b'F' c || between b'a' b'f' c)

-- `FROMHEX`
unfoldable pub from_hex : ℕ → ℕ
from_hex c = if between b'0' b'9' c then c - b'0' else bit_and c 0xf + 9

-- Two digits, as a byte.
abbrev pub hex_byte : List ℕ → ℕ
hex_byte text = bit_or (from_hex (get_or text 0 0) * 2 ^ 4) (from_hex (get_or text 1 0)) % 256

abbrev pub two_digits : List ℕ → Bool
two_digits text = isxdigit (get_or text 0 0) && isxdigit (get_or text 1 0)

-- What stands for itself or for `xx` after it.
abbrev pub takes_hex : ℕ → ℕ → Bool
takes_hex how ch =
    ((ch == b'%') && bitset xlate_percent how)
    || (((ch == b'+') && bitset xlate_plus how) || ((ch == b'=') && bitset xlate_equal how))

-- At most `i` more octal digits.
unfoldable pub octal : (i : ℕ) → ℕ → List ℕ → ℕ × List ℕ
octal zero ch text = (ch, text)
octal (suc i) ch [] = (ch, [])
octal (suc i) ch (d ∷ text) =
    let rest = octal i (bit_or (ch * 2 ^ 3) (d - b'0') % 256) text in
    if isoctal d then rest else (ch, d ∷ text)

-- The `switch` after a backslash; the text starts behind the backslash.
unfoldable pub bslash : List ℕ → ℕ × List ℕ
bslash [] = (b'\\', [])
bslash (c ∷ text) =
    if c == b'a'
    then (7, text)
    else if c == b'b'
    then (8, text)
    else if c == b'n'
    then (10, text)
    else if c == b'f'
    then (12, text)
    else if c == b'r'
    then (13, text)
    else if c == b'v'
    then (11, text)
    else if (c == b'\\') || ((c == 39) || (c == 34))
    then (c, text)
    else if c == b'x'
    then (if two_digits text then (hex_byte text, drop 2 text) else (c, text))
    else if isoctal c
    then octal 2 (c - b'0') text
    else (b'\\', c ∷ text)

-- The bytes of a name, at most `room` of them, and the rest.
unfoldable pub amper_name : (room : ℕ) → List ℕ → List ℕ × List ℕ
amper_name zero text = ([], text)
amper_name (suc room) [] = ([], [])
amper_name (suc room) (c ∷ text) =
    let (name, rest) = amper_name room text in
    if (c == 0) || (c == b';') then ([], c ∷ text) else (c ∷ name, rest)

-- `strcmp` with a literal answers 0.
unfoldable pub same_text : List ℕ → List ℕ → Bool
same_text [] [] = true
same_text [] (y ∷ ys) = false
same_text (x ∷ xs) [] = false
same_text (x ∷ xs) (y ∷ ys) = (x == y) && same_text xs ys

-- The sequence after an ampersand, with 31 bytes of room; no match leaves the ampersand.
unfoldable pub amper : List ℕ → ℕ × List ℕ
amper text =
    let (name, rest) = amper_name 31 text in
    if not (get_or rest 0 0 == b';')
    then (b'&', text)
    else if same_text name (b'a' ∷ b'm' ∷ b'p' ∷ [])
    then (b'&', drop 1 rest)
    else if same_text name (b'g' ∷ b't' ∷ [])
    then (b'>', drop 1 rest)
    else if same_text name (b'l' ∷ b't' ∷ [])
    then (b'<', drop 1 rest)
    else (b'&', drop 1 rest)

-- The body of the loop: the byte that is written, and the text that is left.
unfoldable pub decode : (how : ℕ) → ℕ → List ℕ → ℕ × List ℕ
decode how ch text =
    if takes_hex how ch && two_digits text
    then (hex_byte text, drop 2 text)
    else if (ch == b'\\') && bitset xlate_bslash how
    then bslash text
    else if (ch == b'&') && bitset xlate_amper how
    then amper text
    else (ch, text)

-- `--ol` on a `size_t`
abbrev pub less_one : ℕ → ℕ
less_one ol = (ol + (2 ^ 64 - 1)) % 2 ^ 64

-- The loop of `ep_xlate_in`: the bytes that are written before the NUL. `none` is no fuel left.
unfoldable pub xlate_loop : (fuel : ℕ) → List ℕ → (ol stopchar how : ℕ) → Option (List ℕ)
xlate_loop zero text ol stopchar how = none
xlate_loop (suc fuel) [] ol stopchar how = some []
xlate_loop (suc fuel) (ch ∷ text) ol stopchar how =
    let (c, rest) = decode how ch text in
    let out = xlate_loop fuel rest (less_one ol) stopchar how in
    if (ch == 0) || ((ch == stopchar) || not (ltb 0 (less_one ol)))
    then some []
    else elim out [ none ↦ none | some bytes ↦ some (c ∷ bytes) ]

-- `ep_xlate_in`; the number that it returns is the length of this.
abbrev pub xlate_in : List ℕ → (olen stopchar how : ℕ) → Option (List ℕ)
xlate_in text olen stopchar how = xlate_loop (suc (length text)) text olen stopchar how

-- `HexCharMap`
abbrev pub hex_char : ℕ → ℕ
hex_char d = if ltb d 10 then b'0' + d else b'A' + (d - 10)

abbrev pub encode_char : (how : ℕ) → ℕ
encode_char how =
    if bitset xlate_percent how
    then b'%'
    else if bitset xlate_bslash how
    then b'\\'
    else if bitset xlate_equal how
    then b'='
    else if bitset xlate_plus how
    then b'+'
    else b'='

-- `strchr`, for a byte that is not NUL.
unfoldable pub strchr : List ℕ → ℕ → Bool
strchr [] c = false
strchr (x ∷ xs) c = (x == c) || strchr xs c

-- The parameter is `isprint` of the C library, which depends on the locale.
module _ (isprint : ℕ → Bool) where
  abbrev pub must_encode : List ℕ → (how : ℕ) → ℕ → Bool
  must_encode forbid how c =
      (bitset 0x80 c && bitset xlate_8bit how)
      || ((c == encode_char how)
          || ((c == 0) || ((bitset xlate_nprint how && not (isprint c)) || strchr forbid c)))

  -- What is put out for one byte, and the growth of `osize`.
  unfoldable pub put_byte : List ℕ → (how : ℕ) → ℕ → List ℕ × ℕ
  put_byte forbid how c =
      let e = encode_char how in
      if must_encode forbid how c
      then (
        e
            ∷ (if e == b'\\'
                then b'x' ∷ hex_char (c / 16 % 16) ∷ hex_char (c % 16) ∷ []
                else hex_char (c / 16 % 16) ∷ hex_char (c % 16) ∷ []),
        3 + (if e == b'\\' then 1 else 0),
      )
      else (c ∷ [], 1)

  -- `ep_xlate_out`: the bytes that are put out, and `osize`.
  unfoldable pub xlate_out : List ℕ → List ℕ → (how : ℕ) → List ℕ × ℕ
  xlate_out [] forbid how = ([], 0)
  xlate_out (c ∷ tval) forbid how =
      let (bytes, n) = put_byte forbid how c in
      let (more, osize) = xlate_out tval forbid how in (bytes ++ more, n + osize)
