-- ===== src/B64.antt =====
-- Base 64 (ep/ep_b64.h, ep/ep_b64.c). Text and binary are lists of bytes.
pub mod Alphabet
pub mod Masks
pub mod Phases
pub mod Reads
pub mod RoundTrip
pub mod Length
pub mod Empty
use Prim.Native.Char.{code}
use Prim.Native.String.{String}
use mathlib.Core.Option
use gdp.Base.{
  ℕ, zero, suc, ◌+◌, ◌-◌, ◌*◌, ◌/◌, ◌%◌, ◌^◌, Bool, true, false, ◌&&◌, ◌||◌, not, Option, none,
  some, List, [], ◌∷◌, ◌++◌, if◌then◌else◌, ltb, leb, ◌==◌, bitset, bit_and, bit_or, length, get_or,
}
use gdp.Stat.{EpStat, stat_error, stat_abort, stat_from_int}

-- The "encoding" string: the characters for 62 and 63, and a third one that holds flags.
pub record Encoding : Type 0 where
  pub char_62 : ℕ
  pub char_63 : ℕ
  pub flags : ℕ

abbrev pub wrapmask : ℕ
wrapmask = 0x03

abbrev pub b64_pad : ℕ
b64_pad = 0x04

abbrev pub b64_igncrud : ℕ
b64_igncrud = 0x08

-- `EP_B64_ENC_MIME`, `EP_B64_ENC_PEM` and `EP_B64_ENC_URL`: "+/N", "+/E" and "-_@".
abbrev pub enc_mime : Encoding
enc_mime = record { char_62 = b'+'; char_63 = b'/'; flags = b'N' }

abbrev pub enc_pem : Encoding
enc_pem = record { char_62 = b'+'; char_63 = b'/'; flags = b'E' }

abbrev pub enc_url : Encoding
enc_url = record { char_62 = b'-'; char_63 = b'_'; flags = b'@' }

abbrev pub codes : String → List ℕ
codes String.[] = []
codes (String.◌∷◌ c s) = code c ∷ codes s

-- `EncChars`
abbrev pub enc_chars : List ℕ
enc_chars = codes "ABCDEFGHIJKLMNOPQRSTUVWXYZabcdefghijklmnopqrstuvwxyz0123456789"

-- `encmaxline`; `none` is its -1.
unfoldable pub encmaxline : Encoding → Option ℕ
encmaxline e =
    let w = bit_and e.flags wrapmask in if w == 1 then some 64 else if w == 2 then some 76 else none

-- `size_t` has 64 bits.
abbrev pub u64 : ℕ → ℕ
u64 n = n % 2 ^ 64

abbrev pub add_wraps : Option ℕ → ℕ → ℕ
add_wraps none n = n
add_wraps (some m) n = u64 (n + (n + 2 ^ 64 - 1) % 2 ^ 64 / m * 2)

-- `ep_b64_enc_len`
unfoldable pub enc_len : ℕ → Encoding → ℕ
enc_len bsize e =
    let whole = u64 (u64 (bsize + 2) / 3 * 4) in
    let needed =
      if bitset b64_pad e.flags then whole else u64 (whole + 2 ^ 64 - (2 - u64 (bsize + 2) % 3)) in
    add_wraps (encmaxline e) needed

unfoldable pub getenc : ℕ → Encoding → ℕ
getenc b e = if b == 62 then e.char_62 else if b == 63 then e.char_63 else get_or enc_chars b 0

-- A byte of input at a position: the characters put out, and the bits kept for the next one.
pub record Emit : Type 0 where
  pub out : List ℕ
  pub nextc : ℕ

unfoldable pub emit : Encoding → ℕ → ℕ → ℕ → Emit
emit e phase nextc b =
    if phase == 0
    then record { out = getenc (b / 4) e ∷ []; nextc = bit_and b 0x03 * 16 }
    else if phase == 1
    then record {
      out = getenc (bit_or nextc (bit_and b 0xf0 / 16)) e ∷ [];
      nextc = bit_and b 0x0f * 4;
    }
    else record {
      out = getenc (bit_or nextc (bit_and b 0xc0 / 64)) e ∷ getenc (bit_and b 0x3f) e ∷ [];
      nextc = bit_or nextc (bit_and b 0xc0 / 64);
    }

-- Whether a line is full at column `lx`.
abbrev pub line_full : Option ℕ → ℕ → Bool
line_full none lx = false
line_full (some m) lx = leb m lx

-- The last character, and the padding.
unfoldable pub encode_tail : Encoding → ℕ → ℕ → List ℕ
encode_tail e phase nextc =
    if phase == 0
    then []
    else if phase == 1
    then getenc nextc e ∷ (if bitset b64_pad e.flags then b'=' ∷ b'=' ∷ [] else [])
    else getenc nextc e ∷ (if bitset b64_pad e.flags then b'=' ∷ [] else [])

-- The loop over the input from position `bx` on, at column `lx`.
unfoldable pub encode_loop : Encoding → List ℕ → (bx lx nextc : ℕ) → List ℕ
encode_loop e [] bx lx nextc = encode_tail e (bx % 3) nextc
encode_loop e (b ∷ bs) bx lx nextc =
    let full = line_full (encmaxline e) lx in
    let s = emit e (bx % 3) nextc b in
    (if full then 13 ∷ 10 ∷ [] else [])
    ++ (s.out ++ encode_loop e bs (bx + 1) ((if full then 0 else lx) + length s.out) s.nextc)

-- `ep_b64_encode` into a buffer of `tsize` bytes: the status, and the text where it is written.
unfoldable pub b64_encode : List ℕ → ℕ → Encoding → EpStat × Option (List ℕ)
b64_encode bin tsize e =
    let txt = encode_loop e bin 0 0 0 in
    if ltb tsize (enc_len (length bin) e + 1)
    then (stat_abort, none)
    else (stat_from_int (length txt), some txt)

-- What an input character stands for: an error, nothing, or six bits.
pub data Symbol : Type 0 where
  ill ign : Symbol
  six : ℕ → Symbol

abbrev pub put_symbol : ℕ → Symbol → (ℕ → Symbol) → ℕ → Symbol
put_symbol c v m x = if x == c then v else m x

unfoldable pub put_chars : List ℕ → ℕ → (ℕ → Symbol) → ℕ → Symbol
put_chars [] i m = m
put_chars (c ∷ cs) i m = put_chars cs (i + 1) (put_symbol c (six i) m)

-- The assignment at the index `(int) c` of a char `c`, which is below 0 for a byte of 128 and more: the
-- table is as it was then, and what is written over instead is not modelled.
unfoldable pub put_char : ℕ → Symbol → (ℕ → Symbol) → ℕ → Symbol
put_char c v m x = if ltb c 128 then put_symbol c v m x else m x

-- The table `decode`, by the assignments that fill it, in their order.
unfoldable pub decode_map : Encoding → ℕ → Symbol
decode_map e =
    let start = λ (x : ℕ). if bitset b64_igncrud e.flags then ign else ill in
    let letters =
      put_char e.char_63 (six 63) (put_char e.char_62 (six 62) (put_chars enc_chars 0 start)) in
    let wrapped =
      if bit_and e.flags wrapmask == 0
      then letters
      else put_symbol 10 ign (put_symbol 13 ign letters) in
    if bitset b64_pad e.flags then put_symbol b'=' ign wrapped else wrapped

-- Six bits at a position: the byte put out, if any, and the bits kept for the next one.
unfoldable pub emit_byte : ℕ → ℕ → ℕ → Emit
emit_byte phase nextb v =
    if phase == 0
    then record { out = []; nextc = v * 4 }
    else if phase == 1
    then record { out = bit_or nextb (bit_and v 0x30 / 16) % 256 ∷ []; nextc = bit_and v 0x0f * 16 }
    else if phase == 2
    then record { out = bit_or nextb (bit_and v 0x3c / 4) % 256 ∷ []; nextc = bit_and v 0x03 * 64 }
    else record { out = bit_or nextb (bit_and v 0x3f) % 256 ∷ []; nextc = nextb }

-- The loop over the text from position `bx` of the output on; `none` is an illegal character.
unfoldable pub decode_loop :
    (ℕ → Symbol) → (bsize : ℕ) → List ℕ → (state bx nextb : ℕ) → Option (List ℕ)
decode_loop m bsize [] state bx nextb = some []
decode_loop m bsize (c ∷ cs) state bx nextb = elim ((c == 0) || leb bsize bx) [
  | true ↦ some []
  | false ↦ elim (m (c % 256)) [
    | ill ↦ none
    | ign ↦ decode_loop m bsize cs state bx nextb
    | six v ↦
        let s = emit_byte (state % 4) nextb v in
        Option.map (λ r. s.out ++ r)
          (decode_loop m bsize cs (state + 1) (bx + length s.out) s.nextc)
  ]
]

abbrev pub decode_status : Option (List ℕ) → EpStat
decode_status none = stat_error
decode_status (some bin) = stat_from_int (length bin)

-- `ep_b64_decode` into a buffer of `bsize` bytes: the status and the bytes.
unfoldable pub b64_decode : List ℕ → ℕ → Encoding → EpStat × Option (List ℕ)
b64_decode txt bsize e = let r = decode_loop (decode_map e) bsize txt 0 0 0 in (decode_status r, r)
