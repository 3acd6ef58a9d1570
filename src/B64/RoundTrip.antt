-- ===== src/B64/RoundTrip.antt =====
-- Binary that is encoded and decoded again, at every line length and with or without padding.
use gdp.Base.{
  ℕ, suc, ◌+◌, ◌*◌, ◌/◌, ◌%◌, ◌≤◌, ◌<◌, ◌≡◌, refl, arith, ap, ◌∙◌, false, Option, some, List, [],
  ◌∷◌, ◌++◌, length, All, if◌then◌else◌, ltb, bitset, Bool-cases, inl, inr,
}
use gdp.Wire.RoundTrip.{IsByte}
use gdp.Stat.{stat_from_int}
use gdp.B64.{
  Encoding, Emit, encmaxline, b64_pad, line_full, emit, encode_tail, encode_loop, enc_len,
  b64_encode, getenc, decode_loop, emit_byte, b64_decode,
}
use gdp.B64.Alphabet.{IsEncoding}
use gdp.B64.Phases.{emit_zero, emit_one, emit_two, byte_zero, byte_one, byte_two, byte_three}
use gdp.B64.Reads.{reading, read_six, read_line_end, read_pads}

-- The decoder reads back what the encoder puts out for `bin`, from each of the three positions. At
-- the second and third one a byte is begun: `b` is its value.
record Reads (e : Encoding) (bsize : ℕ) (bin : List ℕ) : Type 0 where
  start :
      (bx lx n state dx nextb : ℕ)
      → bx % 3 ≡ 0
      → state % 4 ≡ 0
      → dx + length bin ≤ bsize
      → reading e bsize (encode_loop e bin bx lx n) state dx nextb ≡ some bin
  second :
      (b bx lx state dx : ℕ)
      → b < 256
      → bx % 3 ≡ 1
      → state % 4 ≡ 1
      → suc (dx + length bin) ≤ bsize
      → reading e bsize (encode_loop e bin bx lx (b % 4 * 16)) state dx (b / 4 * 4) ≡ some (b ∷ bin)
  third :
      (b bx lx state dx : ℕ)
      → b < 256
      → bx % 3 ≡ 2
      → state % 4 ≡ 2
      → suc (dx + length bin) ≤ bsize
      → reading e bsize (encode_loop e bin bx lx (b % 16 * 4)) state dx (b / 16 * 16)
        ≡ some (b ∷ bin)

-- A begun byte is finished by the next six bits.
first_six :
    (state n v : ℕ) → state % 4 ≡ 0 → emit_byte (state % 4) n v ≡ record { out = []; nextc = v * 4 }
first_six state n v k = rw k (byte_zero n v)

second_byte :
    (state b v w : ℕ)
    → state % 4 ≡ 1
    → b < 256
    → v < 16
    → w ≡ b % 4 * 16 + v
    → emit_byte (state % 4) (b / 4 * 4) w ≡ record { out = b ∷ []; nextc = v * 16 }
second_byte state b v w k p q e =
    let whole : b / 4 * 4 + b % 4 ≡ b = omega arith in
    let h = byte_one (b / 4) (b % 4) v (omega arith) (omega arith) q in
    rw (k, e) (h ∙ ap (λ (t : ℕ). record { out = t ∷ []; nextc = v * 16 }) whole)

third_byte :
    (state b v w : ℕ)
    → state % 4 ≡ 2
    → b < 256
    → v < 4
    → w ≡ b % 16 * 4 + v
    → emit_byte (state % 4) (b / 16 * 16) w ≡ record { out = b ∷ []; nextc = v * 64 }
third_byte state b v w k p q e =
    let whole : b / 16 * 16 + b % 16 ≡ b = omega arith in
    let h = byte_two (b / 16) (b % 16) v (omega arith) (omega arith) q in
    rw (k, e) (h ∙ ap (λ (t : ℕ). record { out = t ∷ []; nextc = v * 64 }) whole)

fourth_byte :
    (state b : ℕ)
    → state % 4 ≡ 3
    → b < 256
    → emit_byte (state % 4) (b / 64 * 64) (b % 64) ≡ record { out = b ∷ []; nextc = b / 64 * 64 }
fourth_byte state b k p =
    let whole : b / 64 * 64 + b % 64 ≡ b = omega arith in
    let h = byte_three (b / 64) (b % 64) (omega arith) (omega arith) in
    rw k (h ∙ ap (λ (t : ℕ). record { out = t ∷ []; nextc = b / 64 * 64 }) whole)

at_zero :
    (e : Encoding) (bx n b : ℕ)
    → bx % 3 ≡ 0
    → emit e (bx % 3) n b ≡ record { out = getenc (b / 4) e ∷ []; nextc = b % 4 * 16 }
at_zero e bx n b h = rw h (emit_zero e n b)

at_one :
    (e : Encoding) (bx a b : ℕ)
    → bx % 3 ≡ 1
    → a < 4
    → b < 256
    → emit e (bx % 3) (a * 16) b
      ≡ record { out = getenc (a * 16 + b / 16) e ∷ []; nextc = b % 16 * 4 }
at_one e bx a b h p q = rw h (emit_one e a b p q)

at_two :
    (e : Encoding) (bx a b : ℕ)
    → bx % 3 ≡ 2
    → a < 16
    → b < 256
    → emit e (bx % 3) (a * 4) b
      ≡ record { out = getenc (a * 4 + b / 64) e ∷ getenc (b % 64) e ∷ []; nextc = a * 4 + b / 64 }
at_two e bx a b h p q = rw h (emit_two e a b p q)

-- The end of the text: one character and the padding.
module _ (e : Encoding) (ok : IsEncoding e) (bsize : ℕ) where
  read_tail :
      (v : ℕ) (pads : List ℕ) (state dx nextb : ℕ) (b n : ℕ)
      → v < 64
      → dx < bsize
      → All (λ c. c ≡ b'=') pads
      → emit_byte (state % 4) nextb v ≡ record { out = b ∷ []; nextc = n }
      → reading e bsize (getenc v e ∷ (if bitset b64_pad e.flags then pads else [])) state dx nextb
        ≡ some (b ∷ [])
  unfolding decode_loop
  read_tail v pads state dx nextb b n small room all same =
      elim (Bool-cases (bitset b64_pad e.flags)) [
        | inl p ↦ rw p (
            read_six e bsize v pads state dx nextb _ [] ok small room same
              (read_pads e bsize pads (state + 1) (dx + 1) n p all))
        | inr p ↦ rw p (read_six e bsize v [] state dx nextb _ [] ok small room same refl)
      ]

  nil-Reads : Reads e bsize []
  unfolding encode_loop encode_tail decode_loop
  nil-Reads = record {
    start = λ bx lx n state dx nextb h k l. rw h refl;
    second = λ b bx lx state dx small h k l. rw h (
        read_tail (b % 4 * 16) (b'=' ∷ b'=' ∷ []) state dx (b / 4 * 4) b 0 (omega arith)
          (omega arith) (refl, (refl, tt))
          (second_byte state b 0 (b % 4 * 16) k small (omega arith) (omega arith)));
    third = λ b bx lx state dx small h k l. rw h (
        read_tail (b % 16 * 4) (b'=' ∷ []) state dx (b / 16 * 16) b 0 (omega arith) (omega arith)
          (refl, tt) (third_byte state b 0 (b % 16 * 4) k small (omega arith) (omega arith)));
  }

  -- A byte of input: a line end, if one is due, and its characters.
  read_byte :
      (b : ℕ) (bin : List ℕ) (bx lx n state dx nextb : ℕ) (s : Emit) (r : Option (List ℕ))
      → emit e (bx % 3) n b ≡ s
      → dx < bsize
      → ((lx' : ℕ)
          → reading e bsize (s.out ++ encode_loop e bin (bx + 1) lx' s.nextc) state dx nextb ≡ r)
      → reading e bsize (encode_loop e (b ∷ bin) bx lx n) state dx nextb ≡ r
  unfolding encode_loop
  read_byte b bin bx lx n state dx nextb s r same room more =
      read_line_end e bsize lx _ state dx nextb room
      ∙ rw same (more ((if line_full (encmaxline e) lx then 0 else lx) + length s.out))

  cons-Reads : (b : ℕ) (bin : List ℕ) → b < 256 → Reads e bsize bin → Reads e bsize (b ∷ bin)
  cons-Reads b bin small r = record {
    start = λ bx lx n state dx nextb h k l.
        read_byte b bin bx lx n state dx nextb _ _ (at_zero e bx n b h) (omega arith) (λ lx'.
          read_six e bsize (b / 4) _ state dx nextb _ (b ∷ bin) ok (omega arith) (omega arith)
            (first_six state nextb (b / 4) k)
            (r.second b (bx + 1) lx' (state + 1) (dx + 0) small (omega arith) (omega arith)
              (omega arith)));
    second = λ c bx lx state dx p h k l.
        read_byte b bin bx lx (c % 4 * 16) state dx _ _ _
          (at_one e bx (c % 4) b h (omega arith) small) (omega arith)
          (λ lx'.
            read_six e bsize (c % 4 * 16 + b / 16) _ state dx _ _ (b ∷ bin) ok (omega arith)
              (omega arith) (second_byte state c (b / 16) _ k p (omega arith) refl)
              (r.third b (bx + 1) lx' (state + 1) (dx + 1) small (omega arith) (omega arith)
                (omega arith)));
    third = λ c bx lx state dx p h k l.
        read_byte b bin bx lx (c % 16 * 4) state dx _ _ _
          (at_two e bx (c % 16) b h (omega arith) small) (omega arith)
          (λ lx'.
            read_six e bsize (c % 16 * 4 + b / 64) _ state dx _ _ (b ∷ bin) ok (omega arith)
              (omega arith) (third_byte state c (b / 64) _ k p (omega arith) refl)
              (read_six e bsize (b % 64) _ (state + 1) (dx + 1) _ _ bin ok (omega arith)
                (omega arith) (fourth_byte (state + 1) b (omega arith) small)
                (r.start (bx + 1) lx' _ (state + 1 + 1) (dx + 1 + 1) _ (omega arith) (omega arith)
                  (omega arith))));
  }

  reads : (bin : List ℕ) → All IsByte bin → Reads e bsize bin
  reads [] all = nil-Reads
  reads (b ∷ bin) (h, all) = cons-Reads b bin h (reads bin all)

-- Bytes that are encoded into a buffer with room for the length that `ep_b64_enc_len` says and a
-- terminator, and decoded into a buffer with room for them, come back, for every encoding whose
-- two characters are distinct bytes below 128 other than letters, digits, NUL, line ends and the padding
-- character.
pub b64_decode-b64_encode :
    (e : Encoding) (bin : List ℕ) (tsize bsize : ℕ)
    → IsEncoding e
    → All IsByte bin
    → enc_len (length bin) e + 1 ≤ tsize
    → length bin ≤ bsize
    → (txt : List ℕ) × (b64_encode bin tsize e ≡ (stat_from_int (length txt), some txt))
      × (b64_decode txt bsize e ≡ (stat_from_int (length bin), some bin))
unfolding b64_encode b64_decode
b64_decode-b64_encode e bin tsize bsize ok all room fits =
    let fits_text : ltb tsize (enc_len (length bin) e + 1) ≡ false = ground (arith, room) in
    let back = (reads e ok bsize bin all).start 0 0 0 0 0 0 refl refl (omega (arith, fits)) in
    (encode_loop e bin 0 0 0, rw fits_text refl, rw back refl)
