-- ===== src/B64/Reads.antt =====
-- The decoder's loop run on what the encoder's loop puts out.
use mathlib.Core.Option
use gdp.Base.{
  ℕ, ◌+◌, ◌%◌, ◌<◌, ◌≡◌, refl, arith, ◌∙◌, true, false, Option, some, List, [], ◌∷◌, ◌++◌, length,
  All, if◌then◌else◌, leb, ◌==◌, bitset, bit_and, Bool-cases, inl, inr,
}
use gdp.B64.{
  Encoding, Emit, encmaxline, wrapmask, b64_pad, line_full, getenc, ign, decode_map, emit_byte,
  decode_loop,
}
use gdp.B64.Alphabet.{IsEncoding, getenc-IsChar}

-- The decoder for `e` with `bsize` bytes of room.
abbrev pub reading : Encoding → ℕ → List ℕ → (state bx nextb : ℕ) → Option (List ℕ)
reading e bsize = decode_loop (decode_map e) bsize

full_at : (bsize bx : ℕ) → bx < bsize → leb bsize bx ≡ false
full_at bsize bx h = ground arith

-- A character for six bits.
read_char :
    (e : Encoding) (bsize v : ℕ) (cs : List ℕ) (state bx nextb : ℕ)
    → IsEncoding e
    → v < 64
    → bx < bsize
    → reading e bsize (getenc v e ∷ cs) state bx nextb
      ≡ Option.map
          (λ r. (emit_byte (state % 4) nextb v).out ++ r)
          (reading e bsize cs
            (state + 1)
            (bx + length ((emit_byte (state % 4) nextb v).out))
            ((emit_byte (state % 4) nextb v).nextc))
unfolding decode_loop
read_char e bsize v cs state bx nextb ok small room =
    let c = getenc-IsChar e v ok small in
    rw (decode_loop, c.goes_on, full_at bsize bx room, c.means) refl

-- A character for six bits, when it is known what is put out.
pub read_six :
    (e : Encoding) (bsize v : ℕ) (cs : List ℕ) (state bx nextb : ℕ) (s : Emit) (rest : List ℕ)
    → IsEncoding e
    → v < 64
    → bx < bsize
    → emit_byte (state % 4) nextb v ≡ s
    → reading e bsize cs (state + 1) (bx + length s.out) s.nextc ≡ some rest
    → reading e bsize (getenc v e ∷ cs) state bx nextb ≡ some (s.out ++ rest)
read_six e bsize v cs state bx nextb s rest ok small room same more =
    let h = read_char e bsize v cs state bx nextb ok small room in rw (h, same, more) refl

read_ign :
    (e : Encoding) (bsize c : ℕ) (cs : List ℕ) (state bx nextb : ℕ)
    → (c == 0) ≡ false
    → decode_map e (c % 256) ≡ ign
    → bx < bsize
    → reading e bsize (c ∷ cs) state bx nextb ≡ reading e bsize cs state bx nextb
unfolding decode_loop
read_ign e bsize c cs state bx nextb goes_on means room =
    rw (decode_loop, goes_on, full_at bsize bx room, means) refl

-- Line ends mean nothing to the decoder of an encoding that wraps lines.
line_end_ign :
    (e : Encoding)
    → (bit_and e.flags wrapmask == 0) ≡ false
    → (decode_map e 13 ≡ ign) × (decode_map e 10 ≡ ign)
unfolding decode_map
line_end_ign e w = elim (Bool-cases (bitset b64_pad e.flags)) [
  | inl p ↦ (rw (p, w) refl, rw (p, w) refl)
  | inr p ↦ (rw (p, w) refl, rw (p, w) refl)
]

full_wraps :
    (e : Encoding) (lx : ℕ)
    → line_full (encmaxline e) lx ≡ true
    → (bit_and e.flags wrapmask == 0) ≡ false
unfolding encmaxline
full_wraps e lx h = ground arith

-- The line end before a character.
pub read_line_end :
    (e : Encoding) (bsize lx : ℕ) (cs : List ℕ) (state bx nextb : ℕ)
    → bx < bsize
    → reading e bsize
        ((if line_full (encmaxline e) lx then 13 ∷ 10 ∷ [] else []) ++ cs)
        state
        bx
        nextb
      ≡ reading e bsize cs state bx nextb
read_line_end e bsize lx cs state bx nextb room = elim (Bool-cases (line_full (encmaxline e) lx)) [
  | inl f ↦
      let (cr, lf) = line_end_ign e (full_wraps e lx f) in
      rw f (
        read_ign e bsize 13 (10 ∷ cs) state bx nextb refl cr room
        ∙ read_ign e bsize 10 cs state bx nextb refl lf room)
  | inr f ↦ rw f refl
]

pad_ign : (e : Encoding) → bitset b64_pad e.flags ≡ true → decode_map e b'=' ≡ ign
unfolding decode_map
pad_ign e p = rw p refl

-- Padding, with the output buffer full or not.
pub read_pads :
    (e : Encoding) (bsize : ℕ) (pads : List ℕ) (state bx nextb : ℕ)
    → bitset b64_pad e.flags ≡ true
    → All (λ c. c ≡ b'=') pads
    → reading e bsize pads state bx nextb ≡ some []
unfolding decode_loop
read_pads e bsize [] state bx nextb p all = refl
read_pads e bsize (c ∷ cs) state bx nextb p (h, all) = elim (Bool-cases (leb bsize bx)) [
  | inl f ↦ rw (h, decode_loop, f) refl
  | inr f ↦ rw h (
      read_ign e bsize b'=' cs state bx nextb refl (pad_ign e p) (ground arith)
      ∙ read_pads e bsize cs state bx nextb p all)
]
