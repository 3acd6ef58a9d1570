-- ===== src/B64/Length.antt =====
-- How long the text is, for encodings that do not wrap lines.
use gdp.Base.{
  ℕ, zero, suc, ◌+◌, ◌*◌, ◌/◌, ◌%◌, ◌^◌, ◌<◌, ◌≡◌, refl, arith, ap, sym, ◌∙◌, Bool, true, false,
  none, List, [], ◌∷◌, ◌++◌, length, length-append, if◌then◌else◌, bitset, Bool-cases, ◌⊎◌, inl,
  inr,
}
use gdp.B64.{Encoding, encmaxline, b64_pad, emit, encode_tail, encode_loop, enc_len}

-- Characters for `n` bytes from position `p` on, and the characters before `p` in its group.
abbrev pub text_size : Bool → ℕ → ℕ
text_size padded n = if padded then (n + 2) / 3 * 4 else (n * 4 + 2) / 3

phases : (p : ℕ) → p < 3 → (p ≡ 0) ⊎ (p ≡ 1) ⊎ (p ≡ 2)
phases zero h = inl refl
phases (suc zero) h = inr (inl refl)
phases (suc (suc zero)) h = inr (inr refl)
phases (suc (suc (suc p))) h = absurd (omega (arith, h))

tail_size :
    (e : Encoding) (p n : ℕ)
    → p < 3
    → length (encode_tail e p n) + p ≡ text_size (bitset b64_pad e.flags) p
unfolding encode_tail
tail_size e p n h = elim (Bool-cases (bitset b64_pad e.flags)) [
  | inl d ↦ elim (phases p h) [
    | inl q ↦ rw (d, q) refl
    | inr (inl q) ↦ rw (d, q) refl
    | inr (inr q) ↦ rw (d, q) refl
  ]
  | inr d ↦ elim (phases p h) [
    | inl q ↦ rw (d, q) refl
    | inr (inl q) ↦ rw (d, q) refl
    | inr (inr q) ↦ rw (d, q) refl
  ]
]

emit_size : (e : Encoding) (p n b : ℕ) → p < 3 → length ((emit e p n b).out) ≡ 1 + p / 2
unfolding emit
emit_size e p n b h = elim (phases p h) [
  | inl q ↦ rw q refl
  | inr (inl q) ↦ rw q refl
  | inr (inr q) ↦ rw q refl
]

-- A byte more, at position `p` of a group of three.
text_size_step :
    (d : Bool) (bx n m : ℕ)
    → m + (bx + 1) % 3 ≡ text_size d ((bx + 1) % 3 + n)
    → (1 + bx % 3 / 2 + m) + bx % 3 ≡ text_size d (bx % 3 + suc n)
text_size_step true bx n m e = omega (arith, e)
text_size_step false bx n m e = omega (arith, e)

loop_size :
    (e : Encoding) (bin : List ℕ) (bx lx n : ℕ)
    → encmaxline e ≡ none
    → length (encode_loop e bin bx lx n) + bx % 3
      ≡ text_size (bitset b64_pad e.flags) (bx % 3 + length bin)
unfolding encode_loop
loop_size e [] bx lx n w =
    let h = tail_size e (bx % 3) n (omega arith) in
    let same : bx % 3 + 0 ≡ bx % 3 = omega arith in rw same h
loop_size e (b ∷ bin) bx lx n w =
    let s = emit e (bx % 3) n b in
    let rest = encode_loop e bin (bx + 1) (lx + length s.out) s.nextc in
    let ih = loop_size e bin (bx + 1) (lx + length s.out) s.nextc w in
    let here = emit_size e (bx % 3) n b (omega arith) in
    let sum : length (s.out ++ rest) ≡ 1 + bx % 3 / 2 + length rest =
      omega (arith, length-append s.out rest, here) in
    rw (w, sum) (text_size_step (bitset b64_pad e.flags) bx (length bin) (length rest) ih)

enc_len_no_wrap :
    (e : Encoding) (n : ℕ)
    → encmaxline e ≡ none
    → n < 2 ^ 62
    → enc_len n e ≡ text_size (bitset b64_pad e.flags) n
unfolding enc_len
enc_len_no_wrap e n w h = elim (Bool-cases (bitset b64_pad e.flags)) [
  | inl d ↦ rw (w, d) (omega (arith, h))
  | inr d ↦ rw (w, d) (omega (arith, h))
]

-- For an encoding that does not wrap lines, the text of fewer than 2^62 bytes is as long as
-- `ep_b64_enc_len` says: four characters for every three bytes begun with padding, and without it only
-- as many as carry bits.
pub length-encode_loop :
    (e : Encoding) (bin : List ℕ)
    → encmaxline e ≡ none
    → length bin < 2 ^ 62
    → (length (encode_loop e bin 0 0 0) ≡ enc_len (length bin) e)
      × (enc_len (length bin) e ≡ text_size (bitset b64_pad e.flags) (length bin))
length-encode_loop e bin w h =
    let d = bitset b64_pad e.flags in
    let size : length (encode_loop e bin 0 0 0) + 0 ≡ text_size d (0 + length bin) =
      loop_size e bin 0 0 0 w in
    let said = enc_len_no_wrap e (length bin) w h in
    let from_zero : text_size d (0 + length bin) ≡ text_size d (length bin) =
      ap (text_size d) (omega arith) in
    let whole : length (encode_loop e bin 0 0 0) ≡ length (encode_loop e bin 0 0 0) + 0 =
      omega arith in
    (whole ∙ size ∙ from_zero ∙ sym said, said)
