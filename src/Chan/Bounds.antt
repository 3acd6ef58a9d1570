-- ===== src/Chan/Bounds.antt =====
-- `read_header` on any bytes: it reads no byte that is not there, and what it leaves behind.
use gdp.Base.{
  ℕ, ◌+◌, ◌*◌, ◌≤◌, ◌≡◌, refl, arith, ◌⊎◌, inl, inr, false, some, List, ltb, ◌==◌, bit_and, length,
  take, drop, length-take, length-drop, Bool-cases,
}
use gdp.Wire.{get8}
use gdp.Wire.Sizes.{get8_long, get16_long, get32_long}
use gdp.Stat.{stat_is_ok, stat_from_int, keep_reading}
use gdp.Buf.{Buffers}
use gdp.Chan.{
  Fields, get_name, get_fields, Cursor, Outcome, fail_draining, judge_type, judge_header,
  read_header, proto_version, min_header_length, addr_type_mask, type_mask, type_nak_noroute,
}

get_name_long :
    (xs : List ℕ) (n : ℕ)
    → 32 + n ≤ length xs
    → (get_name xs ≡ some (take 32 xs, drop 32 xs)) × (n ≤ length (drop 32 xs))
unfolding get_name
get_name_long xs n h =
    let long : ltb (length xs) 32 ≡ false = ground (arith, h) in
    (rw long refl, omega (arith, h, length-drop 32 xs))

-- A header of the least length has all its fields.
pub get_fields_long :
    (pb : List ℕ)
    → 76 ≤ length pb
    → (f : Fields) × (r r' : List ℕ) × (get_fields pb ≡ some f)
      × (get8 pb ≡ some (f.ver, r))
      × (get8 r ≡ some (f.hdr_octet, r'))
unfolding get_fields
get_fields_long pb h =
    let (v, r1, e1, h1) = get8_long pb 75 h in
    let (o, r2, e2, h2) = get8_long r1 74 h1 in
    let (f, r3, e3, h3) = get8_long r2 73 h2 in
    let (t, r4, e4, h4) = get8_long r3 72 h3 in
    let (s, r5, e5, h5) = get32_long r4 68 h4 in
    let (l, r6, e6, h6) = get16_long r5 66 h5 in
    let (p, r7, e7, h7) = get16_long r6 64 h6 in
    let (e8, h8) = get_name_long r7 32 h7 in
    let (e9, h9) = get_name_long (drop 32 r7) 0 h8 in
    let all : Fields = record {
      ver = v;
      hdr_octet = o;
      flags = f;
      ttl = t;
      seq_mf_foff = s;
      frag_len = l;
      payload_len = p;
      dst = take 32 r7;
      src = take 32 (drop 32 r7);
    } in
    (all, r1, r2, rw (e1, e2, e3, e4, e5, e6, e7, e8, e9) refl, e1, e2)

take_enough : (n : ℕ) (xs : List ℕ) → ltb (length xs) n ≡ false → n ≤ length (take n xs)
take_enough n xs h =
    let long : n ≤ length xs = ground (arith, h) in omega (arith, long, length-take n xs)

module _ (B : Buffers) where
  -- What one call leaves: everything, to be read again when more has come; a payload that is there in
  -- full, behind a header of at least 76 bytes that is gone; or, on an error, no payload to pass on.
  abbrev pub IsSound : B.Buf → Outcome B → Type 0
  IsSound ibuf o =
      ((o.stat ≡ keep_reading) × (B.contents o.ibuf ≡ B.contents ibuf))
      ⊎ ((o.stat ≡ stat_from_int o.cur.plen)
          × (o.cur.plen ≤ length (B.contents o.ibuf))
          × (h : ℕ) × (76 ≤ h)
          × (B.contents o.ibuf ≡ drop h (B.contents ibuf)))
      ⊎ ((stat_is_ok o.stat ≡ false)
          × (o.cur.plen ≡ 0)
          × (n : ℕ) × (B.contents o.ibuf ≡ drop n (B.contents ibuf)))

  judge_type-IsSound :
      (f : Fields) (h : ℕ) (ibuf : B.Buf) (cur : Cursor)
      → 76 ≤ h
      → IsSound ibuf (judge_type B f h ibuf cur)
  unfolding judge_type
  judge_type-IsSound f h ibuf cur long =
      elim (Bool-cases (bit_and f.flags type_mask == type_nak_noroute)) [
        | inl k ↦
            rw k (inr (inr (refl, refl, h + f.payload_len, B.drain_lem ibuf (h + f.payload_len))))
        | inr k ↦ elim (Bool-cases (bit_and f.flags type_mask == 0)) [
          | inr z ↦
              rw (k, z)
                (inr (inr (refl, refl, h + f.payload_len, B.drain_lem ibuf (h + f.payload_len))))
          | inl z ↦ elim (Bool-cases (ltb (B.getlength ibuf) (h + f.payload_len))) [
            | inl w ↦ rw (k, z, w) (inl (refl, refl))
            | inr w ↦
                let left = B.drain_lem ibuf h in
                let room : f.payload_len ≤ length (B.contents (B.drain ibuf h)) =
                  rw left
                    (ground (arith, w, B.getlength_lem ibuf, length-drop h (B.contents ibuf))) in
                rw (k, z, w) (inr (inl (refl, room, h, long, left)))
          ]
        ]
      ]

  judge_header-IsSound :
      (f : Fields) (ibuf : B.Buf) (cur : Cursor) → IsSound ibuf (judge_header B f ibuf cur)
  unfolding judge_header
  judge_header-IsSound f ibuf cur =
      let h = bit_and f.hdr_octet 0x3f * 4 in
      elim (Bool-cases (f.ver == proto_version)) [
        | inr v ↦
            rw v (inr (inr (refl, refl, B.getlength ibuf, B.drain_lem ibuf (B.getlength ibuf))))
        | inl v ↦ elim (Bool-cases (ltb h min_header_length)) [
          | inl s ↦ rw (v, s) (inr (inr (refl, refl, h + 0, B.drain_lem ibuf (h + 0))))
          | inr s ↦ elim (Bool-cases (ltb (B.getlength ibuf) h)) [
            | inl w ↦ rw (v, s, w) (inl (refl, refl))
            | inr w ↦ elim (Bool-cases (bit_and f.flags addr_type_mask == 0)) [
              | inl a ↦
                  rw (v, s, w, a)
                    (judge_type-IsSound f h ibuf (record cur { src = f.src; dst = f.dst })
                      (ground (arith, s)))
              | inr a ↦
                  rw (v, s, w, a)
                    (inr
                      (inr (refl, refl, h + f.payload_len, B.drain_lem ibuf (h + f.payload_len))))
            ]
          ]
        ]
      ]

  -- On any buffer `read_header` reads no byte past the 76 that it asked for, and its outcome is one of
  -- three: more input is asked for and the buffer is as it was; the status is the length of a payload
  -- that is in the buffer in full, behind a header of at least 76 bytes that is gone; or the status is
  -- not OK, the payload length passed on is 0, and the buffer has lost some number of bytes at its
  -- front, which can be none.
  pub read_header-IsSound :
      (ibuf : B.Buf) (cur : Cursor)
      → (o : Outcome B) × (read_header B ibuf cur ≡ some o) × IsSound ibuf o
  unfolding read_header
  read_header-IsSound ibuf cur = elim (Bool-cases (ltb (length (B.contents ibuf)) 76)) [
    | inl s ↦ (
      fail_draining B ibuf cur keep_reading 0,
      rw (read_header, B.getptr_lem ibuf 76, s) refl,
      inl (refl, B.drain_lem ibuf 0),
    )
    | inr s ↦
        let (f, r, r', e, _, _) =
          get_fields_long (take 76 (B.contents ibuf)) (take_enough 76 (B.contents ibuf) s) in
        (
          judge_header B f ibuf cur,
          rw (read_header, B.getptr_lem ibuf 76, s, e) refl,
          judge_header-IsSound f ibuf cur,
        )
  ]
