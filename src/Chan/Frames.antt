-- ===== src/Chan/Frames.antt =====
-- The packets of `send_helper`, read back by `read_header`.
use gdp.Base.{
  ℕ, ◌+◌, ◌<◌, ◌≡◌, refl, arith, ap, sym, ◌∙◌, false, some, List, [], ◌++◌, ltb, bit_and, length,
  take, drop, length-append, take_front, drop_front, append-nil,
}
use gdp.Wire.RoundTrip.{get8-put8, get16-put16, get32-put32, put8_bytes, put16_bytes, put32_bytes}
use gdp.Stat.{stat_from_int}
use gdp.Buf.{Buffers}
use gdp.Chan.{
  Fields, get_name, get_fields, Cursor, Outcome, judge_type, judge_header, read_header,
  addr_type_mask, type_mask,
}
use gdp.Chan.Send.{build_header}

-- A name of the routing layer.
abbrev pub IsName : List ℕ → Type 0
IsName n = length n ≡ 32

get_name_front : (d r : List ℕ) → IsName d → get_name (d ++ r) ≡ some (d, r)
unfolding get_name
get_name_front d r h =
    let long : ltb (length (d ++ r)) 32 ≡ false = ground (arith, length-append d r) in
    let front : take 32 (d ++ r) ≡ d = rw (sym h) (take_front d r) in
    let back : drop 32 (d ++ r) ≡ r = rw (sym h) (drop_front d r) in rw (long, front, back) refl

get_name_all : (d : List ℕ) → IsName d → get_name d ≡ some (d, [])
get_name_all d h = ap get_name (sym (append-nil d)) ∙ get_name_front d [] h

-- What a header says that `build_header` made.
abbrev pub sent_fields : (src dst : List ℕ) → (payload_len tos : ℕ) → Fields
sent_fields src dst payload_len tos = record {
  ver = 4;
  hdr_octet = 19;
  flags = tos;
  ttl = 15;
  seq_mf_foff = 0;
  frag_len = 0;
  payload_len = payload_len;
  dst = dst;
  src = src;
}

pub get_fields-build_header :
    (src dst : List ℕ) (payload_len tos : ℕ)
    → IsName src
    → IsName dst
    → payload_len < 65536
    → tos < 256
    → get_fields (build_header src dst payload_len tos) ≡ some (sent_fields src dst payload_len tos)
unfolding get_fields build_header
get_fields-build_header src dst n tos hs hd hn ht =
    rw
      (
        get8-put8 4 _ (omega arith),
        get8-put8 19 _ (omega arith),
        get8-put8 tos _ ht,
        get8-put8 15 _ (omega arith),
        get32-put32 0 _ (omega arith),
        get16-put16 0 _ (omega arith),
        get16-put16 n _ hn,
        get_name_front dst src hd,
        get_name_all src hs,
      )
      refl

pub length-build_header :
    (src dst : List ℕ) (payload_len tos : ℕ)
    → IsName src
    → IsName dst
    → length (build_header src dst payload_len tos) ≡ 76
unfolding build_header
length-build_header src dst n tos hs hd =
    rw
      (
        put8_bytes 4,
        put8_bytes 19,
        put8_bytes tos,
        put8_bytes 15,
        put32_bytes 0,
        put16_bytes 0,
        put16_bytes n,
      )
      (omega (arith, length-append dst src))

module _ (B : Buffers) where
  -- A packet with a header that `send_helper` builds, for names of 32 bytes, a payload of fewer
  -- than 65536 bytes, and the flags of two full addresses and of the regular type, is read
  -- whatever follows it: the status is the length of the payload, the header is gone, the payload
  -- is at the front, and the names are those sent.
  pub read_header-build_header :
      (ibuf : B.Buf) (cur : Cursor) (src dst payload more : List ℕ) (tos : ℕ)
      → IsName src
      → IsName dst
      → length payload < 65536
      → tos < 256
      → bit_and tos addr_type_mask ≡ 0
      → bit_and tos type_mask ≡ 0
      → B.contents ibuf ≡ build_header src dst (length payload) tos ++ (payload ++ more)
      → (o : Outcome B) × (read_header B ibuf cur ≡ some o)
        × (o.stat ≡ stat_from_int (length payload))
        × (o.cur ≡ record { src = src; dst = dst; seqno = 0; plen = length payload })
        × (B.contents o.ibuf ≡ payload ++ more)
  unfolding read_header judge_header judge_type
  read_header-build_header ibuf cur src dst payload more tos hs hd hp ht ha hk e =
      let hdr = build_header src dst (length payload) tos in
      let size : length hdr ≡ 76 = length-build_header src dst (length payload) tos hs hd in
      let all : length (B.contents ibuf) ≡ 76 + (length payload + length more) =
        rw e
          (omega (arith, size, length-append hdr (payload ++ more), length-append payload more)) in
      let short : ltb (length (B.contents ibuf)) 76 ≡ false = ground (arith, all) in
      let whole : ltb (length (B.contents ibuf)) (76 + length payload) ≡ false =
        ground (arith, all) in
      let front : take 76 (B.contents ibuf) ≡ hdr =
        rw (e, sym size) (take_front hdr (payload ++ more)) in
      let back : drop 76 (B.contents ibuf) ≡ payload ++ more =
        rw (e, sym size) (drop_front hdr (payload ++ more)) in
      let parsed = get_fields-build_header src dst (length payload) tos hs hd hp ht in
      (
        record {
          stat = stat_from_int (length payload);
          ibuf = B.drain ibuf 76;
          cur = record { src = src; dst = dst; seqno = 0; plen = length payload };
        },
        rw
            (
              read_header,
              B.getptr_lem ibuf 76,
              short,
              front,
              parsed,
              ha,
              hk,
              B.getlength_lem ibuf,
              short,
              whole,
            )
            refl,
        refl,
        refl,
        B.drain_lem ibuf 76 ∙ back,
      )
