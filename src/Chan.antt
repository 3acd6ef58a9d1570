-- ===== src/Chan.antt =====
-- Channels to the routing layer (gdp/gdp_chan.h, gdp/gdp_chan.c): the packet header, the read
-- callback and the sender.
use gdp.Base.{
  ℕ, zero, suc, ◌+◌, ◌*◌, ◌/◌, ◌^◌, Bool, true, false, not, Option, none, some, List, [], ◌++◌,
  ◌>>=◌, length, take, drop, if◌then◌else◌, ltb, leb, ◌==◌, bit_and,
}
use gdp.Wire.{put8, put16, put32, get8, get16, get32}
use gdp.Stat.{
  EpStat, stat_ok, stat_error, stat_is_ok, stat_from_int, not_implemented, pdu_write_fail,
  pdu_version_mismatch, keep_reading, dead_daemon, pdu_corrupt, pdu_too_long, nak_noroute,
}
pub mod Loop
pub mod Send
pub mod Frames
pub mod Delivery
pub mod Bounds
pub mod Stuck
pub mod Output
pub mod EndToEnd
use mathlib.Core.Option
use gdp.Buf.{Buffers}

abbrev pub proto_version : ℕ
proto_version = 4

abbrev pub min_header_length : ℕ
min_header_length = 76

abbrev pub ttl_default : ℕ
ttl_default = 15

abbrev pub addr_type_mask : ℕ
addr_type_mask = 0x07

abbrev pub type_mask : ℕ
type_mask = 0xe0

abbrev pub type_advertise : ℕ
type_advertise = 0x40

abbrev pub type_withdraw : ℕ
type_withdraw = 0x60

abbrev pub type_nak_noroute : ℕ
type_nak_noroute = 0x80

-- The header's octets, read in order.
pub record Fields : Type 0 where
  pub ver : ℕ
  pub hdr_octet : ℕ
  pub flags : ℕ
  pub ttl : ℕ
  pub seq_mf_foff : ℕ
  pub frag_len : ℕ
  pub payload_len : ℕ
  pub dst : List ℕ
  pub src : List ℕ

-- A name of 32 bytes, copied from the front.
unfoldable pub get_name : List ℕ → Option (List ℕ × List ℕ)
get_name pb = if ltb (length pb) 32 then none else some (take 32 pb, drop 32 pb)

-- `none` is a read past the bytes that `pb` points to.
unfoldable pub get_fields : List ℕ → Option Fields
get_fields pb = get8 pb >>= λ (v, r1). get8 r1 >>= λ (h, r2). get8 r2 >>= λ (f, r3).
    get8 r3 >>= λ (t, r4). get32 r4 >>= λ (s, r5). get16 r5 >>= λ (l, r6). get16 r6 >>= λ (p, r7).
    get_name r7 >>= λ (d, r8). get_name r8 >>= λ (c, r9). some record {
      ver = v;
      hdr_octet = h;
      flags = f;
      ttl = t;
      seq_mf_foff = s;
      frag_len = l;
      payload_len = p;
      dst = d;
      src = c;
    }

-- The variables of the caller that `read_header` writes through its pointers.
pub record Cursor : Type 0 where
  pub src : List ℕ
  pub dst : List ℕ
  pub seqno : ℕ
  pub plen : ℕ

module _ (B : Buffers) where
  pub record Outcome : Type 0 where
    pub stat : EpStat
    pub ibuf : B.Buf
    pub cur : Cursor

  -- The code at `done` with an error status.
  abbrev pub fail_draining : B.Buf → Cursor → EpStat → ℕ → Outcome
  fail_draining ibuf cur stat n = record {
    stat = stat;
    ibuf = B.drain ibuf n;
    cur = record cur { plen = 0 };
  }

  -- A header with two full addresses, which have been copied to `cur`.
  unfoldable pub judge_type : Fields → ℕ → B.Buf → Cursor → Outcome
  judge_type f hdr_len ibuf cur =
      let kind = bit_and f.flags type_mask in
      if kind == type_nak_noroute
      then fail_draining ibuf cur nak_noroute (hdr_len + f.payload_len)
      else if not (kind == 0)
      then fail_draining ibuf cur pdu_corrupt (hdr_len + f.payload_len)
      else if ltb (B.getlength ibuf) (hdr_len + f.payload_len)
      then record { stat = keep_reading; ibuf = ibuf; cur = cur }
      else record {
        stat = stat_from_int f.payload_len;
        ibuf = B.drain ibuf hdr_len;
        cur = record cur { seqno = bit_and (f.seq_mf_foff / 2 ^ 16) 0x7fff; plen = f.payload_len };
      }

  unfoldable pub judge_header : Fields → B.Buf → Cursor → Outcome
  judge_header f ibuf cur =
      let hdr_len = bit_and f.hdr_octet 0x3f * 4 in
      if not (f.ver == proto_version)
      then record {
        stat = pdu_version_mismatch;
        ibuf = B.drain ibuf (B.getlength ibuf);
        cur = record cur { plen = 0 };
      }
      else if ltb hdr_len min_header_length
      then fail_draining ibuf cur pdu_corrupt (hdr_len + 0)
      else if ltb (B.getlength ibuf) hdr_len
      then record { stat = keep_reading; ibuf = ibuf; cur = cur }
      else if bit_and f.flags addr_type_mask == 0
      then judge_type f hdr_len ibuf (record cur { src = f.src; dst = f.dst })
      else fail_draining ibuf cur pdu_corrupt (hdr_len + f.payload_len)

  -- `read_header`; `none` is a read past the header that is in memory.
  unfoldable pub read_header : B.Buf → Cursor → Option Outcome
  read_header ibuf cur = elim (B.getptr ibuf min_header_length) [
    | none ↦ some (fail_draining ibuf cur keep_reading 0)
    | some pb ↦ Option.map (λ f. judge_header f ibuf cur) (get_fields pb)
  ]
