-- ===== src/Chan/Delivery.antt =====
-- `chan_read_cb` on a stream of packets.
use gdp.Base.{
  ℕ, zero, suc, ◌<◌, ◌≡◌, refl, arith, ap, ◌∙◌, true, false, some, List, [], ◌∷◌, ◌++◌, ◌>>=◌, leb,
  ◌==◌, ==_iff, bit_and, length, take, drop, All, length-append, take_front, drop_front,
  append_assoc, Bool-cases, inl, inr,
}
use gdp.Stat.{EpStat, stat_is_ok, keep_reading}
use gdp.Stat.Fields.{stat_from_int-is_ok}
use gdp.Buf.{Buffers}
use gdp.Chan.{Cursor, Outcome, read_header, addr_type_mask, type_mask}
use gdp.Chan.Send.{build_header}
use gdp.Chan.Loop.{Callbacks, dispatch, receive, chan_read_cb}
use gdp.Chan.Frames.{IsName, read_header-build_header, length-build_header}

pub record Packet : Type 0 where
  pub src : List ℕ
  pub dst : List ℕ
  pub payload : List ℕ
  pub tos : ℕ

-- A regular packet with two full addresses, as `_gdp_chan_send` is given it.
pub record IsPacket (p : Packet) : Type 0 where
  pub src_name : IsName p.src
  pub dst_name : IsName p.dst
  pub short : length p.payload < 65536
  pub octet : p.tos < 256
  pub full : bit_and p.tos addr_type_mask ≡ 0
  pub regular : bit_and p.tos type_mask ≡ 0

abbrev pub packet_bytes : Packet → List ℕ
packet_bytes p = build_header p.src p.dst (length p.payload) p.tos ++ p.payload

abbrev pub stream : List Packet → List ℕ
stream [] = []
stream (p ∷ ps) = packet_bytes p ++ stream ps

-- A status that is OK is not the one that asks for more input.
ok_goes_on : (s : EpStat) → stat_is_ok s ≡ true → (s == keep_reading) ≡ false
ok_goes_on s ok = elim (Bool-cases (s == keep_reading)) [
  | inl e ↦
      let same : s ≡ keep_reading = (==_iff s keep_reading).0 e in
      let warns : stat_is_ok s ≡ false = rw same refl in absurd (cc (ok, warns))
  | inr e ↦ e
]

module _ (B : Buffers) (C : Callbacks B) where
  -- What the receive callback does with a payload, where it is known to consume it: `deliver`.
  pub record IsReceiver
      (cb : C.W → (src dst : List ℕ) → (seqno : ℕ) → B.Buf → (plen : ℕ) → EpStat × C.W × B.Buf)
      (deliver : C.W → (src dst payload : List ℕ) → C.W) : Type 0 where
    pub kept :
        (w : C.W) (src dst : List ℕ) (seqno : ℕ) (b : B.Buf) (plen : ℕ)
        → (cb w src dst seqno b plen).1 ≡ deliver w src dst (take plen (B.contents b))
    pub drained :
        (w : C.W) (src dst : List ℕ) (seqno : ℕ) (b : B.Buf) (plen : ℕ)
        → B.contents ((cb w src dst seqno b plen).2) ≡ drop plen (B.contents b)

  module _ (cb : C.W → (src dst : List ℕ) → (seqno : ℕ) → B.Buf → (plen : ℕ) → EpStat × C.W × B.Buf)
      (deliver : C.W → (src dst payload : List ℕ) → C.W) where
    abbrev pub deliver_all : C.W → List Packet → C.W
    deliver_all w [] = w
    deliver_all w (p ∷ ps) = deliver_all (deliver w p.src p.dst p.payload) ps

    dispatch_ok :
        (w : C.W) (c : Cursor) (s : EpStat) (b : B.Buf)
        → C.recv_cb ≡ some cb
        → stat_is_ok s ≡ true
        → dispatch B C w c s b ≡ (let r = cb w c.src c.dst c.seqno b c.plen in (r.1, r.2))
    unfolding dispatch receive
    dispatch_ok w c s b set ok = rw ok (rw ok (rw set refl))

    -- A packet that is read is passed to the callback.
    read_step :
        (fuel : ℕ) (w : C.W) (cur c : Cursor) (ibuf : B.Buf) (o : Outcome B)
        → C.recv_cb ≡ some cb
        → leb 76 (B.getlength ibuf) ≡ true
        → read_header B ibuf cur ≡ some o
        → stat_is_ok o.stat ≡ true
        → o.cur ≡ c
        → chan_read_cb B C (suc fuel) w cur ibuf
          ≡ (let r = cb w c.src c.dst c.seqno o.ibuf c.plen in chan_read_cb B C fuel (r.1) c (r.2))
    unfolding chan_read_cb
    read_step fuel w cur c ibuf o set long read ok at =
        let d = dispatch_ok w o.cur o.stat o.ibuf set ok in
        rw (chan_read_cb, long, read, ◌>>=◌, ok_goes_on o.stat ok, d, at) refl

    -- When the input is the bytes of regular packets with two full addresses, followed by fewer bytes
    -- than a header has, and the receive callback consumes the payload that it is told of, then
    -- `chan_read_cb` comes to an end, with more fuel than packets: the callback was given every packet's
    -- names and payload, in order and once, and what follows the last packet is left in the buffer.
    pub chan_read_cb-stream :
        (ps : List Packet) (fuel : ℕ) (w : C.W) (cur : Cursor) (ibuf : B.Buf) (rest : List ℕ)
        → IsReceiver cb deliver
        → C.recv_cb ≡ some cb
        → All IsPacket ps
        → length ps < fuel
        → length rest < 76
        → B.contents ibuf ≡ stream ps ++ rest
        → (cur' : Cursor) × (ibuf' : B.Buf) × (chan_read_cb B C fuel w cur ibuf
            ≡ some (deliver_all w ps, cur', ibuf'))
          × (B.contents ibuf' ≡ rest)
    unfolding chan_read_cb
    chan_read_cb-stream ps zero w cur ibuf rest good set all enough short e =
        absurd (omega (arith, enough))
    chan_read_cb-stream [] (suc fuel) w cur ibuf rest good set all enough short e =
        let n : leb 76 (B.getlength ibuf) ≡ false =
          rw (B.getlength_lem ibuf, e) (ground (arith, short)) in
        (cur, ibuf, rw (chan_read_cb, n) refl, e)
    chan_read_cb-stream (p ∷ ps) (suc fuel) w cur ibuf rest good set (h, all) enough short e =
        let hdr = build_header p.src p.dst (length p.payload) p.tos in
        let split : B.contents ibuf ≡ hdr ++ (p.payload ++ (stream ps ++ rest)) =
          e
          ∙ append_assoc (hdr ++ p.payload) (stream ps) rest
          ∙ append_assoc hdr p.payload (stream ps ++ rest) in
        let size : length hdr ≡ 76 =
          length-build_header p.src p.dst (length p.payload) p.tos h.src_name h.dst_name in
        let n : leb 76 (B.getlength ibuf) ≡ true =
          rw (B.getlength_lem ibuf, split)
            (ground (arith, size, length-append hdr (p.payload ++ (stream ps ++ rest)))) in
        let (o, read, stat, at, left) =
          read_header-build_header B ibuf cur p.src p.dst p.payload (stream ps ++ rest) p.tos
            h.src_name h.dst_name h.short h.octet h.full h.regular split in
        let ok : stat_is_ok o.stat ≡ true = rw stat (
          (stat_from_int-is_ok (length p.payload) (omega (arith, h.short))).1.1
            (omega (arith, h.short))) in
        let c : Cursor = record { src = p.src; dst = p.dst; seqno = 0; plen = length p.payload } in
        let next : B.Buf = (cb w p.src p.dst 0 o.ibuf (length p.payload)).2 in
        let w' : C.W = (cb w p.src p.dst 0 o.ibuf (length p.payload)).1 in
        let after : B.contents next ≡ stream ps ++ rest =
          good.drained w p.src p.dst 0 o.ibuf (length p.payload)
          ∙ rw left (drop_front p.payload (stream ps ++ rest)) in
        let given : w' ≡ deliver w p.src p.dst p.payload =
          good.kept w p.src p.dst 0 o.ibuf (length p.payload)
          ∙ ap (deliver w p.src p.dst) (rw left (take_front p.payload (stream ps ++ rest))) in
        let (cur', ibuf', run, end) =
          chan_read_cb-stream ps fuel w' c next rest good set all (omega (arith, enough)) short
            after in
        (
          cur',
          ibuf',
          read_step fuel w cur c ibuf o set n read ok at
              ∙ run
              ∙ ap (λ (x : C.W). some (deliver_all x ps, cur', ibuf')) given,
          end,
        )
