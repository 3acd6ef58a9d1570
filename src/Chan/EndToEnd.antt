-- ===== src/Chan/EndToEnd.antt =====
-- A sender and a receiver: what a sequence of sends puts on the socket, read by `chan_read_cb`.
use gdp.Base.{
  ℕ, suc, ◌<◌, ◌≡◌, refl, arith, ap, sym, ◌∙◌, true, Option, some, List, [], ◌∷◌, ◌++◌, length, All,
  append_assoc, append-nil, bit_and,
}
use gdp.Stat.{EpStat, stat_is_ok}
use gdp.Buf.{Buffers}
use gdp.Chan.{Cursor, addr_type_mask, type_mask}
use gdp.Chan.Send.{Sent, send_helper}
use gdp.Chan.Loop.{Callbacks, chan_read_cb}
use gdp.Chan.Frames.{IsName}
use gdp.Chan.Delivery.{
  Packet, IsPacket, packet_bytes, stream, IsReceiver, deliver_all, chan_read_cb-stream,
}
use gdp.Chan.Output.{payload_bytes, send_helper-output}

module _ (B : Buffers) where
  -- The arguments of a send.
  pub record Sending : Type 0 where
    pub src : List ℕ
    pub dst : List ℕ
    pub payload : Option B.Buf
    pub tos : ℕ

  abbrev pub packet_of : Sending → Packet
  packet_of s = record {
    src = s.src;
    dst = s.dst;
    payload = payload_bytes B s.payload;
    tos = s.tos;
  }

  abbrev pub packets_of : List Sending → List Packet
  packets_of [] = []
  packets_of (s ∷ ss) = packet_of s ∷ packets_of ss

  abbrev pub run : Option B.Bev → Sending → Sent B
  run bev s = send_helper B bev s.src s.dst s.payload s.tos

  -- Every send in turn returns OK, and the socket after the last one.
  abbrev pub AllOk : Option B.Bev → List Sending → Type 0
  AllOk bev [] = Unit
  AllOk bev (s ∷ ss) = (stat_is_ok (run bev s).stat ≡ true) × AllOk (run bev s).bev ss

  abbrev pub last_bev : Option B.Bev → List Sending → Option B.Bev
  last_bev bev [] = bev
  last_bev bev (s ∷ ss) = last_bev (run bev s).bev ss

  -- Names of 32 bytes, and the flags of a regular packet with two full addresses.
  pub record IsSending (s : Sending) : Type 0 where
    pub src_name : IsName s.src
    pub dst_name : IsName s.dst
    pub octet : s.tos < 256
    pub full : bit_and s.tos addr_type_mask ≡ 0
    pub regular : bit_and s.tos type_mask ≡ 0

  sends-output :
      (v : B.Bev) (ss : List Sending)
      → All IsSending ss
      → AllOk (some v) ss
      → (v' : B.Bev) × (last_bev (some v) ss ≡ some v')
        × (B.output v' ≡ B.output v ++ stream (packets_of ss))
        × All IsPacket (packets_of ss)
        × (length (packets_of ss) ≡ length ss)
  sends-output v [] h ok = (v, refl, sym (append-nil (B.output v)), tt, refl)
  sends-output v (s ∷ ss) (h, hs) (ok, oks) =
      let (v₁, at, short, out) = send_helper-output B v s.src s.dst s.payload s.tos ok in
      let (v₂, last, outs, good, size) = sends-output v₁ ss hs (rw at at oks) in
      let here : IsPacket (packet_of s) = record {
        src_name = h.src_name;
        dst_name = h.dst_name;
        short = omega (arith, short);
        octet = h.octet;
        full = h.full;
        regular = h.regular;
      } in
      (
        v₂,
        ap (λ (b : Option B.Bev). last_bev b ss) at ∙ last,
        outs
            ∙ ap (λ (x : List ℕ). x ++ stream (packets_of ss)) out
            ∙ append_assoc (B.output v) (packet_bytes (packet_of s)) (stream (packets_of ss)),
        (here, good),
        ap suc size,
      )

  module _ (C : Callbacks B)
      (cb : C.W → (src dst : List ℕ) → (seqno : ℕ) → B.Buf → (plen : ℕ) → EpStat × C.W × B.Buf)
      (deliver : C.W → (src dst payload : List ℕ) → C.W) where
    -- When a sequence of sends of regular packets on a fresh socket all return OK, and a receiver that
    -- consumes its payloads finds what the socket put out in its input buffer, then `chan_read_cb` comes
    -- to an end with an empty buffer, and the receiver was given the names and the payload of every send,
    -- in order and once.
    pub chan_read_cb-sends :
        (v : B.Bev) (ss : List Sending) (w : C.W) (cur : Cursor) (ibuf : B.Buf)
        → IsReceiver B C cb deliver
        → C.recv_cb ≡ some cb
        → All IsSending ss
        → B.output v ≡ []
        → AllOk (some v) ss
        → ((v' : B.Bev) → last_bev (some v) ss ≡ some v' → B.contents ibuf ≡ B.output v')
        → (cur' : Cursor) × (ibuf' : B.Buf) × (chan_read_cb B C (suc (length ss)) w cur ibuf
            ≡ some (deliver_all B C cb deliver w (packets_of ss), cur', ibuf'))
          × (B.contents ibuf' ≡ [])
    chan_read_cb-sends v ss w cur ibuf good set hs fresh oks arrived =
        let (v', last, out, packets, size) = sends-output v ss hs oks in
        let input : B.contents ibuf ≡ stream (packets_of ss) ++ [] =
          arrived v' last
          ∙ (out
              ∙ (ap (λ (x : List ℕ). x ++ stream (packets_of ss)) fresh
                  ∙ sym (append-nil (stream (packets_of ss))))) in
        chan_read_cb-stream B C cb deliver (packets_of ss) (suc (length ss)) w cur ibuf [] good set
          packets (omega (arith, size)) (omega arith) input
