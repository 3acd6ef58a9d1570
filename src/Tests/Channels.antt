-- ===== src/Tests/Channels.antt =====
-- Two packets on a channel whose receiver counts bytes.
use gdp.Chan.EndToEnd.{Sending, IsSending, AllOk, last_bev, chan_read_cb-sends}
use gdp.Base.{
  ℕ, ◌≡◌, refl, arith, sym, ◌∙◌, true, none, some, List, [], ◌∷◌, ◌++◌, take, drop, replicate,
}
use gdp.Stat.{EpStat, stat_ok, stat_is_ok}
use gdp.Buf.Bytes.{byte_buffers}
use gdp.Chan.{Cursor, Outcome, read_header}
use gdp.Chan.Send.{build_header, write_rest, write_payload, send_helper}
use gdp.Chan.Loop.{Callbacks, chan_read_cb}
use gdp.Chan.Delivery.{Packet, IsPacket, stream, IsReceiver, chan_read_cb-stream}
use gdp.Chan.Bounds.{IsSound, read_header-IsSound}
use gdp.Chan.Stuck.{chan_read_cb_stuck}

abbrev cursor : Cursor
cursor = record { src = []; dst = []; seqno = 0; plen = 0 }

abbrev name_a : List ℕ
name_a = replicate 32 1

abbrev name_b : List ℕ
name_b = replicate 32 2

abbrev received :
    List ℕ → (src dst : List ℕ) → (seqno : ℕ) → List ℕ → (plen : ℕ) → EpStat × List ℕ × List ℕ
received w src dst seqno b plen = (stat_ok, w ++ take plen b, drop plen b)

abbrev routed : List ℕ → (src dst : List ℕ) → (plen : ℕ) → EpStat → EpStat × List ℕ
routed w src dst plen s = (s, w)

abbrev callbacks : Callbacks byte_buffers
callbacks = record { W = List ℕ; router_cb = some routed; recv_cb = some received }

abbrev delivered : List ℕ → (src dst payload : List ℕ) → List ℕ
delivered w src dst payload = w ++ payload

received-IsReceiver : IsReceiver byte_buffers callbacks received delivered
received-IsReceiver = record {
  kept = λ w src dst seqno b plen. refl;
  drained = λ w src dst seqno b plen. refl;
}

abbrev packet : Packet
packet = record { src = name_a; dst = name_b; payload = 5 ∷ 6 ∷ []; tos = 8 }

packet-IsPacket : IsPacket packet
packet-IsPacket = record {
  src_name = refl;
  dst_name = refl;
  short = omega arith;
  octet = omega arith;
  full = refl;
  regular = refl;
}

chan_read_cb-stream_example :
    (cur' : Cursor) × (ibuf' : List ℕ) × (chan_read_cb byte_buffers callbacks 3 [] cursor
        (stream (packet ∷ packet ∷ []) ++ (4 ∷ []))
      ≡ some (5 ∷ 6 ∷ 5 ∷ 6 ∷ [], cur', ibuf'))
    × (ibuf' ≡ 4 ∷ [])
chan_read_cb-stream_example =
    chan_read_cb-stream byte_buffers callbacks received delivered (packet ∷ packet ∷ []) 3 [] cursor
      (stream (packet ∷ packet ∷ []) ++ (4 ∷ [])) (4 ∷ []) received-IsReceiver refl
      (packet-IsPacket, (packet-IsPacket, tt)) (omega arith) (omega arith) refl

read_header-IsSound_example :
    (o : Outcome byte_buffers) × (read_header byte_buffers (4 ∷ 19 ∷ replicate 80 0) cursor
      ≡ some o)
    × IsSound byte_buffers (4 ∷ 19 ∷ replicate 80 0) o
read_header-IsSound_example = read_header-IsSound byte_buffers (4 ∷ 19 ∷ replicate 80 0) cursor

chan_read_cb_stuck_example :
    chan_read_cb byte_buffers callbacks 100 [] cursor (4 ∷ 0 ∷ replicate 80 0) ≡ none
chan_read_cb_stuck_example =
    chan_read_cb_stuck byte_buffers callbacks routed 100 [] cursor (4 ∷ 0 ∷ replicate 80 0) 0
      (replicate 80 0) refl (λ w src dst s. refl) refl (omega arith) refl

sent_ok :
    stat_is_ok (send_helper byte_buffers (some []) name_a name_b (some (5 ∷ [])) 0).stat ≡ true
unfolding send_helper write_rest write_payload
sent_ok = refl

abbrev sending : Sending byte_buffers
sending = record { src = name_a; dst = name_b; payload = some (5 ∷ 6 ∷ []); tos = 8 }

sending-IsSending : IsSending byte_buffers sending
sending-IsSending = record {
  src_name = refl;
  dst_name = refl;
  octet = omega arith;
  full = refl;
  regular = refl;
}

abbrev wire : List ℕ
wire = build_header name_a name_b 2 8 ++ (5 ∷ 6 ∷ [])

sending_ok : AllOk byte_buffers (some []) (sending ∷ [])
unfolding send_helper write_rest write_payload
sending_ok = (refl, tt)

sent_wire : last_bev byte_buffers (some []) (sending ∷ []) ≡ some wire
unfolding send_helper write_rest write_payload
sent_wire = refl

wire_arrived : (v' : List ℕ) → last_bev byte_buffers (some []) (sending ∷ []) ≡ some v' → wire ≡ v'
wire_arrived v' e = let both : some wire ≡ some v' = sym sent_wire ∙ e in cc both

chan_read_cb-sends_example :
    (cur' : Cursor) × (ibuf' : List ℕ) × (chan_read_cb byte_buffers callbacks 2 [] cursor wire
      ≡ some (5 ∷ 6 ∷ [], cur', ibuf'))
    × (ibuf' ≡ [])
chan_read_cb-sends_example =
    chan_read_cb-sends byte_buffers callbacks received delivered [] (sending ∷ []) [] cursor wire
      received-IsReceiver refl (sending-IsSending, tt) refl sending_ok wire_arrived
