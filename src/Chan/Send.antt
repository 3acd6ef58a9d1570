-- ===== src/Chan/Send.antt =====
-- `send_helper`, `_gdp_chan_send`, `_gdp_chan_advertise` and `_gdp_chan_withdraw` of gdp/gdp_chan.c.
use gdp.Base.{ℕ, ◌*◌, ◌/◌, ◌^◌, Option, none, some, List, ◌++◌, if◌then◌else◌, ltb, bit_and}
use gdp.Wire.{put8, put16, put32}
use gdp.Stat.{EpStat, stat_ok, pdu_write_fail, dead_daemon, pdu_too_long}
use gdp.Buf.{Buffers}
use gdp.Chan.{proto_version, min_header_length, ttl_default, type_advertise, type_withdraw}

-- The header built in memory; the sequence number is always 0.
unfoldable pub build_header : (src dst : List ℕ) → (payload_len tos : ℕ) → List ℕ
build_header src dst payload_len tos =
    put8 proto_version
    ++ (put8 (min_header_length / 4)
        ++ (put8 tos
            ++ (put8 ttl_default
                ++ (put32 (bit_and 0 0x7fff * 2 ^ 16)
                    ++ (put16 0 ++ (put16 payload_len ++ (dst ++ src)))))))

module _ (B : Buffers) where
  -- What a send returns, and the socket and the payload after it.
  pub record Sent : Type 0 where
    pub stat : EpStat
    pub bev : Option B.Bev
    pub payload : Option B.Buf

  abbrev pub payload_length : Option B.Buf → ℕ
  payload_length none = 0
  payload_length (some p) = B.getlength p

  -- The payload, when it has bytes.
  unfoldable pub write_payload : B.Bev → B.Buf → Sent
  write_payload v p =
      if ltb 0 (B.getlength p)
      then elim (B.write_buffer v p) [
        | none ↦ record { stat = pdu_write_fail; bev = some v; payload = some p }
        | some r ↦ record { stat = stat_ok; bev = some (r.0); payload = some (r.1) }
      ]
      else record { stat = stat_ok; bev = some v; payload = some p }

  unfoldable pub write_rest : B.Bev → Option B.Buf → Sent
  write_rest v none = record { stat = stat_ok; bev = some v; payload = none }
  write_rest v (some p) = write_payload v p

  -- `send_helper` on a channel with the socket `bev`.
  unfoldable pub send_helper : Option B.Bev → (src dst : List ℕ) → Option B.Buf → (tos : ℕ) → Sent
  send_helper none src dst payload tos = record {
    stat = dead_daemon;
    bev = none;
    payload = payload;
  }
  send_helper (some v) src dst payload tos =
      if ltb 65535 (payload_length payload)
      then record { stat = pdu_too_long; bev = some v; payload = payload }
      else elim (B.write v (build_header src dst (payload_length payload) tos)) [
        | none ↦ record { stat = pdu_write_fail; bev = some v; payload = payload }
        | some v' ↦ write_rest v' payload
      ]

  -- `_gdp_chan_send`
  abbrev pub chan_send : Option B.Bev → (src dst : List ℕ) → Option B.Buf → (tos : ℕ) → Sent
  chan_send bev src dst payload tos = send_helper bev src dst payload tos

  -- The advertiser sends from the routing name of this process.
  unfoldable pub chan_advertise : Option B.Bev → (my_routing_name gname : List ℕ) → Sent
  chan_advertise bev my_routing_name gname =
      send_helper bev my_routing_name gname none type_advertise

  unfoldable pub chan_withdraw : Option B.Bev → (my_routing_name gname : List ℕ) → Sent
  chan_withdraw bev my_routing_name gname = send_helper bev my_routing_name gname none type_withdraw
