-- ===== src/Chan/Loop.antt =====
-- `chan_read_cb` of gdp/gdp_chan.c: packets are read and handed on while a whole header is there.
use gdp.Base.{ℕ, zero, suc, true, false, Option, none, some, List, ◌>>=◌, if◌then◌else◌, leb, ◌==◌}
use gdp.Stat.{EpStat, stat_is_ok, not_implemented, keep_reading}
use gdp.Buf.{Buffers}
use gdp.Chan.{Cursor, read_header, min_header_length}

module _ (B : Buffers) where
  -- The channel's callbacks, which may be NULL; `W` is what they keep.
  pub record Callbacks : Type 1 where
    pub W : Type 0
    pub router_cb : Option (W → (src dst : List ℕ) → (plen : ℕ) → EpStat → EpStat × W)
    pub recv_cb :
        Option (W → (src dst : List ℕ) → (seqno : ℕ) → B.Buf → (plen : ℕ) → EpStat × W × B.Buf)

  module _ (C : Callbacks) where
    -- A routing error goes to the router callback.
    unfoldable pub route_error : C.W → Cursor → EpStat → B.Buf → EpStat × C.W × B.Buf
    route_error w cur estat ibuf = elim C.router_cb [
      | some cb ↦ let (s, w') = cb w cur.src cur.dst cur.plen estat in (s, w', ibuf)
      | none ↦ (not_implemented, w, B.drain ibuf cur.plen)
    ]

    unfoldable pub receive : C.W → Cursor → B.Buf → EpStat × C.W × B.Buf
    receive w cur ibuf = elim C.recv_cb [
      | some cb ↦ cb w cur.src cur.dst cur.seqno ibuf cur.plen
      | none ↦ (not_implemented, w, B.drain ibuf cur.plen)
    ]

    -- The two tests after `read_header`; the status that remains is only printed.
    unfoldable pub dispatch : C.W → Cursor → EpStat → B.Buf → C.W × B.Buf
    dispatch w cur estat ibuf =
        let routed = if stat_is_ok estat then (estat, w, ibuf) else route_error w cur estat ibuf in
        if stat_is_ok (routed.0)
        then (let r = receive (routed.1) cur (routed.2) in (r.1, r.2))
        else (routed.1, routed.2)

    -- `none` is a run out of fuel, or a read out of bounds.
    unfoldable pub chan_read_cb : ℕ → C.W → Cursor → B.Buf → Option (C.W × Cursor × B.Buf)
    chan_read_cb zero w cur ibuf = none
    chan_read_cb (suc fuel) w cur ibuf = elim (leb min_header_length (B.getlength ibuf)) [
      | false ↦ some (w, cur, ibuf)
      | true ↦ read_header B ibuf cur >>= λ o. elim (o.stat == keep_reading) [
        | true ↦ some (w, o.cur, o.ibuf)
        | false ↦ let d = dispatch w o.cur o.stat o.ibuf in chan_read_cb fuel (d.0) o.cur (d.1)
      ]
    ]
