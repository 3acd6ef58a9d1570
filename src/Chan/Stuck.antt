-- ===== src/Chan/Stuck.antt =====
-- `chan_read_cb` on a packet whose header says that its length is 0.
use gdp.Base.{
  ℕ, zero, suc, ◌≤◌, ◌≡◌, refl, arith, ap, sym, ◌∙◌, true, false, none, some, List, ◌∷◌, ◌>>=◌, ltb,
  leb, bit_and, length, take, length-take,
}
use gdp.Wire.{get8}
use gdp.Stat.{EpStat, stat_is_ok, pdu_corrupt}
use gdp.Buf.{Buffers}
use gdp.Chan.{Fields, get_fields, Cursor, fail_draining, judge_header, read_header}
use gdp.Chan.Loop.{Callbacks, route_error, dispatch, chan_read_cb}
use gdp.Chan.Bounds.{get_fields_long}
use gdp.Wire.Sizes.{get8_cons}

-- Headers are told apart by their first two octets.
read_zero :
    (t : List ℕ) (a h : ℕ)
    → 74 ≤ length t
    → (f : Fields) × (get_fields (a ∷ h ∷ t) ≡ some f) × (f.ver ≡ a) × (f.hdr_octet ≡ h)
read_zero t a h long =
    let (f, r, r', e, first, second) = get_fields_long (a ∷ h ∷ t) (omega (arith, long)) in
    let at_first : some (f.ver, r) ≡ some (a, h ∷ t) = sym first ∙ get8_cons a (h ∷ t) in
    let rest : r ≡ h ∷ t = cc (at_first) in
    let at_second : some (f.hdr_octet, r') ≡ some (h, t) =
      sym second ∙ (ap get8 rest ∙ get8_cons h t) in
    (f, e, cc (at_first), cc (at_second))

module _ (B : Buffers) where
  -- Such a packet is refused, and nothing is drained.
  read_header_zero :
      (ibuf : B.Buf) (cur : Cursor) (h : ℕ) (rest : List ℕ)
      → B.contents ibuf ≡ 4 ∷ h ∷ rest
      → 74 ≤ length rest
      → bit_and h 0x3f ≡ 0
      → read_header B ibuf cur ≡ some (fail_draining B ibuf cur pdu_corrupt 0)
  unfolding read_header judge_header
  read_header_zero ibuf cur h rest e long zero_length =
      let enough : ltb (length (B.contents ibuf)) 76 ≡ false = rw e (ground (arith, long)) in
      let front : take 76 (B.contents ibuf) ≡ 4 ∷ h ∷ take 74 rest = rw e refl in
      let (f, parsed, ver, octet) =
        read_zero (take 74 rest) 4 h (omega (arith, long, length-take 74 rest)) in
      rw (read_header, B.getptr_lem ibuf 76, enough, front, parsed, ver, octet, zero_length) refl

  module _ (C : Callbacks B) where
    dispatch_refused :
        (cb : C.W → (src dst : List ℕ) → (plen : ℕ) → EpStat → EpStat × C.W) (w : C.W) (c : Cursor)
        (s : EpStat) (b : B.Buf)
        → C.router_cb ≡ some cb
        → stat_is_ok s ≡ false
        → (cb w c.src c.dst c.plen s).0 ≡ s
        → dispatch B C w c s b ≡ ((cb w c.src c.dst c.plen s).1, b)
    unfolding dispatch route_error
    dispatch_refused cb w c s b set bad same = rw bad (rw (set, same, bad) refl)

    -- When at least 76 bytes are there, the packet at the front has the right version and a
    -- header length of 0, and the router callback gives back the status that it is given, as
    -- `_gdp_router_event` does, `chan_read_cb` never comes to an end: no amount of fuel gives a
    -- result.
    pub chan_read_cb_stuck :
        (cb : C.W → (src dst : List ℕ) → (plen : ℕ) → EpStat → EpStat × C.W) (fuel : ℕ) (w : C.W)
        (cur : Cursor) (ibuf : B.Buf) (h : ℕ) (rest : List ℕ)
        → C.router_cb ≡ some cb
        → ((w' : C.W) (src dst : List ℕ) (s : EpStat) → (cb w' src dst 0 s).0 ≡ s)
        → B.contents ibuf ≡ 4 ∷ h ∷ rest
        → 74 ≤ length rest
        → bit_and h 0x3f ≡ 0
        → chan_read_cb B C fuel w cur ibuf ≡ none
    unfolding chan_read_cb
    chan_read_cb_stuck cb zero w cur ibuf h rest set back e long z = refl
    chan_read_cb_stuck cb (suc fuel) w cur ibuf h rest set back e long z =
        let enough : leb 76 (B.getlength ibuf) ≡ true =
          rw (B.getlength_lem ibuf, e) (ground (arith, long)) in
        let read = read_header_zero ibuf cur h rest e long z in
        let cur' : Cursor = record cur { plen = 0 } in
        let w' : C.W = (cb w cur.src cur.dst 0 pdu_corrupt).1 in
        let ih =
          chan_read_cb_stuck cb fuel w' cur' (B.drain ibuf 0) h rest set back
            (B.drain_lem ibuf 0 ∙ e) long z in
        let s = back w cur.src cur.dst pdu_corrupt in
        let d = dispatch_refused cb w cur' pdu_corrupt (B.drain ibuf 0) set refl s in
        rw (chan_read_cb, enough, read, ◌>>=◌, d) ih
