-- ===== src/Request/Find.antt =====
-- The request that an answer belongs to (`_gdp_req_find` of gdp/gdp_req.c), and its identifier.
use gdp.Base.{
  ℕ, suc, ◌<◌, ◌≡◌, refl, arith, sym, ap, ◌∙◌, true, false, ◌||◌, Option, none, some, List, [], ◌∷◌,
  All, ◌==◌, if◌then◌else◌, ==_iff, ==_self, bitset, bit_and, bit_or, bitset-and, Bool-cases,
  Option-cases, inl, inr,
}
use gdp.Cache.{gobf_inuse}
use gdp.Cache.Steps.{has}
use gdp.Cache.Steps.Invariant.{IsOther, every}
use gdp.Gobs.Sound.{among}
use gdp.Request.{
  Request, Requests, pdu_any_rid, rid_new, req_has, req_active, req_persist, req_asyncio,
  req_free_state, update_req, update_list, adjust_req, req_on_gob_list,
}
use gdp.Request.Send.{found, with_rid, req_find, req_send, set_req_state}
use gdp.Request.Steps.{on_gob, at_head, IsConsistent, IsIdle, unlink_gob-IsConsistent}

-- A new identifier is not 0, the one for none, nor the one for any, and it is one more than the last
-- one unless that is the last identifier, after which they start at 100 again.
pub rid_new_bounds :
    (max_rid : ℕ)
    → max_rid < pdu_any_rid
    → (0 < rid_new max_rid)
      × (rid_new max_rid < pdu_any_rid)
      × (rid_new max_rid ≡ (if suc max_rid == pdu_any_rid then 100 else suc max_rid))
unfolding rid_new
rid_new_bounds max_rid h = (ground arith, ground arith, ground arith)

-- What a search of a list finds is on the list and has the identifier, where not just any will do.
with_rid-among :
    (reqs : ℕ → Request) (rid req : ℕ) (rs : List ℕ)
    → with_rid reqs rid rs ≡ some req
    → among req rs ≡ true
unfolding with_rid among
with_rid-among reqs rid req [] e = absurd (cc e)
with_rid-among reqs rid req (r ∷ rs) e = elim (Option-cases (reqs r).rid) [
  | inl n ↦ ground (arith, with_rid-among reqs rid req rs (sym (rw (with_rid, n) refl) ∙ e))
  | inr (own, o) ↦ elim (Bool-cases ((rid == pdu_any_rid) || (own == rid))) [
    | inl m ↦
        let both : some r ≡ some req = sym (rw (with_rid, o, m) refl) ∙ e in
        let same : r ≡ req = cc both in rw (same, ==_self req) refl
    | inr m ↦ ground (arith, with_rid-among reqs rid req rs (sym (rw (with_rid, o, m) refl) ∙ e))
  ]
]

at_head-some : (o : Option ℕ) (h : ℕ) → at_head o h ≡ true → o ≡ some h
at_head-some none h e = absurd (cc e)
at_head-some (some g) h e = let same : h ≡ g = (==_iff h g).0 e in rw same refl

-- A request on the list of an object has the object, and is not free.
pub listed :
    (w : Requests) (gob req : ℕ)
    → IsConsistent w
    → among req (w.gob_reqs gob) ≡ true
    → All (IsOther req) w.free_reqs × ((w.reqs req).gob ≡ some gob)
listed w gob req ok m =
    let on : on_gob (w.reqs req) gob ≡ true = sym (ok.gobs.members gob req) ∙ m in
    let flag : bitset req_on_gob_list (w.reqs req).flags ≡ true = ground (arith, on) in
    let head : at_head (w.reqs req).gob gob ≡ true = ground (arith, on) in
    (
      every (λ (r : ℕ). IsIdle (w.reqs r)) _ w.free_reqs
          (λ r h. elim (Bool-cases (r == req)) [
            | inr p ↦ p
            | inl p ↦
                let same : r ≡ req = (==_iff r req).0 p in
                let free : (w.reqs req).flags ≡ 0 = rw (sym same) h.1 in
                let off : bitset req_on_gob_list (w.reqs req).flags ≡ false = rw free refl in
                absurd (cc (flag, off))
          ])
          ok.idle,
      at_head-some (w.reqs req).gob gob head,
    )

-- The lists and the flags of the requests agree after a search, up to its first wait.
pub req_find-IsConsistent :
    (w : Requests) (gob rid : ℕ) → IsConsistent w → IsConsistent (req_find w gob rid).0
unfolding req_find
req_find-IsConsistent w gob rid ok = elim (Bool-cases (has gobf_inuse w.handles.cache gob)) [
  | inr g ↦ rw (req_find, g) ok
  | inl g ↦ elim (Option-cases (with_rid w.reqs rid (w.gob_reqs gob))) [
    | inl n ↦ rw (req_find, g, n) ok
    | inr (req, e) ↦ elim (Bool-cases ((w.reqs req).state == req_free_state)) [
      | inl u ↦ rw (req_find, g, e, u) ok
      | inr u ↦ elim (Bool-cases ((w.reqs req).state == req_active)) [
        | inl a ↦ rw (req_find, g, e, u, a) ok
        | inr a ↦ elim (Bool-cases (bitset (bit_or req_persist req_asyncio) (w.reqs req).flags)) [
          | inl p ↦ rw (req_find, g, e, u, a, p) ok
          | inr p ↦
              let (away, own) =
                listed w gob req ok (with_rid-among w.reqs rid req (w.gob_reqs gob) e) in
              rw (req_find, g, e, u, a, p) (unlink_gob-IsConsistent w gob req ok away own).0
        ]
      ]
    ]
  ]
]

-- A request at the head of the list of its object, as `_gdp_req_send` leaves it.
abbrev linked : Requests → (req gob : ℕ) → Requests
linked w req gob =
    let w1 = adjust_req req (λ r. record r { flags = bit_and r.flags 0xfffffffd }) w in
    record w1 {
      gob_reqs = update_list gob (req ∷ w1.gob_reqs gob) w1.gob_reqs;
      reqs = update_req req (λ r. record r { flags = bit_or r.flags req_on_gob_list }) w1.reqs;
    }

-- What the search comes to for a request that is neither free nor active.
answered :
    (w : Requests) (req gob rid : ℕ)
    → has gobf_inuse w.handles.cache gob ≡ true
    → with_rid w.reqs rid (w.gob_reqs gob) ≡ some req
    → ((w.reqs req).state == req_free_state) ≡ false
    → ((w.reqs req).state == req_active) ≡ false
    → (req_find w gob rid).1 ≡ found req
unfolding req_find
answered w req gob rid g e u a =
    elim (Bool-cases (bitset (bit_or req_persist req_asyncio) (w.reqs req).flags)) [
      | inl p ↦ rw (req_find, g, e, u, a, p) refl
      | inr p ↦ rw (req_find, g, e, u, a, p) refl
    ]

-- A request in use with an object in use and an identifier, not on the list of its object, is sent, and gets
-- a state other than free and active: then a search of the object for the identifier finds this request,
-- whichever others have the same identifier.
pub req_find-req_send :
    (w : Requests) (req gob rid state : ℕ)
    → ((w.reqs req).state == req_free_state) ≡ false
    → (w.reqs req).gob ≡ some gob
    → (w.reqs req).rid ≡ some rid
    → req_has req_on_gob_list w req ≡ false
    → has gobf_inuse w.handles.cache gob ≡ true
    → (state == req_free_state) ≡ false
    → (state == req_active) ≡ false
    → (req_find (set_req_state req state (req_send w req).0) gob rid).1 ≡ found req
unfolding req_find req_send with_rid
req_find-req_send w req gob rid state u own has_rid off live f s =
    let x = (w.reqs req).flags in
    let off1 : bitset req_on_gob_list (bit_and x 0xfffffffd) ≡ false =
      ground (arith, off, bitset-and 7 x 0xfffffffd) in
    let sent : (req_send w req).0 ≡ linked w req gob =
      rw (req_send, u, own, ==_self req, off1) refl in
    let there : with_rid (set_req_state req state (linked w req gob)).reqs rid
          ((linked w req gob).gob_reqs gob)
        ≡ some req =
      rw (==_self gob, with_rid, ==_self req, has_rid, ==_self rid) (ground arith) in
    ap (λ v. (req_find (set_req_state req state v) gob rid).1) sent
    ∙ answered (set_req_state req state (linked w req gob)) req gob rid live there
        (rw (==_self req) f) (rw (==_self req) s)
