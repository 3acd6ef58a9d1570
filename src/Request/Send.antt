-- ===== src/Request/Send.antt =====
-- Requests that are sent, taken back, and found again (gdp/gdp_req.c).
use gdp.Base.{
  ℕ, Bool, true, false, not, ◌||◌, Option, none, some, List, [], ◌∷◌, if◌then◌else◌, ◌==◌, bitset,
  bit_and, bit_or,
}
use gdp.Cache.{gobf_inuse}
use gdp.Cache.Steps.{has, list_remove}
use gdp.Request.{
  Request, Requests, req_free_state, req_active, req_persist, req_asyncio, req_on_gob_list,
  pdu_any_rid, update_req, adjust_req, update_list, req_has,
}

-- `_gdp_req_send`, less the sending, and whether the request is in use.
unfoldable pub req_send : Requests → ℕ → Requests × Bool
req_send w req =
    let w1 = adjust_req req (λ r. record r { flags = bit_and r.flags 0xfffffffd }) w in
    if (w.reqs req).state == req_free_state then (w, false) else elim (w.reqs req).gob [
      | none ↦ (w1, true)
      | some gob ↦
          if not (req_has req_on_gob_list w1 req)
          then (
            record w1 {
              gob_reqs = update_list gob (req ∷ w1.gob_reqs gob) w1.gob_reqs;
              reqs =
                  update_req req (λ r. record r { flags = bit_or r.flags req_on_gob_list }) w1.reqs;
            },
            true,
          )
          else (w1, true)
    ]

-- `LIST_REMOVE` from the list of an object, and the flag for it.
unfoldable pub unlink_gob : Requests → ℕ → ℕ → Requests
unlink_gob w gob req = record w {
  gob_reqs = update_list gob (list_remove req (w.gob_reqs gob)) w.gob_reqs;
  reqs = update_req req (λ r. record r { flags = bit_and r.flags 0xffffff7f }) w.reqs;
}

-- `_gdp_req_unsend` for a request that is on the list of its object, if it has one, and whether it came
-- to its end.
unfoldable pub req_unsend : Requests → ℕ → Requests × Bool
req_unsend w req =
    if (w.reqs req).state == req_free_state
    then (w, false)
    else elim (w.reqs req).gob [ none ↦ (w, false) | some gob ↦ (unlink_gob w gob req, true) ]

-- The callers' own assignment to the state of a request in use.
abbrev pub set_req_state : ℕ → (state : ℕ) → Requests → Requests
set_req_state req state w = adjust_req req (λ r. record r { state = state }) w

-- The callers' own assignment to the flags of a request in use, which leaves those for the lists.
abbrev pub set_req_flags : ℕ → (flags : ℕ) → Requests → Requests
set_req_flags req flags w = adjust_req req (λ r. record r { flags = flags }) w

-- What a search for a request comes to: a request, nothing, a wait for one that is active, or one that is
-- free, which the loop leaves and comes to again.
pub data Found : Type 0 where
  found : ℕ → Found
  nothing : Found
  waits : ℕ → Found
  ignores : ℕ → Found

-- The first request of a list, all of which are in use, whose command has the identifier.
unfoldable pub with_rid : (ℕ → Request) → (rid : ℕ) → List ℕ → Option ℕ
with_rid reqs rid [] = none
with_rid reqs rid (r ∷ rs) =
    let rest = with_rid reqs rid rs in
    elim (reqs r).rid [
      | none ↦ rest
      | some own ↦ if (rid == pdu_any_rid) || (own == rid) then some r else rest
    ]

-- `_gdp_req_find`, up to its first wait.
unfoldable pub req_find : Requests → (gob rid : ℕ) → Requests × Found
req_find w gob rid =
    if not (has gobf_inuse w.handles.cache gob)
    then (w, nothing)
    else (elim (with_rid w.reqs rid (w.gob_reqs gob)) [
      | none ↦ (w, nothing)
      | some req ↦
          if (w.reqs req).state == req_free_state
          then (w, ignores req)
          else if (w.reqs req).state == req_active
          then (w, waits req)
          else if not (bitset (bit_or req_persist req_asyncio) (w.reqs req).flags)
          then (unlink_gob w gob req, found req)
          else (w, found req)
    ])
