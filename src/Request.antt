-- ===== src/Request.antt =====
-- Requests (gdp/gdp_req.c): each is on the list of its object while an answer is awaited, and on that of
-- its channel. A request is its address; the list of an object or a channel is found by its address.
pub mod Sound
pub mod Steps
pub mod Freed
pub mod Released
pub mod Find
pub mod Send
pub mod Free
pub mod New
pub mod Runs
use gdp.Base.{
  ℕ, zero, suc, ◌+◌, ◌-◌, ◌%◌, ◌^◌, Bool, true, false, not, ◌&&◌, ◌||◌, Option, none, some, List,
  [], ◌∷◌, if◌then◌else◌, ◌==◌, bitset, bit_and, bit_or, length, drop,
}
use gdp.Cache.Steps.{has, gobf_islocked, list_remove}
use gdp.Gobs.{Handles, gob_incref, gob_decref}
use gdp.Time.{TimeSpec}
use gdp.Event.{Queues, Req}
use gdp.Event.Queue.{trigger_pending}

abbrev pub req_free_state : ℕ
req_free_state = 0

abbrev pub req_active : ℕ
req_active = 1

abbrev pub req_asyncio : ℕ
req_asyncio = 0x01

abbrev pub req_done : ℕ
req_done = 0x02

abbrev pub req_persist : ℕ
req_persist = 0x10

abbrev pub req_alloc_rid : ℕ
req_alloc_rid = 0x40

abbrev pub req_on_gob_list : ℕ
req_on_gob_list = 0x80

abbrev pub req_on_chan_list : ℕ
req_on_chan_list = 0x100

abbrev pub pdu_any_rid : ℕ
pdu_any_rid = 0xffffffff

-- `struct gdp_req`; `rid` is that of the command, where there is one, and the last three members are
-- those of its events.
pub record Request : Type 0 where
  pub state : ℕ
  pub flags : ℕ
  pub gob : Option ℕ
  pub chan : Option ℕ
  pub rid : Option ℕ
  pub gin : Option ℕ
  pub events : List ℕ
  pub seqnext : ℕ
  pub ev_to : Option (ℕ × Bool)

-- The requests with their lists, `ReqFreeList`, `NReqsAllocated` and `MaxRid`, the objects and the
-- events.
pub record Requests : Type 0 where
  pub handles : Handles
  pub queues : Queues
  pub reqs : ℕ → Request
  pub gob_reqs : ℕ → List ℕ
  pub chan_reqs : ℕ → List ℕ
  pub free_reqs : List ℕ
  pub n_reqs_allocated : ℕ
  pub max_rid : ℕ

abbrev pub update_req : ℕ → (Request → Request) → (ℕ → Request) → ℕ → Request
update_req req f st r = if r == req then f (st r) else st r

abbrev pub adjust_req : ℕ → (Request → Request) → Requests → Requests
adjust_req req f w = record w { reqs = update_req req f w.reqs }

-- A list head that is given another list.
abbrev pub update_list : ℕ → List ℕ → (ℕ → List ℕ) → ℕ → List ℕ
update_list head list lists h = if h == head then list else lists h

abbrev pub req_has : ℕ → Requests → ℕ → Bool
req_has flag w req = bitset flag (w.reqs req).flags

-- `_gdp_rid_new`: the new value of `MaxRid`, which is the identifier.
unfoldable pub rid_new : (max_rid : ℕ) → ℕ
rid_new max_rid = let next = (max_rid + 1) % 2 ^ 32 in if next == pdu_any_rid then 100 else next

-- The first request of the free list, where it passes the checks.
unfoldable pub req_candidate : (ℕ → Request) → List ℕ → Option ℕ
req_candidate reqs [] = none
req_candidate reqs (r ∷ rs) =
    if not ((reqs r).state == req_free_state)
      || (bitset req_on_gob_list (reqs r).flags || bitset req_on_chan_list (reqs r).flags)
    then none
    else some r

abbrev pub zeroed_req : Request
zeroed_req = record {
  state = 0;
  flags = 0;
  gob = none;
  chan = none;
  rid = none;
  gin = none;
  events = [];
  seqnext = 0;
  ev_to = none;
}

-- `LIST_INSERT_HEAD` on the list of a channel, whose data is there, and the flag for it.
unfoldable pub link_chan : Requests → Option ℕ → ℕ → Requests
link_chan w none req = w
link_chan w (some chan) req = record w {
  chan_reqs = update_list chan (req ∷ w.chan_reqs chan) w.chan_reqs;
  reqs = update_req req (λ r. record r { flags = bit_or r.flags req_on_chan_list }) w.reqs;
}

unfoldable pub gob_locked : Requests → Option ℕ → Bool
gob_locked w none = true
gob_locked w (some gob) = has gobf_islocked w.handles.cache gob

-- The memory of a new request: the first of the free list, where that passes the checks, or `mem`.
unfoldable pub take_req : Requests → (mem : ℕ) → Requests × ℕ
take_req w mem =
    let w1 : Requests = record w {
      free_reqs = drop 1 w.free_reqs;
      n_reqs_allocated = suc w.n_reqs_allocated;
    } in
    elim (req_candidate w.reqs w.free_reqs) [
      | some req ↦ (w1, req)
      | none ↦ (record w1 { reqs = update_req mem (λ r. zeroed_req) w.reqs }, mem)
    ]

-- The identifier of a new request: that of the message passed in, or 0, or a new one; and `MaxRid`.
unfoldable pub req_rid : (gob pdu : Option ℕ) (flags max_rid : ℕ) → Option ℕ × ℕ
req_rid gob pdu flags max_rid =
    let passing : Bool = elim gob [ none ↦ true | some g ↦ not (bitset req_persist flags) ] in
    elim pdu [
      | some rid ↦ (some rid, max_rid)
      | none ↦
          if passing && not (bitset req_alloc_rid flags)
          then (some 0, max_rid)
          else (some (rid_new max_rid), rid_new max_rid)
    ]

-- The assignments to a new request, which refers to its object.
unfoldable pub init_req :
    Requests → (req : ℕ) (is_command : Bool) (gob chan pdu : Option ℕ) (flags : ℕ) → Requests
init_req w req is_command gob chan pdu flags =
    let (rid, max_rid) = req_rid gob pdu flags w.max_rid in
    record w {
      max_rid = max_rid;
      handles = elim gob [ none ↦ w.handles | some g ↦ gob_incref w.handles g ];
      reqs =
          update_req req
            (λ r. record r {
              state = req_active;
              flags = flags;
              chan = chan;
              gob = gob;
              rid = if is_command then rid else r.rid;
            })
            w.reqs;
    }

unfoldable pub req_flags : (flags : ℕ) → ℕ
req_flags flags = if bitset req_asyncio flags then bit_or flags req_alloc_rid else flags

unfoldable pub req_chan : (chan default_chan : Option ℕ) → Option ℕ
req_chan none default_chan = default_chan
req_chan (some chan) default_chan = some chan

-- `_gdp_req_new`: the request, or `none` where the object is not locked. `pdu` is the identifier in a
-- message that is passed in, `default_chan` is `_GdpChannel`, and `mem` is where memory is found.
unfoldable pub req_new :
    Requests
    → (is_command : Bool) (gob chan pdu : Option ℕ) (flags : ℕ)
    → (default_chan : Option ℕ) (mem : ℕ) → Requests × Option ℕ
req_new w is_command gob chan pdu flags default_chan mem =
    let chan1 = req_chan chan default_chan in
    let (w1, req) = take_req w mem in
    let w2 = init_req w1 req is_command gob chan1 pdu (req_flags flags) in
    if not (gob_locked w gob) then (w, none) else (link_chan w2 chan1 req, some req)
