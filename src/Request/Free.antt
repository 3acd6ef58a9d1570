-- ===== src/Request/Free.antt =====
-- Requests that are freed, with their events (`_gdp_req_free` of gdp/gdp_req.c).
use gdp.Base.{ℕ, ◌-◌, true, Option, none, some, [], ◌∷◌, if◌then◌else◌, ◌==◌, bitset, bit_and}
use gdp.Cache.Steps.{list_remove}
use gdp.Gobs.{gob_decref}
use gdp.Time.{TimeSpec}
use gdp.Event.{Queues, Req}
use gdp.Event.Queue.{trigger_pending}
use gdp.Request.{
  Request, Requests, req_free_state, req_persist, req_on_gob_list, req_on_chan_list, update_req,
  adjust_req, update_list, req_has,
}
use gdp.Request.Send.{unlink_gob}

-- The events of a request, as gdp/gdp_event.c sees them, when its timer was cleared.
abbrev pub events_of : Request → Req
events_of r = record {
  events = r.events;
  seqnext = r.seqnext;
  persist = bitset req_persist r.flags;
  ev_to = none;
}

-- What the delivery of the events leaves of them.
abbrev pub take_events : Requests → (req : ℕ) → Queues → Req → Requests
take_events w req q e =
    adjust_req req (λ r. record r { events = e.events; seqnext = e.seqnext; ev_to = e.ev_to })
      (record w { queues = q })

-- The removal from the list of the channel.
unfoldable pub unlink_chan : Requests → ℕ → Requests
unlink_chan w req = elim (w.reqs req).chan [
  | none ↦ w
  | some chan ↦
      if req_has req_on_chan_list w req
      then record w {
        chan_reqs = update_list chan (list_remove req (w.chan_reqs chan)) w.chan_reqs;
        reqs = update_req req (λ r. record r { flags = bit_and r.flags 0xfffffeff }) w.reqs;
      }
      else w
]

-- The end of `_gdp_req_free`: the object is given up, and the request goes to the free list.
unfoldable pub put_free_req : Requests → ℕ → Requests
put_free_req w req = record w {
  handles = elim (w.reqs req).gob [ none ↦ w.handles | some gob ↦ gob_decref w.handles gob true ];
  reqs =
      update_req req
        (λ r. record r { state = req_free_state; flags = 0; gob = none; rid = none; events = [] })
        w.reqs;
  free_reqs = req ∷ w.free_reqs;
  n_reqs_allocated = w.n_reqs_allocated - 1;
}

-- `_gdp_req_free`; `fuel` is for the loop that delivers the events, and `none` is no fuel left.
unfoldable pub req_free : (fuel : ℕ) → (now : TimeSpec) → Requests → ℕ → Option Requests
req_free fuel now w req =
    if (w.reqs req).state == req_free_state
    then some w
    else (elim (trigger_pending fuel now true w.queues (events_of (w.reqs req))) [
      | none ↦ none
      | some (q, e) ↦
          let w1 = take_events w req q e in
          let w2 = unlink_chan w1 req in
          elim (w2.reqs req).gob [
            | none ↦ if req_has req_on_gob_list w2 req then some w2 else some (put_free_req w2 req)
            | some gob ↦
                if req_has req_on_gob_list w2 req
                then some (put_free_req (unlink_gob w2 gob req) req)
                else some (put_free_req w2 req)
          ]
    ])
