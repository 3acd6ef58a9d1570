-- ===== src/Tests/Requests.antt =====
-- A request of an object on a channel: it is sent, waits, is answered, and is freed with an event.
use gdp.Base.{ℕ, ◌≡◌, refl, true, false, none, some, [], ◌∷◌, ◌==◌, if◌then◌else◌}
use gdp.Gobs.{Handles, gob_incref, zeroed}
use gdp.Gobs.Sound.{among}
use gdp.Time.{TimeSpec}
use gdp.Event.{Event, Queues}
use gdp.Request.{
  Requests, adjust_req, req_new, gob_locked, take_req, req_candidate, init_req, req_rid, req_flags,
  req_chan, rid_new, link_chan,
}
use gdp.Request.Send.{req_send, set_req_state, set_req_flags, req_find, found}
use gdp.Request.Steps.{IsConsistent}
use gdp.Request.Find.{req_find-req_send}
use gdp.Request.Runs.{
  no_requests, ◌⟶*◌, new, send, assign, mark, find, done, next, run-IsConsistent,
}

abbrev events : ℕ → Event
events g = record {
  type = 1;
  gin = 4;
  cb = false;
  timeout = record { tv_sec = 50; tv_nsec = 0 };
  seqno = g;
}

abbrev queues : Queues
queues = record { st = events; free_list = []; active_list = []; callback_list = [] }

abbrev now : TimeSpec
now = record { tv_sec = 40; tv_nsec = 5 }

-- The object at 20 is in use and locked, and has one reference.
abbrev handles : Handles
handles = record {
  cache = record {
    st = λ g.
        if g == 20
        then record { name = []; utime = 0; flags = 0x3; refcnt = 1; nrecs = 0 }
        else zeroed;
    open_gobs = record { hfunc = λ n key. 0; tabsize = 1; tab = [] ∷ [] };
    gobs_by_use = [];
  };
  free_list = [];
  n_gobs_allocated = 1;
}

abbrev start : Requests
start = no_requests handles queues

abbrev made : Requests
made = (req_new start true (some 20) (some 5) none 0x40 none 30).0

-- A new request for the object, and the reference it holds.
made_first :
    ((req_new start true (some 20) (some 5) none 0x40 none 30).1 ≡ some 30)
    × ((made.reqs 30).rid ≡ some 1)
    × ((made.handles.cache.st 20).refcnt ≡ 2)
unfolding req_new gob_locked take_req req_candidate no_requests init_req req_rid req_flags req_chan
    rid_new link_chan gob_incref
made_first = (refl, refl, refl)

abbrev waiting : Requests
waiting = set_req_state 30 2 (req_send made 30).0

req_find-req_send_example : (req_find waiting 20 1).1 ≡ found 30
unfolding req_new gob_locked take_req req_candidate no_requests init_req req_rid req_flags req_chan
    rid_new link_chan gob_incref
req_find-req_send_example = req_find-req_send made 30 20 1 2 refl refl refl refl refl refl refl

abbrev answered : Requests
answered = (req_find (set_req_flags 30 0x1c2 waiting) 20 1).0

lived : start ⟶* answered
unfolding req_new gob_locked take_req req_candidate no_requests init_req req_rid req_flags req_chan
    rid_new link_chan req_send among
lived =
    next
      (new true (some 20) (some 5) none 0x40 none 30
        (record { free = tt; gobs = λ h. refl; chans = λ h. refl }) (refl, refl))
      (next (send 30)
        (next (assign 30 2 refl) (next (mark 30 0x1c2 refl refl refl) (next (find 20 1) done))))

run-IsConsistent_example : IsConsistent answered
run-IsConsistent_example = run-IsConsistent handles queues answered lived

-- An event waits in the request.
abbrev with_event : Requests
with_event = adjust_req 30 (λ r. record r { events = 3 ∷ [] }) waiting
