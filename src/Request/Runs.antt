-- ===== src/Request/Runs.antt =====
-- Runs of the operations on requests (gdp/gdp_req.c).
use gdp.Base.{
  ℕ, ◌≡◌, refl, sym, ap, true, false, ◌&&◌, Bool, Option, some, [], ◌==◌, bitset, Bool-cases, inl,
  inr,
}
use gdp.Gobs.{Handles}
use gdp.Gobs.Sound.{among}
use gdp.Time.{TimeSpec}
use gdp.Event.{Queues}
use gdp.Request.{
  Requests, zeroed_req, req_free_state, req_on_gob_list, req_on_chan_list, req_has, req_new,
}
use gdp.Request.Send.{set_req_state, set_req_flags, req_send, req_unsend, req_find}
use gdp.Request.Free.{req_free}
use gdp.Request.Steps.{
  at_head, IsConsistent, adjust_req-IsConsistent, in_use, unlink_gob-IsConsistent,
  req_send-IsConsistent,
}
use gdp.Request.New.{IsUnused, IsCallerFlags, req_new-IsConsistent}
use gdp.Request.Find.{req_find-IsConsistent, listed}
use gdp.Request.Freed.{req_free-Keeps}

-- One operation: a new request has memory that no list has and flags of its caller's; a request that is
-- pulled off the list of its object is on it; callers set the state and the flags other than those for
-- the lists; and the objects and events change by other operations.
infix 40 ◌⟶◌ ◌⟶*◌
pub data ◌⟶◌ : Requests → Requests → Type 0 where
  new :
      {w : Requests} (is_command : Bool) (gob chan pdu : Option ℕ) (flags : ℕ)
      → (default_chan : Option ℕ) (mem : ℕ) → IsUnused w mem
      → IsCallerFlags flags
      → w ⟶ (req_new w is_command gob chan pdu flags default_chan mem).0
  send : {w : Requests} (req : ℕ) → w ⟶ (req_send w req).0
  unsend :
      {w : Requests} (gob req : ℕ)
      → (w.reqs req).gob ≡ some gob
      → among req (w.gob_reqs gob) ≡ true
      → w ⟶ (req_unsend w req).0
  find : {w : Requests} (gob rid : ℕ) → w ⟶ (req_find w gob rid).0
  assign :
      {w : Requests} (req state : ℕ)
      → ((w.reqs req).state == req_free_state) ≡ false
      → w ⟶ set_req_state req state w
  mark :
      {w : Requests} (req flags : ℕ)
      → ((w.reqs req).state == req_free_state) ≡ false
      → bitset req_on_gob_list flags ≡ req_has req_on_gob_list w req
      → bitset req_on_chan_list flags ≡ req_has req_on_chan_list w req
      → w ⟶ set_req_flags req flags w
  free :
      {w w' : Requests} (fuel : ℕ) (now : TimeSpec) (req : ℕ)
      → req_free fuel now w req ≡ some w'
      → w ⟶ w'
  elsewhere :
      {w : Requests} (handles : Handles) (queues : Queues)
      → w ⟶ record w { handles = handles; queues = queues }

pub data ◌⟶*◌ : Requests → Requests → Type 0 where
  done : {w : Requests} → w ⟶* w
  next : {u v w : Requests} → u ⟶ v → v ⟶* w → u ⟶* w

-- No request yet, and no list.
unfoldable pub no_requests : Handles → Queues → Requests
no_requests handles queues = record {
  handles = handles;
  queues = queues;
  reqs = λ r. zeroed_req;
  gob_reqs = λ h. [];
  chan_reqs = λ h. [];
  free_reqs = [];
  n_reqs_allocated = 0;
  max_rid = 0;
}

req_unsend-IsConsistent :
    (w : Requests) (gob req : ℕ)
    → IsConsistent w
    → (w.reqs req).gob ≡ some gob
    → among req (w.gob_reqs gob) ≡ true
    → IsConsistent (req_unsend w req).0
unfolding req_unsend
req_unsend-IsConsistent w gob req ok own on =
    elim (Bool-cases ((w.reqs req).state == req_free_state)) [
      | inl u ↦ rw (req_unsend, u) ok
      | inr u ↦
          rw (req_unsend, u, own)
            (unlink_gob-IsConsistent w gob req ok (listed w gob req ok on).0 own).0
    ]

step-IsConsistent : (w w' : Requests) → w ⟶ w' → IsConsistent w → IsConsistent w'
step-IsConsistent w w' (new is_command gob chan pdu flags default_chan mem unused bare) ok =
    req_new-IsConsistent w is_command gob chan pdu flags default_chan mem ok unused bare
step-IsConsistent w w' (send req) ok = req_send-IsConsistent w req ok
step-IsConsistent w w' (unsend gob req own on) ok = req_unsend-IsConsistent w gob req ok own on
step-IsConsistent w w' (find gob rid) ok = req_find-IsConsistent w gob rid ok
step-IsConsistent w w' (assign req state u) ok =
    adjust_req-IsConsistent w req (λ r. record r { state = state }) ok (in_use w req ok u)
      (λ h. refl) (λ h. refl)
step-IsConsistent w w' (mark req flags u g c) ok =
    adjust_req-IsConsistent w req (λ r. record r { flags = flags }) ok (in_use w req ok u)
      (λ h. ap (λ (b : Bool). b && at_head (w.reqs req).gob h) (sym g))
      (λ h. ap (λ (b : Bool). b && at_head (w.reqs req).chan h) (sym c))
step-IsConsistent w w' (free fuel now req e) ok = req_free-Keeps fuel now w w' req ok e
step-IsConsistent w w' (elsewhere handles queues) ok = record {
  gobs = ok.gobs;
  chans = ok.chans;
  idle = ok.idle;
  distinct = ok.distinct;
}

steps-IsConsistent : (w w' : Requests) → w ⟶* w' → IsConsistent w → IsConsistent w'
steps-IsConsistent w w' done ok = ok
steps-IsConsistent w w' (next {v = v} s run) ok =
    steps-IsConsistent v w' run (step-IsConsistent w v s ok)

-- From the start, after new requests, in memory that no list has and with none of the flags for the lists
-- among their caller's; sendings, searches and releases; takings back of a request that is on the list of
-- its object; assignments to the state and the other flags of a request in use; and any changes of the
-- objects and events, in any order: the list of an object has, each once, exactly the requests of the
-- object whose flag says they are on it; likewise for the lists of the channels; and the free list has no
-- request twice, and only requests in the free state without flags.
pub run-IsConsistent :
    (handles : Handles) (queues : Queues) (w : Requests)
    → no_requests handles queues ⟶* w
    → IsConsistent w
unfolding no_requests among
run-IsConsistent handles queues w run =
    steps-IsConsistent (no_requests handles queues) w run (record {
      gobs = record { members = λ h r. refl; distinct = λ h. tt };
      chans = record { members = λ h r. refl; distinct = λ h. tt };
      idle = tt;
      distinct = tt;
    })
