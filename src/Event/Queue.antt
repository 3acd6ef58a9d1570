-- ===== src/Event/Queue.antt =====
-- The pending events of a request (gdp/gdp_event.c): where a new one goes, and when they are delivered.
use gdp.Base.{
  ℕ, zero, suc, Bool, true, false, not, ◌&&◌, Option, none, some, List, [], ◌∷◌, if◌then◌else◌,
  ◌==◌,
}
use gdp.Time.{TimeSpec, time_add_delta, time_before, time_diff_usec}
use gdp.Event.{
  Event, Queues, Req, event_free, event_done, update_event, modulo_gt, event_trigger, event_type,
  event_new,
}

-- `_gdp_event_trigger_pending`, at the time `now`; `none` is no fuel left.
unfoldable pub trigger_pending :
    (fuel : ℕ) → (now : TimeSpec) (flush : Bool) → Queues → Req → Option (Queues × Req)
trigger_pending zero now flush q req = none
trigger_pending (suc fuel) now flush q req = elim req.events [
  | [] ↦ some (q, req)
  | gev ∷ rest ↦
      let e = q.st gev in
      let (q1, req1) = event_trigger q (record req { events = rest }) gev in
      let next = trigger_pending fuel now flush q1 req1 in
      if not flush && (not (e.seqno == req.seqnext) && time_before now e.timeout)
      then some
          (q, record req { ev_to = some (time_diff_usec now e.timeout, e.type == event_done) })
      else next
]

-- `xs` backwards, in front of `ys`.
unfoldable pub rev_append : List ℕ → List ℕ → List ℕ
rev_append [] ys = ys
rev_append (x ∷ xs) ys = rev_append xs (x ∷ ys)

-- The walk of `insert_pending_event` to the front: `before` are the events in front of `this_ev`, the
-- nearest first, and `after` those behind it.
unfoldable pub insert_walk :
    (ℕ → Event) → (gev : ℕ) → (before : List ℕ) → (this_ev : ℕ) → (after : List ℕ) → List ℕ
insert_walk st gev [] this_ev after = gev ∷ this_ev ∷ after
insert_walk st gev (prev ∷ before) this_ev after =
    let further = insert_walk st gev before prev (this_ev ∷ after) in
    if modulo_gt (st gev).seqno (st this_ev).seqno
    then further
    else rev_append before (prev ∷ gev ∷ this_ev ∷ after)

-- The list of pending events with a new one; `backwards` is the list from its tail.
unfoldable pub insert_pending : (ℕ → Event) → (gev : ℕ) → (backwards : List ℕ) → List ℕ
insert_pending st gev [] = gev ∷ []
insert_pending st gev (last ∷ before) =
    if (st gev).type == event_done
    then rev_append (last ∷ before) (gev ∷ [])
    else if modulo_gt (st gev).seqno (st last).seqno
    then rev_append (last ∷ before) (gev ∷ [])
    else insert_walk st gev before last []

-- `insert_pending_event`, with the two delays and the time at which it asks for the clock.
unfoldable pub insert_pending_event :
    (fuel : ℕ) → (data_to done_to asked now : TimeSpec) → Queues → Req → ℕ → Option (Queues × Req)
insert_pending_event fuel data_to done_to asked now q req gev =
    if (q.st gev).type == event_free
    then some (q, req)
    else (let delta = if (q.st gev).type == event_done then done_to else data_to in
        let q1 : Queues = record q {
          st = update_event gev (λ e. record e { timeout = time_add_delta delta asked }) q.st;
        } in
        trigger_pending fuel now false q1
          (record req { events = insert_pending q1.st gev (rev_append req.events []) }))

-- `_gdp_event_add_from_req`, for the code and sequence number of the answer; `none` is no fuel left, and
-- the answer whether the code was known.
unfoldable pub add_from_req :
    (fuel : ℕ)
    → (data_to done_to asked now : TimeSpec) → (cmd seqno gin : ℕ) (cb : Bool) (mem : ℕ) → Queues
    → Req
    → Option (Queues × Req) × Bool
add_from_req fuel data_to done_to asked now cmd seqno gin cb mem q req = elim (event_type cmd) [
  | none ↦ (some (q, req), false)
  | some type ↦
      let (q1, gev) = event_new q mem in
      let q2 : Queues = record q1 {
        st =
            update_event gev
              (λ e. record e {
                type = type;
                gin = gin;
                cb = cb;
                seqno = if cmd == 133 then seqno else e.seqno;
              })
              q1.st;
      } in
      let req1 : Req = if cmd == 239 then record req { persist = false } else req in
      (insert_pending_event fuel data_to done_to asked now q2 req1 gev, true)
]
