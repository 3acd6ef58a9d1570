-- ===== src/Event.antt =====
-- Events (gdp/gdp_event.c): those that wait in a request for their turn, and the lists that they are
-- delivered from. An event is its address; a list is walked from its head.
pub mod Queue
pub mod SeqNo
pub mod Pending
pub mod Trigger
pub mod Stuck
pub mod Next
use gdp.Base.{
  ℕ, suc, ◌+◌, ◌-◌, ◌/◌, ◌%◌, Bool, true, false, not, ◌&&◌, ◌||◌, Option, none, some, List, [], ◌∷◌,
  ◌++◌, if◌then◌else◌, ltb, leb, ◌==◌,
}
use gdp.Time.{TimeSpec}

abbrev pub event_free : ℕ
event_free = 0

abbrev pub event_data : ℕ
event_data = 1

abbrev pub event_done : ℕ
event_done = 2

abbrev pub event_shutdown : ℕ
event_shutdown = 3

abbrev pub event_created : ℕ
event_created = 4

abbrev pub event_success : ℕ
event_success = 5

abbrev pub event_failure : ℕ
event_failure = 6

abbrev pub event_missing : ℕ
event_missing = 7

-- `struct gdp_event`, less what it carries; `cb` says that a callback is set.
pub record Event : Type 0 where
  pub type : ℕ
  pub gin : ℕ
  pub cb : Bool
  pub timeout : TimeSpec
  pub seqno : ℕ

-- The events, `FreeList`, `ActiveList` and `CallbackList`.
pub record Queues : Type 0 where
  pub st : ℕ → Event
  pub free_list : List ℕ
  pub active_list : List ℕ
  pub callback_list : List ℕ

-- What a request keeps of its events: those pending, the sequence number that comes next, whether
-- the request persists, and the timer that was set last, with whether it is for the end.
pub record Req : Type 0 where
  pub events : List ℕ
  pub seqnext : ℕ
  pub persist : Bool
  pub ev_to : Option (ℕ × Bool)

abbrev pub update_event : ℕ → (Event → Event) → (ℕ → Event) → ℕ → Event
update_event gev f st g = if g == gev then f (st g) else st g

-- The loop of `_gdp_event_new`: the first event of the list that is free, and the list behind it.
unfoldable pub pick_free : (ℕ → Event) → List ℕ → Option ℕ × List ℕ
pick_free st [] = (none, [])
pick_free st (g ∷ gs) =
    let rest = pick_free st gs in if (st g).type == event_free then (some g, gs) else rest

-- What `ep_mem_zalloc` leaves in an event.
abbrev pub zeroed_event : Event
zeroed_event = record {
  type = 0;
  gin = 0;
  cb = false;
  timeout = record { tv_sec = 0; tv_nsec = 0 };
  seqno = 0;
}

-- `_gdp_event_new`; `mem` is where memory for an event is found.
unfoldable pub event_new : Queues → (mem : ℕ) → Queues × ℕ
event_new q mem =
    let (gev, rest) = pick_free q.st q.free_list in
    elim gev [
      | some g ↦ (record q { free_list = rest }, g)
      | none ↦ (record q { free_list = rest; st = update_event mem (λ e. zeroed_event) q.st }, mem)
    ]

-- `gdp_event_free`, and whether it was an event that is not free yet.
unfoldable pub event_put_free : Queues → ℕ → Queues × Bool
event_put_free q gev = if (q.st gev).type == event_free then (q, false) else (
  record q {
    st = update_event gev (λ e. record e { type = event_free }) q.st;
    free_list = gev ∷ q.free_list;
  },
  true,
)

-- `insert_active_event`, on the list given.
unfoldable pub insert_active : Queues → ℕ → List ℕ → List ℕ
insert_active q gev list = if (q.st gev).type == event_free then list else list ++ (gev ∷ [])

abbrev pub seqno_base : ℕ
seqno_base = 32768

-- `modulo_gt`
unfoldable pub modulo_gt : ℕ → ℕ → Bool
modulo_gt a b =
    if ltb a b && ltb (seqno_base / 2) (b - a)
    then true
    else if ltb b a && ltb (seqno_base / 2) (a - b)
    then false
    else ltb b a

-- `_gdp_event_trigger`
unfoldable pub event_trigger : Queues → Req → ℕ → Queues × Req
event_trigger q req gev =
    let e = q.st gev in
    let req1 : Req = record req { seqnext = (e.seqno + 1) % seqno_base } in
    if (e.type == event_done) && req.persist
    then (q, record req1 { events = insert_active q gev req1.events })
    else if not e.cb
    then (record q { active_list = insert_active q gev q.active_list }, req1)
    else (record q { callback_list = insert_active q gev q.callback_list }, req1)

-- The event that is expected by its type and code (`switch` of `_gdp_event_add_from_req`), by the codes
-- of gdp/gdp.proto; `none` is a protocol failure.
unfoldable pub event_type : (cmd : ℕ) → Option ℕ
event_type cmd =
    if cmd == 128
    then some event_success
    else if cmd == 133
    then some event_data
    else if cmd == 191
    then some event_done
    else if cmd == 129
    then some event_created
    else if cmd == 239
    then some event_shutdown
    else if cmd == 222
    then some event_missing
    else if leb 128 cmd && leb cmd 191
    then some event_success
    else if leb 192 cmd && leb cmd 254
    then some event_failure
    else none
