-- ===== src/Invoke.antt =====
-- Remote calls (`_gdp_invoke` of gdp/gdp_proto.c): a request is sent, its answer is waited for, and it is
-- sent again where none came or there was no route.
pub mod Timeout
pub mod Answer
pub mod Results
pub mod Counted
use gdp.Base.{
  ℕ, zero, suc, ◌+◌, ◌-◌, ◌≡◌, Bool, true, false, not, ◌&&◌, ◌||◌, Option, none, some, List, [],
  ◌∷◌, if◌then◌else◌, ◌==◌, bitset, bit_and,
}
use gdp.Stat.{
  EpStat, stat_ok, stat_is_ok, stat_new, gdp_stat, ep_stat, sev_error, sev_abort, nak_noroute,
}
use gdp.Request.{Request, Requests, req_active, req_asyncio, req_done, adjust_req, req_has}
use gdp.Request.Send.{req_send, req_unsend, set_req_state}

abbrev pub req_waiting : ℕ
req_waiting = 2

abbrev pub req_routefail : ℕ
req_routefail = 0x400

abbrev pub null_gob : EpStat
null_gob = gdp_stat sev_error 16

abbrev pub assert_abort : EpStat
assert_abort = ep_stat sev_abort 9

-- `ep_thr_cond_wait` returns: what other threads did to the requests before, what `req->stat` is then,
-- and, where it failed, the status and whether the time was over.
pub record Wake : Type 0 where
  pub change : Requests → Requests
  pub stat : EpStat
  pub failed : Option (EpStat × Bool)

-- What one attempt meets: the status of `_gdp_pdu_out`, and the returns of the wait.
pub record Attempt : Type 0 where
  pub pdu_out : EpStat
  pub wakes : List Wake

-- What the wait comes to: its status, whether the time was over, `req->stat` and the requests.
pub record Waited : Type 0 where
  pub estat : EpStat
  pub timed_out : Bool
  pub stat : EpStat
  pub after : Requests

-- The loop that waits for GDP_REQ_DONE; `none` is that it still waits.
unfoldable pub wait_done : Requests → (req : ℕ) → (stat : EpStat) → List Wake → Option Waited
wait_done w req stat [] =
    if req_has req_done w req
    then some (record { estat = stat_ok; timed_out = false; stat = stat; after = w })
    else none
wait_done w req stat (k ∷ ks) =
    let rest = wait_done (k.change w) req k.stat ks in
    if req_has req_done w req
    then some (record { estat = stat_ok; timed_out = false; stat = stat; after = w })
    else elim k.failed [
      | none ↦ rest
      | some (e, t) ↦ some (record { estat = e; timed_out = t; stat = k.stat; after = k.change w })
    ]

-- What one turn comes to: the status, whether to try again, `req->stat` and the requests.
pub record Turn : Type 0 where
  pub estat : EpStat
  pub again : Bool
  pub stat : EpStat
  pub after : Requests

-- The end of a turn, after the wait.
unfoldable pub judge : Waited → (req : ℕ) → Turn
judge v req =
    let w = set_req_state req req_active v.after in
    let estat = if stat_is_ok v.estat then v.stat else v.estat in
    let noroute =
      stat_is_ok v.estat && ((v.stat == nak_noroute) && not (req_has req_routefail w req)) in
    let (w1, came) = req_unsend w req in
    if v.timed_out || noroute
    then record {
      estat = if came then stat_ok else null_gob;
      again = came;
      stat = v.stat;
      after = w1;
    }
    else record { estat = estat; again = false; stat = v.stat; after = w }

-- One turn of the loop; `none` is that it still waits.
unfoldable pub invoke_turn : Requests → (req : ℕ) → (stat : EpStat) → Attempt → Option Turn
invoke_turn w req stat a =
    let (w1, sent) = req_send w req in
    let w2 =
      adjust_req req (λ r. record r { state = req_waiting; flags = bit_and r.flags 0xfffffffe })
        w1 in
    if not sent
    then some (record { estat = assert_abort; again = false; stat = stat; after = w1 })
    else if not (stat_is_ok a.pdu_out)
    then some (record { estat = a.pdu_out; again = false; stat = stat; after = w1 })
    else elim (wait_done w2 req stat a.wakes) [ none ↦ none | some v ↦ some (judge v req) ]

-- The loop, with `more` attempts after this one, which are `later`; the status, the requests and the
-- number of attempts.
unfoldable pub invoke_loop :
    (more : ℕ)
    → (later : ℕ → Attempt) → Requests
    → (req : ℕ) → (stat : EpStat) → Option (EpStat × Requests × ℕ)
invoke_loop zero later w req stat = elim (invoke_turn w req stat (later 0)) [
  | none ↦ none
  | some t ↦ some (t.estat, t.after, 1)
]
invoke_loop (suc more) later w req stat = elim (invoke_turn w req stat (later (suc more))) [
  | none ↦ none
  | some t ↦
      if t.again
      then (elim (invoke_loop more later t.after req t.stat) [
        | none ↦ none
        | some (estat, w1, n) ↦ some (estat, w1, suc n)
      ])
      else some (t.estat, t.after, 1)
]

-- `_gdp_invoke`, less the delivery of events at its end; `retries` is the
-- parameter swarm.gdp.invoke.retries.
unfoldable pub invoke :
    (retries : ℕ)
    → (later : ℕ → Attempt) → Requests
    → (req : ℕ) → (stat : EpStat) → Option (EpStat × Requests × ℕ)
invoke retries later w req stat =
    let more = retries - 1 in
    if not ((w.reqs req).state == req_active)
    then some (assert_abort, w, 0)
    else invoke_loop more later w req stat
