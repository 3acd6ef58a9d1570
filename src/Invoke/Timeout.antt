-- ===== src/Invoke/Timeout.antt =====
-- Calls that nobody answers, and calls that are answered in the end (`_gdp_invoke` of gdp/gdp_proto.c).
use gdp.Base.{
  ==_self, ◌-◌, ℕ, zero, suc, ◌≡◌, refl, ap, ◌∙◌, arith, Bool, true, false, some, [], ◌∷◌,
  if◌then◌else◌, ◌==◌, bitset, bit_and, bit_or, bitset-and, bitset-or, Bool-cases, inl, inr,
}
use gdp.Stat.{EpStat, stat_ok, stat_is_ok}
use gdp.Request.{
  Request, Requests, req_active, req_done, req_free_state, req_on_gob_list, adjust_req, req_has,
}
use gdp.Request.Send.{req_send, req_unsend, set_req_state, unlink_gob}
use gdp.Invoke.{
  null_gob, req_waiting, Wake, Attempt, Turn, wait_done, judge, invoke_turn, invoke_loop, invoke,
}

-- A request that is active and has an object.
pub record IsCall (w : Requests) (req gob : ℕ) : Type 0 where
  pub active : (w.reqs req).state ≡ req_active
  pub own : (w.reqs req).gob ≡ some gob

used :
    (w : Requests) (req gob : ℕ) → IsCall w req gob → ((w.reqs req).state == req_free_state) ≡ false
used w req gob ok = rw ok.active refl

-- What a request is when it was sent.
pub record IsSent (w : Requests) (req gob : ℕ) : Type 0 where
  pub sent : (req_send w req).1 ≡ true
  pub own : ((req_send w req).0.reqs req).gob ≡ some gob
  pub open_ : req_has req_done (req_send w req).0 req ≡ false

pub call_out : (w : Requests) (req gob : ℕ) → IsCall w req gob → IsSent w req gob
unfolding req_send
call_out w req gob ok =
    let x = (w.reqs req).flags in
    let w1 = adjust_req req (λ r. record r { flags = bit_and r.flags 0xfffffffd }) w in
    let off : bitset req_done (bit_and x 0xfffffffd) ≡ false =
      ground (arith, bitset-and 1 x 0xfffffffd) in
    let off2 : bitset req_done (bit_or (bit_and x 0xfffffffd) req_on_gob_list) ≡ false =
      ground (arith, off, bitset-or 1 (bit_and x 0xfffffffd) req_on_gob_list) in
    elim (Bool-cases (req_has req_on_gob_list w1 req)) [
      | inl l ↦ record {
        sent = rw (req_send, used w req gob ok, ok.own, l) refl;
        own = rw (req_send, used w req gob ok, ok.own, l) (rw (==_self req) ok.own);
        open_ = rw (req_send, used w req gob ok, ok.own, l) (rw (==_self req) off);
      }
      | inr l ↦ record {
        sent = rw (req_send, used w req gob ok, ok.own, l) refl;
        own = rw (req_send, used w req gob ok, ok.own, l) (rw (==_self req) ok.own);
        open_ = rw (req_send, used w req gob ok, ok.own, l) (rw (==_self req) off2);
      }
    ]

-- An attempt for which the message goes out and nobody answers in time. The wait leaves the request.
pub record IsTimeout (req : ℕ) (a : Attempt) : Type 0 where
  pub out : stat_is_ok a.pdu_out ≡ true
  pub wake : Wake
  pub wakes : a.wakes ≡ wake ∷ []
  pub estat : EpStat
  pub failed : wake.failed ≡ some (estat, true)
  pub keeps : (w : Requests) → (wake.change w).reqs req ≡ w.reqs req

-- The requests when the wait begins.
abbrev pub waiting : Requests → ℕ → Requests
waiting w req =
    adjust_req req (λ r. record r { state = req_waiting; flags = bit_and r.flags 0xfffffffe })
      (req_send w req).0

waits :
    (w : Requests) (req gob : ℕ) (stat : EpStat) (a : Attempt) (t : IsTimeout req a)
    → IsSent w req gob
    → wait_done (waiting w req) req stat a.wakes
      ≡ some (record {
        estat = t.estat;
        timed_out = true;
        stat = t.wake.stat;
        after = t.wake.change (waiting w req);
      })
unfolding wait_done
waits w req gob stat a t sent =
    let x = ((req_send w req).0.reqs req).flags in
    let off : bitset req_done (bit_and x 0xfffffffe) ≡ false =
      ground (arith, sent.open_, bitset-and 1 x 0xfffffffe) in
    ap (wait_done (waiting w req) req stat) t.wakes
    ∙ rw (wait_done, ==_self req, off, t.failed) refl

judged :
    (w : Requests) (req gob : ℕ) (estat stat : EpStat)
    → (w.reqs req).gob ≡ some gob
    → (t : Turn) × (judge (record { estat = estat; timed_out = true; stat = stat; after = w }) req
        ≡ t)
      × (t.again ≡ true)
      × (t.estat ≡ stat_ok)
      × IsCall t.after req gob
unfolding judge req_unsend unlink_gob
judged w req gob estat stat own =
    let w1 = set_req_state req req_active w in
    let came : req_unsend w1 req ≡ (unlink_gob w1 gob req, true) =
      rw (req_unsend, ==_self req, own) refl in
    (
      record { estat = stat_ok; again = true; stat = stat; after = unlink_gob w1 gob req },
      ap
          (λ (u : Requests × Bool). record {
            estat = if u.1 then stat_ok else null_gob;
            again = u.1;
            stat = stat;
            after = u.0;
          })
          came,
      refl,
      refl,
      record { active = rw (==_self req) refl; own = rw (==_self req) own },
    )

pub turn_times_out :
    (w : Requests) (req gob : ℕ) (stat : EpStat) (a : Attempt)
    → IsCall w req gob
    → IsTimeout req a
    → (t : Turn) × (invoke_turn w req stat a ≡ some t)
      × (t.again ≡ true)
      × (t.estat ≡ stat_ok)
      × IsCall t.after req gob
unfolding invoke_turn
turn_times_out w req gob stat a ok t =
    let sent = call_out w req gob ok in
    let after = t.wake.change (waiting w req) in
    let own : (after.reqs req).gob ≡ some gob =
      ap (λ (r : Request). r.gob) (t.keeps (waiting w req)) ∙ rw (==_self req) sent.own in
    let (turn, e, again, estat, call) = judged after req gob t.estat t.wake.stat own in
    (
      turn,
      rw (invoke_turn, sent.sent, t.out, waits w req gob stat a t sent) (ap some e),
      again,
      estat,
      call,
    )

loop_times_out :
    (more : ℕ) (later : ℕ → Attempt) (w : Requests) (req gob : ℕ) (stat : EpStat)
    → IsCall w req gob
    → ((n : ℕ) → IsTimeout req (later n))
    → (w' : Requests) × (invoke_loop more later w req stat ≡ some (stat_ok, w', suc more))
unfolding invoke_loop
loop_times_out zero later w req gob stat ok all =
    let (t, e, again, estat, call) = turn_times_out w req gob stat (later 0) ok (all 0) in
    (t.after, rw (invoke_loop, e) (ap (λ x. some (x, t.after, 1)) estat))
loop_times_out (suc more) later w req gob stat ok all =
    let (t, e, again, estat, call) =
      turn_times_out w req gob stat (later (suc more)) ok (all (suc more)) in
    let (w', rest) = loop_times_out more later t.after req gob t.stat call all in
    (w', rw (invoke_loop, e, again, rest) refl)

-- A call of an active request of an object, whose messages go out and which nobody answers in time
-- however often it is sent, is sent as often as is configured, at least once, and then ends with
-- success.
pub invoke_times_out :
    (retries : ℕ) (later : ℕ → Attempt) (w : Requests) (req gob : ℕ) (stat : EpStat)
    → IsCall w req gob
    → ((n : ℕ) → IsTimeout req (later n))
    → (w' : Requests) × (invoke (suc retries) later w req stat ≡ some (stat_ok, w', suc retries))
unfolding invoke
invoke_times_out retries later w req gob stat ok all =
    let more : suc retries - 1 ≡ retries = omega arith in
    rw (invoke, ok.active, more) (loop_times_out retries later w req gob stat ok all)
