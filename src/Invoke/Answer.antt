-- ===== src/Invoke/Answer.antt =====
-- Calls that are answered, at once or after some that are not (`_gdp_invoke` of gdp/gdp_proto.c).
use gdp.Base.{
  ==_self, ℕ, zero, suc, ◌+◌, ◌-◌, ◌<◌, ◌≡◌, refl, ap, ◌∙◌, arith, true, false, none, some, List,
  [], ◌∷◌, ◌==◌, bitset, bit_and, bitset-and,
}
use mathlib.Core.Path.{subst}
use gdp.Stat.{EpStat, stat_ok, stat_is_ok, nak_noroute}
use gdp.Request.{Requests, req_active, req_done, req_has}
use gdp.Request.Send.{req_send, set_req_state}
use gdp.Invoke.{Wake, Attempt, Turn, wait_done, judge, invoke_turn, invoke_loop, invoke}
use gdp.Invoke.Timeout.{IsCall, IsTimeout, IsSent, call_out, waiting, turn_times_out}

-- An attempt that is answered with a status other than that there is no route: the thread that has
-- the answer marks the request as done.
pub record IsAnswer (req : ℕ) (stat : EpStat) (a : Attempt) : Type 0 where
  pub out : stat_is_ok a.pdu_out ≡ true
  pub wake : Wake
  pub rest : List Wake
  pub wakes : a.wakes ≡ wake ∷ rest
  pub failed : wake.failed ≡ none
  pub stat_lem : wake.stat ≡ stat
  pub routed : (stat == nak_noroute) ≡ false
  pub marks : (w : Requests) → req_has req_done (wake.change w) req ≡ true

ended :
    (w : Requests) (req : ℕ) (stat : EpStat) (ks : List Wake)
    → req_has req_done w req ≡ true
    → wait_done w req stat ks
      ≡ some (record { estat = stat_ok; timed_out = false; stat = stat; after = w })
unfolding wait_done
ended w req stat [] h = rw (wait_done, h) refl
ended w req stat (k ∷ ks) h = rw (wait_done, h) refl

answered :
    (w : Requests) (req gob : ℕ) (stat old : EpStat) (a : Attempt) (t : IsAnswer req stat a)
    → IsSent w req gob
    → wait_done (waiting w req) req old a.wakes
      ≡ some (record {
        estat = stat_ok;
        timed_out = false;
        stat = stat;
        after = t.wake.change (waiting w req);
      })
unfolding wait_done
answered w req gob stat old a t sent =
    let x = ((req_send w req).0.reqs req).flags in
    let w1 = t.wake.change (waiting w req) in
    let off : bitset req_done (bit_and x 0xfffffffe) ≡ false =
      ground (arith, sent.open_, bitset-and 1 x 0xfffffffe) in
    ap (wait_done (waiting w req) req old) t.wakes
    ∙ rw (wait_done, ==_self req, off, t.failed, t.stat_lem) (ended w1 req stat t.rest (t.marks _))

turn_answered :
    (w : Requests) (req gob : ℕ) (stat old : EpStat) (a : Attempt)
    → IsCall w req gob
    → IsAnswer req stat a
    → (t : Turn) × (invoke_turn w req old a ≡ some t) × (t.again ≡ false) × (t.estat ≡ stat)
unfolding invoke_turn judge
turn_answered w req gob stat old a ok t =
    let sent = call_out w req gob ok in
    let w1 = set_req_state req req_active (t.wake.change (waiting w req)) in
    (
      record { estat = stat; again = false; stat = stat; after = w1 },
      rw (invoke_turn, sent.sent, t.out, answered w req gob stat old a t sent)
          (ap some (rw (judge, t.routed) refl)),
      refl,
      refl,
    )

one_answered :
    (n : ℕ) (later : ℕ → Attempt) (w : Requests) (req gob : ℕ) (stat old : EpStat)
    → IsCall w req gob
    → IsAnswer req stat (later n)
    → (w' : Requests) × (invoke_loop n later w req old ≡ some (stat, w', 1))
unfolding invoke_loop
one_answered zero later w req gob stat old ok t =
    let (turn, e, again, estat) = turn_answered w req gob stat old (later 0) ok t in
    (turn.after, rw (invoke_loop, e) (ap (λ x. some (x, turn.after, 1)) estat))
one_answered (suc n) later w req gob stat old ok t =
    let (turn, e, again, estat) = turn_answered w req gob stat old (later (suc n)) ok t in
    (turn.after, rw (invoke_loop, e, again) (ap (λ x. some (x, turn.after, 1)) estat))

loop_answered :
    (before n last : ℕ) (later : ℕ → Attempt) (w : Requests) (req gob : ℕ) (stat old : EpStat)
    → n ≡ before + last
    → IsCall w req gob
    → ((m : ℕ) → last < m → IsTimeout req (later m))
    → IsAnswer req stat (later last)
    → (w' : Requests) × (invoke_loop n later w req old ≡ some (stat, w', suc before))
unfolding invoke_loop
loop_answered zero n last later w req gob stat old e ok fails t =
    one_answered n later w req gob stat old ok
      (subst (λ m. IsAnswer req stat (later m)) (omega (arith, e)) t)
loop_answered (suc before) zero last later w req gob stat old e ok fails t =
    absurd (omega (arith, e))
loop_answered (suc before) (suc n) last later w req gob stat old e ok fails t =
    let (turn, run, again, estat, call) =
      turn_times_out w req gob old (later (suc n)) ok (fails (suc n) (omega (arith, e))) in
    let (w', rest) =
      loop_answered before n last later turn.after req gob stat turn.stat (omega (arith, e)) call
        fails t in
    (w', rw (invoke_loop, run, again, rest) refl)

-- A call of an active request of an object, whose messages go out: the first attempts are not answered
-- in time, and the next one, which is still one of those configured, is answered with a status other
-- than that there is no route. It ends with the status of the answer, after one attempt more than those
-- without an answer.
pub invoke_answered :
    (before last : ℕ) (later : ℕ → Attempt) (w : Requests) (req gob : ℕ) (stat old : EpStat)
    → IsCall w req gob
    → ((m : ℕ) → last < m → IsTimeout req (later m))
    → IsAnswer req stat (later last)
    → (w' : Requests) × (invoke (suc (before + last)) later w req old ≡ some (stat, w', suc before))
unfolding invoke
invoke_answered before last later w req gob stat old ok fails t =
    let more : suc (before + last) - 1 ≡ before + last = omega arith in
    rw (invoke, ok.active, more)
      (loop_answered before (before + last) last later w req gob stat old refl ok fails t)
