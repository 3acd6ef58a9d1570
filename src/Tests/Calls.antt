-- ===== src/Tests/Calls.antt =====
-- Calls of a request that is sent, to nobody or to a peer that answers the second time.
use gdp.Base.{
  ◌<◌, ℕ, ◌≡◌, refl, arith, true, false, none, some, [], ◌∷◌, if◌then◌else◌, ◌==◌, bit_or,
  bitset-or,
}
use gdp.Gobs.Runs.{cache_init}
use gdp.Stat.{EpStat, stat_ok, gdp_stat, sev_error, sev_warn}
use gdp.Event.{Queues}
use gdp.Request.{Requests, adjust_req, zeroed_req, req_done, req_has}
use gdp.Request.Runs.{no_requests}
use gdp.Invoke.{Attempt, invoke}
use gdp.Invoke.Timeout.{IsCall, IsTimeout, invoke_times_out}
use gdp.Invoke.Answer.{IsAnswer, invoke_answered}

abbrev queues : Queues
queues = record {
  st = λ g. record {
    type = 0;
    gin = 0;
    cb = false;
    timeout = record { tv_sec = 0; tv_nsec = 0 };
    seqno = 0;
  };
  free_list = [];
  active_list = [];
  callback_list = [];
}

-- The request at 30 is active, and has the object at 20.
abbrev start : Requests
start = record (no_requests (cache_init 8) queues) {
  reqs = λ r. if r == 30 then record zeroed_req { state = 1; gob = some 20 } else zeroed_req;
}

start-IsCall : IsCall start 30 20
unfolding no_requests
start-IsCall = record { active = refl; own = refl }

-- ETIMEDOUT as a status.
abbrev timed_out : EpStat
timed_out = gdp_stat sev_warn 110

abbrev silence : Attempt
silence = record {
  pdu_out = stat_ok;
  wakes = record { change = λ w. w; stat = stat_ok; failed = some (timed_out, true) } ∷ [];
}

silent : IsTimeout 30 silence
silent = record {
  out = refl;
  wake = record { change = λ w. w; stat = stat_ok; failed = some (timed_out, true) };
  wakes = refl;
  estat = timed_out;
  failed = refl;
  keeps = λ w. refl;
}

invoke_times_out_example :
    (w' : Requests) × (invoke 3 (λ n. silence) start 30 stat_ok ≡ some (stat_ok, w', 3))
invoke_times_out_example =
    invoke_times_out 2 (λ n. silence) start 30 20 stat_ok start-IsCall (λ n. silent)

abbrev mark_done : Requests → Requests
mark_done w = adjust_req 30 (λ r. record r { flags = bit_or r.flags req_done }) w

-- `GDP_STAT_NAK_NOTFOUND`
abbrev not_found : EpStat
not_found = gdp_stat sev_error 404

abbrev answer : Attempt
answer = record {
  pdu_out = stat_ok;
  wakes = record { change = mark_done; stat = not_found; failed = none } ∷ [];
}

marked : (w : Requests) → req_has req_done (mark_done w) 30 ≡ true
marked w = ground (arith, bitset-or 1 (w.reqs 30).flags req_done)

answers : IsAnswer 30 not_found answer
answers = record {
  out = refl;
  wake = record { change = mark_done; stat = not_found; failed = none };
  rest = [];
  wakes = refl;
  failed = refl;
  stat_lem = refl;
  routed = refl;
  marks = marked;
}

-- The first of three attempts is not answered.
abbrev attempts : ℕ → Attempt
attempts n = if n == 1 then answer else silence

later_silent : (m : ℕ) → 1 < m → IsTimeout 30 (attempts m)
later_silent m l = let other : (m == 1) ≡ false = ground (arith, l) in rw other silent

invoke_answered_example :
    (w' : Requests) × (invoke 3 attempts start 30 stat_ok ≡ some (not_found, w', 2))
invoke_answered_example =
    invoke_answered 1 1 attempts start 30 20 not_found stat_ok start-IsCall later_silent answers
