-- ===== src/Tests/Subscribers.antt =====
-- A subscriber of an object: it is told its last record, ended for its client, or found dead.
use gdp.Base.{
  ℕ, ◌≡◌, refl, arith, true, false, not, ◌&&◌, none, some, [], ◌∷◌, ◌++◌, ◌==◌, if◌then◌else◌,
}
use gdp.Stat.{stat_ok}
use gdp.Gobs.{Handles, gob_incref, zeroed}
use gdp.Gobs.Sound.{among}
use gdp.Time.{TimeSpec, time_before}
use gdp.Event.{Event, Queues}
use gdp.Request.{
  Requests, req_new, gob_locked, take_req, req_candidate, init_req, req_rid, req_flags, req_chan,
  rid_new, link_chan,
}
use gdp.Request.Send.{req_send}
use gdp.Request.Free.{req_free}
use gdp.Request.Steps.{IsConsistent}
use gdp.Request.Runs.{no_requests, new, send, done, next, run-IsConsistent}
use gdp.Pubsub.{
  Sub, Subs, sub_end_subscription, sub_notify_all_subscribers, sub_end_all_subscriptions,
  gob_reclaim_subscriptions, ends_for, end_dst,
}
use gdp.Pubsub.Loop.{told_all, with_handles-IsConsistent}
use gdp.Pubsub.Notify.{told_one, stays, is_told, sub_notify_all_subscribers-IsConsistent}
use gdp.Pubsub.End.{sub_end_all_subscriptions-IsConsistent}
use gdp.Pubsub.Twice.{req_free-sub_end_subscription}
use gdp.Pubsub.Reclaim.{is_expired, gob_reclaim_subscriptions-IsConsistent}

abbrev at_time : ℕ → TimeSpec
at_time sec = record { tv_sec = sec; tv_nsec = 0 }

abbrev event : Event
event = record { type = 0; gin = 0; cb = false; timeout = at_time 0; seqno = 0 }

abbrev queues : Queues
queues = record { st = λ g. event; free_list = []; active_list = []; callback_list = [] }

-- The object at 20 is in use and has two references; `flags` says whether it is locked too.
abbrev handles : (flags : ℕ) → Handles
handles flags = record {
  cache = record {
    st = λ g.
        if g == 20
        then record { name = []; utime = 0; flags = flags; refcnt = 2; nrecs = 0 }
        else zeroed;
    open_gobs = record { hfunc = λ n key. 0; tabsize = 1; tab = [] ∷ [] };
    gobs_by_use = [];
  };
  free_list = [];
  n_gobs_allocated = 1;
}

-- A subscription at 30, which is sent.
abbrev subscribed : Requests
subscribed =
    (req_send
      (req_new (no_requests (handles 0x3) queues) true (some 20) (some 5) none 0x18 none 30).0 30).0

subscribed-IsConsistent : IsConsistent subscribed
unfolding among no_requests
subscribed-IsConsistent = run-IsConsistent (handles 0x3) queues subscribed (
    next
      (new true (some 20) (some 5) none 0x18 none 30
        (record { free = tt; gobs = λ h. refl; chans = λ h. refl }) (refl, refl))
      (next (send 30) done))

-- One record is still to come, and the last activity was at 100.
abbrev sub : Sub
sub = record {
  src = 7 ∷ [];
  dst = 8 ∷ [];
  act_ts = at_time 100;
  numrecs = 1;
  nextrec = 4;
  rpdu_dst = none;
}

-- The publisher, at 99, has an answer.
abbrev members : ℕ → Sub
members r = if r == 99 then record sub { rpdu_dst = some (9 ∷ []) } else sub

abbrev subs : Subs
subs = record { w = subscribed; subs = members; out = [] }

-- The subscriber gets the record, and the end.
sub_notify_all_subscribers-IsConsistent_example :
    (s' : Subs) × (sub_notify_all_subscribers 1 (at_time 120) (at_time 90) (λ r. stat_ok) subs 20 99
      ≡ some s')
    × IsConsistent s'.w
    × (s'.out
        ≡ []
          ++ told_all 20
              (told_one (at_time 90) (λ r. stat_ok) 99)
              (stays (at_time 90) (λ r. stat_ok) 99)
              subscribed.reqs
              members
              (subscribed.gob_reqs 20))
    × ((x : ℕ)
        → among x (s'.w.gob_reqs 20)
          ≡ among x (subscribed.gob_reqs 20)
            && stays (at_time 90) (λ r. stat_ok) 99 x (subscribed.reqs x) (members x))
unfolding req_new gob_locked take_req req_candidate no_requests init_req req_rid req_flags req_chan
    rid_new link_chan req_send
sub_notify_all_subscribers-IsConsistent_example =
    sub_notify_all_subscribers-IsConsistent (at_time 90) (λ r. stat_ok) 99 0 (at_time 120) subs 20
      (9 ∷ []) refl subscribed-IsConsistent ((refl, refl), tt)

sub_end_all_subscriptions-IsConsistent_example :
    (s' : Subs) × (sub_end_all_subscriptions 1 (at_time 120) subs 20 (8 ∷ []) 0 ≡ some s')
    × IsConsistent s'.w
    × (s'.out ≡ [])
    × ((x : ℕ)
        → among x (s'.w.gob_reqs 20)
          ≡ among x (subscribed.gob_reqs 20)
            && not (ends_for 20 (8 ∷ []) 0 (subscribed.reqs x) (members x)))
unfolding req_new gob_locked take_req req_candidate no_requests init_req req_rid req_flags req_chan
    rid_new link_chan req_send
sub_end_all_subscriptions-IsConsistent_example =
    sub_end_all_subscriptions-IsConsistent (8 ∷ []) 0 20 0 (at_time 120) subs
      subscribed-IsConsistent ((refl, refl), tt)

-- The object has lost both of its references but one, which the subscription did not hold.
req_free-sub_end_subscription_example :
    (w' : Requests) × (req_free 1 (at_time 120) (sub_end_subscription subs 30).w 30 ≡ some w')
    × ((w'.handles.cache.st 20).refcnt ≡ 1)
unfolding req_new gob_locked take_req req_candidate no_requests init_req req_rid req_flags req_chan
    rid_new link_chan req_send gob_incref
req_free-sub_end_subscription_example =
    req_free-sub_end_subscription 0 (at_time 120) subs 30 20 0 refl refl refl refl refl refl

-- The object is unlocked.
abbrev idle : Subs
idle = record subs { w = record subscribed { handles = handles 0x1 } }

gob_reclaim_subscriptions-IsConsistent_example :
    (s' : Subs) × (gob_reclaim_subscriptions 2 1
        (at_time 120)
        (at_time 110)
        (λ n r. true)
        idle
        (some 20)
      ≡ some s')
    × IsConsistent s'.w
    × ((x : ℕ)
        → among x (s'.w.gob_reqs 20)
          ≡ among x (subscribed.gob_reqs 20)
            && not (is_expired (at_time 110) 20 (subscribed.reqs x) (members x)))
unfolding req_new gob_locked take_req req_candidate no_requests init_req req_rid req_flags req_chan
    rid_new link_chan req_send
gob_reclaim_subscriptions-IsConsistent_example =
    gob_reclaim_subscriptions-IsConsistent (at_time 110) 20 2 0 (at_time 120) (λ n r. true) idle
      (with_handles-IsConsistent subscribed (handles 0x1) subscribed-IsConsistent)
      ((refl, refl), tt) refl (λ n r. refl) (omega arith)

-- The subscriber gets the record, and the message that it was the last one.
told_last :
    told_all 20
      (told_one (at_time 90) (λ r. stat_ok) 99)
      (stays (at_time 90) (λ r. stat_ok) 99)
      subscribed.reqs
      members
      (subscribed.gob_reqs 20)
    ≡ record { dst = 7 ∷ []; rid = some 1; is_end = false }
      ∷ record { dst = 7 ∷ []; rid = some 1; is_end = true }
      ∷ []
unfolding req_new gob_locked take_req req_candidate no_requests init_req req_rid req_flags req_chan
    rid_new link_chan req_send told_all told_one is_told end_dst time_before
told_last = refl
