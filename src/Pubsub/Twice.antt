-- ===== src/Pubsub/Twice.antt =====
-- A subscription that is ended, and freed later (`sub_end_subscription` of gdplogd/logd_pubsub.c).
use gdp.Base.{
  ℕ, suc, ◌≡◌, refl, arith, ap, ◌∙◌, true, false, Option, none, some, [], ◌==◌, ◌-◌, if◌then◌else◌,
  ==_self, bitset, bit_and, bitset-and, Bool-cases, inl, inr,
}
use gdp.Time.{TimeSpec}
use gdp.Cache.{gobf_inuse}
use gdp.Cache.Steps.{has, update, gobf_islocked}
use gdp.Gobs.{Handles, gob_decref}
use gdp.Request.{Requests, adjust_req, req_has, req_on_gob_list, req_free_state}
use gdp.Request.Send.{unlink_gob}
use gdp.Request.Free.{unlink_chan, put_free_req, req_free, events_of, take_events}
use gdp.Request.Released.{unlink_chan-IsKept}
use gdp.Pubsub.{Subs, sub_end_subscription, give_up}
use gdp.Pubsub.Turns.{no_events, take_off}
use gdp.Pubsub.End.{unlisted_flag}

-- An object in use that has another reference is kept.
decref_one :
    (w : Handles) (gob n : ℕ)
    → has gobf_inuse w.cache gob ≡ true
    → (w.cache.st gob).refcnt ≡ suc (suc n)
    → (((gob_decref w gob true).cache.st gob).refcnt ≡ suc n)
      × (has gobf_inuse (gob_decref w gob true).cache gob ≡ true)
unfolding gob_decref
decref_one w gob n u c =
    let some_left : ((suc (suc n) - 1) == 0) ≡ false = ground arith in
    let st = update gob (λ g. record g { refcnt = g.refcnt - 1 }) w.cache.st in
    let counted : (st gob).refcnt ≡ suc n = rw (==_self gob, c) (omega arith) in
    let live : bitset gobf_inuse (st gob).flags ≡ true = rw (==_self gob) u in
    elim (Bool-cases (has gobf_islocked w.cache gob)) [
      | inl l ↦ rw (gob_decref, u, ==_self gob, c, some_left, l) (counted, live)
      | inr l ↦ rw (gob_decref, u, ==_self gob, c, some_left, l) (counted, live)
    ]

put_free_req_handles :
    (w : Requests) (req gob : ℕ)
    → (w.reqs req).gob ≡ some gob
    → (put_free_req w req).handles ≡ gob_decref w.handles gob true
unfolding put_free_req
put_free_req_handles w req gob own = rw own refl

off_list :
    (w : Requests) (req gob : ℕ)
    → (w.reqs req).gob ≡ some gob
    → req_has req_on_gob_list w req ≡ false
    → (elim (w.reqs req).gob as (λ x. Option Requests) [
      | none ↦ if req_has req_on_gob_list w req then some w else some (put_free_req w req)
      | some g ↦
          if req_has req_on_gob_list w req
          then some (put_free_req (unlink_gob w g req) req)
          else some (put_free_req w req)
    ])
      ≡ some (put_free_req w req)
off_list w req gob own off = rw (own, off) refl

-- A request in use with no events and off the list of its object gives the object up when it is freed.
pub req_free_gives_up :
    (fuel : ℕ) (now : TimeSpec) (w : Requests) (req gob : ℕ)
    → ((w.reqs req).state == req_free_state) ≡ false
    → (w.reqs req).events ≡ []
    → (w.reqs req).gob ≡ some gob
    → req_has req_on_gob_list w req ≡ false
    → (w' : Requests) × (req_free (suc fuel) now w req ≡ some w')
      × (w'.handles ≡ gob_decref w.handles gob true)
unfolding req_free
req_free_gives_up fuel now w req gob u e own off =
    let w1 = take_events w req w.queues (events_of (w.reqs req)) in
    let w2 = unlink_chan w1 req in
    let k = unlink_chan-IsKept w1 req in
    let own2 : (w2.reqs req).gob ≡ some gob = k.gob ∙ rw (==_self req) own in
    let off2 : req_has req_on_gob_list w2 req ≡ false = k.listed ∙ rw (==_self req) off in
    (
      put_free_req w2 req,
      rw (req_free, u, no_events fuel now w.queues (w.reqs req) e) (off_list w2 req gob own2 off2),
      put_free_req_handles w2 req gob own2 ∙ ap (λ h. gob_decref h gob true) k.handles,
    )

ended_gives_up :
    (fuel : ℕ) (now : TimeSpec) (w : Requests) (req gob : ℕ)
    → ((w.reqs req).state == req_free_state) ≡ false
    → (w.reqs req).events ≡ []
    → (w.reqs req).gob ≡ some gob
    → (w' : Requests) × (req_free (suc fuel) now (give_up (unlink_gob w gob req) gob true) req
        ≡ some w')
      × (w'.handles ≡ gob_decref (gob_decref w.handles gob true) gob true)
unfolding give_up unlink_gob
ended_gives_up fuel now w req gob u e own =
    req_free_gives_up fuel now (give_up (unlink_gob w gob req) gob true) req gob
      (rw (==_self req) u) (rw (==_self req) e) (rw (==_self req) own) (unlisted_flag w gob req)

-- A subscription in use with no events that is on the list of an object in use, which has three references
-- or more: when it is ended, and later freed with any fuel but 0, the object has lost two references, though
-- the subscription held one.
pub req_free-sub_end_subscription :
    (fuel : ℕ) (now : TimeSpec) (s : Subs) (req gob n : ℕ)
    → ((s.w.reqs req).state == req_free_state) ≡ false
    → (s.w.reqs req).events ≡ []
    → (s.w.reqs req).gob ≡ some gob
    → req_has req_on_gob_list s.w req ≡ true
    → has gobf_inuse s.w.handles.cache gob ≡ true
    → (s.w.handles.cache.st gob).refcnt ≡ suc (suc (suc n))
    → (w' : Requests) × (req_free (suc fuel) now (sub_end_subscription s req).w req ≡ some w')
      × ((w'.handles.cache.st gob).refcnt ≡ suc n)
unfolding sub_end_subscription
req_free-sub_end_subscription fuel now s req gob n u e own on live c =
    let w1 = adjust_req req (λ r. record r { flags = bit_and r.flags 0xffffffe7 }) s.w in
    let w2 = give_up (unlink_gob w1 gob req) gob true in
    let still : bitset req_on_gob_list (bit_and (s.w.reqs req).flags 0xffffffe7) ≡ true =
      ground (arith, on, bitset-and 7 (s.w.reqs req).flags 0xffffffe7) in
    let own1 : (w1.reqs req).gob ≡ some gob = rw (==_self req) own in
    let on1 : req_has req_on_gob_list w1 req ≡ true = rw (==_self req) still in
    let ends : (sub_end_subscription s req).w ≡ w2 = take_off w1 gob req own1 on1 in
    let (c1, live1) = decref_one s.w.handles gob (suc n) live c in
    let (w', run, h) =
      ended_gives_up fuel now w1 req gob (rw (==_self req) u) (rw (==_self req) e) own1 in
    let (c2, live2) = decref_one (gob_decref s.w.handles gob true) gob n live1 c1 in
    (
      w',
      ap (λ v. req_free (suc fuel) now v req) ends ∙ run,
      ap (λ (v : Handles). (v.cache.st gob).refcnt) h ∙ c2,
    )
