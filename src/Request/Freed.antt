-- ===== src/Request/Freed.antt =====
-- Requests that are freed (`_gdp_req_free` of gdp/gdp_req.c), with their events.
use gdp.Base.{
  and_false, ℕ, ◌≡◌, refl, arith, sym, ap, ◌∙◌, true, false, ◌&&◌, Option, none, some, [], All,
  ◌==◌, if◌then◌else◌, ==_self, bitset, bit_and, bitset-and, Bool-cases, Option-cases, inl, inr,
}
use gdp.Cache.Steps.Invariant.{IsOther}
use gdp.Gobs.Sound.{by_object}
use gdp.Time.{TimeSpec}
use gdp.Event.{Queues, Req}
use gdp.Event.Queue.{trigger_pending}
use gdp.Event.Stuck.{has_done, trigger_pending_stuck}
use gdp.Request.{
  Request, Requests, req_has, req_persist, req_on_gob_list, req_on_chan_list, req_free_state,
}
use gdp.Request.Send.{unlink_gob}
use gdp.Request.Free.{unlink_chan, put_free_req, req_free, events_of, take_events}
use gdp.Request.Sound.{IsLinked-same, IsLinked-remove}
use gdp.Request.Steps.{
  on_gob, on_chan, at_head, IsConsistent, in_use, IsIdle-update_req, adjust_req-IsConsistent,
  masked, unmasked, unlink_gob-IsConsistent,
}

-- The request is on no list of a channel then, and what is kept of its object is as it was.
pub unlink_chan-IsConsistent :
    (w : Requests) (req : ℕ)
    → IsConsistent w
    → All (IsOther req) w.free_reqs
    → IsConsistent (unlink_chan w req)
      × ((h : ℕ) → on_chan ((unlink_chan w req).reqs req) h ≡ false)
      × ((unlink_chan w req).free_reqs ≡ w.free_reqs)
unfolding unlink_chan
unlink_chan-IsConsistent w req ok away = elim (Option-cases (w.reqs req).chan) [
  | inl n ↦
      rw (unlink_chan, n)
        (
          ok,
          λ h.
              ap (λ (c : Option ℕ). bitset req_on_chan_list (w.reqs req).flags && at_head c h) n
              ∙ and_false (bitset req_on_chan_list (w.reqs req).flags),
          refl,
        )
  | inr (chan, own) ↦ elim (Bool-cases (req_has req_on_chan_list w req)) [
    | inr l ↦ rw (unlink_chan, own, l) (ok, λ h. rw l refl, refl)
    | inl l ↦
        let x = (w.reqs req).flags in
        let f : Request → Request = λ r. record r { flags = bit_and r.flags 0xfffffeff } in
        let gone : bitset req_on_chan_list (bit_and x 0xfffffeff) ≡ false =
          ground (arith, bitset-and 8 x 0xfffffeff) in
        let kept : bitset req_on_gob_list (bit_and x 0xfffffeff) ≡ bitset req_on_gob_list x =
          ground (arith, bitset-and 7 x 0xfffffeff) in
        rw (unlink_chan, own, l)
          (
            record {
              gobs =
                  IsLinked-same _ _ _
                    (by_object _ req (λ h. rw (==_self req, kept) refl) (λ r p h. rw p refl))
                    ok.gobs;
              chans =
                  IsLinked-same _ _ _
                    (by_object _ req
                      (λ h.
                        rw (==_self req, own, gone)
                          (masked (bitset req_on_chan_list x) (h == chan)))
                      (λ r p h. rw p (unmasked (on_chan (w.reqs r) h) (h == chan))))
                    (IsLinked-remove w.chan_reqs _ chan req ok.chans);
              idle = IsIdle-update_req w req f ok away;
              distinct = ok.distinct;
            },
            λ h. rw (==_self req, gone) refl,
            refl,
          )
  ]
]

-- A request that is on no list goes to the free list.
put_free_req-IsConsistent :
    (w : Requests) (req : ℕ)
    → IsConsistent w
    → All (IsOther req) w.free_reqs
    → ((h : ℕ) → on_gob (w.reqs req) h ≡ false)
    → ((h : ℕ) → on_chan (w.reqs req) h ≡ false)
    → IsConsistent (put_free_req w req)
unfolding put_free_req
put_free_req-IsConsistent w req ok away g c =
    let f : Request → Request =
      λ r. record r { state = req_free_state; flags = 0; gob = none; rid = none; events = [] } in
    record {
      gobs =
          IsLinked-same _ _ _ (by_object _ req (λ h. rw (==_self req) (g h)) (λ r p h. rw p refl))
            ok.gobs;
      chans =
          IsLinked-same _ _ _ (by_object _ req (λ h. rw (==_self req) (c h)) (λ r p h. rw p refl))
            ok.chans;
      idle = (rw (==_self req) (refl, refl), IsIdle-update_req w req f ok away);
      distinct = (away, ok.distinct);
    }

took_events :
    (w : Requests) (req : ℕ) (q : Queues) (e : Req)
    → IsConsistent w
    → All (IsOther req) w.free_reqs
    → IsConsistent (take_events w req q e)
took_events w req q e ok away =
    adjust_req-IsConsistent (record w { queues = q }) req
      (λ r. record r { events = e.events; seqnext = e.seqnext; ev_to = e.ev_to })
      (record { gobs = ok.gobs; chans = ok.chans; idle = ok.idle; distinct = ok.distinct }) away
      (λ h. refl) (λ h. refl)

-- The lists and the flags agree after the removals from the lists.
unlinked :
    (w : Requests) (req : ℕ)
    → IsConsistent w
    → All (IsOther req) w.free_reqs
    → (w' : Requests) × (elim ((unlink_chan w req).reqs req).gob as (λ x. Option Requests) [
      | none ↦
          if req_has req_on_gob_list (unlink_chan w req) req
          then some (unlink_chan w req)
          else some (put_free_req (unlink_chan w req) req)
      | some gob ↦
          if req_has req_on_gob_list (unlink_chan w req) req
          then some (put_free_req (unlink_gob (unlink_chan w req) gob req) req)
          else some (put_free_req (unlink_chan w req) req)
    ]
        ≡ some w')
      × IsConsistent w'
unlinked w req ok away =
    let w2 = unlink_chan w req in
    let (fine, off, same) = unlink_chan-IsConsistent w req ok away in
    let away2 : All (IsOther req) w2.free_reqs = rw same away in
    let plain : req_has req_on_gob_list w2 req ≡ false → IsConsistent (put_free_req w2 req) =
      λ l. put_free_req-IsConsistent w2 req fine away2 (λ h. rw l refl) off in
    elim (Option-cases (w2.reqs req).gob) [
      | inl n ↦ elim (Bool-cases (req_has req_on_gob_list w2 req)) [
        | inl l ↦ (w2, rw (n, l) refl, fine)
        | inr l ↦ (put_free_req w2 req, rw (n, l) refl, plain l)
      ]
      | inr (gob, own) ↦ elim (Bool-cases (req_has req_on_gob_list w2 req)) [
        | inr l ↦ (put_free_req w2 req, rw (own, l) refl, plain l)
        | inl l ↦
            let w3 = unlink_gob w2 gob req in
            let (fine3, off3, chan3, same3) = unlink_gob-IsConsistent w2 gob req fine away2 own in
            let away3 : All (IsOther req) w3.free_reqs = rw same3 away2 in
            (
              put_free_req w3 req,
              rw (own, l) refl,
              put_free_req-IsConsistent w3 req fine3 away3 off3 (λ h. chan3 h ∙ off h),
            )
      ]
    ]

-- Freeing a request in use that persists and has the end of its results pending never ends: no fuel is
-- enough.
pub req_free_stuck :
    (fuel : ℕ) (now : TimeSpec) (w : Requests) (req : ℕ)
    → ((w.reqs req).state == req_free_state) ≡ false
    → req_has req_persist w req ≡ true
    → has_done w.queues.st (w.reqs req).events ≡ true
    → req_free fuel now w req ≡ none
unfolding req_free
req_free_stuck fuel now w req u p h =
    rw (req_free, u, trigger_pending_stuck fuel now w.queues (events_of (w.reqs req)) p h) refl

-- Whatever is freed with whatever fuel, the lists and the flags agree where it ends.
pub req_free-Keeps :
    (fuel : ℕ) (now : TimeSpec) (w w' : Requests) (req : ℕ)
    → IsConsistent w
    → req_free fuel now w req ≡ some w'
    → IsConsistent w'
unfolding req_free
req_free-Keeps fuel now w w' req ok e = elim (Bool-cases ((w.reqs req).state == req_free_state)) [
  | inl u ↦
      let both : some w ≡ some w' = sym (rw (req_free, u) refl) ∙ e in
      let same : w ≡ w' = cc both in rw (sym same) ok
  | inr u ↦ elim (Option-cases (trigger_pending fuel now true w.queues (events_of (w.reqs req)))) [
    | inl n ↦ let no : none ≡ some w' = sym (rw (req_free, u, n) refl) ∙ e in absurd (cc no)
    | inr ((q, r), run) ↦
        let away = in_use w req ok u in
        let (w2, ends, fine) =
          unlinked (take_events w req q r) req (took_events w req q r ok away) away in
        let both : some w2 ≡ some w' = sym (rw (req_free, u, run) ends) ∙ e in
        let same : w2 ≡ w' = cc both in rw (sym same) fine
  ]
]
