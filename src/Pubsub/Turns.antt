-- ===== src/Pubsub/Turns.antt =====
-- What the operations on one request leave of the others, and of its own place on the lists
-- (gdplogd/logd_pubsub.c, gdp/gdp_req.c).
use gdp.Base.{
  ℕ, suc, ◌≡◌, refl, arith, sym, ap, ◌∙◌, Bool, true, false, ◌&&◌, and_false, ◌++◌, Option, none,
  some, List, [], ◌∷◌, All, ◌==◌, if◌then◌else◌, ==_self, bitset, bit_and, bitset-and, Bool-cases,
  Option-cases, inl, inr,
}
use mathlib.Core.Path.{subst}
use gdp.Cache.Steps.Invariant.{IsOther}
use gdp.Time.{TimeSpec}
use gdp.Event.{Queues}
use gdp.Event.Queue.{trigger_pending}
use gdp.Request.{
  Request, Requests, req_has, req_on_gob_list, req_on_chan_list, req_free_state, adjust_req,
}
use gdp.Request.Send.{unlink_gob}
use gdp.Request.Free.{unlink_chan, put_free_req, req_free, events_of, take_events}
use gdp.Request.Steps.{
  on_gob, at_head, IsConsistent, adjust_req-IsConsistent, unlink_gob-IsConsistent,
}
use gdp.Request.Released.{unlink_chan_others, put_free_req_others, unlink_gob_others}
use gdp.Pubsub.{Subs, sub_end_subscription, give_up, end_dst}
use gdp.Pubsub.Loop.{with_handles-IsConsistent}
use gdp.Request.Freed.{req_free-Keeps}

-- An assignment after which a request in use is another one's business no more.
freed_on : (w : Requests) (req gob : ℕ) → on_gob ((put_free_req w req).reqs req) gob ≡ false
unfolding put_free_req
freed_on w req gob = rw (==_self req) refl

-- Freeing a request in use with no events ends, and leaves the other requests alone; the request is on the
-- list of no object then.
pub record IsGone (w w' : Requests) (req : ℕ) : Type 0 where
  pub consistent : IsConsistent w'
  pub unlisted : (h : ℕ) → on_gob (w'.reqs req) h ≡ false
  pub reqs : (x : ℕ) → (x == req) ≡ false → w'.reqs x ≡ w.reqs x

pub no_events :
    (fuel : ℕ) (now : TimeSpec) (q : Queues) (r : Request)
    → r.events ≡ []
    → trigger_pending (suc fuel) now true q (events_of r) ≡ some (q, events_of r)
unfolding trigger_pending
no_events fuel now q r e =
    rw (trigger_pending, e) (ap (λ (x : List ℕ). some (q, record (events_of r) { events = x })) e)

-- The end of `_gdp_req_free`, after the removal from the list of the channel.
gone_from :
    (w : Requests) (req : ℕ)
    → (w' : Requests) × (elim (w.reqs req).gob as (λ x. Option Requests) [
      | none ↦ if req_has req_on_gob_list w req then some w else some (put_free_req w req)
      | some gob ↦
          if req_has req_on_gob_list w req
          then some (put_free_req (unlink_gob w gob req) req)
          else some (put_free_req w req)
    ]
        ≡ some w')
      × ((h : ℕ) → on_gob (w'.reqs req) h ≡ false)
      × ((x : ℕ) → (x == req) ≡ false → w'.reqs x ≡ w.reqs x)
gone_from w req = elim (Option-cases (w.reqs req).gob) [
  | inl n ↦ elim (Bool-cases (req_has req_on_gob_list w req)) [
    | inl l ↦ (
      w,
      rw (n, l) refl,
      λ h.
          ap (λ (g : Option ℕ). bitset req_on_gob_list (w.reqs req).flags && at_head g h) n
          ∙ and_false _,
      λ x p. refl,
    )
    | inr l ↦ (put_free_req w req, rw (n, l) refl, freed_on w req, put_free_req_others w req)
  ]
  | inr (gob, own) ↦ elim (Bool-cases (req_has req_on_gob_list w req)) [
    | inl l ↦ (
      put_free_req (unlink_gob w gob req) req,
      rw (own, l) refl,
      freed_on (unlink_gob w gob req) req,
      λ x p. put_free_req_others (unlink_gob w gob req) req x p ∙ unlink_gob_others w gob req x p,
    )
    | inr l ↦ (put_free_req w req, rw (own, l) refl, freed_on w req, put_free_req_others w req)
  ]
]

pub req_free-IsGone :
    (fuel : ℕ) (now : TimeSpec) (w : Requests) (req : ℕ)
    → IsConsistent w
    → ((w.reqs req).state == req_free_state) ≡ false
    → (w.reqs req).events ≡ []
    → (w' : Requests) × (req_free (suc fuel) now w req ≡ some w') × IsGone w w' req
unfolding req_free
req_free-IsGone fuel now w req ok u e =
    let w1 = take_events w req w.queues (events_of (w.reqs req)) in
    let (w', ends, off, same) = gone_from (unlink_chan w1 req) req in
    let run : req_free (suc fuel) now w req ≡ some w' =
      rw (req_free, u, no_events fuel now w.queues (w.reqs req) e) ends in
    (
      w',
      run,
      record {
        consistent = req_free-Keeps (suc fuel) now w w' req ok run;
        unlisted = off;
        reqs = λ x p. same x p ∙ unlink_chan_others w1 req x p ∙ rw p refl;
      },
    )

-- The flags of a subscription, which leave those for the lists.
unmarked_on :
    (x : ℕ)
    → (bitset req_on_gob_list (bit_and x 0xffffffe7) ≡ bitset req_on_gob_list x)
      × (bitset req_on_chan_list (bit_and x 0xffffffe7) ≡ bitset req_on_chan_list x)
unmarked_on x =
    (ground (arith, bitset-and 7 x 0xffffffe7), ground (arith, bitset-and 8 x 0xffffffe7))

-- A subscription that is on the list of its object is ended: the lists and the flags agree then, the request
-- is not on the list, and one message goes out.
pub record IsEnded (s s' : Subs) (req : ℕ) : Type 0 where
  pub gone : IsGone s.w s'.w req
  pub sent :
      s'.out
      ≡ s.out
        ++ (record { dst = end_dst (s.subs req); rid = (s.w.reqs req).rid; is_end = true } ∷ [])
  pub subs : (x : ℕ) → (x == req) ≡ false → s'.subs x ≡ s.subs x

pub give_up-IsConsistent :
    (w : Requests) (gob : ℕ) (keeplocked : Bool)
    → IsConsistent w
    → IsConsistent (give_up w gob keeplocked)
unfolding give_up
give_up-IsConsistent w gob keeplocked ok = with_handles-IsConsistent w _ ok

pub take_off :
    (w : Requests) (gob req : ℕ)
    → (w.reqs req).gob ≡ some gob
    → req_has req_on_gob_list w req ≡ true
    → (elim (w.reqs req).gob as (λ x. Requests) [
      | none ↦ w
      | some g ↦ if req_has req_on_gob_list w req then give_up (unlink_gob w g req) g true else w
    ])
      ≡ give_up (unlink_gob w gob req) gob true
take_off w gob req own on = rw (own, on) refl

pub sub_end_subscription-IsEnded :
    (s : Subs) (gob req : ℕ)
    → IsConsistent s.w
    → All (IsOther req) s.w.free_reqs
    → (s.w.reqs req).gob ≡ some gob
    → req_has req_on_gob_list s.w req ≡ true
    → IsEnded s (sub_end_subscription s req) req
unfolding sub_end_subscription give_up
sub_end_subscription-IsEnded s gob req ok away own on =
    let f : Request → Request = λ r. record r { flags = bit_and r.flags 0xffffffe7 } in
    let w1 = adjust_req req f s.w in
    let (g, c) = unmarked_on (s.w.reqs req).flags in
    let fine : IsConsistent w1 =
      adjust_req-IsConsistent s.w req f ok away
        (λ h. ap (λ (b : Bool). b && at_head (s.w.reqs req).gob h) (sym g))
        (λ h. ap (λ (b : Bool). b && at_head (s.w.reqs req).chan h) (sym c)) in
    let own1 : (w1.reqs req).gob ≡ some gob = rw (==_self req) own in
    let on1 : req_has req_on_gob_list w1 req ≡ true = rw (==_self req) (g ∙ on) in
    let (fine2, off, chan, same) = unlink_gob-IsConsistent w1 gob req fine away own1 in
    let w2 = unlink_gob w1 gob req in
    let gone : IsGone s.w (give_up w2 gob true) req = record {
      consistent = give_up-IsConsistent w2 gob true fine2;
      unlisted = off;
      reqs = λ x p. unlink_gob_others w1 gob req x p ∙ rw p refl;
    } in
    record {
      gone = subst (λ v. IsGone s.w v req) (sym (take_off w1 gob req own1 on1)) gone;
      sent = refl;
      subs = λ x p. rw p refl;
    }
