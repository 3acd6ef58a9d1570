-- ===== src/Pubsub/End.antt =====
-- Subscriptions that are ended for a client (`sub_end_all_subscriptions` of gdplogd/logd_pubsub.c), and one
-- that is ended and then freed.
use gdp.Base.{
  ℕ, suc, ◌≡◌, refl, arith, sym, ap, ◌∙◌, Bool, false, not, ◌&&◌, none, some, List, [], ◌∷◌, ◌++◌,
  append-nil, All, if◌then◌else◌, ==_self, bitset, bit_and, bitset-and, Bool-cases, inl, inr,
}
use gdp.Time.{TimeSpec}
use gdp.Cache.Steps.Invariant.{IsOther}
use gdp.Cache.{gobf_inuse}
use gdp.Cache.Steps.{has}
use gdp.Gobs.Sound.{among}
use gdp.Request.{Request, Requests, req_has, req_on_gob_list}
use gdp.Request.Send.{unlink_gob}
use gdp.Request.Free.{req_free}
use gdp.Request.Find.{listed}
use gdp.Request.Steps.{IsConsistent, adjust_req-IsConsistent, unlink_gob-IsConsistent}
use gdp.Pubsub.{
  Pdu, Sub, Subs, detach_gob, give_up, ends_for, end_one, sub_end_all_subscriptions, mark_gob,
  unmark_gob,
}
use gdp.Pubsub.Loop.{IsTurned, IsQuiet, told_all, loop_on_gob, IsCalm, with_handles-IsConsistent}
use gdp.Pubsub.Turns.{IsGone, req_free-IsGone, give_up-IsConsistent}

abbrev pub nothing_told : ℕ → Request → Sub → List Pdu
nothing_told r q b = []

-- A request that is not on the list of its object gives the object up.
pub detach_gob-IsConsistent :
    (w : Requests) (gob req : ℕ) (keeplocked : Bool)
    → IsConsistent w
    → All (IsOther req) w.free_reqs
    → req_has req_on_gob_list w req ≡ false
    → IsConsistent (detach_gob w gob req keeplocked)
unfolding give_up
detach_gob-IsConsistent w gob req keeplocked ok away off =
    adjust_req-IsConsistent (give_up w gob keeplocked) req
      (λ r. record r { gob = if has gobf_inuse w.handles.cache gob then none else r.gob })
      (give_up-IsConsistent w gob keeplocked ok) away (λ h. rw off refl) (λ h. refl)

pub unlisted_flag :
    (w : Requests) (gob req : ℕ) → req_has req_on_gob_list (unlink_gob w gob req) req ≡ false
unfolding unlink_gob
unlisted_flag w gob req =
    let gone : bitset req_on_gob_list (bit_and (w.reqs req).flags 0xffffff7f) ≡ false =
      ground (arith, bitset-and 7 (w.reqs req).flags 0xffffff7f) in
    rw (==_self req) gone

module _ (dest : List ℕ) (rid : ℕ) (gob : ℕ) where
  -- A request that is not for the client and the identifier stays.
  unfoldable pub remains : ℕ → Request → Sub → Bool
  remains r q b = not (ends_for gob dest rid q b)

  -- A request on the list is taken off it, gives its object up, and is freed.
  freed :
      (fuel : ℕ) (now : TimeSpec) (w : Requests) (req : ℕ)
      → IsConsistent w
      → IsQuiet gob (w.reqs req)
      → (w' : Requests) × (req_free
            (suc fuel)
            now
            (detach_gob (unlink_gob w gob req) gob req false)
            req
          ≡ some w')
        × IsGone w w' req
  unfolding give_up unlink_gob
  freed fuel now w req ok (on, busy, quiet) =
      let (away, own) = listed w gob req ok (ok.gobs.members gob req ∙ on) in
      let (fine, off, chan, same) = unlink_gob-IsConsistent w gob req ok away own in
      let w1 = detach_gob (unlink_gob w gob req) gob req false in
      let fine1 : IsConsistent w1 =
        detach_gob-IsConsistent (unlink_gob w gob req) gob req false fine away
          (unlisted_flag w gob req) in
      let (w', run, gone) =
        req_free-IsGone fuel now w1 req fine1 (rw (==_self req) busy) (rw (==_self req) quiet) in
      (
        w',
        run,
        record {
          consistent = gone.consistent;
          unlisted = gone.unlisted;
          reqs = λ x p. gone.reqs x p ∙ rw p refl;
        },
      )

  end_one-IsTurned :
      (fuel : ℕ) (now : TimeSpec) (s : Subs) (r : ℕ)
      → IsConsistent s.w
      → IsQuiet gob (s.w.reqs r)
      → (s' : Subs) × (end_one (suc fuel) now gob dest rid s r ≡ some s')
        × IsTurned gob nothing_told remains s s' r
  unfolding end_one remains
  end_one-IsTurned fuel now s r ok (on, busy, quiet) =
      elim (Bool-cases (ends_for gob dest rid (s.w.reqs r) (s.subs r))) [
        | inr e ↦ (
          s,
          rw (end_one, e) refl,
          record {
            consistent = ok;
            sent = sym (append-nil s.out);
            listed = on ∙ rw e refl;
            reqs = λ x p. refl;
            subs = λ x p. refl;
          },
        )
        | inl e ↦
            let (w, run, gone) = freed fuel now s.w r ok (on, busy, quiet) in
            (
              record s { w = w },
              rw (end_one, e, run) refl,
              record {
                consistent = gone.consistent;
                sent = sym (append-nil s.out);
                listed = gone.unlisted gob ∙ rw e refl;
                reqs = gone.reqs;
                subs = λ x p. refl;
              },
            )
      ]

  nothing_out : (s : Subs) (rs : List ℕ) → told_all gob nothing_told remains s.w.reqs s.subs rs ≡ []
  unfolding told_all
  nothing_out s [] = refl
  nothing_out s (r ∷ rs) = nothing_out s rs

  -- Where the lists and the flags of the requests agree, and those on the list of the object are in use and
  -- have no events: with any fuel but 0, exactly the requests on the list whose command was sent to the
  -- name, with the identifier unless that is the one for none, leave it; nothing goes out, and the
  -- lists and the flags agree then.
  pub sub_end_all_subscriptions-IsConsistent :
      (fuel : ℕ) (now : TimeSpec) (s : Subs)
      → IsConsistent s.w
      → All (λ (r : ℕ). IsCalm (s.w.reqs r)) (s.w.gob_reqs gob)
      → (s' : Subs) × (sub_end_all_subscriptions (suc fuel) now s gob dest rid ≡ some s')
        × IsConsistent s'.w
        × (s'.out ≡ s.out)
        × ((x : ℕ)
            → among x (s'.w.gob_reqs gob)
              ≡ among x (s.w.gob_reqs gob) && not (ends_for gob dest rid (s.w.reqs x) (s.subs x)))
  unfolding sub_end_all_subscriptions remains
  sub_end_all_subscriptions-IsConsistent fuel now s ok all =
      let (s1, run, fine, sent, list) =
        loop_on_gob gob nothing_told remains (end_one (suc fuel) now gob dest rid)
          (end_one-IsTurned fuel now) (mark_gob gob s) (with_handles-IsConsistent s.w _ ok) all in
      (
        unmark_gob gob s1,
        rw (sub_end_all_subscriptions, run) refl,
        with_handles-IsConsistent s1.w _ fine,
        sent
            ∙ ap (λ (x : List Pdu). s.out ++ x) (nothing_out s (s.w.gob_reqs gob))
            ∙ append-nil s.out,
        list,
      )
