-- ===== src/Pubsub/Reclaim.antt =====
-- Dead subscriptions that are removed (`gob_reclaim_subscriptions` of gdplogd/logd_pubsub.c).
use gdp.Base.{
  ℕ, zero, suc, ◌<◌, ◌≡◌, refl, arith, sym, ap, ◌∙◌, Bool, true, false, not, ◌&&◌, none, some, List,
  [], ◌∷◌, append-nil, length, All, ==_self, bitset, Bool-cases, Option-cases, inl, inr,
}
use gdp.Time.{TimeSpec, time_before}
use gdp.Cache.Steps.{has, gobf_islocked}
use gdp.Gobs.{gob_lock, gob_unlock}
use gdp.Gobs.Sound.{among}
use gdp.Request.{Request, Requests, req_has, req_on_gob_list}
use gdp.Request.Send.{unlink_gob}
use gdp.Request.Free.{req_free, unlink_chan}
use gdp.Request.Find.{listed}
use gdp.Request.Steps.{IsConsistent, unlink_gob-IsConsistent}
use gdp.Request.Freed.{unlink_chan-IsConsistent}
use gdp.Pubsub.{
  Sub, Subs, req_srv_subscr, detach_gob, give_up, unlink_dead, reclaim_one, reclaim_loop,
  gob_reclaim_subscriptions, each_req,
}
use gdp.Pubsub.Loop.{IsTurned, IsQuiet, IsCalm, loop_on_gob, with_handles-IsConsistent}
use gdp.Request.Released.{unlink_chan-IsKept, unlink_chan_others, unlink_gob_others}
use gdp.Pubsub.Turns.{IsGone, req_free-IsGone}
use gdp.Pubsub.End.{detach_gob-IsConsistent, unlisted_flag, nothing_told}

-- Where a request can never be locked, the loop goes round for ever: no number of turns is enough.
pub reclaim_loop_stuck :
    (turns fuel : ℕ) (now sub_timeout : TimeSpec) (tries : ℕ → ℕ → Bool) (gob : ℕ) (s : Subs)
    → (r : ℕ) (rs : List ℕ) → ((n : ℕ) → tries n r ≡ false)
    → reclaim_loop turns fuel now sub_timeout tries gob s (r ∷ rs) ≡ none
unfolding reclaim_loop
reclaim_loop_stuck zero fuel now sub_timeout tries gob s r rs h = refl
reclaim_loop_stuck (suc turns) fuel now sub_timeout tries gob s r rs h =
    rw (reclaim_loop, h turns) (reclaim_loop_stuck turns fuel now sub_timeout tries gob _ r rs h)

-- Where every request can be locked, one turn more than the list is long is enough, and the loop is one
-- round for each.
reclaim_loop-each_req :
    (turns fuel : ℕ) (now sub_timeout : TimeSpec) (tries : ℕ → ℕ → Bool) (gob : ℕ) (s : Subs)
    → (rs : List ℕ) → ((n r : ℕ) → tries n r ≡ true)
    → length rs < turns
    → reclaim_loop turns fuel now sub_timeout tries gob s rs
      ≡ each_req (reclaim_one fuel now sub_timeout gob) s rs
unfolding reclaim_loop each_req
reclaim_loop-each_req zero fuel now sub_timeout tries gob s rs h l = absurd (omega (arith, l))
reclaim_loop-each_req (suc turns) fuel now sub_timeout tries gob s [] h l = refl
reclaim_loop-each_req (suc turns) fuel now sub_timeout tries gob s (r ∷ rs) h l =
    elim (Option-cases (reclaim_one fuel now sub_timeout gob s r)) [
      | inl n ↦ rw (reclaim_loop, each_req, h turns r, n) refl
      | inr (s1, e) ↦
          rw (reclaim_loop, each_req, h turns r, e)
            (reclaim_loop-each_req turns fuel now sub_timeout tries gob s1 rs h (omega (arith, l)))
    ]

module _ (sub_timeout : TimeSpec) (gob : ℕ) where
  unfoldable pub is_expired : Request → Sub → Bool
  is_expired q b = bitset req_srv_subscr q.flags && time_before b.act_ts sub_timeout

  abbrev survives : ℕ → Request → Sub → Bool
  survives r q b = not (is_expired q b)

  -- A dead subscription is taken off its lists, gives its object up, and is freed.
  freed_dead :
      (fuel : ℕ) (now : TimeSpec) (w : Requests) (req : ℕ)
      → IsConsistent w
      → IsQuiet gob (w.reqs req)
      → (w' : Requests) × (req_free (suc fuel) now (unlink_dead w gob req) req ≡ some w')
        × IsGone w w' req
  unfolding unlink_dead give_up unlink_gob
  freed_dead fuel now w req ok (on, busy, quiet) =
      let flag : req_has req_on_gob_list w req ≡ true = ground (arith, on) in
      let (away, own) = listed w gob req ok (ok.gobs.members gob req ∙ on) in
      let (fine1, off, chan, same) = unlink_gob-IsConsistent w gob req ok away own in
      let w1 = unlink_gob w gob req in
      let (fine2, off2, same2) = unlink_chan-IsConsistent w1 req fine1 away in
      let w2 = unlink_chan w1 req in
      let k = unlink_chan-IsKept w1 req in
      let w3 = detach_gob w2 gob req true in
      let fine3 : IsConsistent w3 =
        detach_gob-IsConsistent w2 gob req true fine2 (rw same2 away)
          (k.listed ∙ unlisted_flag w gob req) in
      let dead : unlink_dead w gob req ≡ w3 = rw (unlink_dead, flag) refl in
      let state : (w2.reqs req).state ≡ (w.reqs req).state = k.state ∙ rw (==_self req) refl in
      let (w', run, gone) =
        req_free-IsGone fuel now w3 req fine3 (rw (==_self req, state) busy)
          (rw (==_self req) (k.events ∙ rw (==_self req) quiet)) in
      (
        w',
        ap (λ v. req_free (suc fuel) now v req) dead ∙ run,
        record {
          consistent = gone.consistent;
          unlisted = gone.unlisted;
          reqs = λ x p.
              gone.reqs x p
              ∙ rw p (unlink_chan_others w1 req x p ∙ unlink_gob_others w gob req x p);
        },
      )

  reclaim_one-IsTurned :
      (fuel : ℕ) (now : TimeSpec) (s : Subs) (r : ℕ)
      → IsConsistent s.w
      → IsQuiet gob (s.w.reqs r)
      → (s' : Subs) × (reclaim_one (suc fuel) now sub_timeout gob s r ≡ some s')
        × IsTurned gob nothing_told survives s s' r
  unfolding reclaim_one is_expired
  reclaim_one-IsTurned fuel now s r ok (on, busy, quiet) =
      let keeps : is_expired (s.w.reqs r) (s.subs r) ≡ false
          → IsTurned gob nothing_told survives s s r =
        λ e. record {
          consistent = ok;
          sent = sym (append-nil s.out);
          listed = on ∙ rw e refl;
          reqs = λ x p. refl;
          subs = λ x p. refl;
        } in
      elim (Bool-cases (req_has req_srv_subscr s.w r)) [
        | inr f ↦ (s, rw (reclaim_one, f) refl, keeps (rw (is_expired, f) refl))
        | inl f ↦ elim (Bool-cases (time_before (s.subs r).act_ts sub_timeout)) [
          | inr d ↦ (s, rw (reclaim_one, f, d) refl, keeps (rw (is_expired, f, d) refl))
          | inl d ↦
              let (w, run, gone) = freed_dead fuel now s.w r ok (on, busy, quiet) in
              (
                record s { w = w },
                rw (reclaim_one, f, d, run) refl,
                record {
                  consistent = gone.consistent;
                  sent = sym (append-nil s.out);
                  listed = gone.unlisted gob ∙ rw (is_expired, f, d) refl;
                  reqs = gone.reqs;
                  subs = λ x p. refl;
                },
              )
        ]
      ]

  -- Where the lists and the flags of the requests agree, those on the list of the object are in use and have
  -- no events, nobody holds the object, and every request can be locked: with one turn more than the list is
  -- long, exactly the subscriptions whose last activity is before the limit leave the list, and the lists
  -- and the flags agree then.
  pub gob_reclaim_subscriptions-IsConsistent :
      (turns fuel : ℕ) (now : TimeSpec) (tries : ℕ → ℕ → Bool) (s : Subs)
      → IsConsistent s.w
      → All (λ (r : ℕ). IsCalm (s.w.reqs r)) (s.w.gob_reqs gob)
      → has gobf_islocked s.w.handles.cache gob ≡ false
      → ((n r : ℕ) → tries n r ≡ true)
      → length (s.w.gob_reqs gob) < turns
      → (s' : Subs) × (gob_reclaim_subscriptions turns (suc fuel) now sub_timeout tries s (some gob)
          ≡ some s')
        × IsConsistent s'.w
        × ((x : ℕ)
            → among x (s'.w.gob_reqs gob)
              ≡ among x (s.w.gob_reqs gob) && not (is_expired (s.w.reqs x) (s.subs x)))
  unfolding gob_reclaim_subscriptions
  gob_reclaim_subscriptions-IsConsistent turns fuel now tries s ok all free h l =
      let s1 : Subs = record s { w = record s.w { handles = gob_lock s.w.handles gob } } in
      let (s2, run, fine, sent, list) =
        loop_on_gob gob nothing_told survives (reclaim_one (suc fuel) now sub_timeout gob)
          (reclaim_one-IsTurned fuel now) s1 (with_handles-IsConsistent s.w _ ok) all in
      (
        record s2 { w = record s2.w { handles = gob_unlock s2.w.handles gob } },
        rw
            (
              gob_reclaim_subscriptions,
              free,
              reclaim_loop-each_req turns (suc fuel) now sub_timeout tries gob s1 (s.w.gob_reqs gob)
                  h l,
              run,
            )
            refl,
        with_handles-IsConsistent s2.w _ fine,
        list,
      )
