-- ===== src/Pubsub/Notify.antt =====
-- What the subscribers of a log are told, and which of them stay (`sub_notify_all_subscribers` of
-- gdplogd/logd_pubsub.c).
use gdp.Base.{
  ℕ, suc, ◌≡◌, refl, arith, sym, ap, ◌∙◌, Bool, true, false, not, ◌&&◌, none, some, List, [], ◌∷◌,
  ◌++◌, append_assoc, append-nil, All, ◌==◌, if◌then◌else◌, ==_self, bitset, Bool-cases,
  Option-cases, inl, inr,
}
use gdp.Stat.{EpStat, stat_is_ok}
use gdp.Time.{TimeSpec, time_before}
use gdp.Gobs.Sound.{among}
use gdp.Request.{Request, Requests, req_has, req_on_gob_list}
use gdp.Request.Find.{listed}
use gdp.Request.Steps.{on_gob, IsConsistent}
use gdp.Pubsub.{
  Pdu, Sub, Subs, req_srv_subscr, sub_send_message_notification, tell, end_dst, update_sub,
  count_record, notify_one, sub_notify_all_subscribers, mark_gob, unmark_gob,
}
use gdp.Pubsub.Loop.{IsTurned, IsQuiet, told_all, loop_on_gob, IsCalm, with_handles-IsConsistent}
use gdp.Pubsub.Turns.{IsGone, req_free-IsGone, sub_end_subscription-IsEnded}

module _ (sub_timeout : TimeSpec) (pdu_out : ℕ → EpStat) (pubreq : ℕ) where
  -- A subscriber other than the publisher.
  abbrev pub is_subscriber : ℕ → Request → Bool
  is_subscriber r q = not (r == pubreq) && bitset req_srv_subscr q.flags

  abbrev pub is_dead : Sub → Bool
  is_dead b = time_before b.act_ts sub_timeout

  -- A subscriber that is told the record.
  unfoldable pub is_told : ℕ → Request → Sub → Bool
  is_told r q b =
      (is_subscriber r q && not (is_dead b))
      && ((elim q.rid [ none ↦ false | some rid ↦ true ]) && stat_is_ok (pdu_out r))

  -- The message of the record, and that of the end where it is the last one to come.
  unfoldable pub told_one : ℕ → Request → Sub → List Pdu
  told_one r q b =
      if is_told r q b
      then record { dst = b.src; rid = q.rid; is_end = false }
        ∷ (if b.numrecs == 1
            then record { dst = end_dst b; rid = q.rid; is_end = true } ∷ []
            else [])
      else []

  -- A subscriber leaves when it is dead, or is told its last record.
  unfoldable pub stays : ℕ → Request → Sub → Bool
  stays r q b = not (is_subscriber r q && is_dead b) && not (is_told r q b && (b.numrecs == 1))

  -- What nothing is done for.
  same_turn :
      (gob : ℕ) (s : Subs) (r : ℕ)
      → IsConsistent s.w
      → on_gob (s.w.reqs r) gob ≡ true
      → is_told r (s.w.reqs r) (s.subs r) ≡ false
      → (is_subscriber r (s.w.reqs r) && is_dead (s.subs r)) ≡ false
      → IsTurned gob told_one stays s s r
  unfolding told_one stays
  same_turn gob s r ok on t l = record {
    consistent = ok;
    sent = sym (append-nil s.out) ∙ ap (λ (p : List Pdu). s.out ++ p) (sym (rw (told_one, t) refl));
    listed = on ∙ rw (stays, t, l) refl;
    reqs = λ x p. refl;
    subs = λ x p. refl;
  }

  -- A subscriber that is told a record, and perhaps that it was the last one.
  told_turn :
      (gob : ℕ) (s : Subs) (r : ℕ)
      → IsConsistent s.w
      → on_gob (s.w.reqs r) gob ≡ true
      → is_told r (s.w.reqs r) (s.subs r) ≡ true
      → (is_subscriber r (s.w.reqs r) && is_dead (s.subs r)) ≡ false
      → stat_is_ok (pdu_out r) ≡ true
      → IsTurned gob told_one stays s (tell s r (pdu_out r)) r
  unfolding tell told_one stays sub_send_message_notification end_dst
  told_turn gob s r ok on t l g =
      let s1 = sub_send_message_notification s r in
      let s2 : Subs = record s1 { subs = update_sub r count_record s1.subs } in
      let (away, own) = listed s.w gob r ok (ok.gobs.members gob r ∙ on) in
      let flag : req_has req_on_gob_list s.w r ≡ true = ground (arith, on) in
      let note : Pdu = record { dst = (s.subs r).src; rid = (s.w.reqs r).rid; is_end = false } in
      elim (Bool-cases ((s.subs r).numrecs == 1)) [
        | inr n ↦
            rw (tell, g, n)
              (record {
                consistent = ok;
                sent = rw (told_one, t, n) refl;
                listed = on ∙ rw (stays, t, l, n) refl;
                reqs = λ x p. refl;
                subs = λ x p. rw p refl;
              })
        | inl n ↦
            let e = sub_end_subscription-IsEnded s2 gob r ok away own flag in
            let over : List ℕ → Pdu =
              λ d. record { dst = d; rid = (s.w.reqs r).rid; is_end = true } in
            let all : told_one r (s.w.reqs r) (s.subs r) ≡ note ∷ over (end_dst (s.subs r)) ∷ [] =
              rw (told_one, t, n) refl in
            let same : end_dst (update_sub r count_record s.subs r) ≡ end_dst (s.subs r) =
              rw (==_self r) refl in
            rw (tell, g, n)
              (record {
                consistent = e.gone.consistent;
                sent =
                    e.sent
                    ∙ append_assoc s.out (note ∷ []) (over (end_dst (s2.subs r)) ∷ [])
                    ∙ ap (λ d. s.out ++ (note ∷ over d ∷ [])) same
                    ∙ ap (λ (p : List Pdu). s.out ++ p) (sym all);
                listed = e.gone.unlisted gob ∙ rw (stays, t, l, n) refl;
                reqs = e.gone.reqs;
                subs = λ x p. e.subs x p ∙ rw p refl;
              })
      ]

  dead_turn :
      (gob : ℕ) (s : Subs) (w : Requests) (r : ℕ)
      → IsGone s.w w r
      → is_told r (s.w.reqs r) (s.subs r) ≡ false
      → (is_subscriber r (s.w.reqs r) && is_dead (s.subs r)) ≡ true
      → IsTurned gob told_one stays s (record s { w = w }) r
  unfolding told_one stays
  dead_turn gob s w r gone t l = record {
    consistent = gone.consistent;
    sent = sym (append-nil s.out) ∙ ap (λ (p : List Pdu). s.out ++ p) (sym (rw (told_one, t) refl));
    listed = gone.unlisted gob ∙ rw (stays, t, l) refl;
    reqs = gone.reqs;
    subs = λ x p. refl;
  }

  notify_one-IsTurned :
      (gob fuel : ℕ) (now : TimeSpec) (s : Subs) (r : ℕ)
      → IsConsistent s.w
      → IsQuiet gob (s.w.reqs r)
      → (s' : Subs) × (notify_one (suc fuel) now sub_timeout pdu_out pubreq s r ≡ some s')
        × IsTurned gob told_one stays s s' r
  unfolding notify_one is_told tell
  notify_one-IsTurned gob fuel now s r ok (on, busy, quiet) = elim (Bool-cases (r == pubreq)) [
    | inl p ↦
        (s, rw (notify_one, p) refl, same_turn gob s r ok on (rw (is_told, p) refl) (rw p refl))
    | inr p ↦ elim (Bool-cases (req_has req_srv_subscr s.w r)) [
      | inr f ↦ (
        s,
        rw (notify_one, p, f) refl,
        same_turn gob s r ok on (rw (is_told, p, f) refl) (rw (p, f) refl),
      )
      | inl f ↦ elim (Bool-cases (is_dead (s.subs r))) [
        | inl d ↦
            let (w, run, gone) = req_free-IsGone fuel now s.w r ok busy quiet in
            (
              record s { w = w },
              rw (notify_one, p, f, d, run) refl,
              dead_turn gob s w r gone (rw (is_told, p, f, d) refl) (rw (p, f, d) refl),
            )
        | inr d ↦ elim (Option-cases (s.w.reqs r).rid) [
          | inl i ↦ (
            s,
            rw (notify_one, p, f, d, i) refl,
            same_turn gob s r ok on (rw (is_told, p, f, d, i) refl) (rw (p, f, d) refl),
          )
          | inr (rid, i) ↦ elim (Bool-cases (stat_is_ok (pdu_out r))) [
            | inl g ↦ (
              tell s r (pdu_out r),
              rw (notify_one, p, f, d, i) refl,
              told_turn gob s r ok on (rw (is_told, p, f, d, i, g) refl) (rw (p, f, d) refl) g,
            )
            | inr g ↦ (
              s,
              rw (notify_one, p, f, d, i, tell, g) refl,
              same_turn gob s r ok on (rw (is_told, p, f, d, i, g) refl) (rw (p, f, d) refl),
            )
          ]
        ]
      ]
    ]
  ]

  -- Where the publisher has an answer, the lists and the flags of the requests agree, and those on the
  -- list of its object are in use and have no events: with any fuel but 0, the messages that go out are
  -- one for each subscriber that is neither the publisher nor dead and whose message can be written, in
  -- the order of the list, each followed by one for the end where it was its last record to come; the
  -- list has then those that were on it, less the dead subscribers and those told their last record; and
  -- the lists and the flags agree.
  pub sub_notify_all_subscribers-IsConsistent :
      (fuel : ℕ) (now : TimeSpec) (s : Subs) (gob : ℕ) (dst : List ℕ)
      → (s.subs pubreq).rpdu_dst ≡ some dst
      → IsConsistent s.w
      → All (λ (r : ℕ). IsCalm (s.w.reqs r)) (s.w.gob_reqs gob)
      → (s' : Subs) × (sub_notify_all_subscribers (suc fuel) now sub_timeout pdu_out s gob pubreq
          ≡ some s')
        × IsConsistent s'.w
        × (s'.out ≡ s.out ++ told_all gob told_one stays s.w.reqs s.subs (s.w.gob_reqs gob))
        × ((x : ℕ)
            → among x (s'.w.gob_reqs gob)
              ≡ among x (s.w.gob_reqs gob) && stays x (s.w.reqs x) (s.subs x))
  unfolding sub_notify_all_subscribers
  sub_notify_all_subscribers-IsConsistent fuel now s gob dst there ok all =
      let (s1, run, fine, sent, list) =
        loop_on_gob gob told_one stays (notify_one (suc fuel) now sub_timeout pdu_out pubreq)
          (notify_one-IsTurned gob fuel now) (mark_gob gob s) (with_handles-IsConsistent s.w _ ok)
          all in
      (
        unmark_gob gob s1,
        rw (sub_notify_all_subscribers, there, run) refl,
        with_handles-IsConsistent s1.w _ fine,
        sent,
        list,
      )
