-- ===== src/Pubsub.antt =====
-- Subscribers of a log (gdplogd/logd_pubsub.c). A subscription is a request on the list of its object; a
-- loop over that list takes the next request before it does anything to the one at hand, and nothing but
-- the one at hand is taken off, so the loop is over the list as it is at the start.
pub mod Loop
pub mod Turns
pub mod Notify
pub mod End
pub mod Twice
pub mod Reclaim
use gdp.Base.{
  ℕ, suc, ◌+◌, ◌-◌, ◌≡◌, Bool, true, false, not, ◌&&◌, ◌||◌, Option, none, some, List, [], ◌∷◌,
  ◌++◌, if◌then◌else◌, ◌==◌, ltb, leb, bitset, bit_and, bit_or, zero,
}
use gdp.Stat.{EpStat, stat_is_ok}
use gdp.Time.{TimeSpec, time_before}
use gdp.Cache.Steps.{has, gobf_islocked, list_remove}
use gdp.Gobs.{
  Handles, adjust, set_flags, keep_flags, gobf_keeplocked, gob_decref, gob_lock, gob_unlock,
}
use gdp.Request.{
  Request, Requests, req_has, req_on_gob_list, req_on_chan_list, update_req, adjust_req,
  update_list,
}
use gdp.Request.Send.{unlink_gob}
use gdp.Request.Free.{req_free, unlink_chan}
use gdp.Hash.{same_key}
use gdp.Cache.{gobf_inuse}

abbrev pub req_srv_subscr : ℕ
req_srv_subscr = 0x08

abbrev pub pdu_no_rid : ℕ
pdu_no_rid = 0

-- What goes out: where to, the identifier, and whether it says that the subscription is over.
pub record Pdu : Type 0 where
  pub dst : List ℕ
  pub rid : Option ℕ
  pub is_end : Bool

-- The members of a request for its subscription: the ends of the command, the last activity, the records
-- still to come, the next one, and where the answer that it has goes, if it has one.
pub record Sub : Type 0 where
  pub src : List ℕ
  pub dst : List ℕ
  pub act_ts : TimeSpec
  pub numrecs : ℕ
  pub nextrec : ℕ
  pub rpdu_dst : Option (List ℕ)

-- The requests, their subscriptions, and what went out.
pub record Subs : Type 0 where
  pub w : Requests
  pub subs : ℕ → Sub
  pub out : List Pdu

abbrev pub update_sub : ℕ → (Sub → Sub) → (ℕ → Sub) → ℕ → Sub
update_sub req f subs r = if r == req then f (subs r) else subs r

-- Where the message that a subscription is over goes.
unfoldable pub end_dst : Sub → List ℕ
end_dst b = elim b.rpdu_dst [ none ↦ b.src | some dst ↦ dst ]

unfoldable pub give_up : Requests → (gob : ℕ) → (keeplocked : Bool) → Requests
give_up w gob keeplocked = record w { handles = gob_decref w.handles gob keeplocked }

-- `sub_end_subscription` for a request of an object.
unfoldable pub sub_end_subscription : Subs → ℕ → Subs
sub_end_subscription s req =
    let w1 = adjust_req req (λ r. record r { flags = bit_and r.flags 0xffffffe7 }) s.w in
    let b = s.subs req in
    let pdu : Pdu = record { dst = end_dst b; rid = (s.w.reqs req).rid; is_end = true } in
    record {
      w = elim (w1.reqs req).gob [
        | none ↦ w1
        | some gob ↦
            if req_has req_on_gob_list w1 req then give_up (unlink_gob w1 gob req) gob true else w1
      ];
      subs = update_sub req (λ x. record x { rpdu_dst = some (end_dst x) }) s.subs;
      out = s.out ++ (pdu ∷ []);
    }

-- `sub_send_message_notification`, where it succeeds.
unfoldable pub sub_send_message_notification : Subs → ℕ → Subs
sub_send_message_notification s req =
    let pdu : Pdu = record { dst = (s.subs req).src; rid = (s.w.reqs req).rid; is_end = false } in
    record s { out = s.out ++ (pdu ∷ []) }

-- A record less to come.
abbrev pub count_record : Sub → Sub
count_record b = record b { nextrec = suc b.nextrec; numrecs = b.numrecs - 1 }

-- What is done for a subscriber that is not dead; `estat` is the status of `_gdp_pdu_out`.
unfoldable pub tell : Subs → (req : ℕ) → (estat : EpStat) → Subs
tell s req estat =
    let s1 = sub_send_message_notification s req in
    let s2 : Subs = record s1 { subs = update_sub req count_record s1.subs } in
    if not (stat_is_ok estat)
    then s
    else if (s.subs req).numrecs == 1
    then sub_end_subscription s2 req
    else s2

-- The rounds of a loop over the list of an object.
unfoldable pub each_req : (Subs → ℕ → Option Subs) → Subs → List ℕ → Option Subs
each_req turn s [] = some s
each_req turn s (r ∷ rs) = elim (turn s r) [ none ↦ none | some s1 ↦ each_req turn s1 rs ]

unfoldable pub notify_one :
    (fuel : ℕ) (now sub_timeout : TimeSpec) (pdu_out : ℕ → EpStat) (pubreq : ℕ)
    → Subs
    → ℕ
    → Option Subs
notify_one fuel now sub_timeout pdu_out pubreq s req =
    if req == pubreq
    then some s
    else if not (req_has req_srv_subscr s.w req)
    then some s
    else if not (time_before (s.subs req).act_ts sub_timeout)
    then (elim (s.w.reqs req).rid [ none ↦ some s | some rid ↦ some (tell s req (pdu_out req)) ])
    else (elim (req_free fuel now s.w req) [ none ↦ none | some w ↦ some (record s { w = w }) ])

abbrev pub mark_gob : ℕ → Subs → Subs
mark_gob gob s = record s {
  w = record s.w { handles = adjust gob (set_flags gobf_keeplocked) s.w.handles };
}

abbrev pub unmark_gob : ℕ → Subs → Subs
unmark_gob gob s = record s {
  w = record s.w { handles = adjust gob (keep_flags 0xffffffdf) s.w.handles };
}

-- `sub_notify_all_subscribers`, which does nothing for a publisher without an answer (here an answer has
-- its message; where it goes then, as the notifications say it, is not kept): `sub_timeout` is the time
-- before which a subscriber is dead, `pdu_out` the status of `_gdp_pdu_out` for each request, and `fuel`
-- is for the events of a request that is freed.
unfoldable pub sub_notify_all_subscribers :
    (fuel : ℕ) (now sub_timeout : TimeSpec) (pdu_out : ℕ → EpStat)
    → Subs
    → (gob pubreq : ℕ) → Option Subs
sub_notify_all_subscribers fuel now sub_timeout pdu_out s gob pubreq =
    let turn = notify_one fuel now sub_timeout pdu_out pubreq in
    elim (s.subs pubreq).rpdu_dst [
      | none ↦ some s
      | some dst ↦ elim (each_req turn (mark_gob gob s) (s.w.gob_reqs gob)) [
        | none ↦ none
        | some s1 ↦ some (unmark_gob gob s1)
      ]
    ]

-- `_gdp_gob_decref` of the object that a request points to, which it no longer does then where the object
-- is in use.
abbrev pub detach_gob : Requests → (gob req : ℕ) → (keeplocked : Bool) → Requests
detach_gob w gob req keeplocked =
    adjust_req req
      (λ r. record r { gob = if has gobf_inuse w.handles.cache gob then none else r.gob })
      (give_up w gob keeplocked)

-- Whether the loop of `sub_end_all_subscriptions` ends a subscription; `rid` is
-- GDP_PDU_NO_RID for any.
unfoldable pub ends_for : (gob : ℕ) (dest : List ℕ) (rid : ℕ) → Request → Sub → Bool
ends_for gob dest rid r b =
    same_key b.dst dest
    && (((rid == pdu_no_rid) || (elim r.rid [ none ↦ false | some own ↦ rid == own ]))
        && (elim r.gob [ none ↦ false | some g ↦ g == gob ]))

unfoldable pub end_one :
    (fuel : ℕ) (now : TimeSpec) (gob : ℕ) (dest : List ℕ) (rid : ℕ) → Subs → ℕ → Option Subs
end_one fuel now gob dest rid s req =
    let w1 = detach_gob (unlink_gob s.w gob req) gob req false in
    if not (ends_for gob dest rid (s.w.reqs req) (s.subs req))
    then some s
    else (elim (req_free fuel now w1 req) [ none ↦ none | some w ↦ some (record s { w = w }) ])

-- `sub_end_all_subscriptions`, where every request can be locked.
unfoldable pub sub_end_all_subscriptions :
    (fuel : ℕ) (now : TimeSpec) → Subs → (gob : ℕ) → (dest : List ℕ) (rid : ℕ) → Option Subs
sub_end_all_subscriptions fuel now s gob dest rid =
    elim (each_req (end_one fuel now gob dest rid) (mark_gob gob s) (s.w.gob_reqs gob)) [
      | none ↦ none
      | some s1 ↦ some (unmark_gob gob s1)
    ]

-- The removals before a dead subscription is freed.
unfoldable pub unlink_dead : Requests → (gob req : ℕ) → Requests
unlink_dead w gob req =
    let w1 = if req_has req_on_gob_list w req then unlink_gob w gob req else w in
    detach_gob (unlink_chan w1 req) gob req true

unfoldable pub reclaim_one :
    (fuel : ℕ) (now sub_timeout : TimeSpec) (gob : ℕ) → Subs → ℕ → Option Subs
reclaim_one fuel now sub_timeout gob s req =
    if not (req_has req_srv_subscr s.w req)
    then some s
    else if time_before (s.subs req).act_ts sub_timeout
    then (elim (req_free fuel now (unlink_dead s.w gob req) req) [
      | none ↦ none
      | some w ↦ some (record s { w = w })
    ])
    else some s

-- The loop of `gob_reclaim_subscriptions`: `tries` says whether a request can be locked on a turn. Where it
-- cannot, the object is unlocked and the request is tried again. `none` is no fuel left.
unfoldable pub reclaim_loop :
    (turns fuel : ℕ) (now sub_timeout : TimeSpec) (tries : ℕ → ℕ → Bool) (gob : ℕ)
    → Subs
    → List ℕ
    → Option Subs
reclaim_loop zero fuel now sub_timeout tries gob s rs = none
reclaim_loop (suc turns) fuel now sub_timeout tries gob s [] = some s
reclaim_loop (suc turns) fuel now sub_timeout tries gob s (r ∷ rs) =
    if not (tries turns r)
    then reclaim_loop turns fuel now sub_timeout tries gob
        (record s { w = record s.w { handles = gob_unlock s.w.handles gob } }) (r ∷ rs)
    else (elim (reclaim_one fuel now sub_timeout gob s r) [
      | none ↦ none
      | some s1 ↦ reclaim_loop turns fuel now sub_timeout tries gob s1 rs
    ])

-- `gob_reclaim_subscriptions`, where no other thread holds the object.
unfoldable pub gob_reclaim_subscriptions :
    (turns fuel : ℕ) (now sub_timeout : TimeSpec) (tries : ℕ → ℕ → Bool)
    → Subs
    → Option ℕ
    → Option Subs
gob_reclaim_subscriptions turns fuel now sub_timeout tries s none = some s
gob_reclaim_subscriptions turns fuel now sub_timeout tries s (some gob) =
    let s1 : Subs = record s { w = record s.w { handles = gob_lock s.w.handles gob } } in
    if has gobf_islocked s.w.handles.cache gob
    then some s
    else (elim (reclaim_loop turns fuel now sub_timeout tries gob s1 (s.w.gob_reqs gob)) [
      | none ↦ none
      | some s2 ↦ some (record s2 { w = record s2.w { handles = gob_unlock s2.w.handles gob } })
    ])
