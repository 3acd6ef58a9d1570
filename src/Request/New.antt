-- ===== src/Request/New.antt =====
-- New requests (`_gdp_req_new` of gdp/gdp_req.c).
use gdp.Base.{
  ℕ, ◌≡◌, refl, arith, sym, ap, ◌∙◌, Bool, true, false, ◌&&◌, Option, none, some, List, [], ◌∷◌,
  All, if◌then◌else◌, ==_self, bitset, bit_or, bitset-or, Bool-cases, inl, inr, ◌⊎◌,
}
use mathlib.Core.Path.{subst}
use gdp.Cache.Steps.Invariant.{IsOther, IsDistinct}
use gdp.Gobs.Sound.{among, by_object}
use gdp.Request.{
  Request, Requests, adjust_req, req_has, req_on_gob_list, req_on_chan_list, req_asyncio,
  req_alloc_rid, req_active, req_candidate, link_chan, gob_locked, take_req, init_req, req_rid,
  req_flags, req_chan, req_new,
}
use gdp.Request.Sound.{IsLinked-same, IsLinked-insert}
use gdp.Request.Steps.{
  on_gob, on_chan, at_head, IsConsistent, IsIdle, IsIdle-update_req, adjust_req-IsConsistent,
}

-- Memory that is found for a request: no list has it.
pub record IsUnused (w : Requests) (mem : ℕ) : Type 0 where
  pub free : All (IsOther mem) w.free_reqs
  pub gobs : (h : ℕ) → among mem (w.gob_reqs h) ≡ false
  pub chans : (h : ℕ) → among mem (w.chan_reqs h) ≡ false

-- A request that is no longer, or not yet, on any list.
record IsApart (w : Requests) (req : ℕ) : Type 0 where
  free : All (IsOther req) w.free_reqs
  gobs : (h : ℕ) → on_gob (w.reqs req) h ≡ false
  chans : (h : ℕ) → on_chan (w.reqs req) h ≡ false

List-cases : (xs : List ℕ) → (xs ≡ []) ⊎ ((x : ℕ) × (ys : List ℕ) × (xs ≡ x ∷ ys))
List-cases [] = inl refl
List-cases (x ∷ xs) = inr (x, xs, refl)

-- The memory of a new request is on no list, and the lists and the flags agree.
take_req-IsConsistent :
    (w : Requests) (mem : ℕ)
    → IsConsistent w
    → IsUnused w mem
    → IsConsistent (take_req w mem).0 × IsApart (take_req w mem).0 (take_req w mem).1
unfolding take_req req_candidate
take_req-IsConsistent w mem ok new = elim (List-cases w.free_reqs) [
  | inl none_free ↦
      let away : All (IsOther mem) w.free_reqs = new.free in
      rw (take_req, none_free, req_candidate)
        (
          record {
            gobs =
                IsLinked-same _ _ _
                  (by_object _ mem
                    (λ h. rw (==_self mem) (sym (ok.gobs.members h mem) ∙ new.gobs h))
                    (λ r p h. rw p refl))
                  ok.gobs;
            chans =
                IsLinked-same _ _ _
                  (by_object _ mem
                    (λ h. rw (==_self mem) (sym (ok.chans.members h mem) ∙ new.chans h))
                    (λ r p h. rw p refl))
                  ok.chans;
            idle = rw none_free tt;
            distinct = rw none_free tt;
          },
          record {
            free = rw none_free tt;
            gobs = λ h. rw (==_self mem) refl;
            chans = λ h. rw (==_self mem) refl;
          },
        )
  | inr (r, rs, some_free) ↦
      let idle : All (λ (r : ℕ). IsIdle (w.reqs r)) (r ∷ rs) =
        subst (All (λ (r : ℕ). IsIdle (w.reqs r))) some_free ok.idle in
      let distinct : IsDistinct (r ∷ rs) = subst IsDistinct some_free ok.distinct in
      let state : (w.reqs r).state ≡ 0 = idle.0.0 in
      let flags : (w.reqs r).flags ≡ 0 = idle.0.1 in
      rw (take_req, some_free, req_candidate, state, flags)
        (
          record {
            gobs = ok.gobs;
            chans = ok.chans;
            idle = rw some_free idle.1;
            distinct = rw some_free distinct.1;
          },
          record {
            free = rw some_free distinct.0;
            gobs = λ h. rw flags refl;
            chans = λ h. rw flags refl;
          },
        )
]

-- The flags that a caller may give: a request is on no list yet.
abbrev pub IsCallerFlags : ℕ → Type 0
IsCallerFlags flags =
    (bitset req_on_gob_list flags ≡ false) × (bitset req_on_chan_list flags ≡ false)

req_flags-IsCallerFlags : (flags : ℕ) → IsCallerFlags flags → IsCallerFlags (req_flags flags)
unfolding req_flags
req_flags-IsCallerFlags flags (g, c) = elim (Bool-cases (bitset req_asyncio flags)) [
  | inr a ↦ rw (req_flags, a) (g, c)
  | inl a ↦
      rw (req_flags, a)
        (
          ground (arith, g, bitset-or 7 flags req_alloc_rid),
          ground (arith, c, bitset-or 8 flags req_alloc_rid),
        )
]

-- A request that is on no list is set up, and is on none then.
init_req-IsConsistent :
    (w : Requests) (req : ℕ) (is_command : Bool) (gob chan pdu : Option ℕ) (flags : ℕ)
    → IsConsistent w
    → IsApart w req
    → IsCallerFlags flags
    → IsConsistent (init_req w req is_command gob chan pdu flags)
unfolding init_req
init_req-IsConsistent w req is_command gob chan pdu flags ok out (g, c) =
    let f : Request → Request = λ r. record r {
      state = req_active;
      flags = flags;
      chan = chan;
      gob = gob;
      rid = if is_command then (req_rid gob pdu flags w.max_rid).0 else r.rid;
    } in
    let fine : IsConsistent (adjust_req req f w) =
      adjust_req-IsConsistent w req f ok out.free
        (λ h. out.gobs h ∙ sym (ap (λ (b : Bool). b && at_head gob h) g))
        (λ h. out.chans h ∙ sym (ap (λ (b : Bool). b && at_head chan h) c)) in
    record { gobs = fine.gobs; chans = fine.chans; idle = fine.idle; distinct = fine.distinct }

link_chan-IsConsistent :
    (w : Requests) (chan : Option ℕ) (req : ℕ)
    → IsConsistent w
    → All (IsOther req) w.free_reqs
    → (w.reqs req).chan ≡ chan
    → req_has req_on_chan_list w req ≡ false
    → IsConsistent (link_chan w chan req)
unfolding link_chan
link_chan-IsConsistent w none req ok away own off = ok
link_chan-IsConsistent w (some chan) req ok away own off =
    let x = (w.reqs req).flags in
    let set : bitset req_on_chan_list (bit_or x req_on_chan_list) ≡ true =
      ground (arith, bitset-or 8 x req_on_chan_list) in
    let kept : bitset req_on_gob_list (bit_or x req_on_chan_list) ≡ bitset req_on_gob_list x =
      ground (arith, bitset-or 7 x req_on_chan_list) in
    record {
      gobs =
          IsLinked-same _ _ _
            (by_object _ req (λ h. rw (==_self req, kept) refl) (λ r p h. rw p refl)) ok.gobs;
      chans =
          IsLinked-same _ _ _
            (by_object _ req (λ h. rw (==_self req, own, set, off) (ground arith))
              (λ r p h. rw p (ground (arith, p))))
            (IsLinked-insert w.chan_reqs _ chan req ok.chans (rw off refl));
      idle =
          IsIdle-update_req w req (λ r. record r { flags = bit_or r.flags req_on_chan_list }) ok
            away;
      distinct = ok.distinct;
    }

-- The lists and the flags of the requests agree when a new request was asked for, with memory that no
-- list has and with flags that say it is on none.
pub req_new-IsConsistent :
    (w : Requests) (is_command : Bool) (gob chan pdu : Option ℕ) (flags : ℕ)
    → (default_chan : Option ℕ) (mem : ℕ) → IsConsistent w
    → IsUnused w mem
    → IsCallerFlags flags
    → IsConsistent (req_new w is_command gob chan pdu flags default_chan mem).0
unfolding req_new init_req
req_new-IsConsistent w is_command gob chan pdu flags default_chan mem ok new bare =
    elim (Bool-cases (gob_locked w gob)) [
      | inr l ↦ rw (req_new, l) ok
      | inl l ↦
          let (fine, out) = take_req-IsConsistent w mem ok new in
          let w1 = (take_req w mem).0 in
          let req = (take_req w mem).1 in
          let chan1 = req_chan chan default_chan in
          let (g, c) = req_flags-IsCallerFlags flags bare in
          rw (req_new, l)
            (link_chan-IsConsistent (init_req w1 req is_command gob chan1 pdu (req_flags flags))
              chan1 req
              (init_req-IsConsistent w1 req is_command gob chan1 pdu (req_flags flags) fine out
                (g, c))
              out.free (rw (==_self req) refl) (rw (==_self req) c))
    ]
