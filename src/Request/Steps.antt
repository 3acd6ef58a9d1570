-- ===== src/Request/Steps.antt =====
-- The lists and the flags of requests agree after each operation (gdp/gdp_req.c).
use gdp.Base.{
  ℕ, ◌≡◌, refl, arith, sym, ap, Bool, true, false, not, ◌&&◌, Option, none, some, ◌∷◌, All, ◌==◌,
  ==_iff, ==_self, bitset, bit_and, bit_or, bitset-and, bitset-or, Bool-cases, Option-cases, inl,
  inr,
}
use gdp.Cache.Steps.Invariant.{IsOther, IsDistinct, others, every}
use gdp.Gobs.Sound.{by_object}
use gdp.Request.{
  Request, Requests, update_req, update_list, adjust_req, req_has, req_on_gob_list,
  req_on_chan_list, req_free_state,
}
use gdp.Request.Send.{req_send, unlink_gob}
use gdp.Request.Sound.{IsLinked, IsLinked-same, IsLinked-insert, IsLinked-remove}

abbrev pub at_head : Option ℕ → ℕ → Bool
at_head none h = false
at_head (some head) h = h == head

-- A request is on the list of its object where its flag says so, and likewise for its channel.
abbrev pub on_gob : Request → ℕ → Bool
on_gob r h = bitset req_on_gob_list r.flags && at_head r.gob h

abbrev pub on_chan : Request → ℕ → Bool
on_chan r h = bitset req_on_chan_list r.flags && at_head r.chan h

abbrev pub IsIdle : Request → Type 0
IsIdle r = (r.state ≡ 0) × (r.flags ≡ 0)

pub record IsConsistent (w : Requests) : Type 0 where
  pub gobs : IsLinked w.gob_reqs (λ r h. on_gob (w.reqs r) h)
  pub chans : IsLinked w.chan_reqs (λ r h. on_chan (w.reqs r) h)
  pub idle : All (λ (r : ℕ). IsIdle (w.reqs r)) w.free_reqs
  pub distinct : IsDistinct w.free_reqs

-- A request in use is not on the free list.
pub in_use :
    (w : Requests) (req : ℕ)
    → IsConsistent w
    → ((w.reqs req).state == req_free_state) ≡ false
    → All (IsOther req) w.free_reqs
in_use w req ok u =
    every (λ (r : ℕ). IsIdle (w.reqs r)) _ w.free_reqs
      (λ r h. elim (Bool-cases (r == req)) [
        | inr p ↦ p
        | inl p ↦
            let same : r ≡ req = (==_iff r req).0 p in
            let free : (w.reqs req).state ≡ 0 = rw (sym same) h.0 in
            absurd (ground (arith, u, free))
      ])
      ok.idle

pub IsIdle-update_req :
    (w : Requests) (req : ℕ) (f : Request → Request)
    → IsConsistent w
    → All (IsOther req) w.free_reqs
    → All (λ (r : ℕ). IsIdle (update_req req f w.reqs r)) w.free_reqs
IsIdle-update_req w req f ok away =
    others (λ (r : ℕ). IsIdle (w.reqs r)) _ req w.free_reqs (λ r p h. rw p h) away ok.idle

-- An assignment that keeps a request on its lists.
pub adjust_req-IsConsistent :
    (w : Requests) (req : ℕ) (f : Request → Request)
    → IsConsistent w
    → All (IsOther req) w.free_reqs
    → ((h : ℕ) → on_gob (w.reqs req) h ≡ on_gob (f (w.reqs req)) h)
    → ((h : ℕ) → on_chan (w.reqs req) h ≡ on_chan (f (w.reqs req)) h)
    → IsConsistent (adjust_req req f w)
adjust_req-IsConsistent w req f ok away g c = record {
  gobs = IsLinked-same _ _ _ (by_object _ req (rw (==_self req) g) (λ r p h. rw p refl)) ok.gobs;
  chans = IsLinked-same _ _ _ (by_object _ req (rw (==_self req) c) (λ r p h. rw p refl)) ok.chans;
  idle = IsIdle-update_req w req f ok away;
  distinct = ok.distinct;
}

pub masked : (a b : Bool) → ((a && b) && not (b && true)) ≡ false
masked true true = refl
masked true false = refl
masked false b = refl

pub unmasked : (a b : Bool) → (a && not (b && false)) ≡ a
unmasked true true = refl
unmasked true false = refl
unmasked false b = refl

-- A request of an object is taken off the object's list.
pub unlink_gob-IsConsistent :
    (w : Requests) (gob req : ℕ)
    → IsConsistent w
    → All (IsOther req) w.free_reqs
    → (w.reqs req).gob ≡ some gob
    → IsConsistent (unlink_gob w gob req)
      × ((h : ℕ) → on_gob ((unlink_gob w gob req).reqs req) h ≡ false)
      × ((h : ℕ) → on_chan ((unlink_gob w gob req).reqs req) h ≡ on_chan (w.reqs req) h)
      × ((unlink_gob w gob req).free_reqs ≡ w.free_reqs)
unfolding unlink_gob
unlink_gob-IsConsistent w gob req ok away own =
    let x = (w.reqs req).flags in
    let gone : bitset req_on_gob_list (bit_and x 0xffffff7f) ≡ false =
      ground (arith, bitset-and 7 x 0xffffff7f) in
    let kept : bitset req_on_chan_list (bit_and x 0xffffff7f) ≡ bitset req_on_chan_list x =
      ground (arith, bitset-and 8 x 0xffffff7f) in
    (
      record {
        gobs =
            IsLinked-same _ _ _
              (by_object _ req
                (λ h. rw (==_self req, own, gone) (masked (bitset req_on_gob_list x) (h == gob)))
                (λ r p h. rw p (unmasked (on_gob (w.reqs r) h) (h == gob))))
              (IsLinked-remove w.gob_reqs _ gob req ok.gobs);
        chans =
            IsLinked-same _ _ _
              (by_object _ req (λ h. rw (==_self req, kept) refl) (λ r p h. rw p refl)) ok.chans;
        idle =
            IsIdle-update_req w req (λ r. record r { flags = bit_and r.flags 0xffffff7f }) ok away;
        distinct = ok.distinct;
      },
      λ h. rw (==_self req, gone) refl,
      λ h. rw (==_self req, kept) refl,
      refl,
    )

link_gob :
    (w : Requests) (gob req : ℕ)
    → IsConsistent w
    → All (IsOther req) w.free_reqs
    → (w.reqs req).gob ≡ some gob
    → req_has req_on_gob_list w req ≡ false
    → IsConsistent (record w {
      gob_reqs = update_list gob (req ∷ w.gob_reqs gob) w.gob_reqs;
      reqs = update_req req (λ r. record r { flags = bit_or r.flags req_on_gob_list }) w.reqs;
    })
link_gob w gob req ok away own off =
    let x = (w.reqs req).flags in
    let set : bitset req_on_gob_list (bit_or x req_on_gob_list) ≡ true =
      ground (arith, bitset-or 7 x req_on_gob_list) in
    let kept : bitset req_on_chan_list (bit_or x req_on_gob_list) ≡ bitset req_on_chan_list x =
      ground (arith, bitset-or 8 x req_on_gob_list) in
    record {
      gobs =
          IsLinked-same _ _ _
            (by_object _ req (λ h. rw (==_self req, own, set, off) (ground arith))
              (λ r p h. rw p (ground (arith, p))))
            (IsLinked-insert w.gob_reqs _ gob req ok.gobs (rw off refl));
      chans =
          IsLinked-same _ _ _
            (by_object _ req (λ h. rw (==_self req, kept) refl) (λ r p h. rw p refl)) ok.chans;
      idle =
          IsIdle-update_req w req (λ r. record r { flags = bit_or r.flags req_on_gob_list }) ok
            away;
      distinct = ok.distinct;
    }

-- A request in use is linked to its object, where it is not yet, and its answer is awaited.
pub req_send-IsConsistent :
    (w : Requests) (req : ℕ) → IsConsistent w → IsConsistent (req_send w req).0
unfolding req_send
req_send-IsConsistent w req ok = elim (Bool-cases ((w.reqs req).state == req_free_state)) [
  | inl u ↦ rw (req_send, u) ok
  | inr u ↦
      let x = (w.reqs req).flags in
      let f : Request → Request = λ r. record r { flags = bit_and r.flags 0xfffffffd } in
      let w1 = adjust_req req f w in
      let away = in_use w req ok u in
      let on : bitset req_on_gob_list x ≡ bitset req_on_gob_list (bit_and x 0xfffffffd) =
        ground (arith, bitset-and 7 x 0xfffffffd) in
      let chan : bitset req_on_chan_list x ≡ bitset req_on_chan_list (bit_and x 0xfffffffd) =
        ground (arith, bitset-and 8 x 0xfffffffd) in
      let fine : IsConsistent w1 =
        adjust_req-IsConsistent w req f ok away
          (λ h. ap (λ (b : Bool). b && at_head (w.reqs req).gob h) on)
          (λ h. ap (λ (b : Bool). b && at_head (w.reqs req).chan h) chan) in
      elim (Option-cases (w.reqs req).gob) [
        | inl n ↦ rw (req_send, u, n) fine
        | inr (gob, own) ↦ elim (Bool-cases (req_has req_on_gob_list w1 req)) [
          | inl l ↦ rw (req_send, u, own, l) fine
          | inr l ↦
              rw (req_send, u, own, l) (link_gob w1 gob req fine away (rw (==_self req) own) l)
        ]
      ]
]
