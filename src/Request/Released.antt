-- ===== src/Request/Released.antt =====
-- What freeing a request does to it, to its object and to its events (`_gdp_req_free` of gdp/gdp_req.c).
use gdp.Base.{
  ℕ, ◌≡◌, refl, arith, true, false, Option, none, some, [], ◌∷◌, ◌==◌, ==_self, bitset, bit_and,
  bitset-and, Bool-cases, Option-cases, inl, inr,
}
use gdp.Gobs.{Handles, gob_decref}
use gdp.Request.{Requests, req_has, req_on_gob_list, req_on_chan_list, req_free_state}
use gdp.Request.Send.{unlink_gob}
use gdp.Request.Free.{unlink_chan, put_free_req}

-- What is left of a request when it is off the list of its channel.
pub record IsKept (w w' : Requests) (req : ℕ) : Type 0 where
  pub handles : w'.handles ≡ w.handles
  pub queues : w'.queues ≡ w.queues
  pub free_reqs : w'.free_reqs ≡ w.free_reqs
  pub state : (w'.reqs req).state ≡ (w.reqs req).state
  pub events : (w'.reqs req).events ≡ (w.reqs req).events
  pub gob : (w'.reqs req).gob ≡ (w.reqs req).gob
  pub listed : req_has req_on_gob_list w' req ≡ req_has req_on_gob_list w req

pub unlink_chan-IsKept : (w : Requests) (req : ℕ) → IsKept w (unlink_chan w req) req
unfolding unlink_chan
unlink_chan-IsKept w req = elim (Option-cases (w.reqs req).chan) [
  | inl n ↦
      rw (unlink_chan, n)
        (record {
          handles = refl;
          queues = refl;
          free_reqs = refl;
          state = refl;
          events = refl;
          gob = refl;
          listed = refl;
        })
  | inr (chan, own) ↦ elim (Bool-cases (req_has req_on_chan_list w req)) [
    | inr l ↦
        rw (unlink_chan, own, l)
          (record {
            handles = refl;
            queues = refl;
            free_reqs = refl;
            state = refl;
            events = refl;
            gob = refl;
            listed = refl;
          })
    | inl l ↦
        let x = (w.reqs req).flags in
        let kept : bitset req_on_gob_list (bit_and x 0xfffffeff) ≡ bitset req_on_gob_list x =
          ground (arith, bitset-and 7 x 0xfffffeff) in
        rw (unlink_chan, own, l)
          (record {
            handles = refl;
            queues = refl;
            free_reqs = refl;
            state = rw (==_self req) refl;
            events = rw (==_self req) refl;
            gob = rw (==_self req) refl;
            listed = rw (==_self req) kept;
          })
  ]
]

pub unlink_chan_others :
    (w : Requests) (req x : ℕ) → (x == req) ≡ false → (unlink_chan w req).reqs x ≡ w.reqs x
unfolding unlink_chan
unlink_chan_others w req x p = elim (Option-cases (w.reqs req).chan) [
  | inl n ↦ rw (unlink_chan, n) refl
  | inr (chan, own) ↦ elim (Bool-cases (req_has req_on_chan_list w req)) [
    | inl l ↦ rw (unlink_chan, own, l, p) refl
    | inr l ↦ rw (unlink_chan, own, l) refl
  ]
]

pub put_free_req_others :
    (w : Requests) (req x : ℕ) → (x == req) ≡ false → (put_free_req w req).reqs x ≡ w.reqs x
unfolding put_free_req
put_free_req_others w req x p = rw p refl

pub unlink_gob_others :
    (w : Requests) (gob req x : ℕ) → (x == req) ≡ false → (unlink_gob w gob req).reqs x ≡ w.reqs x
unfolding unlink_gob
unlink_gob_others w gob req x p = rw p refl

-- The reference that a request has to its object is given up.
abbrev pub given_up : Option ℕ → Handles → Handles
given_up none h = h
given_up (some gob) h = gob_decref h gob true

-- A request went to the free list, and its reference was given up; the others are as they were.
pub record IsReleased (w w' : Requests) (req : ℕ) : Type 0 where
  pub state : (w'.reqs req).state ≡ req_free_state
  pub flags : (w'.reqs req).flags ≡ 0
  pub gob : (w'.reqs req).gob ≡ none
  pub rid : (w'.reqs req).rid ≡ none
  pub events : (w'.reqs req).events ≡ []
  pub free_reqs : w'.free_reqs ≡ req ∷ w.free_reqs
  pub handles : w'.handles ≡ given_up (w.reqs req).gob w.handles
  pub reqs : (x : ℕ) → (x == req) ≡ false → w'.reqs x ≡ w.reqs x
