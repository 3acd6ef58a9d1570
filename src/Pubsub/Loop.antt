-- ===== src/Pubsub/Loop.antt =====
-- A loop over the requests of an object, from what one round does (gdplogd/logd_pubsub.c).
use gdp.Base.{
  ℕ, ◌≡◌, refl, arith, sym, ap, ◌∙◌, Bool, true, false, ◌&&◌, Option, some, List, [], ◌∷◌, ◌++◌,
  All, ◌==◌, Bool-cases, inl, inr, append_assoc, append-nil,
}
use mathlib.Core.Path.{subst}
use gdp.Cache.Steps.Invariant.{IsOther, IsDistinct, others}
use gdp.Gobs.{Handles}
use gdp.Gobs.Sound.{among, among_other, among-All, All-among}
use gdp.Request.{Request, Requests, req_free_state}
use gdp.Request.Steps.{on_gob, IsConsistent}
use gdp.Pubsub.{Pdu, Sub, Subs, each_req}

-- The objects change, and the requests stay as they are.
pub with_handles-IsConsistent :
    (w : Requests) (handles : Handles)
    → IsConsistent w
    → IsConsistent (record w { handles = handles })
with_handles-IsConsistent w handles ok = record {
  gobs = ok.gobs;
  chans = ok.chans;
  idle = ok.idle;
  distinct = ok.distinct;
}

-- A request in use of the object that is on its list and has no events.
abbrev pub IsQuiet : (gob : ℕ) → Request → Type 0
IsQuiet gob q = (on_gob q gob ≡ true) × ((q.state == req_free_state) ≡ false) × (q.events ≡ [])

-- A request in use that has no events.
abbrev pub IsCalm : Request → Type 0
IsCalm q = ((q.state == req_free_state) ≡ false) × (q.events ≡ [])

-- `told` is what goes out in the round of a request, and `stays` whether it is on the list of the object
-- then, by what the request is before.
module _ (gob : ℕ) (told : ℕ → Request → Sub → List Pdu) (stays : ℕ → Request → Sub → Bool) where
  -- What a round does, which leaves the other requests as they are.
  pub record IsTurned (s s' : Subs) (r : ℕ) : Type 0 where
    pub consistent : IsConsistent s'.w
    pub sent : s'.out ≡ s.out ++ told r (s.w.reqs r) (s.subs r)
    pub listed : on_gob (s'.w.reqs r) gob ≡ stays r (s.w.reqs r) (s.subs r)
    pub reqs : (x : ℕ) → (x == r) ≡ false → s'.w.reqs x ≡ s.w.reqs x
    pub subs : (x : ℕ) → (x == r) ≡ false → s'.subs x ≡ s.subs x

  unfoldable pub told_all : (ℕ → Request) → (ℕ → Sub) → List ℕ → List Pdu
  told_all reqs subs [] = []
  told_all reqs subs (r ∷ rs) = told r (reqs r) (subs r) ++ told_all reqs subs rs

  -- What the loop does, each request of which counts as it was at the start.
  pub record IsLooped (s s' : Subs) (rs : List ℕ) : Type 0 where
    pub consistent : IsConsistent s'.w
    pub sent : s'.out ≡ s.out ++ told_all s.w.reqs s.subs rs
    pub listed : All (λ (r : ℕ). on_gob (s'.w.reqs r) gob ≡ stays r (s.w.reqs r) (s.subs r)) rs
    pub reqs : (x : ℕ) → among x rs ≡ false → s'.w.reqs x ≡ s.w.reqs x

  -- A request that is as it was counts for the same.
  as_before {ℓ} :
      {B : Type ℓ} (f : ℕ → Request → Sub → B) (s s1 : Subs) (x : ℕ)
      → s1.w.reqs x ≡ s.w.reqs x
      → s1.subs x ≡ s.subs x
      → f x (s1.w.reqs x) (s1.subs x) ≡ f x (s.w.reqs x) (s.subs x)
  as_before f s s1 x p q = ap (λ a. f x a (s1.subs x)) p ∙ ap (f x (s.w.reqs x)) q

  told_all_same :
      (s s1 : Subs) (r : ℕ) (rs : List ℕ)
      → IsTurned s s1 r
      → All (IsOther r) rs
      → told_all s1.w.reqs s1.subs rs ≡ told_all s.w.reqs s.subs rs
  unfolding told_all
  told_all_same s s1 r [] t o = refl
  told_all_same s s1 r (x ∷ rs) t (o, os) =
      ap (λ p. p ++ told_all s1.w.reqs s1.subs rs) (as_before told s s1 x (t.reqs x o) (t.subs x o))
      ∙ ap (λ p. told x (s.w.reqs x) (s.subs x) ++ p) (told_all_same s s1 r rs t os)

  -- The loop over the rounds of requests without events ends, and each counts as it was at the start.
  pub each_req-IsLooped :
      (turn : Subs → ℕ → Option Subs)
      → ((s : Subs) (r : ℕ)
          → IsConsistent s.w
          → IsQuiet gob (s.w.reqs r)
          → (s' : Subs) × (turn s r ≡ some s') × IsTurned s s' r)
      → (s : Subs) (rs : List ℕ) → IsConsistent s.w
      → IsDistinct rs
      → All (λ (r : ℕ). IsQuiet gob (s.w.reqs r)) rs
      → (s' : Subs) × (each_req turn s rs ≡ some s') × IsLooped s s' rs
  unfolding each_req among told_all
  each_req-IsLooped turn round s [] ok d q = (
    s,
    refl,
    record { consistent = ok; sent = sym (append-nil s.out); listed = tt; reqs = λ x m. refl },
  )
  each_req-IsLooped turn round s (r ∷ rs) ok (away, d) (q, qs) =
      let (s1, run, t) = round s r ok q in
      let quiet : All (λ (x : ℕ). IsQuiet gob (s1.w.reqs x)) rs =
        others (λ (x : ℕ). IsQuiet gob (s.w.reqs x)) _ r rs
          (λ x p h. subst (IsQuiet gob) (sym (t.reqs x p)) h) away qs in
      let (s', rest, l) = each_req-IsLooped turn round s1 rs t.consistent d quiet in
      (
        s',
        rw (each_req, run) rest,
        record {
          consistent = l.consistent;
          sent =
              l.sent
              ∙ ap (λ p. p ++ told_all s1.w.reqs s1.subs rs) t.sent
              ∙ ap (λ p. (s.out ++ told r (s.w.reqs r) (s.subs r)) ++ p)
                  (told_all_same s s1 r rs t away)
              ∙ append_assoc s.out (told r (s.w.reqs r) (s.subs r)) (told_all s.w.reqs s.subs rs);
          listed = (
            ap (λ a. on_gob a gob) (l.reqs r (among_other r rs away)) ∙ t.listed,
            others (λ (x : ℕ). on_gob (s'.w.reqs x) gob ≡ stays x (s1.w.reqs x) (s1.subs x)) _ r rs
                (λ x p h. h ∙ as_before stays s s1 x (t.reqs x p) (t.subs x p)) away l.listed,
          );
          reqs = λ x m.
              l.reqs x (ground (arith, m))
              ∙ t.reqs x (elim (Bool-cases (r == x)) [
                | inl p ↦ absurd (ground (arith, m, p))
                | inr p ↦ ground (arith, p)
              ]);
        },
      )

  -- The loop over the list of the object: the requests on the list that are to stay are there then.
  pub loop_on_gob :
      (turn : Subs → ℕ → Option Subs)
      → ((s : Subs) (r : ℕ)
          → IsConsistent s.w
          → IsQuiet gob (s.w.reqs r)
          → (s' : Subs) × (turn s r ≡ some s') × IsTurned s s' r)
      → (s : Subs) → IsConsistent s.w
      → All (λ (r : ℕ). IsCalm (s.w.reqs r)) (s.w.gob_reqs gob)
      → (s1 : Subs) × (each_req turn s (s.w.gob_reqs gob) ≡ some s1)
        × IsConsistent s1.w
        × (s1.out ≡ s.out ++ told_all s.w.reqs s.subs (s.w.gob_reqs gob))
        × ((x : ℕ)
            → among x (s1.w.gob_reqs gob)
              ≡ among x (s.w.gob_reqs gob) && stays x (s.w.reqs x) (s.subs x))
  loop_on_gob turn round s ok all =
      let list = s.w.gob_reqs gob in
      let quiet : All (λ (r : ℕ). IsQuiet gob (s.w.reqs r)) list = among-All _ list (λ r m.
        let (busy, calm) = All-among _ r list all m in
        (sym (ok.gobs.members gob r) ∙ m, busy, calm)) in
      let (s1, run, l) = each_req-IsLooped turn round s list ok (ok.gobs.distinct gob) quiet in
      let fine = l.consistent in
      (
        s1,
        run,
        fine,
        l.sent,
        λ x. fine.gobs.members gob x ∙ elim (Bool-cases (among x list)) [
          | inl m ↦ All-among _ x list l.listed m ∙ rw m refl
          | inr m ↦ ap (λ a. on_gob a gob) (l.reqs x m) ∙ sym (ok.gobs.members gob x) ∙ rw m refl
        ],
      )
