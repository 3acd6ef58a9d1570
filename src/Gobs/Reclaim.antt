-- ===== src/Gobs/Reclaim.antt =====
-- Objects that nobody refers to are reclaimed (`_gdp_gob_cache_reclaim`).
use gdp.Base.{
  ℕ, zero, suc, ◌+◌, ◌<◌, ◌≡◌, refl, arith, ap, ◌∙◌, Bool, true, false, not, ◌&&◌, ◌||◌, some, List,
  [], ◌∷◌, All, ◌==◌, ==_self, bitset, bit_or, bit_and, Bool-cases, ltb, inl, inr, bitset-or,
  bitset-and,
}
use gdp.Name.{name_is_valid}
use gdp.Cache.{Gob, gobf_inuse, gobf_incache, gobf_dropping}
use gdp.Cache.Steps.{Cache, has, gobf_islocked, cache_drop}
use gdp.Cache.Steps.Invariant.{IsDistinct, others}
use gdp.Gobs.{Handles, adjust, set_flags, gob_lock, gob_unlock, gob_free, put_free, retire}
use gdp.Gobs.Sound.{IsSound, at_own, by_object, among-All}
use gdp.Gobs.Life.{gob_lock-IsSound, gob_unlock-IsSound}
use gdp.Gobs.Freed.{gob_free-IsSound, cache_drop-IsSound}
use gdp.Gobs.Access.{at_cache, reclaim_gob, reclaim_pass, cache_reclaim, Pass, shorter}

-- An object that is cached and referred to.
abbrev pub IsReferenced : Handles → ℕ → Type 0
IsReferenced w g = (has gobf_incache w.cache g ≡ true) × (0 < (w.cache.st g).refcnt)

-- It stays so, with the same name and as many references.
abbrev pub Keeps : Handles → Handles → Type 0
Keeps w w' =
    (g : ℕ)
    → IsReferenced w g
    → (has gobf_incache w'.cache g ≡ true)
      × ((w'.cache.st g).refcnt ≡ (w.cache.st g).refcnt)
      × ((w'.cache.st g).name ≡ (w.cache.st g).name)

Keeps-self : (w : Handles) → Keeps w w
Keeps-self w g (c, r) = (c, refl, refl)

Keeps-trans : (u v w : Handles) → Keeps u v → Keeps v w → Keeps u w
Keeps-trans u v w k k' g (c, r) =
    let (c1, r1, n1) = k g (c, r) in
    let (c2, r2, n2) = k' g (c1, omega (arith, r1, r)) in (c2, r2 ∙ r1, n2 ∙ n1)

-- What a step on one object leaves of the others.
abbrev Only : ℕ → Handles → Handles → Type 0
Only gob w w' = (g : ℕ) → (g == gob) ≡ false → w'.cache.st g ≡ w.cache.st g

-- A look at an object: locked and unlocked.
looked :
    (w : Handles) (gob : ℕ)
    → IsSound w
    → has gobf_incache w.cache gob ≡ true
    → IsSound (gob_unlock (gob_lock w gob) gob)
      × Keeps w (gob_unlock (gob_lock w gob) gob)
      × Only gob w (gob_unlock (gob_lock w gob) gob)
unfolding gob_unlock gob_lock
looked w gob ok c =
    let x = (w.cache.st gob).flags in
    let u = ok.used gob c in
    let own = at_own gob (set_flags gobf_islocked) w.cache.st in
    let used : has gobf_inuse (gob_lock w gob).cache gob ≡ true =
      rw own (ground (arith, bitset-or 0 x gobf_islocked, u)) in
    let still : bitset gobf_incache (bit_and (bit_or x gobf_islocked) 0xfffffffd) ≡ true =
      ground
        (arith, bitset-and 3 (bit_or x gobf_islocked) 0xfffffffd, bitset-or 3 x gobf_islocked, c) in
    (
      gob_unlock-IsSound (gob_lock w gob) gob (gob_lock-IsSound w gob ok u) used,
      by_object _ gob (λ (_, r). rw (==_self gob) (still, refl, refl))
          (λ g p (s, r). rw p (s, refl, refl)),
      λ g p. rw p refl,
    )

-- A step on one object that nobody refers to.
Only-Keeps :
    (gob : ℕ) (w w' : Handles) → Only gob w w' → ltb 0 (w.cache.st gob).refcnt ≡ false → Keeps w w'
Only-Keeps gob w w' only idle =
    by_object _ gob (λ (c, r). absurd (ground (arith, idle, r)))
      (λ g p (c, r). rw (only g p) (c, refl, refl))

cache_drop-others : (c : Cache) (gob g : ℕ) → (g == gob) ≡ false → (cache_drop c gob).st g ≡ c.st g
unfolding cache_drop
cache_drop-others c gob g p =
    elim (Bool-cases (not (has gobf_inuse c gob) && not (name_is_valid (c.st gob).name))) [
      | inl b ↦ rw (cache_drop, b) refl
      | inr b ↦ elim (Bool-cases (has gobf_incache c gob)) [
        | inr i ↦ rw (cache_drop, b, i) refl
        | inl i ↦ rw (cache_drop, b, i, p) refl
      ]
    ]

retire-Only : (w : Handles) (gob : ℕ) → Only gob w (retire w gob)
unfolding retire
retire-Only w gob g p =
    let w1 : Handles =
      adjust gob (λ g. record g { flags = bit_or g.flags gobf_dropping; refcnt = 0 }) w in
    elim (Bool-cases (has gobf_incache w1.cache gob)) [
      | inr i ↦ rw (retire, i, p) refl
      | inl i ↦ rw (retire, i) (cache_drop-others w1.cache gob g p ∙ rw p refl)
    ]

put_free-Only : (w : Handles) (gob : ℕ) → Only gob w (put_free w gob)
unfolding put_free gob_unlock
put_free-Only w gob g p = rw p refl

pub gob_free-Only : (w : Handles) (gob : ℕ) → Only gob w (gob_free w (some gob))
unfolding gob_free
gob_free-Only w gob g p = elim (Bool-cases (has gobf_inuse w.cache gob)) [
  | inr u ↦ rw (gob_free, u) refl
  | inl u ↦ rw (gob_free, u) (put_free-Only (retire w gob) gob g p ∙ retire-Only w gob g p)
]

-- What the loop does with a cached object leaves the state sound, the objects referred to as they
-- are, and the other objects alone.
reclaim_gob-Keeps :
    (w : Handles) (now maxage gob : ℕ)
    → IsSound w
    → has gobf_incache w.cache gob ≡ true
    → IsSound (reclaim_gob w now maxage gob)
      × Keeps w (reclaim_gob w now maxage gob)
      × Only gob w (reclaim_gob w now maxage gob)
unfolding reclaim_gob gob_lock
reclaim_gob-Keeps w now maxage gob ok c =
    let w1 = gob_lock w gob in
    let u = ok.used gob c in
    let x = (w.cache.st gob).flags in
    elim (Bool-cases (ltb now ((w1.cache.st gob).utime + maxage))) [
      | inl t ↦ rw (reclaim_gob, t) (looked w gob ok c)
      | inr t ↦
          elim (Bool-cases (has gobf_dropping w1.cache gob || ltb 0 (w1.cache.st gob).refcnt)) [
            | inl r ↦ rw (reclaim_gob, t, r) (looked w gob ok c)
            | inr r ↦
                let fine = gob_lock-IsSound w gob ok u in
                let cached : has gobf_incache w1.cache gob ≡ true =
                  rw (at_own gob (set_flags gobf_islocked) w.cache.st)
                    (ground (arith, bitset-or 3 x gobf_islocked, c)) in
                let w2 = at_cache (λ c. cache_drop c gob) w1 in
                let (fine2, out, used) = cache_drop-IsSound w1 gob fine cached in
                let only : Only gob w (gob_free w2 (some gob)) = λ g p.
                  gob_free-Only w2 gob g p ∙ (cache_drop-others w1.cache gob g p ∙ rw p refl) in
                let idle : ltb 0 (w.cache.st gob).refcnt ≡ false = ground (
                  arith,
                  r,
                  ap (λ (g : Gob). g.refcnt) (at_own gob (set_flags gobf_islocked) w.cache.st),
                ) in
                rw (reclaim_gob, t, r)
                  (
                    gob_free-IsSound w2 (some gob) fine2,
                    Only-Keeps gob w (gob_free w2 (some gob)) only idle,
                    only,
                  )
          ]
    ]

-- One pass.
reclaim_pass-Keeps :
    (w : Handles) (now maxage maxgobs : ℕ) (busy : ℕ → Bool) (loopcount : ℕ) (gs : List ℕ)
    → IsSound w
    → IsDistinct gs
    → All (λ (g : ℕ). has gobf_incache w.cache g ≡ true) gs
    → IsSound (reclaim_pass w now maxage maxgobs busy loopcount gs)
      × Keeps w (reclaim_pass w now maxage maxgobs busy loopcount gs)
unfolding reclaim_pass
reclaim_pass-Keeps w now maxage maxgobs busy loopcount [] ok d h = (ok, Keeps-self w)
reclaim_pass-Keeps w now maxage maxgobs busy loopcount (g1 ∷ g2) ok (o, d) (c, h) =
    elim (Bool-cases (ltb maxgobs loopcount)) [
      | inl t ↦ rw t (ok, Keeps-self w)
      | inr t ↦ elim (Bool-cases (busy g1)) [
        | inl b ↦ rw (t, b) (reclaim_pass-Keeps w now maxage maxgobs busy (suc loopcount) g2 ok d h)
        | inr b ↦
            let w1 = reclaim_gob w now maxage g1 in
            let (fine, keeps, only) = reclaim_gob-Keeps w now maxage g1 ok c in
            let still =
              others (λ (g : ℕ). has gobf_incache w.cache g ≡ true) _ g1 g2
                (λ g p i. rw (only g p) i) o h in
            let (fine', keeps') =
              reclaim_pass-Keeps w1 now maxage maxgobs busy (suc loopcount) g2 fine d still in
            let w2 = reclaim_pass w1 now maxage maxgobs busy (suc loopcount) g2 in
            rw (t, b) (fine', Keeps-trans w w1 w2 keeps keeps')
      ]
    ]

-- With fuel of one more than the age, the loop ends, whatever the clock, the locks and the file
-- descriptors are in each pass; a sound state is sound after it, and an object that is cached and
-- referred to is still cached, with its name and its references.
pub cache_reclaim-Keeps :
    (passes : ℕ → Pass) (headroom maxgobs n maxage fuel : ℕ) (w : Handles)
    → maxage < fuel
    → IsSound w
    → (w' : Handles) × (cache_reclaim fuel passes headroom maxgobs n maxage w ≡ some w')
      × IsSound w'
      × Keeps w w'
unfolding cache_reclaim
cache_reclaim-Keeps passes headroom maxgobs n maxage zero w l ok = absurd (omega (arith, l))
cache_reclaim-Keeps passes headroom maxgobs n maxage (suc fuel) w l ok =
    let p = passes n in
    let w1 = reclaim_pass w p.now maxage maxgobs p.busy 0 w.cache.gobs_by_use in
    let cached =
      among-All (λ (g : ℕ). has gobf_incache w.cache g ≡ true) w.cache.gobs_by_use
        (λ g m. ok.marked g ∙ m) in
    let (fine, keeps) =
      reclaim_pass-Keeps w p.now maxage maxgobs p.busy 0 w.cache.gobs_by_use ok ok.cache.distinct
        cached in
    elim (Bool-cases (ltb (p.nfds + headroom) p.maxfds)) [
      | inl t ↦ rw (cache_reclaim, t) (w1, refl, fine, keeps)
      | inr t ↦ elim (Bool-cases (shorter maxage == 0)) [
        | inl z ↦ rw (cache_reclaim, t, z) (w1, refl, fine, keeps)
        | inr z ↦
            let less : shorter maxage < fuel = ground (arith, z, l) in
            let (w', e, fine', keeps') =
              cache_reclaim-Keeps passes headroom maxgobs (suc n) (shorter maxage) fuel w1 less
                fine in
            rw (cache_reclaim, t, z) (w', e, fine', Keeps-trans w w1 w' keeps keeps')
      ]
    ]
