-- ===== src/Gobs/Life.antt =====
-- The objects, the cache and the free list agree after each step of the life of an object.
use gdp.Base.{
  ℕ, suc, ◌≡◌, refl, arith, sym, true, false, All, ◌==◌, ==_iff, bitset, bit_or, Bool-cases, inl,
  inr, bitset-or, bitset-and,
}
use gdp.Cache.{Gob, gobf_inuse, gobf_incache}
use gdp.Cache.Steps.{update, has, gobf_islocked}
use gdp.Cache.Steps.Invariant.{IsOther, every, others}
use gdp.Gobs.{Handles, adjust, set_flags, keep_flags, gob_lock, gob_unlock, gob_incref}
use gdp.Gobs.Sound.{IsSound, adjust-IsSound}

-- An object in use is not on the free list.
pub spare :
    (w : Handles) (gob : ℕ)
    → IsSound w
    → has gobf_inuse w.cache gob ≡ true
    → All (IsOther gob) w.free_list
spare w gob ok u =
    every (λ (g : ℕ). (w.cache.st g).flags ≡ 0) _ w.free_list
      (λ g h. elim (Bool-cases (g == gob)) [
        | inr p ↦ p
        | inl p ↦
            let same : g ≡ gob = (==_iff g gob).0 p in
            let none : (w.cache.st gob).flags ≡ 0 = rw (sym same) h in
            let not_used : has gobf_inuse w.cache gob ≡ false = rw none refl in
            absurd (cc (u, not_used))
      ])
      ok.idle

-- The free list is as it was after an assignment to an object in use.
pub IsIdle-update_req :
    (w : Handles) (gob : ℕ) (f : Gob → Gob)
    → IsSound w
    → has gobf_inuse w.cache gob ≡ true
    → All (λ (g : ℕ). (update gob f w.cache.st g).flags ≡ 0) w.free_list
IsIdle-update_req w gob f ok u =
    others (λ (g : ℕ). (w.cache.st g).flags ≡ 0) _ gob w.free_list (λ g p h. rw p h)
      (spare w gob ok u) ok.idle

-- An assignment that leaves the name and the flags alone.
pub count-IsSound :
    (w : Handles) (gob : ℕ) (f : Gob → Gob)
    → IsSound w
    → has gobf_inuse w.cache gob ≡ true
    → (f (w.cache.st gob)).name ≡ (w.cache.st gob).name
    → (f (w.cache.st gob)).flags ≡ (w.cache.st gob).flags
    → IsSound (adjust gob f w)
count-IsSound w gob f ok u n s =
    adjust-IsSound w gob f ok (spare w gob ok u) (rw s refl) (λ m. (n, rw s u))

-- Flags that are set, where they do not say that the object is cached.
pub flagged-IsSound :
    (w : Handles) (gob m : ℕ) (f : Gob → Gob)
    → IsSound w
    → has gobf_inuse w.cache gob ≡ true
    → bitset gobf_incache m ≡ false
    → (f (w.cache.st gob)).name ≡ (w.cache.st gob).name
    → (f (w.cache.st gob)).flags ≡ bit_or (w.cache.st gob).flags m
    → IsSound (adjust gob f w)
flagged-IsSound w gob m f ok u clear n s =
    let x = (w.cache.st gob).flags in
    adjust-IsSound w gob f ok (spare w gob ok u) (rw s (ground (arith, bitset-or 3 x m, clear)))
      (λ c. (n, rw s (ground (arith, bitset-or 0 x m, u))))

-- Flags that are cleared, where others than those of use and of the cache are.
pub cleared-IsSound :
    (w : Handles) (gob m : ℕ)
    → IsSound w
    → has gobf_inuse w.cache gob ≡ true
    → bitset gobf_incache m ≡ true
    → bitset gobf_inuse m ≡ true
    → IsSound (adjust gob (keep_flags m) w)
cleared-IsSound w gob m ok u c i =
    let x = (w.cache.st gob).flags in
    adjust-IsSound w gob (keep_flags m) ok (spare w gob ok u) (ground (arith, bitset-and 3 x m, c))
      (λ s. (refl, ground (arith, bitset-and 0 x m, u, i)))

pub gob_lock-IsSound :
    (w : Handles) (gob : ℕ)
    → IsSound w
    → has gobf_inuse w.cache gob ≡ true
    → IsSound (gob_lock w gob)
unfolding gob_lock
gob_lock-IsSound w gob ok u =
    flagged-IsSound w gob gobf_islocked (set_flags gobf_islocked) ok u refl refl refl

pub gob_unlock-IsSound :
    (w : Handles) (gob : ℕ)
    → IsSound w
    → has gobf_inuse w.cache gob ≡ true
    → IsSound (gob_unlock w gob)
unfolding gob_unlock
gob_unlock-IsSound w gob ok u = cleared-IsSound w gob 0xfffffffd ok u refl refl

-- GOBF_PENDING is cleared.
pub gob_opened-IsSound :
    (w : Handles) (gob : ℕ)
    → IsSound w
    → has gobf_inuse w.cache gob ≡ true
    → IsSound (adjust gob (keep_flags 0xffffffbf) w)
gob_opened-IsSound w gob ok u = cleared-IsSound w gob 0xffffffbf ok u refl refl

pub gob_incref-IsSound : (w : Handles) (gob : ℕ) → IsSound w → IsSound (gob_incref w gob)
unfolding gob_incref
gob_incref-IsSound w gob ok = elim (Bool-cases (has gobf_inuse w.cache gob)) [
  | inr u ↦ rw u ok
  | inl u ↦ rw u (count-IsSound w gob (λ g. record g { refcnt = suc g.refcnt }) ok u refl refl)
]
