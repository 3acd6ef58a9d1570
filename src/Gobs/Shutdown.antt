-- ===== src/Gobs/Shutdown.antt =====
-- The cache is emptied (`_gdp_gob_cache_shutdown`).
use gdp.Base.{
  ℕ, ◌≡◌, refl, arith, ap, ◌∙◌, true, false, none, some, List, [], ◌∷◌, ==_self, bit_or,
  Option-cases, inl, inr, bitset-or,
}
use gdp.Hash.{ep_hash_search}
use gdp.Cache.{Gob, gobf_inuse, gobf_incache, gobf_dropping}
use gdp.Cache.Steps.{Cache, has, list_remove, gobf_islocked, cache_drop}
use gdp.Gobs.{Handles, adjust, set_flags, gob_unlock, gob_free, put_free, retire}
use gdp.Gobs.Sound.{IsSound, among, at_own}
use gdp.Gobs.Life.{flagged-IsSound}
use gdp.Gobs.Freed.{gob_free-IsSound}
use gdp.Gobs.Access.{shutdown_gobs, cache_shutdown}

cache_drop-list :
    (c : Cache) (gob : ℕ)
    → has gobf_inuse c gob ≡ true
    → has gobf_incache c gob ≡ true
    → (cache_drop c gob).gobs_by_use ≡ list_remove gob c.gobs_by_use
unfolding cache_drop
cache_drop-list c gob u i = rw (cache_drop, u, i) refl

retire-list :
    (w : Handles) (gob : ℕ)
    → has gobf_inuse w.cache gob ≡ true
    → has gobf_incache w.cache gob ≡ true
    → (retire w gob).cache.gobs_by_use ≡ list_remove gob w.cache.gobs_by_use
unfolding retire
retire-list w gob u c =
    let x = (w.cache.st gob).flags in
    let f : Gob → Gob = λ g. record g { flags = bit_or g.flags gobf_dropping; refcnt = 0 } in
    let w1 = adjust gob f w in
    let own = at_own gob f w.cache.st in
    let c1 : has gobf_incache w1.cache gob ≡ true =
      rw own (ground (arith, bitset-or 3 x gobf_dropping, c)) in
    let u1 : has gobf_inuse w1.cache gob ≡ true =
      rw own (ground (arith, bitset-or 0 x gobf_dropping, u)) in
    rw (retire, c1) (cache_drop-list w1.cache gob u1 c1)

put_free-list : (w : Handles) (gob : ℕ) → (put_free w gob).cache.gobs_by_use ≡ w.cache.gobs_by_use
unfolding put_free gob_unlock
put_free-list w gob = refl

-- The walk over a list that is the list of the cache.
shutdown_gobs-all :
    (gs : List ℕ) (w : Handles)
    → IsSound w
    → w.cache.gobs_by_use ≡ gs
    → IsSound (shutdown_gobs w gs) × ((shutdown_gobs w gs).cache.gobs_by_use ≡ [])
unfolding shutdown_gobs gob_free list_remove among
shutdown_gobs-all [] w ok e = (ok, e)
shutdown_gobs-all (g1 ∷ g2) w ok e =
    let x = (w.cache.st g1).flags in
    let c : has gobf_incache w.cache g1 ≡ true =
      ok.marked g1 ∙ (ap (among g1) e ∙ ground (arith, ==_self g1)) in
    let u = ok.used g1 c in
    let own = at_own g1 (set_flags gobf_islocked) w.cache.st in
    let w1 = adjust g1 (set_flags gobf_islocked) w in
    let fine = flagged-IsSound w g1 gobf_islocked (set_flags gobf_islocked) ok u refl refl refl in
    let c1 : has gobf_incache w1.cache g1 ≡ true =
      rw own (ground (arith, bitset-or 3 x gobf_islocked, c)) in
    let u1 : has gobf_inuse w1.cache g1 ≡ true =
      rw own (ground (arith, bitset-or 0 x gobf_islocked, u)) in
    let w2 = gob_free w1 (some g1) in
    let freed : w2 ≡ put_free (retire w1 g1) g1 = rw (gob_free, u1) refl in
    let first : list_remove g1 (g1 ∷ g2) ≡ g2 = rw (==_self g1) refl in
    let left : w2.cache.gobs_by_use ≡ g2 =
      ap (λ (v : Handles). v.cache.gobs_by_use) freed
      ∙ (put_free-list (retire w1 g1) g1
          ∙ (retire-list w1 g1 u1 c1 ∙ (ap (list_remove g1) e ∙ first))) in
    shutdown_gobs-all g2 w2 (gob_free-IsSound w1 (some g1) fine) left

-- After a shutdown of a sound state the list of the cache is empty, no name leads to an object, no
-- object is marked as cached, and the state is sound.
pub cache_shutdown-empty :
    (w : Handles)
    → IsSound w
    → IsSound (cache_shutdown w)
      × ((cache_shutdown w).cache.gobs_by_use ≡ [])
      × ((k : List ℕ) → ep_hash_search (cache_shutdown w).cache.open_gobs k ≡ none)
      × ((g : ℕ) → has gobf_incache (cache_shutdown w).cache g ≡ false)
unfolding among
cache_shutdown-empty w ok =
    let (fine, e) = shutdown_gobs-all w.cache.gobs_by_use w ok refl in
    let w' = cache_shutdown w in
    let unmarked : (g : ℕ) → has gobf_incache w'.cache g ≡ false =
      λ g. fine.marked g ∙ ap (among g) e in
    (
      fine,
      e,
      λ k. elim (Option-cases (ep_hash_search w'.cache.open_gobs k)) [
        | inl n ↦ n
        | inr (g, s) ↦
            let yes = (fine.owned k g s).1 in let no = unmarked g in absurd (cc (yes, no))
      ],
      unmarked,
    )
