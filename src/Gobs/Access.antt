-- ===== src/Gobs/Access.antt =====
-- The ways to objects through the cache (gdp/gdp_gob_cache.c). Each runs with the cache's lock held.
-- `check_cache_consistency` answers false only where the list of the cache runs in a circle, which a
-- list here does not.
use gdp.Base.{
  ℕ, zero, suc, ◌+◌, ◌-◌, ◌/◌, Bool, not, ◌&&◌, ◌||◌, Option, none, some, List, [], ◌∷◌,
  if◌then◌else◌, ◌==◌, ltb, bitset,
}
use gdp.Hash.{ep_hash_search}
use gdp.Cache.{gobf_inuse, gobf_dropping, gobf_incache}
use gdp.Cache.Steps.{Cache, has, gobf_islocked, add_cache_unlocked, gob_touch, cache_drop}
use gdp.Gobs.{
  Handles, adjust, set_flags, gobf_pending, gob_lock, gob_unlock, gob_new, gob_free, gob_incref,
}

abbrev pub ggcf_create : ℕ
ggcf_create = 0x01

abbrev pub ggcf_get_pending : ℕ
ggcf_get_pending = 0x02

abbrev pub ggcf_peek : ℕ
ggcf_peek = 0x04

-- Whether `_gdp_gob_cache_get` lets go of an object that it found.
abbrev pub abandons : Handles → (flags : ℕ) → ℕ → Bool
abandons w flags gob =
    not (has gobf_inuse w.cache gob)
    || (not (has gobf_incache w.cache gob)
        || (has gobf_dropping w.cache gob
            || (has gobf_pending w.cache gob && not (bitset ggcf_get_pending flags))))

abbrev pub at_cache : (Cache → Cache) → Handles → Handles
at_cache f w = record w { cache = f w.cache }

-- The first half of `_gdp_gob_cache_get`: what the cache has.
unfoldable pub get_cached : Handles → List ℕ → (flags now : ℕ) → Handles × Option ℕ
get_cached w gob_name flags now = elim (ep_hash_search w.cache.open_gobs gob_name) [
  | none ↦ (w, none)
  | some gob ↦
      let w1 = gob_lock w gob in
      if abandons w1 flags gob
      then (gob_unlock w1 gob, none)
      else if not (bitset ggcf_peek flags)
      then (at_cache (λ c. gob_touch c gob now) (gob_incref w1 gob), some gob)
      else (w1, some gob)
]

-- The second half: a new object, locked and added.
unfoldable pub get_created :
    Handles → List ℕ → (now : ℕ) (newname : List ℕ) (mem : Option ℕ) → Handles × Option (Option ℕ)
get_created w gob_name now newname mem =
    let (w1, new) = gob_new w (some gob_name) newname mem in
    elim new [
      | none ↦ (w1, none)
      | some gob ↦ (at_cache (λ c. add_cache_unlocked c gob now) (gob_lock w1 gob), some (some gob))
    ]

-- `_gdp_gob_cache_get`: `none` is an error, `some none` is NULL.
unfoldable pub cache_get :
    Handles
    → List ℕ
    → (flags now : ℕ) (newname : List ℕ) (mem : Option ℕ) → Handles × Option (Option ℕ)
cache_get w gob_name flags now newname mem =
    let (w1, found) = get_cached w gob_name flags now in
    elim found [
      | some gob ↦ (w1, some (some gob))
      | none ↦
          if bitset ggcf_create flags
          then get_created w1 gob_name now newname mem
          else (w1, some none)
    ]

-- What the loop of `_gdp_gob_cache_reclaim` does with an object whose lock it has got.
unfoldable pub reclaim_gob : Handles → (now maxage : ℕ) → ℕ → Handles
reclaim_gob w now maxage gob =
    let w1 = gob_lock w gob in
    if ltb now ((w1.cache.st gob).utime + maxage)
    then gob_unlock w1 gob
    else if has gobf_dropping w1.cache gob || ltb 0 (w1.cache.st gob).refcnt
    then gob_unlock w1 gob
    else gob_free (at_cache (λ c. cache_drop c gob) w1) (some gob)

-- One pass over the list from an object on; `busy` says whose lock another thread holds.
unfoldable pub reclaim_pass :
    Handles → (now maxage maxgobs : ℕ) (busy : ℕ → Bool) (loopcount : ℕ) → List ℕ → Handles
reclaim_pass w now maxage maxgobs busy loopcount [] = w
reclaim_pass w now maxage maxgobs busy loopcount (g1 ∷ g2) =
    if ltb maxgobs loopcount
    then w
    else reclaim_pass (if busy g1 then w else reclaim_gob w now maxage g1) now maxage maxgobs busy
        (suc loopcount) g2

-- What the rest of the process and the system say in one pass: the clock, the locks that are held,
-- and the file descriptors in use and at most (`ep_app_numfds`).
pub record Pass : Type 0 where
  pub now : ℕ
  pub busy : ℕ → Bool
  pub nfds : ℕ
  pub maxfds : ℕ

-- The next limit on the age; at 0 the loop gives up.
abbrev pub shorter : ℕ → ℕ
shorter maxage = maxage - (if ltb maxage 4 then 1 else maxage / 4)

-- `_gdp_gob_cache_reclaim` from its `n`th pass on; `none` is no fuel left.
unfoldable pub cache_reclaim :
    (fuel : ℕ) → (ℕ → Pass) → (headroom maxgobs n maxage : ℕ) → Handles → Option Handles
cache_reclaim zero passes headroom maxgobs n maxage w = none
cache_reclaim (suc fuel) passes headroom maxgobs n maxage w =
    let p = passes n in
    let w1 = reclaim_pass w p.now maxage maxgobs p.busy 0 w.cache.gobs_by_use in
    let rest = cache_reclaim fuel passes headroom maxgobs (suc n) (shorter maxage) w1 in
    if ltb (p.nfds + headroom) p.maxfds
    then some w1
    else if shorter maxage == 0
    then some w1
    else rest

-- The loop of `_gdp_gob_cache_shutdown`, less the requests.
unfoldable pub shutdown_gobs : Handles → List ℕ → Handles
shutdown_gobs w [] = w
shutdown_gobs w (g1 ∷ g2) =
    shutdown_gobs (gob_free (adjust g1 (set_flags gobf_islocked) w) (some g1)) g2

-- `_gdp_gob_cache_shutdown`
abbrev pub cache_shutdown : Handles → Handles
cache_shutdown w = shutdown_gobs w w.cache.gobs_by_use
