-- ===== src/Gobs.antt =====
-- The life of an open object (gdp/gdp_gob_mgmt.c): objects are counted, and those that are no longer
-- used wait on a free list. A lock is the flag that says who holds it.
pub mod Access
pub mod Sound
pub mod Life
pub mod Freed
pub mod Found
pub mod Made
pub mod Get
pub mod Rename
pub mod Pending
pub mod Reclaim
pub mod Shutdown
pub mod Runs
use gdp.Base.{
  ℕ, zero, suc, ◌+◌, ◌-◌, Bool, true, false, not, ◌&&◌, ◌||◌, Option, none, some, List, [], ◌∷◌,
  if◌then◌else◌, ◌==◌, bit_and, bit_or, bitset, drop,
}
use gdp.Name.{name_is_valid}
use gdp.Cache.{Gob, Store, gobf_inuse, gobf_dropping, gobf_incache}
use gdp.Cache.Steps.{Cache, update, has, gobf_islocked, cache_drop}

abbrev pub gobf_defer_free : ℕ
gobf_defer_free = 0x10

abbrev pub gobf_keeplocked : ℕ
gobf_keeplocked = 0x20

abbrev pub gobf_pending : ℕ
gobf_pending = 0x40

-- `GobFreeList` and `NGobsAllocated`, with the cache.
pub record Handles : Type 0 where
  pub cache : Cache
  pub free_list : List ℕ
  pub n_gobs_allocated : ℕ

-- An assignment to members of one object.
abbrev pub adjust : ℕ → (Gob → Gob) → Handles → Handles
adjust gob f w = record w { cache = record w.cache { st = update gob f w.cache.st } }

abbrev pub set_flags : ℕ → Gob → Gob
set_flags m g = record g { flags = bit_or g.flags m }

abbrev pub keep_flags : ℕ → Gob → Gob
keep_flags m g = record g { flags = bit_and g.flags m }

-- `_gdp_gob_lock`, when no other thread holds the lock.
unfoldable pub gob_lock : Handles → ℕ → Handles
gob_lock w gob = adjust gob (set_flags gobf_islocked) w

-- `_gdp_gob_unlock`
unfoldable pub gob_unlock : Handles → ℕ → Handles
gob_unlock w gob = adjust gob (keep_flags 0xfffffffd) w

-- The first object of the free list, where it passes the check.
unfoldable pub free_candidate : Cache → List ℕ → Option ℕ
free_candidate c [] = none
free_candidate c (g ∷ gs) = if not (has gobf_inuse c g) then some g else none

-- What `ep_mem_zalloc` leaves in an object.
abbrev pub zeroed : Gob
zeroed = record { name = []; utime = 0; flags = 0; refcnt = 0; nrecs = 0 }

-- The members that `_gdp_gob_new` sets; `newname` is what `_gdp_newname` makes up.
unfoldable pub init_gob : Handles → Option (List ℕ) → (newname : List ℕ) → ℕ → Handles
init_gob w gob_name newname gob =
    let w' : Handles =
      adjust gob
        (λ g. record g {
          refcnt = 1;
          nrecs = 0;
          name = elim gob_name [
            | none ↦ newname
            | some name ↦ if not (name_is_valid name) then newname else name
          ];
          flags = bit_or gobf_inuse gobf_pending;
        })
        w in
    record w' { n_gobs_allocated = suc w.n_gobs_allocated }

-- `_gdp_gob_new`; `mem` is where `ep_mem_zalloc` puts an object, and `none` is an error.
unfoldable pub gob_new :
    Handles → Option (List ℕ) → (newname : List ℕ) → (mem : Option ℕ) → Handles × Option ℕ
gob_new w gob_name newname mem =
    let w1 : Handles = record w { free_list = drop 1 w.free_list } in
    elim (free_candidate w.cache w.free_list) [
      | some gob ↦ (init_gob w1 gob_name newname gob, some gob)
      | none ↦ elim mem [
        | none ↦ (w1, none)
        | some gob ↦ (init_gob (adjust gob (λ g. zeroed) w1) gob_name newname gob, some gob)
      ]
    ]

-- The end of `_gdp_gob_free`: unlock the object, and put it on the free list.
unfoldable pub put_free : Handles → ℕ → Handles
put_free w gob =
    let w' : Handles = adjust gob (λ g. record g { flags = 0 }) (gob_unlock w gob) in
    record w' { free_list = gob ∷ w.free_list; n_gobs_allocated = w.n_gobs_allocated - 1 }

-- Marked as dropping, with no reference, and out of the cache if it is there.
unfoldable pub retire : Handles → ℕ → Handles
retire w gob =
    let w1 : Handles =
      adjust gob (λ g. record g { flags = bit_or g.flags gobf_dropping; refcnt = 0 }) w in
    if has gobf_incache w1.cache gob then record w1 { cache = cache_drop w1.cache gob } else w1

-- `_gdp_gob_free`, less what hangs on the object: its requests, metadata and keys. `none` is NULL.
unfoldable pub gob_free : Handles → Option ℕ → Handles
gob_free w none = w
gob_free w (some gob) = if not (has gobf_inuse w.cache gob) then w else put_free (retire w gob) gob

-- `_gdp_gob_incref`
unfoldable pub gob_incref : Handles → ℕ → Handles
gob_incref w gob =
    if not (has gobf_inuse w.cache gob)
    then w
    else adjust gob (λ g. record g { refcnt = suc g.refcnt }) w

-- `_gdp_gob_decref`
unfoldable pub gob_decref : Handles → ℕ → (keeplocked : Bool) → Handles
gob_decref w gob keeplocked =
    if not (has gobf_inuse w.cache gob)
    then w
    else (let w1 : Handles = adjust gob (λ g. record g { refcnt = g.refcnt - 1 }) w in
        if ((w1.cache.st gob).refcnt == 0) && not (has gobf_defer_free w1.cache gob)
        then gob_free w1 (some gob)
        else if not (has gobf_islocked w1.cache gob)
        then w1
        else if not keeplocked && not (has gobf_keeplocked w1.cache gob)
        then gob_unlock w1 gob
        else w1)
