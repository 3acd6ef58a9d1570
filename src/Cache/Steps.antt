-- ===== src/Cache/Steps.antt =====
-- The operations that change the cache. Each runs with the cache's lock held, so it is one step.
pub mod Invariant
pub mod Changes
use gdp.Base.{
  ℕ, Bool, true, false, not, ◌&&◌, ◌||◌, Option, none, some, List, [], ◌∷◌, if◌then◌else◌, ◌==◌,
  bitset, bit_and, bit_or,
}
use gdp.Hash.{Table, ep_hash_insert, ep_hash_delete}
use gdp.Name.{name_is_valid}
use gdp.Cache.{Gob, Store, gobf_inuse, gobf_dropping, gobf_incache}

abbrev pub gobf_islocked : ℕ
gobf_islocked = 0x02

pub record Cache : Type 0 where
  pub st : Store
  pub open_gobs : Table ℕ
  pub gobs_by_use : List ℕ

abbrev pub update : ℕ → (Gob → Gob) → Store → Store
update gob f st g = if g == gob then f (st g) else st g

-- `LIST_REMOVE`
unfoldable pub list_remove : ℕ → List ℕ → List ℕ
list_remove gob [] = []
list_remove gob (g ∷ gs) = if g == gob then gs else g ∷ list_remove gob gs

-- `GDP_GOB_ISGOOD`, and whether a flag of the object is set.
abbrev pub has : ℕ → Cache → ℕ → Bool
has flag c gob = bitset flag (c.st gob).flags

-- `add_cache_unlocked`, at the time `now`.
unfoldable pub add_cache_unlocked : Cache → ℕ → (now : ℕ) → Cache
add_cache_unlocked c gob now =
    if not (has gobf_inuse c gob)
    then c
    else if not (has gobf_islocked c gob)
    then c
    else if has gobf_incache c gob
    then c
    else record {
      open_gobs = (ep_hash_insert c.open_gobs (c.st gob).name (some gob)).1;
      gobs_by_use = gob ∷ c.gobs_by_use;
      st = update gob (λ g. record g { utime = now; flags = bit_or g.flags gobf_incache }) c.st;
    }

-- `_gdp_gob_touch`
unfoldable pub gob_touch : Cache → ℕ → (now : ℕ) → Cache
gob_touch c gob now =
    if not (has gobf_inuse c gob)
    then c
    else (let c' : Cache = record c { st = update gob (λ g. record g { utime = now }) c.st } in
        if not (has gobf_islocked c gob)
        then c'
        else if not (has gobf_incache c gob)
        then c'
        else record c' { gobs_by_use = gob ∷ list_remove gob c.gobs_by_use })

-- `_gdp_gob_cache_drop`; no other step comes between its parts.
unfoldable pub cache_drop : Cache → ℕ → Cache
cache_drop c gob =
    if not (has gobf_inuse c gob) && not (name_is_valid (c.st gob).name)
    then c
    else if not (has gobf_incache c gob)
    then c
    else record {
      open_gobs = (ep_hash_delete c.open_gobs (c.st gob).name).1;
      gobs_by_use = list_remove gob c.gobs_by_use;
      st =
          update gob (λ g. record g { flags = bit_and (bit_or g.flags gobf_dropping) 0xfffffff7 })
            c.st;
    }

-- `_gdp_gob_cache_changename`
unfoldable pub cache_changename : Cache → ℕ → (newname : List ℕ) → Cache
cache_changename c gob newname =
    if not (has gobf_inuse c gob)
      || (not (name_is_valid (c.st gob).name)
          || (not (name_is_valid newname) || not (has gobf_incache c gob)))
    then c
    else record c {
      open_gobs =
          (ep_hash_insert (ep_hash_delete c.open_gobs (c.st gob).name).1 newname (some gob)).1;
      st = update gob (λ g. record g { name = newname }) c.st;
    }
