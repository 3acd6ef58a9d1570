-- ===== src/Cache.antt =====
-- The cache of open objects (gdp/gdp_gob_cache.c): a hash table by name, and a list from the most
-- recently used on. An object is its address; a store says what stands there.
pub mod Order
pub mod Rebuild
pub mod Steps
use gdp.Base.{
  ℕ, Bool, true, false, not, ◌||◌, Option, none, some, List, [], ◌∷◌, if◌then◌else◌, ltb, ◌==◌,
  bitset, bit_or, ◌>>=◌,
}
use gdp.Hash.{Table, ep_hash_search, ep_hash_insert, ep_hash_delete, ep_hash_forall}
use gdp.Name.{name_is_valid}

abbrev pub gobf_inuse : ℕ
gobf_inuse = 0x01

abbrev pub gobf_dropping : ℕ
gobf_dropping = 0x04

abbrev pub gobf_incache : ℕ
gobf_incache = 0x08

-- The parts of `struct gdp_gob` that the cache and the life of an object read and write.
pub record Gob : Type 0 where
  pub name : List ℕ
  pub utime : ℕ
  pub flags : ℕ
  pub refcnt : ℕ
  pub nrecs : ℕ

abbrev pub Store : Type 0
Store = ℕ → Gob

-- The walk of `sorted_insert` from an element on: after the first one whose successor is older.
unfoldable pub insert_after : Store → ℕ → ℕ → List ℕ → List ℕ
insert_after st gob g2 [] = g2 ∷ gob ∷ []
insert_after st gob g2 (g3 ∷ rest) =
    if ltb (st g3).utime (st gob).utime
    then g2 ∷ gob ∷ g3 ∷ rest
    else g2 ∷ insert_after st gob g3 rest

unfoldable pub insert_live : Store → ℕ → List ℕ → List ℕ
insert_live st gob [] = gob ∷ []
insert_live st gob (g2 ∷ rest) =
    if ltb (st g2).utime (st gob).utime then gob ∷ g2 ∷ rest else insert_after st gob g2 rest

-- Whether an object is in the list.
unfoldable pub in_list : ℕ → List ℕ → Bool
in_list gob [] = false
in_list gob (g ∷ gs) = (g == gob) || in_list gob gs

-- `sorted_insert`; `none` is a read through a NULL pointer, or the insertion of an object that is in the
-- list already, whose links are those of its place there.
unfoldable pub sorted_insert : Store → Option (List ℕ) → List ℕ → Option ℕ → Option (List ℕ)
sorted_insert st none key gob = none
sorted_insert st (some lru) key none = none
sorted_insert st (some lru) key (some gob) =
    if bitset gobf_dropping (st gob).flags
    then some lru
    else if in_list gob lru
    then none
    else some (insert_live st gob lru)

-- `rebuild_lru_list`, less its lock.
unfoldable pub rebuild_lru_list : Store → Table ℕ → Option (List ℕ)
rebuild_lru_list st hp = ep_hash_forall hp (sorted_insert st) (some [])
