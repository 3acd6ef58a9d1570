-- ===== src/Tests/Caches.antt =====
-- A cache with one object, and a second object that is not in it.
use gdp.Base.{
  ◌≤◌, Bool-cases, inl, inr, ℕ, ◌≡◌, refl, arith, Bool, true, none, some, List, [], ◌∷◌,
  if◌then◌else◌, ◌==◌, replicate,
}
use gdp.Hash.{Table, same_key, find_pos, find_node_ptr, ep_hash_search}
use gdp.Hash.Laws.{IsTable}
use gdp.Name.{name_is_valid, some_word}
use gdp.Cache.{Store, rebuild_lru_list}
use gdp.Cache.Order.{IsSorted, count}
use gdp.Cache.Rebuild.{rebuild_lru_list-IsSorted}
use gdp.Cache.Steps.{Cache}
use gdp.Cache.Steps.Invariant.{IsCache}

abbrev first_name : List ℕ
first_name = replicate 32 1

abbrev second_name : List ℕ
second_name = replicate 32 2

abbrev third_name : List ℕ
third_name = replicate 32 3

-- The object at 10 is cached, the one at 20 is only in use and locked.
abbrev gobs : Store
gobs g =
    if g == 10
    then record { name = first_name; utime = 5; flags = 0x0b; refcnt = 0; nrecs = 0 }
    else record { name = second_name; utime = 0; flags = 0x03; refcnt = 1; nrecs = 0 }

-- One chain, and a hash function for it.
abbrev one_chain : Table ℕ
one_chain = record {
  hfunc = λ n key. 0;
  tabsize = 1;
  tab = (record { key = first_name; val = some 10 } ∷ []) ∷ [];
}

one_chain-IsTable : IsTable one_chain
one_chain-IsTable = record { chains = refl; indexed = λ key. omega arith }

first_found : ep_hash_search one_chain first_name ≡ some 10
unfolding ep_hash_search find_node_ptr find_pos same_key
first_found = refl

second_unused : ep_hash_search one_chain second_name ≡ none
unfolding ep_hash_search find_node_ptr find_pos same_key
second_unused = refl

third_unused : ep_hash_search one_chain third_name ≡ none
unfolding ep_hash_search find_node_ptr find_pos same_key
third_unused = refl

first_valid : name_is_valid first_name ≡ true
unfolding name_is_valid some_word
first_valid = refl

third_valid : name_is_valid third_name ≡ true
unfolding name_is_valid some_word
third_valid = refl

abbrev cache : Cache
cache = record { st = gobs; open_gobs = one_chain; gobs_by_use = 10 ∷ [] }

cache-IsCache : IsCache cache
cache-IsCache = record { table = one_chain-IsTable; found = (first_found, tt); distinct = (tt, tt) }

single : (g : ℕ) → count (λ x. x == g) (10 ∷ []) ≤ 1
single g = elim (Bool-cases (10 == g)) [ inl p ↦ rw p (omega arith) | inr p ↦ rw p (omega arith) ]

rebuild_lru_list-IsSorted_example :
    (l : List ℕ) × (rebuild_lru_list gobs one_chain ≡ some l)
    × IsSorted gobs l
    × ((p : ℕ → Bool) → count p l ≡ count p (10 ∷ []))
rebuild_lru_list-IsSorted_example = rebuild_lru_list-IsSorted gobs one_chain refl single
