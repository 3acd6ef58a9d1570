-- ===== src/Tests/Gobs.antt =====
-- Objects that are made, asked for, and given up, from an empty cache on.
use gdp.Base.{
  ℕ, ◌≡◌, refl, arith, true, false, none, some, List, [], ◌∷◌, if◌then◌else◌, ◌==◌, replicate,
  Bool-cases, inl, inr, sym, ◌∙◌,
}
use gdp.Hash.{same_key, find_pos, find_node_ptr, ep_hash_search, Table}
use gdp.Hash.Chains.{same_key→eq}
use gdp.Name.{name_is_valid, some_word}
use gdp.Cache.{Store, gobf_incache}
use gdp.Cache.Steps.{has}
use gdp.Gobs.{
  Handles, zeroed, gob_new, gob_free, gob_incref, gob_decref, retire, put_free, gob_lock,
  gob_unlock, free_candidate, init_gob,
}
use gdp.Gobs.Access.{cache_get, cache_reclaim, cache_shutdown, Pass}
use gdp.Gobs.Sound.{IsSound, among, by_object}
use gdp.Gobs.Get.{IsHeld, cache_get_hit}
use gdp.Gobs.Pending.{let_go, cache_get_pending}
use gdp.Gobs.Reclaim.{Keeps, cache_reclaim-Keeps}
use gdp.Gobs.Shutdown.{cache_shutdown-empty}
use gdp.Gobs.Runs.{◌⟶*◌, done, next, new, incref, decref, cache_init, reachable-IsSound}

abbrev name_a : List ℕ
name_a = replicate 32 1

-- The object at 10 is cached, with one reference and the flags given.
abbrev gobs : ℕ → Store
gobs flags g =
    if g == 10
    then record { name = name_a; utime = 5; flags = flags; refcnt = 1; nrecs = 0 }
    else zeroed

abbrev one_name : Table ℕ
one_name = record {
  hfunc = λ n key. 0;
  tabsize = 1;
  tab = (record { key = name_a; val = some 10 } ∷ []) ∷ [];
}

abbrev handles : ℕ → Handles
handles flags = record {
  cache = record { st = gobs flags; open_gobs = one_name; gobs_by_use = 10 ∷ [] };
  free_list = [];
  n_gobs_allocated = 1;
}

a_found : ep_hash_search one_name name_a ≡ some 10
unfolding ep_hash_search find_node_ptr find_pos same_key
a_found = refl

only_name : (k : List ℕ) → ep_hash_search one_name k ≡ (if same_key k name_a then some 10 else none)
unfolding ep_hash_search find_node_ptr find_pos
only_name k = elim (Bool-cases (same_key k name_a)) [
  | inl s ↦ rw (ep_hash_search, find_node_ptr, find_pos, s) refl
  | inr s ↦ rw (ep_hash_search, find_node_ptr, find_pos, s) refl
]

handles-IsSound :
    (flags : ℕ)
    → has gobf_incache (handles flags).cache 10 ≡ true
    → has 0x01 (handles flags).cache 10 ≡ true
    → IsSound (handles flags)
unfolding among
handles-IsSound flags c u = record {
  cache = record {
    table = record { chains = refl; indexed = λ key. omega arith };
    found = (a_found, tt);
    distinct = (tt, tt);
  };
  owned = λ k g h. elim (Bool-cases (same_key k name_a)) [
    | inr s ↦ let no : none ≡ some g = sym (only_name k ∙ rw s refl) ∙ h in absurd (cc no)
    | inl s ↦
        let both : some 10 ≡ some g = sym (only_name k ∙ rw s refl) ∙ h in
        let same : 10 ≡ g = cc both in rw (sym same) (sym (same_key→eq k name_a s), c)
  ];
  marked = by_object _ 10 c (λ g p. rw p (ground (arith, p)));
  used =
      by_object _ 10 (λ m. u)
        (λ g p m. let no : false ≡ true = sym (rw p refl) ∙ m in absurd (cc no));
  idle = tt;
  distinct = tt;
}

-- The flags of an object that is open, and of one that is still pending.
abbrev opened : Handles
opened = handles 0x09

abbrev pending : Handles
pending = handles 0x49

opened-IsSound : IsSound opened
opened-IsSound = handles-IsSound 0x09 refl refl

a_valid : name_is_valid name_a ≡ true
unfolding name_is_valid some_word
a_valid = refl

cache_get_hit_example :
    ((cache_get opened name_a 0 7 [] none).1 ≡ some (some 10))
    × IsHeld (cache_get opened name_a 0 7 [] none).0.cache 10 name_a 2
    × IsSound (cache_get opened name_a 0 7 [] none).0
cache_get_hit_example = cache_get_hit opened name_a 0 7 10 [] none opened-IsSound a_found refl refl

made_new : (gob_new (let_go pending 10) (some name_a) [] (some 20)).1 ≡ some 20
unfolding gob_new free_candidate gob_unlock gob_lock
made_new = refl

cache_get_pending_example :
    ((cache_get pending name_a 1 7 [] (some 20)).1 ≡ some (some 20))
    × ((10 == 20) ≡ false)
    × (ep_hash_search (cache_get pending name_a 1 7 [] (some 20)).0.cache.open_gobs name_a
        ≡ some 20)
    × (has gobf_incache (cache_get pending name_a 1 7 [] (some 20)).0.cache 10 ≡ true)
cache_get_pending_example =
    cache_get_pending pending name_a 1 7 10 [] (some 20) 20 (handles-IsSound 0x49 refl refl)
      (refl, tt) a_found refl refl a_valid made_new

-- A system with too few file descriptors, so that the age is shortened until it is 0.
abbrev crowded : ℕ → Pass
crowded n = record { now = 100; busy = λ g. false; nfds = 90; maxfds = 100 }

cache_reclaim-Keeps_example :
    (w : Handles) × (cache_reclaim 6 crowded 30 1000 0 5 opened ≡ some w)
    × IsSound w
    × Keeps opened w
cache_reclaim-Keeps_example =
    cache_reclaim-Keeps crowded 30 1000 0 5 6 opened (omega arith) opened-IsSound

cache_shutdown-empty_example :
    IsSound (cache_shutdown opened)
    × ((cache_shutdown opened).cache.gobs_by_use ≡ [])
    × ((k : List ℕ) → ep_hash_search (cache_shutdown opened).cache.open_gobs k ≡ none)
    × ((g : ℕ) → has gobf_incache (cache_shutdown opened).cache g ≡ false)
cache_shutdown-empty_example = cache_shutdown-empty opened opened-IsSound

-- One object is made, referred to once more, and given up twice.
abbrev w1 : Handles
w1 = (gob_new (cache_init 8) (some name_a) [] (some 20)).0

abbrev w2 : Handles
w2 = gob_decref (gob_decref (gob_incref w1 20) 20 true) 20 false

lived : cache_init 8 ⟶* w2
unfolding cache_init
lived =
    next (new (some name_a) [] (some 20) (refl, tt))
      (next (incref 20) (next (decref 20 true) (next (decref 20 false) done)))

reachable-IsSound_example : IsSound w2
reachable-IsSound_example = reachable-IsSound 8 w2 (omega arith) lived

-- The object waits on the free list then.
given_up : w2.free_list ≡ 20 ∷ []
unfolding gob_new free_candidate init_gob gob_incref gob_decref gob_free retire put_free gob_unlock
    cache_init
given_up = refl
