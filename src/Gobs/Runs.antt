-- ===== src/Gobs/Runs.antt =====
-- Runs of operations on the objects (gdp/gdp_gob_mgmt.c, gdp/gdp_gob_cache.c), from the start.
use gdp.Base.{
  ℕ, suc, ◌<◌, ◌≡◌, refl, sym, ap, ◌∙◌, Bool, true, false, Option, none, some, List, [], arith,
}
use gdp.Hash.{hash_new, ep_hash_search}
use gdp.Hash.New.{hash_new-IsTable}
use gdp.Name.{name_is_valid}
use gdp.Cache.{gobf_inuse, gobf_incache}
use gdp.Cache.Steps.{has, add_cache_unlocked, gob_touch, cache_drop, cache_changename}
use gdp.Gobs.{
  Handles, adjust, keep_flags, zeroed, gob_lock, gob_unlock, gob_new, gob_free, gob_incref,
  gob_decref,
}
use gdp.Gobs.Access.{at_cache, abandons, cache_get, cache_reclaim, Pass}
use gdp.Gobs.Sound.{IsSound, among, All-among}
use gdp.Gobs.Life.{gob_lock-IsSound, gob_unlock-IsSound, gob_opened-IsSound, gob_incref-IsSound}
use gdp.Gobs.Freed.{gob_decref-IsSound, gob_free-IsSound, cache_drop-IsSound}
use gdp.Gobs.Found.{gob_touch-IsSound, add_cache_unlocked-IsSound}
use gdp.Gobs.Made.{IsFresh, gob_new-IsSound}
use gdp.Gobs.Get.{cache_get-IsSound}
use gdp.Gobs.Rename.{cache_changename-IsSound}
use gdp.Gobs.Reclaim.{cache_reclaim-Keeps}

-- One operation. Memory and new names are fresh; an object that is asked for is not let go of as pending or
-- dropping; an object that is added or renamed gets a name that no cached object has; `opened` is the
-- assignment that ends GOBF_PENDING.
infix 40 ◌⟶◌ ◌⟶*◌
pub data ◌⟶◌ : Handles → Handles → Type 0 where
  get :
      {w : Handles} (name : List ℕ) (flags now : ℕ) (newname : List ℕ) (mem : Option ℕ)
      → IsFresh w mem
      → ep_hash_search w.cache.open_gobs newname ≡ none
      → ((gob : ℕ)
          → ep_hash_search w.cache.open_gobs name ≡ some gob
          → abandons w flags gob ≡ false)
      → w ⟶ (cache_get w name flags now newname mem).0
  new :
      {w : Handles} (name : Option (List ℕ)) (newname : List ℕ) (mem : Option ℕ)
      → IsFresh w mem
      → w ⟶ (gob_new w name newname mem).0
  add :
      {w : Handles} (gob now : ℕ)
      → ep_hash_search w.cache.open_gobs (w.cache.st gob).name ≡ none
      → w ⟶ at_cache (λ c. add_cache_unlocked c gob now) w
  lock : {w : Handles} (gob : ℕ) → has gobf_inuse w.cache gob ≡ true → w ⟶ gob_lock w gob
  unlock : {w : Handles} (gob : ℕ) → has gobf_inuse w.cache gob ≡ true → w ⟶ gob_unlock w gob
  opened :
      {w : Handles} (gob : ℕ)
      → has gobf_inuse w.cache gob ≡ true
      → w ⟶ adjust gob (keep_flags 0xffffffbf) w
  incref : {w : Handles} (gob : ℕ) → w ⟶ gob_incref w gob
  decref : {w : Handles} (gob : ℕ) (keeplocked : Bool) → w ⟶ gob_decref w gob keeplocked
  free : {w : Handles} (pgob : Option ℕ) → w ⟶ gob_free w pgob
  touch : {w : Handles} (gob now : ℕ) → w ⟶ at_cache (λ c. gob_touch c gob now) w
  drop :
      {w : Handles} (gob : ℕ)
      → has gobf_incache w.cache gob ≡ true
      → w ⟶ at_cache (λ c. cache_drop c gob) w
  rename :
      {w : Handles} (gob : ℕ) (newname : List ℕ)
      → has gobf_incache w.cache gob ≡ true
      → name_is_valid (w.cache.st gob).name ≡ true
      → name_is_valid newname ≡ true
      → ep_hash_search w.cache.open_gobs newname ≡ none
      → w ⟶ at_cache (λ c. cache_changename c gob newname) w
  reclaim :
      {w w' : Handles} (passes : ℕ → Pass) (headroom maxgobs maxage : ℕ)
      → cache_reclaim (suc maxage) passes headroom maxgobs 0 maxage w ≡ some w'
      → w ⟶ w'

pub data ◌⟶*◌ : Handles → Handles → Type 0 where
  done : {w : Handles} → w ⟶* w
  next : {u v w : Handles} → u ⟶ v → v ⟶* w → u ⟶* w

-- What `_gdp_gob_cache_init` leaves, with no object; `def_size` is the configured size of a table.
unfoldable pub cache_init : (def_size : ℕ) → Handles
cache_init def_size = record {
  cache = record { st = λ g. zeroed; open_gobs = hash_new none 0 def_size; gobs_by_use = [] };
  free_list = [];
  n_gobs_allocated = 0;
}

cache_init-IsSound : (def_size : ℕ) → 0 < def_size → IsSound (cache_init def_size)
unfolding cache_init among
cache_init-IsSound def_size h =
    let (table, empty) = hash_new-IsTable {V = ℕ} 0 def_size h in
    record {
      cache = record { table = table; found = tt; distinct = tt };
      owned = λ k g e. let no : none ≡ some g = sym (empty k) ∙ e in absurd (cc no);
      marked = λ g. refl;
      used = λ g m. absurd (cc m);
      idle = tt;
      distinct = tt;
    }

-- Each operation keeps the state sound.
pub step-IsSound : (w w' : Handles) → w ⟶ w' → IsSound w → IsSound w'
step-IsSound w w' (get name flags now newname mem fresh unused settled) ok =
    cache_get-IsSound w name flags now newname mem ok fresh unused settled
step-IsSound w w' (new name newname mem fresh) ok = gob_new-IsSound w name newname mem ok fresh
step-IsSound w w' (add gob now unused) ok = add_cache_unlocked-IsSound w gob now ok unused
step-IsSound w w' (lock gob u) ok = gob_lock-IsSound w gob ok u
step-IsSound w w' (unlock gob u) ok = gob_unlock-IsSound w gob ok u
step-IsSound w w' (opened gob u) ok = gob_opened-IsSound w gob ok u
step-IsSound w w' (incref gob) ok = gob_incref-IsSound w gob ok
step-IsSound w w' (decref gob keeplocked) ok = gob_decref-IsSound w gob keeplocked ok
step-IsSound w w' (free pgob) ok = gob_free-IsSound w pgob ok
step-IsSound w w' (touch gob now) ok = gob_touch-IsSound w gob now ok
step-IsSound w w' (drop gob c) ok = (cache_drop-IsSound w gob ok c).0
step-IsSound w w' (rename gob newname c v v' unused) ok =
    cache_changename-IsSound w gob newname ok c v v' unused
step-IsSound w w' (reclaim passes headroom maxgobs maxage e) ok =
    let (r, e', fine, keeps) =
      cache_reclaim-Keeps passes headroom maxgobs 0 maxage (suc maxage) w (omega arith) ok in
    let both : some r ≡ some w' = sym e' ∙ e in let same : r ≡ w' = cc both in rw (sym same) fine

run-IsSound : (w w' : Handles) → w ⟶* w' → IsSound w → IsSound w'
run-IsSound w w' done ok = ok
run-IsSound w w' (next {v = v} s r) ok = run-IsSound v w' r (step-IsSound w v s ok)

-- From the start, after operations of the following kinds in any order: a search of the cache by a name that
-- does not lead to an object that is pending, unless those are asked for, or dropping; a new object, in
-- memory that no object has; the addition of an object whose name the table does not lead to; locking,
-- unlocking and the end of GOBF_PENDING of an object in use; changes of a count; a release; a use; a
-- removal of a cached object; its change of a valid name to another valid one that the table does not lead
-- to; and a reclamation. Then the table and the list of the cache agree, the objects in the list are
-- those marked as cached, which are in use, a name leads to a cached object of that name, and the free list
-- has no object twice and none that has a flag.
pub reachable-IsSound :
    (def_size : ℕ) (w : Handles) → 0 < def_size → cache_init def_size ⟶* w → IsSound w
reachable-IsSound def_size w h r =
    run-IsSound (cache_init def_size) w r (cache_init-IsSound def_size h)

-- In a sound state two cached objects with one name are one object.
pub names_unique :
    (w : Handles) (g h : ℕ)
    → IsSound w
    → has gobf_incache w.cache g ≡ true
    → has gobf_incache w.cache h ≡ true
    → (w.cache.st g).name ≡ (w.cache.st h).name
    → g ≡ h
names_unique w g h ok c c' n =
    let here = All-among _ g w.cache.gobs_by_use ok.cache.found (sym (ok.marked g) ∙ c) in
    let there = All-among _ h w.cache.gobs_by_use ok.cache.found (sym (ok.marked h) ∙ c') in
    let both : some g ≡ some h = sym here ∙ (ap (ep_hash_search w.cache.open_gobs) n ∙ there) in
    cc both
