-- ===== src/Gobs/Get.antt =====
-- Objects that are asked for by name (`_gdp_gob_cache_get`).
use gdp.Base.{
  ℕ, suc, ◌≡◌, refl, arith, sym, ap, ◌∙◌, true, false, not, Option, none, some, List, ◌∷◌,
  if◌then◌else◌, ==_self, bitset, bit_or, Bool-cases, Option-cases, inl, inr, bitset-or,
}
use gdp.Hash.{ep_hash_search}
use gdp.Name.{name_is_valid}
use gdp.Cache.{Gob, gobf_inuse, gobf_incache}
use gdp.Cache.Steps.{Cache, update, list_remove, has, gobf_islocked, gob_touch}
use gdp.Gobs.{Handles, adjust, set_flags, gob_lock, gob_incref, gob_new}
use gdp.Gobs.Sound.{IsSound, at_own}
use gdp.Gobs.Life.{gob_lock-IsSound, gob_incref-IsSound}
use gdp.Gobs.Found.{gob_touch-IsSound, add_cache_unlocked-IsSound}
use gdp.Gobs.Made.{IsFresh, chosen, gob_new-IsNew, gob_new-IsSound}
use gdp.Gobs.Access.{at_cache, get_cached, get_created, cache_get, abandons, ggcf_create, ggcf_peek}

-- The lock does not change what the cache does with an object.
pub abandons-gob_lock :
    (w : Handles) (flags gob : ℕ) → abandons (gob_lock w gob) flags gob ≡ abandons w flags gob
unfolding gob_lock
abandons-gob_lock w flags gob =
    let x = (w.cache.st gob).flags in
    rw
      (
        ==_self gob,
        bitset-or 0 x gobf_islocked,
        bitset-or 2 x gobf_islocked,
        bitset-or 3 x gobf_islocked,
        bitset-or 6 x gobf_islocked,
      )
      (ground arith)

-- A search that finds nothing, and one that finds an object that is kept.
get_cached_miss :
    (w : Handles) (name : List ℕ) (flags now : ℕ)
    → ep_hash_search w.cache.open_gobs name ≡ none
    → get_cached w name flags now ≡ (w, none)
unfolding get_cached
get_cached_miss w name flags now e = rw (get_cached, e) refl

get_cached_hit :
    (w : Handles) (name : List ℕ) (flags now gob : ℕ)
    → ep_hash_search w.cache.open_gobs name ≡ some gob
    → abandons w flags gob ≡ false
    → get_cached w name flags now ≡ (
        if not (bitset ggcf_peek flags)
        then (at_cache (λ c. gob_touch c gob now) (gob_incref (gob_lock w gob) gob), some gob)
        else (gob_lock w gob, some gob))
unfolding get_cached gob_touch gob_incref gob_lock
get_cached_hit w name flags now gob e a = rw (get_cached, e, abandons-gob_lock w flags gob ∙ a) refl

-- A new object is locked: what the rest of the operation makes of it.
module _ (w : Handles) (name newname : List ℕ) (now : ℕ) (mem : Option ℕ) where
  abbrev new_name : List ℕ
  new_name = chosen (some name) newname

  get_created-IsSound :
      IsSound w
      → IsFresh w mem
      → ep_hash_search w.cache.open_gobs new_name ≡ none
      → IsSound (get_created w name now newname mem).0
  unfolding get_created gob_lock
  get_created-IsSound ok fresh free =
      let r = gob_new w (some name) newname mem in
      elim (Option-cases r.1) [
        | inl n ↦ rw (get_created, n) (gob_new-IsSound w (some name) newname mem ok fresh)
        | inr (g, e) ↦
            let new = gob_new-IsNew w (some name) newname mem g ok fresh e in
            let used : has gobf_inuse r.0.cache g ≡ true = rw new.flags refl in
            let w2 = gob_lock r.0 g in
            let fine : IsSound w2 = gob_lock-IsSound r.0 g new.sound used in
            let called : (w2.cache.st g).name ≡ new_name =
              rw (at_own g (set_flags gobf_islocked) r.0.cache.st) new.named in
            let unused : ep_hash_search w2.cache.open_gobs (w2.cache.st g).name ≡ none =
              rw (called, new.same_table) free in
            rw (get_created, e) (add_cache_unlocked-IsSound w2 g now fine unused)
      ]

-- The branches of `_gdp_gob_touch`.
touch_cases :
    (P : Cache → Type 0) (c : Cache) (gob now : ℕ)
    → P c
    → P (record c { st = update gob (λ g. record g { utime = now }) c.st })
    → P (record c {
      st = update gob (λ g. record g { utime = now }) c.st;
      gobs_by_use = gob ∷ list_remove gob c.gobs_by_use;
    })
    → P (gob_touch c gob now)
unfolding gob_touch
touch_cases P c gob now p q r = elim (Bool-cases (has gobf_inuse c gob)) [
  | inr u ↦ rw (gob_touch, u) p
  | inl u ↦ elim (Bool-cases (has gobf_islocked c gob)) [
    | inr l ↦ rw (gob_touch, u, l) q
    | inl l ↦ elim (Bool-cases (has gobf_incache c gob)) [
      | inr i ↦ rw (gob_touch, u, l, i) q
      | inl i ↦ rw (gob_touch, u, l, i) r
    ]
  ]
]

-- What a caller of `_gdp_gob_cache_get` has: the object of that name, locked, with `n` references.
pub record IsHeld (c : Cache) (gob : ℕ) (name : List ℕ) (n : ℕ) : Type 0 where
  pub named : (c.st gob).name ≡ name
  pub found : ep_hash_search c.open_gobs name ≡ some gob
  pub locked : has gobf_islocked c gob ≡ true
  pub counted : (c.st gob).refcnt ≡ n

-- In a sound state, where a search of the table for the name gives an object that is not let go of as
-- dropping or pending, and without GGCF_PEEK: the caller gets that object, locked, with one reference
-- more, and the state is sound.
pub cache_get_hit :
    (w : Handles) (name : List ℕ) (flags now gob : ℕ) (newname : List ℕ) (mem : Option ℕ)
    → IsSound w
    → ep_hash_search w.cache.open_gobs name ≡ some gob
    → abandons w flags gob ≡ false
    → bitset ggcf_peek flags ≡ false
    → ((cache_get w name flags now newname mem).1 ≡ some (some gob))
      × IsHeld
          (cache_get w name flags now newname mem).0.cache
          gob
          name
          (suc (w.cache.st gob).refcnt)
      × IsSound (cache_get w name flags now newname mem).0
unfolding cache_get gob_lock gob_incref
cache_get_hit w name flags now gob newname mem ok e a peek =
    let (called, c) = ok.owned name gob e in
    let x = (w.cache.st gob).flags in
    let u = ok.used gob c in
    let w1 = gob_lock w gob in
    let own = at_own gob (set_flags gobf_islocked) w.cache.st in
    let used : has gobf_inuse w1.cache gob ≡ true =
      rw own (ground (arith, bitset-or 0 x gobf_islocked, u)) in
    let locked : bitset gobf_islocked (bit_or x gobf_islocked) ≡ true =
      ground (arith, bitset-or 1 x gobf_islocked) in
    let more : Gob → Gob = λ g. record g { refcnt = suc g.refcnt } in
    let fine : IsSound (gob_incref w1 gob) =
      gob_incref-IsSound w1 gob (gob_lock-IsSound w gob ok u) in
    let w2 = adjust gob more w1 in
    let up : gob_incref w1 gob ≡ w2 = rw (gob_incref, used) refl in
    let e' : get_cached w name flags now ≡ (at_cache (λ c. gob_touch c gob now) w2, some gob) =
      get_cached_hit w name flags now gob e a ∙ rw (peek, up) refl in
    let n = suc (w.cache.st gob).refcnt in
    let seen : IsHeld w2.cache gob name n = record {
      named = rw (==_self gob) called;
      found = e;
      locked = rw (==_self gob) locked;
      counted = rw (==_self gob) refl;
    } in
    let held : IsHeld (gob_touch w2.cache gob now) gob name n =
      touch_cases (λ c. IsHeld c gob name n) w2.cache gob now seen
        (record {
          named = rw (==_self gob) called;
          found = e;
          locked = rw (==_self gob) locked;
          counted = rw (==_self gob) refl;
        })
        (record {
          named = rw (==_self gob) called;
          found = e;
          locked = rw (==_self gob) locked;
          counted = rw (==_self gob) refl;
        }) in
    let e0 : (get_cached w name flags now).0 ≡ at_cache (λ c. gob_touch c gob now) w2 =
      ap (λ (r : Handles × Option ℕ). r.0) e' in
    let e1 : (get_cached w name flags now).1 ≡ some gob = ap (λ (r : Handles × Option ℕ). r.1) e' in
    rw (cache_get, e1, e0) (refl, held, gob_touch-IsSound w2 gob now (rw (sym up) fine))

-- In a sound state, under a fresh new name, and where the objects of the name that are cached are
-- not dropping or pending, the state is sound after an object is asked for.
pub cache_get-IsSound :
    (w : Handles) (name : List ℕ) (flags now : ℕ) (newname : List ℕ) (mem : Option ℕ)
    → IsSound w
    → IsFresh w mem
    → ep_hash_search w.cache.open_gobs newname ≡ none
    → ((gob : ℕ) → ep_hash_search w.cache.open_gobs name ≡ some gob → abandons w flags gob ≡ false)
    → IsSound (cache_get w name flags now newname mem).0
unfolding cache_get
cache_get-IsSound w name flags now newname mem ok fresh unused settled =
    elim (Option-cases (ep_hash_search w.cache.open_gobs name)) [
      | inl e ↦
          let e0 = ap (λ (r : Handles × Option ℕ). r.0) (get_cached_miss w name flags now e) in
          let e1 = ap (λ (r : Handles × Option ℕ). r.1) (get_cached_miss w name flags now e) in
          elim (Bool-cases (bitset ggcf_create flags)) [
            | inr c ↦ rw (cache_get, e1, e0, c) ok
            | inl c ↦
                rw (cache_get, e1, e0, c)
                  (get_created-IsSound w name newname now mem ok fresh
                    (elim (Bool-cases (name_is_valid name)) [
                      | inl v ↦ rw v e
                      | inr v ↦ rw v unused
                    ]))
          ]
      | inr (gob, e) ↦ elim (Bool-cases (bitset ggcf_peek flags)) [
        | inr p ↦ (cache_get_hit w name flags now gob newname mem ok e (settled gob e) p).2
        | inl p ↦
            let hit = get_cached_hit w name flags now gob e (settled gob e) ∙ rw p refl in
            let e0 : (get_cached w name flags now).0 ≡ gob_lock w gob =
              ap (λ (r : Handles × Option ℕ). r.0) hit in
            let e1 : (get_cached w name flags now).1 ≡ some gob =
              ap (λ (r : Handles × Option ℕ). r.1) hit in
            let u = ok.used gob (ok.owned name gob e).1 in
            rw (cache_get, e1, e0) (gob_lock-IsSound w gob ok u)
      ]
    ]
