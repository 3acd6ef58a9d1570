-- ===== src/Gobs/Pending.antt =====
-- An object that is still pending and is asked for with `GGCF_CREATE` (`_gdp_gob_cache_get`).
use gdp.Base.{
  ℕ, ◌≡◌, refl, arith, sym, ap, ◌∙◌, true, false, Option, none, some, List, ◌==◌, if◌then◌else◌,
  ==_iff, ==_self, bitset, bit_or, Bool-cases, inl, inr, bitset-or, bitset-and,
}
use gdp.Hash.{ep_hash_search}
use gdp.Hash.Laws.{search-insert}
use gdp.Hash.Chains.{same_key_self}
use gdp.Name.{name_is_valid}
use gdp.Cache.{gobf_inuse, gobf_incache}
use gdp.Cache.Steps.{has, gobf_islocked, add_cache_unlocked}
use gdp.Gobs.{Handles, set_flags, gob_lock, gob_unlock, gob_new}
use gdp.Gobs.Sound.{IsSound, among, at_own, by_object}
use gdp.Gobs.Life.{gob_lock-IsSound, gob_unlock-IsSound}
use gdp.Gobs.Made.{IsFresh, gob_new-IsNew}
use gdp.Gobs.Get.{abandons-gob_lock}
use gdp.Gobs.Access.{at_cache, get_cached, get_created, cache_get, abandons, ggcf_create}

module _ (w : Handles) (gob : ℕ) where
  -- The object after it was locked and unlocked again.
  abbrev pub let_go : Handles
  let_go = gob_unlock (gob_lock w gob) gob

  marks_kept : (g : ℕ) → has gobf_incache let_go.cache g ≡ has gobf_incache w.cache g
  unfolding gob_unlock gob_lock
  marks_kept =
      let x = (w.cache.st gob).flags in
      by_object _ gob
        (rw (==_self gob) (
          ground
            (arith, bitset-and 3 (bit_or x gobf_islocked) 0xfffffffd, bitset-or 3 x gobf_islocked)))
        (λ g p. rw p refl)

  let_go-IsSound : IsSound w → has gobf_inuse w.cache gob ≡ true → IsSound let_go
  unfolding gob_lock
  let_go-IsSound ok u =
      let x = (w.cache.st gob).flags in
      let used : has gobf_inuse (gob_lock w gob).cache gob ≡ true =
        rw (at_own gob (set_flags gobf_islocked) w.cache.st)
          (ground (arith, bitset-or 0 x gobf_islocked, u)) in
      gob_unlock-IsSound (gob_lock w gob) gob (gob_lock-IsSound w gob ok u) used

  let_go-IsFresh : (mem : Option ℕ) → IsFresh w mem → IsFresh let_go mem
  unfolding gob_unlock gob_lock
  let_go-IsFresh none h = tt
  let_go-IsFresh (some a) (h, apart) = (marks_kept a ∙ h, apart)

-- A new object that is locked and added is found under its name, and the others stay as they are.
add_new :
    (w : Handles) (g now : ℕ)
    → IsSound w
    → (w.cache.st g).flags ≡ 0x41
    → (ep_hash_search (add_cache_unlocked (gob_lock w g).cache g now).open_gobs (w.cache.st g).name
        ≡ some g)
      × ((h : ℕ)
          → (h == g) ≡ false
          → (add_cache_unlocked (gob_lock w g).cache g now).st h ≡ w.cache.st h)
unfolding add_cache_unlocked gob_lock
add_new w g now ok flags =
    let own = at_own g (set_flags gobf_islocked) w.cache.st in
    let c = (gob_lock w g).cache in
    let u : has gobf_inuse c g ≡ true = rw (own, flags) refl in
    let l : has gobf_islocked c g ≡ true = rw (own, flags) refl in
    let i : has gobf_incache c g ≡ false = rw (own, flags) refl in
    let name = (w.cache.st g).name in
    let called : (c.st g).name ≡ name = rw own refl in
    let put = (search-insert w.cache.open_gobs name name (some g) ok.cache.table).1 in
    rw (add_cache_unlocked, u, l, i)
      (rw called (put ∙ rw (same_key_self name) refl), λ h p. rw p refl)

-- In a sound state, a search of the table for a valid name gives an object that is let go of, as one that
-- is dropping, or is pending and not asked for with GGCF_GET_PENDING. With GGCF_CREATE, and where a new
-- object can be made in fresh memory, the caller gets the new one, which is another object; the name leads
-- to the new one, and the old one stays marked as cached.
pub cache_get_pending :
    (w : Handles) (name : List ℕ) (flags now gob : ℕ) (newname : List ℕ) (mem : Option ℕ) (g : ℕ)
    → IsSound w
    → IsFresh w mem
    → ep_hash_search w.cache.open_gobs name ≡ some gob
    → abandons w flags gob ≡ true
    → bitset ggcf_create flags ≡ true
    → name_is_valid name ≡ true
    → (gob_new (let_go w gob) (some name) newname mem).1 ≡ some g
    → ((cache_get w name flags now newname mem).1 ≡ some (some g))
      × ((gob == g) ≡ false)
      × (ep_hash_search (cache_get w name flags now newname mem).0.cache.open_gobs name ≡ some g)
      × (has gobf_incache (cache_get w name flags now newname mem).0.cache gob ≡ true)
unfolding cache_get get_cached get_created
cache_get_pending w name flags now gob newname mem g ok fresh e a create valid made =
    let (called, c) = ok.owned name gob e in
    let u = ok.used gob c in
    let w1 = let_go w gob in
    let fine = let_go-IsSound w gob ok u in
    let w2 = (gob_new w1 (some name) newname mem).0 in
    let new =
      gob_new-IsNew w1 (some name) newname mem g fine (let_go-IsFresh w gob mem fresh) made in
    let named : (w2.cache.st g).name ≡ name = new.named ∙ rw valid refl in
    let still : has gobf_incache w2.cache gob ≡ true =
      new.sound.marked gob
      ∙ (ap (among gob) new.same_list ∙ (sym (fine.marked gob) ∙ (marks_kept w gob gob ∙ c))) in
    let unmarked : has gobf_incache w2.cache g ≡ false = rw new.flags refl in
    let other : (gob == g) ≡ false = elim (Bool-cases (gob == g)) [
      | inr p ↦ p
      | inl p ↦
          let same : gob ≡ g = (==_iff gob g).0 p in
          let yes : has gobf_incache w2.cache g ≡ true = rw (sym same) still in
          absurd (cc (yes, unmarked))
    ] in
    let (leads, alone) = add_new w2 g now new.sound new.flags in
    let found : get_cached w name flags now ≡ (w1, none) =
      rw (get_cached, e, abandons-gob_lock w flags gob ∙ a) refl in
    let after = at_cache (λ c. add_cache_unlocked c g now) (gob_lock w2 g) in
    let second : get_created w1 name now newname mem ≡ (after, some (some g)) =
      rw (get_created, made) refl in
    let first : cache_get w name flags now newname mem ≡ get_created w1 name now newname mem =
      ap
        (λ (r : Handles × Option ℕ). elim r.1 as (λ x. Handles × Option (Option ℕ)) [
          | some gob ↦ (r.0, some (some gob))
          | none ↦
              if bitset ggcf_create flags
              then get_created r.0 name now newname mem
              else (r.0, some none)
        ])
        found
      ∙ rw create refl in
    rw (first ∙ second) (
      refl,
      other,
      ap (ep_hash_search after.cache.open_gobs) (sym named) ∙ leads,
      rw (alone gob other) still,
    )
