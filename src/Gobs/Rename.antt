-- ===== src/Gobs/Rename.antt =====
-- The cache, the marks and the free list agree after a cached object is renamed.
use gdp.Base.{
  ℕ, ◌≡◌, refl, sym, ◌∙◌, true, none, some, List, ◌==◌, if◌then◌else◌, ==_iff, bitset, Bool-cases,
  inl, inr,
}
use gdp.Hash.{ep_hash_search, ep_hash_insert, ep_hash_delete, same_key}
use gdp.Hash.Chains.{same_key_self, same_key→eq}
use gdp.Hash.Laws.{IsTable, search-insert, search-delete}
use gdp.Name.{name_is_valid}
use gdp.Cache.{Gob, gobf_incache}
use gdp.Cache.Steps.{Cache, update, has, cache_changename}
use gdp.Cache.Steps.Invariant.{IsFound, IsCache}
use gdp.Cache.Steps.Changes.{cache_changename-IsCache}
use gdp.Gobs.{Handles}
use gdp.Gobs.Sound.{IsSound, All-among, by_object, at_own}
use gdp.Gobs.Life.{IsIdle-update_req}
use gdp.Gobs.Access.{at_cache}

-- In a sound state, a cached object is given a new valid name that nothing is found under, and the
-- state is sound.
pub cache_changename-IsSound :
    (w : Handles) (gob : ℕ) (newname : List ℕ)
    → IsSound w
    → has gobf_incache w.cache gob ≡ true
    → name_is_valid (w.cache.st gob).name ≡ true
    → name_is_valid newname ≡ true
    → ep_hash_search w.cache.open_gobs newname ≡ none
    → IsSound (at_cache (λ c. cache_changename c gob newname) w)
unfolding cache_changename
cache_changename-IsSound w gob newname ok c valid valid' free =
    let st = w.cache.st in
    let name = (st gob).name in
    let f : Gob → Gob = λ g. record g { name = newname } in
    let u = ok.used gob c in
    let here : IsFound st w.cache.open_gobs gob =
      All-among _ gob w.cache.gobs_by_use ok.cache.found (sym (ok.marked gob) ∙ c) in
    let hp1 = (ep_hash_delete w.cache.open_gobs name).1 in
    let hp2 = (ep_hash_insert hp1 newname (some gob)).1 in
    let fine1 : IsTable hp1 = (search-delete w.cache.open_gobs name name ok.cache.table).2 in
    let after : Cache = record w.cache { open_gobs = hp2; st = update gob f st } in
    let e : cache_changename w.cache gob newname ≡ after = rw (u, c, valid, valid') refl in
    let cache : IsCache after =
      rw (sym e)
        (cache_changename-IsCache w.cache gob newname ok.cache here free u c valid valid').0 in
    let put : (k : List ℕ)
        → ep_hash_search hp2 k ≡ (if same_key k newname then some gob else ep_hash_search hp1 k) =
      λ k. (search-insert hp1 newname k (some gob) fine1).1 in
    let cut : (k : List ℕ)
        → ep_hash_search hp1 k
          ≡ (if same_key k name then none else ep_hash_search w.cache.open_gobs k) =
      λ k. (search-delete w.cache.open_gobs name k ok.cache.table).1 in
    let own = at_own gob f st in
    let marks : (g : ℕ)
        → bitset gobf_incache (update gob f st g).flags ≡ has gobf_incache w.cache g =
      by_object _ gob (rw own refl) (λ g p. rw p refl) in
    rw (u, c, valid, valid')
      (record {
        cache = cache;
        owned = λ k g h. elim (Bool-cases (same_key k newname)) [
          | inl s ↦
              let both : some gob ≡ some g = sym (put k ∙ rw s refl) ∙ h in
              let same : gob ≡ g = cc both in
              rw (sym same) (rw own (sym (same_key→eq k newname s)), marks gob ∙ c)
          | inr s ↦
              let h1 : ep_hash_search hp1 k ≡ some g = sym (put k ∙ rw s refl) ∙ h in
              elim (Bool-cases (same_key k name)) [
                | inl t ↦ let no : none ≡ some g = sym (cut k ∙ rw t refl) ∙ h1 in absurd (cc no)
                | inr t ↦
                    let (n, m) = ok.owned k g (sym (cut k ∙ rw t refl) ∙ h1) in
                    (
                      elim (Bool-cases (g == gob)) [
                        | inr p ↦ rw p n
                        | inl p ↦
                            let same : g ≡ gob = (==_iff g gob).0 p in
                            let called : name ≡ k = rw (sym same) n in
                            let yes : same_key k name ≡ true =
                              rw (sym called) (same_key_self name) in
                            absurd (cc (yes, t))
                      ],
                      marks g ∙ m,
                    )
              ]
        ];
        marked = λ g. marks g ∙ ok.marked g;
        used = by_object _ gob (λ m. rw own u) (λ g p m. rw p (ok.used g (sym (marks g) ∙ m)));
        idle = IsIdle-update_req w gob f ok u;
        distinct = ok.distinct;
      })
