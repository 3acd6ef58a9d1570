-- ===== src/Gobs/Found.antt =====
-- The cache, the marks and the free list agree after an object is asked for.
use gdp.Base.{
  ℕ, ◌≡◌, refl, arith, sym, ◌∙◌, true, false, none, some, List, ◌∷◌, ◌==◌, if◌then◌else◌, ==_self,
  bitset, bit_or, Bool-cases, inl, inr, bitset-or,
}
use gdp.Hash.{ep_hash_search, same_key, ep_hash_insert}
use gdp.Hash.Laws.{search-insert}
use gdp.Hash.Chains.{same_key→eq}
use gdp.Cache.{Gob, gobf_inuse, gobf_incache}
use gdp.Cache.Steps.{Cache, update, list_remove, has, add_cache_unlocked, gob_touch, gobf_islocked}
use gdp.Cache.Steps.Invariant.{IsCache, gob_touch-IsCache}
use gdp.Cache.Steps.Changes.{add_cache_unlocked-IsCache}
use gdp.Gobs.{Handles, adjust}
use gdp.Gobs.Sound.{IsSound, among, All-among, among-list_remove, by_object, at_own}
use gdp.Gobs.Life.{IsIdle-update_req, count-IsSound}
use gdp.Gobs.Access.{at_cache}

-- The cache, the marks and the free list agree after an object is used.
pub gob_touch-IsSound :
    (w : Handles) (gob now : ℕ) → IsSound w → IsSound (at_cache (λ c. gob_touch c gob now) w)
unfolding gob_touch among
gob_touch-IsSound w gob now ok =
    let f : Gob → Gob = λ g. record g { utime = now } in
    let l = w.cache.gobs_by_use in
    elim (Bool-cases (has gobf_inuse w.cache gob)) [
      | inr u ↦ rw u ok
      | inl u ↦
          let fine : IsSound (adjust gob f w) = count-IsSound w gob f ok u refl refl in
          elim (Bool-cases (has gobf_islocked w.cache gob)) [
            | inr l ↦ rw (u, l) fine
            | inl k ↦ elim (Bool-cases (has gobf_incache w.cache gob)) [
              | inr c ↦ rw (u, k, c) fine
              | inl c ↦
                  let m = sym (ok.marked gob) ∙ c in
                  let here = All-among _ gob l ok.cache.found m in
                  let after : Cache = record w.cache {
                    st = update gob f w.cache.st;
                    gobs_by_use = gob ∷ list_remove gob l;
                  } in
                  let e : gob_touch w.cache gob now ≡ after = rw (u, k, c) refl in
                  let removed = λ (g : ℕ). among-list_remove gob g l ok.cache.distinct in
                  let cache : IsCache after =
                    rw (sym e) (gob_touch-IsCache w.cache gob now ok.cache here) in
                  rw (u, k, c)
                    (record {
                      cache = cache;
                      owned = fine.owned;
                      marked =
                          by_object _ gob (fine.marked gob ∙ ground (arith, m, ==_self gob))
                            (λ g p. fine.marked g ∙ ground (arith, removed g, p));
                      used = fine.used;
                      idle = fine.idle;
                      distinct = fine.distinct;
                    })
            ]
          ]
    ]

-- The cache, the marks and the free list agree after an object is added under whose name there is
-- none.
pub add_cache_unlocked-IsSound :
    (w : Handles) (gob now : ℕ)
    → IsSound w
    → ep_hash_search w.cache.open_gobs (w.cache.st gob).name ≡ none
    → IsSound (at_cache (λ c. add_cache_unlocked c gob now) w)
unfolding add_cache_unlocked among
add_cache_unlocked-IsSound w gob now ok free =
    let st = w.cache.st in
    let x = (st gob).flags in
    let name = (st gob).name in
    let f : Gob → Gob = λ g. record g { utime = now; flags = bit_or g.flags gobf_incache } in
    let own = at_own gob f st in
    let l = w.cache.gobs_by_use in
    let after : Cache = record {
      open_gobs = (ep_hash_insert w.cache.open_gobs name (some gob)).1;
      gobs_by_use = gob ∷ l;
      st = update gob f st;
    } in
    elim (Bool-cases (has gobf_inuse w.cache gob)) [
      | inr u ↦ rw u ok
      | inl u ↦ elim (Bool-cases (has gobf_islocked w.cache gob)) [
        | inr k ↦ rw (u, k) ok
        | inl k ↦ elim (Bool-cases (has gobf_incache w.cache gob)) [
          | inl c ↦ rw (u, k, c) ok
          | inr c ↦
              let e : add_cache_unlocked w.cache gob now ≡ after = rw (u, k, c) refl in
              let cache : IsCache after =
                rw (sym e) (add_cache_unlocked-IsCache w.cache gob now ok.cache free) in
              let set : bitset gobf_incache (update gob f st gob).flags ≡ true =
                rw own (ground (arith, bitset-or 3 x gobf_incache)) in
              let marks : (g : ℕ)
                  → (g == gob) ≡ false
                  → bitset gobf_incache (update gob f st g).flags ≡ has gobf_incache w.cache g =
                λ g p. rw p refl in
              let now_at : (k : List ℕ)
                  → ep_hash_search after.open_gobs k
                    ≡ (if same_key k name then some gob else ep_hash_search w.cache.open_gobs k) =
                λ k. (search-insert w.cache.open_gobs name k (some gob) ok.cache.table).1 in
              let differ : (g : ℕ) → has gobf_incache w.cache g ≡ true → (g == gob) ≡ false =
                by_object _ gob (λ m. absurd (cc (m, c))) (λ g p m. p) in
              rw (u, k, c)
                (record {
                  cache = cache;
                  owned = λ k g h. elim (Bool-cases (same_key k name)) [
                    | inl s ↦
                        let both : some gob ≡ some g = sym (now_at k ∙ rw s refl) ∙ h in
                        let same : gob ≡ g = cc both in
                        rw (sym same) (rw own (sym (same_key→eq k name s)), set)
                    | inr s ↦
                        let (n, m) = ok.owned k g (sym (now_at k ∙ rw s refl) ∙ h) in
                        let p = differ g m in (rw p n, marks g p ∙ m)
                  ];
                  marked =
                      by_object _ gob (set ∙ ground (arith, ==_self gob))
                        (λ g p. marks g p ∙ (ok.marked g ∙ ground (arith, p)));
                  used =
                      by_object _ gob (λ m. rw own (ground (arith, bitset-or 0 x gobf_incache, u)))
                        (λ g p m. rw p (ok.used g (sym (marks g p) ∙ m)));
                  idle = IsIdle-update_req w gob f ok u;
                  distinct = ok.distinct;
                })
        ]
      ]
    ]
