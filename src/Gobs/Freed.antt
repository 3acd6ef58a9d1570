-- ===== src/Gobs/Freed.antt =====
-- The objects, the cache and the free list agree after an object is dropped, freed or given up.
use gdp.Base.{
  ℕ, ◌-◌, ◌≡◌, refl, arith, sym, ◌∙◌, Bool, true, false, not, ◌&&◌, Option, none, some, List, ◌==◌,
  if◌then◌else◌, ==_iff, ==_self, bitset, bit_or, bit_and, Bool-cases, inl, inr, bitset-or,
  bitset-and,
}
use gdp.Hash.{ep_hash_search, same_key, ep_hash_delete}
use gdp.Hash.Laws.{search-delete}
use gdp.Hash.Chains.{same_key_self}
use gdp.Cache.{Gob, gobf_inuse, gobf_incache, gobf_dropping}
use gdp.Cache.Steps.{Cache, update, list_remove, has, cache_drop, gobf_islocked}
use gdp.Cache.Steps.Invariant.{IsFound, IsCache}
use gdp.Cache.Steps.Changes.{cache_drop-IsCache}
use gdp.Gobs.{
  Handles, adjust, keep_flags, gob_unlock, gob_decref, gob_free, put_free, retire, gobf_defer_free,
  gobf_keeplocked,
}
use gdp.Gobs.Sound.{IsSound, All-among, among-list_remove, adjust-IsSound, by_object, at_own}
use gdp.Gobs.Life.{spare, IsIdle-update_req, count-IsSound, flagged-IsSound, gob_unlock-IsSound}

-- A cached object leaves the cache.
pub cache_drop-IsSound :
    (w : Handles) (gob : ℕ)
    → IsSound w
    → has gobf_incache w.cache gob ≡ true
    → IsSound (record w { cache = cache_drop w.cache gob })
      × (has gobf_incache (cache_drop w.cache gob) gob ≡ false)
      × (has gobf_inuse (cache_drop w.cache gob) gob ≡ true)
unfolding cache_drop
cache_drop-IsSound w gob ok c =
    let st = w.cache.st in
    let x = (st gob).flags in
    let u : has gobf_inuse w.cache gob ≡ true = ok.used gob c in
    let f : Gob → Gob =
      λ g. record g { flags = bit_and (bit_or g.flags gobf_dropping) 0xfffffff7 } in
    let here : IsFound st w.cache.open_gobs gob =
      All-among _ gob w.cache.gobs_by_use ok.cache.found (sym (ok.marked gob) ∙ c) in
    let name = (st gob).name in
    let own = at_own gob f st in
    let out : bitset gobf_incache (update gob f st gob).flags ≡ false =
      rw own (ground (arith, bitset-and 3 (bit_or x gobf_dropping) 0xfffffff7)) in
    let used : bitset gobf_inuse (update gob f st gob).flags ≡ true = rw own (
      ground (
        arith,
        bitset-and 0 (bit_or x gobf_dropping) 0xfffffff7,
        bitset-or 0 x gobf_dropping,
        u,
      )) in
    let after : Cache = record {
      open_gobs = (ep_hash_delete w.cache.open_gobs name).1;
      gobs_by_use = list_remove gob w.cache.gobs_by_use;
      st = update gob f st;
    } in
    let e : cache_drop w.cache gob ≡ after = rw (u, c) refl in
    let dropped : IsCache after = rw (sym e) (cache_drop-IsCache w.cache gob ok.cache here u c).0 in
    let removed = λ (g : ℕ). among-list_remove gob g w.cache.gobs_by_use ok.cache.distinct in
    let was : (k : List ℕ)
        → ep_hash_search (ep_hash_delete w.cache.open_gobs name).1 k
          ≡ (if same_key k name then none else ep_hash_search w.cache.open_gobs k) =
      λ k. (search-delete w.cache.open_gobs name k ok.cache.table).1 in
    let marks : (g : ℕ)
        → (g == gob) ≡ false
        → bitset gobf_incache (update gob f st g).flags ≡ has gobf_incache w.cache g =
      λ g p. rw p refl in
    let differ : (k : List ℕ) (g : ℕ)
        → same_key k name ≡ false
        → (st g).name ≡ k
        → (g == gob) ≡ false =
      λ k g s n. elim (Bool-cases (g == gob)) [
        | inr p ↦ p
        | inl p ↦
            let same : g ≡ gob = (==_iff g gob).0 p in
            let e : name ≡ k = rw (sym same) n in
            let t : same_key k name ≡ true = rw (sym e) (same_key_self name) in absurd (cc (s, t))
      ] in
    rw (u, c)
      (
        record {
          cache = dropped;
          owned = λ k g h. elim (Bool-cases (same_key k name)) [
            | inl s ↦ let no : none ≡ some g = sym (was k ∙ rw s refl) ∙ h in absurd (cc no)
            | inr s ↦
                let (n, m) = ok.owned k g (sym (was k ∙ rw s refl) ∙ h) in
                let p = differ k g s n in (rw p n, marks g p ∙ m)
          ];
          marked =
              by_object _ gob (out ∙ sym (removed gob ∙ ground (arith, ==_self gob)))
                (λ g p. marks g p ∙ (ok.marked g ∙ sym (removed g ∙ ground (arith, p))));
          used = by_object _ gob (λ m. used) (λ g p m. rw p (ok.used g (sym (marks g p) ∙ m)));
          idle = IsIdle-update_req w gob f ok u;
          distinct = ok.distinct;
        },
        out,
        used,
      )

-- An object that is marked as dropping is in the cache no more.
pub retire-IsSound :
    (w : Handles) (gob : ℕ)
    → IsSound w
    → has gobf_inuse w.cache gob ≡ true
    → IsSound (retire w gob)
      × (has gobf_incache (retire w gob).cache gob ≡ false)
      × (has gobf_inuse (retire w gob).cache gob ≡ true)
unfolding retire
retire-IsSound w gob ok u =
    let f : Gob → Gob = λ g. record g { flags = bit_or g.flags gobf_dropping; refcnt = 0 } in
    let w1 = adjust gob f w in
    let fine : IsSound w1 = flagged-IsSound w gob gobf_dropping f ok u refl refl refl in
    let x = (w.cache.st gob).flags in
    elim (Bool-cases (has gobf_incache w1.cache gob)) [
      | inl c ↦ rw c (cache_drop-IsSound w1 gob fine c)
      | inr c ↦
          rw c
            (fine, c, rw (at_own gob f w.cache.st) (ground (arith, bitset-or 0 x gobf_dropping, u)))
    ]

put_free-IsSound :
    (w : Handles) (gob : ℕ)
    → IsSound w
    → has gobf_inuse w.cache gob ≡ true
    → has gobf_incache w.cache gob ≡ false
    → IsSound (put_free w gob)
unfolding put_free gob_unlock
put_free-IsSound w gob ok u c =
    let w1 = gob_unlock w gob in
    let fine : IsSound w1 = gob_unlock-IsSound w gob ok u in
    let st = w1.cache.st in
    let f : Gob → Gob = λ g. record g { flags = 0 } in
    let out : has gobf_incache w1.cache gob ≡ false =
      rw (at_own gob (keep_flags 0xfffffffd) w.cache.st)
        (ground (arith, bitset-and 3 (w.cache.st gob).flags 0xfffffffd, c)) in
    let used : has gobf_inuse w1.cache gob ≡ true =
      rw (at_own gob (keep_flags 0xfffffffd) w.cache.st)
        (ground (arith, bitset-and 0 (w.cache.st gob).flags 0xfffffffd, u)) in
    let others = spare w1 gob fine used in
    let clear : IsSound (adjust gob f w1) =
      adjust-IsSound w1 gob f fine others (sym out) (λ s. absurd (cc (s, out))) in
    record {
      cache = clear.cache;
      owned = clear.owned;
      marked = clear.marked;
      used = clear.used;
      idle = (rw (at_own gob f st) refl, clear.idle);
      distinct = (others, clear.distinct);
    }

-- The cache, the marks and the free list agree after an object is freed.
pub gob_free-IsSound : (w : Handles) (pgob : Option ℕ) → IsSound w → IsSound (gob_free w pgob)
unfolding gob_free
gob_free-IsSound w none ok = ok
gob_free-IsSound w (some gob) ok = elim (Bool-cases (has gobf_inuse w.cache gob)) [
  | inr u ↦ rw u ok
  | inl u ↦
      let (fine, c, used) = retire-IsSound w gob ok u in
      rw u (put_free-IsSound (retire w gob) gob fine used c)
]

-- The cache, the marks and the free list agree after a reference is given up.
pub gob_decref-IsSound :
    (w : Handles) (gob : ℕ) (keeplocked : Bool) → IsSound w → IsSound (gob_decref w gob keeplocked)
unfolding gob_decref
gob_decref-IsSound w gob keeplocked ok =
    let f : Gob → Gob = λ g. record g { refcnt = g.refcnt - 1 } in
    let w1 = adjust gob f w in
    elim (Bool-cases (has gobf_inuse w.cache gob)) [
      | inr u ↦ rw u ok
      | inl u ↦
          let fine : IsSound w1 = count-IsSound w gob f ok u refl refl in
          let used : has gobf_inuse w1.cache gob ≡ true = rw (at_own gob f w.cache.st) u in
          elim (Bool-cases
            (((w1.cache.st gob).refcnt == 0) && not (has gobf_defer_free w1.cache gob))) [
              | inl z ↦ rw (u, z) (gob_free-IsSound w1 (some gob) fine)
              | inr z ↦ elim (Bool-cases (has gobf_islocked w1.cache gob)) [
                | inr l ↦ rw (u, z, l) fine
                | inl l ↦
                    elim (Bool-cases (not keeplocked && not (has gobf_keeplocked w1.cache gob))) [
                      | inl k ↦ rw (u, z, l, k) (gob_unlock-IsSound w1 gob fine used)
                      | inr k ↦ rw (u, z, l, k) fine
                    ]
              ]
            ]
    ]
