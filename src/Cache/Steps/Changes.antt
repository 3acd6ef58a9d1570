-- ===== src/Cache/Steps/Changes.antt =====
-- Additions, removals and new names keep the cache in order.
use gdp.Base.{
  ℕ, ◌≡◌, refl, ap, sym, ◌∙◌, true, false, Option, none, some, List, ◌∷◌, All, if◌then◌else◌, ◌==◌,
  ==_iff, bit_and, bit_or, Bool-cases, inl, inr,
}
use gdp.Hash.{Table, same_key, ep_hash_search, ep_hash_insert, ep_hash_delete}
use gdp.Hash.Chains.{same_key_self, same_key→eq}
use gdp.Hash.Laws.{IsTable, search-insert, search-delete}
use gdp.Name.{name_is_valid}
use gdp.Cache.{Gob, Store, gobf_inuse, gobf_dropping, gobf_incache}
use gdp.Cache.Steps.{
  Cache, update, list_remove, has, gobf_islocked, add_cache_unlocked, cache_drop, cache_changename,
}
use gdp.Cache.Steps.Invariant.{
  IsFound, IsOther, IsCache, All-list_remove, list_remove-IsDistinct, others, every, name_kept,
  names_differ,
}

-- A name that nothing is found under is no name of an object that is found.
unused_name :
    (st : Store) (hp : Table ℕ) (name : List ℕ) (g : ℕ)
    → ep_hash_search hp name ≡ none
    → IsFound st hp g
    → same_key (st g).name name ≡ false
unused_name st hp name g free there = elim (Bool-cases (same_key (st g).name name)) [
  | inr q ↦ q
  | inl q ↦
      let both : none ≡ some g =
        sym free ∙ (ap (ep_hash_search hp) (sym (same_key→eq (st g).name name q)) ∙ there) in
      absurd (cc both)
]

-- Objects in the list are not one that nothing is found for.
new_one :
    (c : Cache) (gob g : ℕ)
    → ep_hash_search c.open_gobs (c.st gob).name ≡ none
    → IsFound c.st c.open_gobs g
    → IsOther gob g
new_one c gob g free there = elim (Bool-cases (g == gob)) [
  | inr q ↦ q
  | inl q ↦
      let same : g ≡ gob = (==_iff g gob).0 q in
      let both : none ≡ some g =
        sym free ∙ (ap (λ (x : ℕ). ep_hash_search c.open_gobs (c.st x).name) (sym same) ∙ there) in
      absurd (cc both)
]

-- What is found after an insertion under a name that was not used.
put-IsFound :
    (c : Cache) (f : Gob → Gob) (gob g : ℕ) (v : Option ℕ)
    → ((x : Gob) → (f x).name ≡ x.name)
    → IsTable c.open_gobs
    → same_key (c.st g).name (c.st gob).name ≡ false
    → IsFound c.st c.open_gobs g
    → IsFound (update gob f c.st) (ep_hash_insert c.open_gobs (c.st gob).name v).1 g
put-IsFound c f gob g v same table differ there =
    let (old, now, fine) = search-insert c.open_gobs (c.st gob).name (c.st g).name v table in
    rw (name_kept gob f c.st g same) (now ∙ rw differ there)

-- In a cache whose table and list agree, they still agree after an object is added under whose
-- name nothing is cached.
pub add_cache_unlocked-IsCache :
    (c : Cache) (gob now : ℕ)
    → IsCache c
    → ep_hash_search c.open_gobs (c.st gob).name ≡ none
    → IsCache (add_cache_unlocked c gob now)
unfolding add_cache_unlocked
add_cache_unlocked-IsCache c gob now ok free =
    let name = (c.st gob).name in
    let f : Gob → Gob = λ g. record g { utime = now; flags = bit_or g.flags gobf_incache } in
    let (old, here, fine) = search-insert c.open_gobs name name (some gob) ok.table in
    let own : IsFound (update gob f c.st) (ep_hash_insert c.open_gobs name (some gob)).1 gob =
      rw (name_kept gob f c.st gob (λ x. refl)) (here ∙ rw (same_key_self name) refl) in
    let added : IsCache (record {
      open_gobs = (ep_hash_insert c.open_gobs name (some gob)).1;
      gobs_by_use = gob ∷ c.gobs_by_use;
      st = update gob f c.st;
    }) =
      record {
        table = fine;
        found = (
          own,
          every _ _ c.gobs_by_use
              (λ g h.
                put-IsFound c f gob g (some gob) (λ x. refl) ok.table
                  (unused_name c.st c.open_gobs name g free h) h)
              ok.found,
        );
        distinct = (every _ _ c.gobs_by_use (λ g h. new_one c gob g free h) ok.found, ok.distinct);
      } in
    elim (Bool-cases (has gobf_inuse c gob)) [
      | inr u ↦ rw u ok
      | inl u ↦ elim (Bool-cases (has gobf_islocked c gob)) [
        | inr l ↦ rw (u, l) ok
        | inl l ↦ elim (Bool-cases (has gobf_incache c gob)) [
          | inl i ↦ rw (u, l, i) ok
          | inr i ↦ rw (u, l, i) added
        ]
      ]
    ]

-- In a cache whose table and list agree, an object that is found under its name, in use and
-- marked as cached, is dropped from both, and they still agree: nothing is found under its name,
-- and it is not in the list.
pub cache_drop-IsCache :
    (c : Cache) (gob : ℕ)
    → IsCache c
    → ep_hash_search c.open_gobs (c.st gob).name ≡ some gob
    → has gobf_inuse c gob ≡ true
    → has gobf_incache c gob ≡ true
    → IsCache (cache_drop c gob)
      × (ep_hash_search (cache_drop c gob).open_gobs (c.st gob).name ≡ none)
      × All (IsOther gob) (cache_drop c gob).gobs_by_use
unfolding cache_drop
cache_drop-IsCache c gob ok here used cached =
    let name = (c.st gob).name in
    let f : Gob → Gob =
      λ g. record g { flags = bit_and (bit_or g.flags gobf_dropping) 0xfffffff7 } in
    let (old, gone, fine) = search-delete c.open_gobs name name ok.table in
    let (d, o) = list_remove-IsDistinct gob c.gobs_by_use ok.distinct in
    let left = All-list_remove _ gob c.gobs_by_use ok.found in
    let kept : (g : ℕ)
        → (g == gob) ≡ false
        → IsFound c.st c.open_gobs g
        → IsFound (update gob f c.st) (ep_hash_delete c.open_gobs name).1 g =
      λ g other h. rw (name_kept gob f c.st g (λ x. refl)) (
        (search-delete c.open_gobs name (c.st g).name ok.table).1
        ∙ rw (names_differ c.st c.open_gobs gob g here other h) h) in
    let dropped : IsCache (record {
      open_gobs = (ep_hash_delete c.open_gobs name).1;
      gobs_by_use = list_remove gob c.gobs_by_use;
      st = update gob f c.st;
    }) =
      record {
        table = fine;
        found = others _ _ gob (list_remove gob c.gobs_by_use) kept o left;
        distinct = d;
      } in
    let nothing : ep_hash_search (ep_hash_delete c.open_gobs name).1 name ≡ none =
      gone ∙ rw (same_key_self name) refl in
    rw (used, cached) (dropped, nothing, o)

-- In a cache whose table and list agree, an object that is found under its name, in use and
-- marked as cached, is given a new valid name that nothing is found under: it is then found under
-- the new name, nothing is found under the old one, and table and list still agree.
pub cache_changename-IsCache :
    (c : Cache) (gob : ℕ) (newname : List ℕ)
    → IsCache c
    → ep_hash_search c.open_gobs (c.st gob).name ≡ some gob
    → ep_hash_search c.open_gobs newname ≡ none
    → has gobf_inuse c gob ≡ true
    → has gobf_incache c gob ≡ true
    → name_is_valid (c.st gob).name ≡ true
    → name_is_valid newname ≡ true
    → IsCache (cache_changename c gob newname)
      × (ep_hash_search (cache_changename c gob newname).open_gobs newname ≡ some gob)
      × (ep_hash_search (cache_changename c gob newname).open_gobs (c.st gob).name ≡ none)
unfolding cache_changename
cache_changename-IsCache c gob newname ok here free used cached valid valid' =
    let name = (c.st gob).name in
    let f : Gob → Gob = λ g. record g { name = newname } in
    let hp₁ = (ep_hash_delete c.open_gobs name).1 in
    let hp₂ = (ep_hash_insert hp₁ newname (some gob)).1 in
    let fine₁ : IsTable hp₁ = (search-delete c.open_gobs name name ok.table).2 in
    let at : (k : List ℕ)
        → ep_hash_search hp₂ k ≡ (
            if same_key k newname
            then some gob
            else if same_key k name
            then none
            else ep_hash_search c.open_gobs k) =
      λ k.
        (search-insert hp₁ newname k (some gob) fine₁).1
        ∙ ap (λ (x : Option ℕ). if same_key k newname then some gob else x)
            (search-delete c.open_gobs name k ok.table).1 in
    let own : ep_hash_search hp₂ newname ≡ some gob =
      at newname ∙ rw (same_key_self newname) refl in
    let fresh : same_key name newname ≡ false =
      unused_name c.st c.open_gobs newname gob free here in
    let gone : ep_hash_search hp₂ name ≡ none = at name ∙ rw (fresh, same_key_self name) refl in
    let kept : (g : ℕ) → IsFound c.st c.open_gobs g → IsFound (update gob f c.st) hp₂ g = λ g h.
      elim (Bool-cases (g == gob)) [
        | inl p ↦ rw p (own ∙ ap some (sym ((==_iff g gob).0 p)))
        | inr p ↦ rw p (
            at (c.st g).name
            ∙ rw
                (
                  unused_name c.st c.open_gobs newname g free h,
                  names_differ c.st c.open_gobs gob g here p h,
                )
                h)
      ] in
    let renamed : IsCache (record c { open_gobs = hp₂; st = update gob f c.st }) = record {
      table = (search-insert hp₁ newname newname (some gob) fine₁).2;
      found = every _ _ c.gobs_by_use kept ok.found;
      distinct = ok.distinct;
    } in
    rw (used, cached, valid, valid') (renamed, own, gone)
