-- ===== src/Gobs/Made.antt =====
-- New objects, and objects that are asked for by name (`_gdp_gob_new`, `_gdp_gob_cache_get`).
use gdp.Base.{
  ℕ, suc, ◌≡◌, refl, sym, ◌∙◌, false, not, Option, none, some, List, [], ◌∷◌, All, if◌then◌else◌,
  Bool-cases, Option-cases, inl, inr, drop,
}
use gdp.Hash.{Table}
use gdp.Name.{name_is_valid}
use gdp.Cache.{Gob, gobf_inuse, gobf_incache}
use gdp.Cache.Steps.{Cache, has}
use gdp.Cache.Steps.Invariant.{IsOther, IsDistinct}
use gdp.Gobs.{Handles, adjust, zeroed, free_candidate, init_gob, gob_new}
use gdp.Gobs.Sound.{IsSound, adjust-IsSound, at_own}

-- What `ep_mem_zalloc` gives is no object of the cache or of the free list.
abbrev pub IsFresh : Handles → Option ℕ → Type 0
IsFresh w none = Unit
IsFresh w (some gob) = (has gobf_incache w.cache gob ≡ false) × All (IsOther gob) w.free_list

-- The name that a new object gets.
abbrev pub chosen : Option (List ℕ) → (newname : List ℕ) → List ℕ
chosen none newname = newname
chosen (some name) newname = if not (name_is_valid name) then newname else name

-- What holds of a new object.
pub record IsNew (hp : Table ℕ) (l : List ℕ) (w' : Handles) (name : List ℕ) (gob : ℕ) : Type 0 where
  pub sound : IsSound w'
  pub same_table : w'.cache.open_gobs ≡ hp
  pub same_list : w'.cache.gobs_by_use ≡ l
  pub named : (w'.cache.st gob).name ≡ name
  pub flags : (w'.cache.st gob).flags ≡ 0x41
  pub refcnt : (w'.cache.st gob).refcnt ≡ 1

counted : (w : Handles) (n : ℕ) → IsSound w → IsSound (record w { n_gobs_allocated = n })
counted w n ok = record {
  cache = ok.cache;
  owned = ok.owned;
  marked = ok.marked;
  used = ok.used;
  idle = ok.idle;
  distinct = ok.distinct;
}

All-tail : (P : ℕ → Type 0) (gs : List ℕ) → All P gs → All P (drop 1 gs)
All-tail P [] h = tt
All-tail P (g ∷ gs) (h, hs) = hs

tail-IsDistinct : (gs : List ℕ) → IsDistinct gs → IsDistinct (drop 1 gs)
tail-IsDistinct [] d = tt
tail-IsDistinct (g ∷ gs) (h, d) = d

first_apart :
    (c : Cache) (gob : ℕ) (gs : List ℕ)
    → IsDistinct gs
    → free_candidate c gs ≡ some gob
    → (has gobf_inuse c gob ≡ false) × All (IsOther gob) (drop 1 gs)
unfolding free_candidate
first_apart c gob [] d e = absurd (cc e)
first_apart c gob (g ∷ gs) (h, d) e = elim (Bool-cases (has gobf_inuse c g)) [
  | inl u ↦ let no : none ≡ some gob = sym (rw u refl) ∙ e in absurd (cc no)
  | inr u ↦
      let both : some g ≡ some gob = sym (rw u refl) ∙ e in
      let same : g ≡ gob = cc both in rw (sym same) (u, h)
]

init_gob-IsNew :
    (w : Handles) (gob_name : Option (List ℕ)) (newname : List ℕ) (gob : ℕ)
    → IsSound w
    → has gobf_incache w.cache gob ≡ false
    → All (IsOther gob) w.free_list
    → IsNew w.cache.open_gobs w.cache.gobs_by_use
        (init_gob w gob_name newname gob)
        (chosen gob_name newname)
        gob
unfolding init_gob
init_gob-IsNew w none newname gob ok c apart =
    let f : Gob → Gob = λ g. record g { refcnt = 1; nrecs = 0; name = newname; flags = 0x41 } in
    let own = at_own gob f w.cache.st in
    record {
      sound =
          counted (adjust gob f w) (suc w.n_gobs_allocated)
            (adjust-IsSound w gob f ok apart (sym c) (λ m. absurd (cc (m, c))));
      same_table = refl;
      same_list = refl;
      named = rw own refl;
      flags = rw own refl;
      refcnt = rw own refl;
    }
init_gob-IsNew w (some name) newname gob ok c apart =
    let f : Gob → Gob =
      λ g. record g { refcnt = 1; nrecs = 0; name = chosen (some name) newname; flags = 0x41 } in
    let own = at_own gob f w.cache.st in
    record {
      sound =
          counted (adjust gob f w) (suc w.n_gobs_allocated)
            (adjust-IsSound w gob f ok apart (sym c) (λ m. absurd (cc (m, c))));
      same_table = refl;
      same_list = refl;
      named = rw own refl;
      flags = rw own refl;
      refcnt = rw own refl;
    }

-- What is left of the free list when its first object is taken.
rest-IsSound : (w : Handles) → IsSound w → IsSound (record w { free_list = drop 1 w.free_list })
rest-IsSound w ok = record {
  cache = ok.cache;
  owned = ok.owned;
  marked = ok.marked;
  used = ok.used;
  idle = All-tail _ w.free_list ok.idle;
  distinct = tail-IsDistinct w.free_list ok.distinct;
}

-- The first object of the free list is not in the cache, and not on the list again.
candidate_apart :
    (w : Handles) (gob : ℕ)
    → IsSound w
    → free_candidate w.cache w.free_list ≡ some gob
    → (has gobf_incache w.cache gob ≡ false) × All (IsOther gob) (drop 1 w.free_list)
candidate_apart w gob ok e =
    let (h, apart) = first_apart w.cache gob w.free_list ok.distinct e in
    (
      elim (Bool-cases (has gobf_incache w.cache gob)) [
        | inr c ↦ c
        | inl c ↦ let u = ok.used gob c in absurd (cc (u, h))
      ],
      apart,
    )

-- A new object has the name that was asked for, or a new one; it is pending, has one reference, and
-- is not in the cache.
pub gob_new-IsNew :
    (w : Handles) (gob_name : Option (List ℕ)) (newname : List ℕ) (mem : Option ℕ) (gob : ℕ)
    → IsSound w
    → IsFresh w mem
    → (gob_new w gob_name newname mem).1 ≡ some gob
    → IsNew w.cache.open_gobs w.cache.gobs_by_use
        (gob_new w gob_name newname mem).0
        (chosen gob_name newname)
        gob
unfolding gob_new
gob_new-IsNew w gob_name newname none gob ok fresh e =
    let w1 : Handles = record w { free_list = drop 1 w.free_list } in
    elim (Option-cases (free_candidate w.cache w.free_list)) [
      | inl n ↦ let no : none ≡ some gob = sym (rw (gob_new, n) refl) ∙ e in absurd (cc no)
      | inr (g, c) ↦
          let both : some g ≡ some gob = sym (rw (gob_new, c) refl) ∙ e in
          let same : g ≡ gob = cc both in
          let (out, apart) = candidate_apart w g ok c in
          rw (gob_new, c, sym same)
            (init_gob-IsNew w1 gob_name newname g (rest-IsSound w ok) out apart)
    ]
gob_new-IsNew w gob_name newname (some a) gob ok (out, apart) e =
    let w1 : Handles = record w { free_list = drop 1 w.free_list } in
    elim (Option-cases (free_candidate w.cache w.free_list)) [
      | inl n ↦
          let both : some a ≡ some gob = sym (rw (gob_new, n) refl) ∙ e in
          let same : a ≡ gob = cc both in
          let apart' = All-tail _ w.free_list apart in
          let clean : IsSound (adjust a (λ g. zeroed) w1) =
            adjust-IsSound w1 a (λ g. zeroed) (rest-IsSound w ok) apart' (sym out)
              (λ m. absurd (cc (m, out))) in
          let still : has gobf_incache (adjust a (λ g. zeroed) w1).cache a ≡ false =
            rw (at_own a (λ g. zeroed) w.cache.st) refl in
          rw (gob_new, n, sym same)
            (init_gob-IsNew (adjust a (λ g. zeroed) w1) gob_name newname a clean still apart')
      | inr (g, c) ↦
          let both : some g ≡ some gob = sym (rw (gob_new, c) refl) ∙ e in
          let same : g ≡ gob = cc both in
          let (out', apart') = candidate_apart w g ok c in
          rw (gob_new, c, sym same)
            (init_gob-IsNew w1 gob_name newname g (rest-IsSound w ok) out' apart')
    ]

not_made :
    (w : Handles) (gob_name : Option (List ℕ)) (newname : List ℕ) (mem : Option ℕ)
    → IsSound w
    → (gob_new w gob_name newname mem).1 ≡ none
    → IsSound (gob_new w gob_name newname mem).0
unfolding gob_new
not_made w gob_name newname mem ok e = elim (Option-cases (free_candidate w.cache w.free_list)) [
  | inr (g, c) ↦ let no : some g ≡ none = sym (rw (gob_new, c) refl) ∙ e in absurd (cc no)
  | inl n ↦ elim (Option-cases mem) [
    | inr (a, m) ↦ let no : some a ≡ none = sym (rw (gob_new, n, m) refl) ∙ e in absurd (cc no)
    | inl m ↦ rw (gob_new, n, m) (rest-IsSound w ok)
  ]
]

-- The free list is in order where an object is made, and where none is:
pub gob_new-IsSound :
    (w : Handles) (gob_name : Option (List ℕ)) (newname : List ℕ) (mem : Option ℕ)
    → IsSound w
    → IsFresh w mem
    → IsSound (gob_new w gob_name newname mem).0
gob_new-IsSound w gob_name newname mem ok fresh =
    elim (Option-cases (gob_new w gob_name newname mem).1) [
      | inr (g, e) ↦ (gob_new-IsNew w gob_name newname mem g ok fresh e).sound
      | inl e ↦ not_made w gob_name newname mem ok e
    ]
