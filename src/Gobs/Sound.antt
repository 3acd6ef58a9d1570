-- ===== src/Gobs/Sound.antt =====
-- The cache, the marks on the objects and the free list agree.
use gdp.Base.{
  ℕ, ◌≡◌, refl, arith, sym, ◌∙◌, Bool, true, false, not, ◌&&◌, ◌||◌, some, List, [], ◌∷◌, All, ◌==◌,
  ==_iff, ==_self, bitset, Bool-cases, inl, inr,
}
use gdp.Hash.{ep_hash_search}
use gdp.Cache.{Gob, Store, gobf_inuse, gobf_incache}
use gdp.Cache.Steps.{update, list_remove, has}
use gdp.Cache.Steps.Invariant.{IsOther, IsDistinct, IsCache, others}
use gdp.Gobs.{Handles, adjust}

unfoldable pub among : ℕ → List ℕ → Bool
among g [] = false
among g (x ∷ xs) = (x == g) || among g xs

-- The table and the list of the cache agree; a name leads to a cached object of that name; the
-- objects in the list are those marked as cached, which are in use; and the free list has no object
-- twice, and none that has a flag.
pub record IsSound (w : Handles) : Type 0 where
  pub cache : IsCache w.cache
  pub owned :
      (k : List ℕ) (g : ℕ)
      → ep_hash_search w.cache.open_gobs k ≡ some g
      → ((w.cache.st g).name ≡ k) × (has gobf_incache w.cache g ≡ true)
  pub marked : (g : ℕ) → has gobf_incache w.cache g ≡ among g w.cache.gobs_by_use
  pub used : (g : ℕ) → has gobf_incache w.cache g ≡ true → has gobf_inuse w.cache g ≡ true
  pub idle : All (λ (g : ℕ). (w.cache.st g).flags ≡ 0) w.free_list
  pub distinct : IsDistinct w.free_list

pub All-among : (P : ℕ → Type 0) (g : ℕ) (gs : List ℕ) → All P gs → among g gs ≡ true → P g
unfolding among
All-among P g [] h m = absurd (cc m)
All-among P g (x ∷ xs) (h, hs) m = elim (Bool-cases (x == g)) [
  | inl p ↦ rw (sym ((==_iff x g).0 p)) h
  | inr p ↦ All-among P g xs hs (ground (arith, m, p))
]

-- A list all of whose members have a property.
pub among-All : (P : ℕ → Type 0) (gs : List ℕ) → ((g : ℕ) → among g gs ≡ true → P g) → All P gs
unfolding among
among-All P [] f = tt
among-All P (x ∷ xs) f = (
  f x (rw (==_self x) refl),
  among-All P xs (λ g m. f g (elim (Bool-cases (x == g)) [ inl p ↦ rw p refl | inr p ↦ rw p m ])),
)

pub among_other : (g : ℕ) (gs : List ℕ) → All (IsOther g) gs → among g gs ≡ false
unfolding among
among_other g [] h = refl
among_other g (x ∷ xs) (h, hs) = rw h (among_other g xs hs)

pub among-list_remove :
    (gob g : ℕ) (gs : List ℕ)
    → IsDistinct gs
    → among g (list_remove gob gs) ≡ among g gs && not (g == gob)
unfolding among list_remove
among-list_remove gob g [] d = refl
among-list_remove gob g (x ∷ xs) (h, d) = elim (Bool-cases (x == gob)) [
  | inl p ↦
      let same : x ≡ gob = (==_iff x gob).0 p in
      elim (Bool-cases (g == gob)) [
        | inl q ↦
            let own : among g xs ≡ false = among_other g xs (rw ((==_iff g gob).0 q, sym same) h) in
            rw (p, q) (ground (arith, own))
        | inr q ↦ rw (p, q) (ground (arith, same, q))
      ]
  | inr p ↦ rw p (ground (arith, p, among-list_remove gob g xs d))
]

-- What an object has after an assignment to it or another.
pub at_own : (gob : ℕ) (f : Gob → Gob) (st : Store) → update gob f st gob ≡ f (st gob)
at_own gob f st = rw (==_self gob) refl

pub at_other :
    (gob g : ℕ) (f : Gob → Gob) (st : Store) → (g == gob) ≡ false → update gob f st g ≡ st g
at_other gob g f st p = rw p refl

-- A property of every object, from the one at hand and the others.
pub by_object :
    (P : ℕ → Type 0) (gob : ℕ) → P gob → ((g : ℕ) → (g == gob) ≡ false → P g) → (g : ℕ) → P g
by_object P gob own other g = elim (Bool-cases (g == gob)) [
  | inl p ↦ rw ((==_iff g gob).0 p) own
  | inr p ↦ other g p
]

-- An assignment to one object, which leaves its name and its mark alone where it is cached.
pub adjust-IsSound :
    (w : Handles) (gob : ℕ) (f : Gob → Gob)
    → IsSound w
    → All (IsOther gob) w.free_list
    → bitset gobf_incache (f (w.cache.st gob)).flags ≡ has gobf_incache w.cache gob
    → (has gobf_incache w.cache gob ≡ true
        → ((f (w.cache.st gob)).name ≡ (w.cache.st gob).name)
          × (bitset gobf_inuse (f (w.cache.st gob)).flags ≡ true))
    → IsSound (adjust gob f w)
adjust-IsSound w gob f ok apart mark keep =
    let st = w.cache.st in
    let own = at_own gob f st in
    let marks : (g : ℕ) → has gobf_incache (adjust gob f w).cache g ≡ has gobf_incache w.cache g =
      by_object _ gob (rw own mark) (λ g p. rw p refl) in
    let names : (g : ℕ)
        → has gobf_incache w.cache g ≡ true
        → (update gob f st g).name ≡ (st g).name =
      by_object _ gob (λ m. rw own (keep m).0) (λ g p m. rw p refl) in
    record {
      cache = record {
        table = ok.cache.table;
        found = among-All _ w.cache.gobs_by_use (λ g m.
            rw (names g (ok.marked g ∙ m)) (All-among _ g w.cache.gobs_by_use ok.cache.found m));
        distinct = ok.cache.distinct;
      };
      owned = λ k g h. let (n, m) = ok.owned k g h in (names g m ∙ n, marks g ∙ m);
      marked = λ g. marks g ∙ ok.marked g;
      used =
          by_object _ gob (λ m. rw own (keep (sym (marks gob) ∙ m)).1)
            (λ g p m. rw p (ok.used g (sym (marks g) ∙ m)));
      idle = others (λ (g : ℕ). (st g).flags ≡ 0) _ gob w.free_list (λ g p h. rw p h) apart ok.idle;
      distinct = ok.distinct;
    }
