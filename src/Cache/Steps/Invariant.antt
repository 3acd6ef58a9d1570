-- ===== src/Cache/Steps/Invariant.antt =====
-- The table and the list of the cache agree, and every operation keeps them so.
use gdp.Base.{
  ℕ, ◌≡◌, refl, arith, ap, sym, ◌∙◌, false, some, List, [], ◌∷◌, All, ◌==◌, ==_iff, Bool-cases, inl,
  inr,
}
use gdp.Hash.{Table, same_key, ep_hash_search}
use gdp.Hash.Chains.{same_key→eq}
use gdp.Hash.Laws.{IsTable}
use gdp.Cache.{Gob, Store, gobf_inuse, gobf_incache}
use gdp.Cache.Steps.{Cache, update, list_remove, has, gobf_islocked, gob_touch}

-- A search for the name of the object gives the object.
abbrev pub IsFound : Store → Table ℕ → ℕ → Type 0
IsFound st hp g = ep_hash_search hp (st g).name ≡ some g

abbrev pub IsOther : ℕ → ℕ → Type 0
IsOther gob g = (g == gob) ≡ false

-- No object is in the list twice.
abbrev pub IsDistinct : List ℕ → Type 0
IsDistinct [] = Unit
IsDistinct (g ∷ gs) = All (IsOther g) gs × IsDistinct gs

pub record IsCache (c : Cache) : Type 0 where
  pub table : IsTable c.open_gobs
  pub found : All (IsFound c.st c.open_gobs) c.gobs_by_use
  pub distinct : IsDistinct c.gobs_by_use

pub All-list_remove :
    (P : ℕ → Type 0) (gob : ℕ) (gs : List ℕ) → All P gs → All P (list_remove gob gs)
unfolding list_remove
All-list_remove P gob [] h = tt
All-list_remove P gob (g ∷ gs) (h, hs) = elim (Bool-cases (g == gob)) [
  | inl p ↦ rw p hs
  | inr p ↦ rw p (h, All-list_remove P gob gs hs)
]

pub list_remove-IsDistinct :
    (gob : ℕ) (gs : List ℕ)
    → IsDistinct gs
    → IsDistinct (list_remove gob gs) × All (IsOther gob) (list_remove gob gs)
unfolding list_remove
list_remove-IsDistinct gob [] d = (tt, tt)
list_remove-IsDistinct gob (g ∷ gs) (h, d) = elim (Bool-cases (g == gob)) [
  | inl p ↦ let same : g ≡ gob = (==_iff g gob).0 p in rw p (d, rw (sym same) h)
  | inr p ↦
      let (r, o) = list_remove-IsDistinct gob gs d in
      rw p ((All-list_remove (IsOther g) gob gs h, r), (p, o))
]

-- What holds of each object that is another one than `gob`, and so keeps its place in the store.
pub others :
    (P Q : ℕ → Type 0) (gob : ℕ) (gs : List ℕ)
    → ((g : ℕ) → (g == gob) ≡ false → P g → Q g)
    → All (IsOther gob) gs
    → All P gs
    → All Q gs
others P Q gob [] f o h = tt
others P Q gob (g ∷ gs) f (o, os) (h, hs) = (f g o h, others P Q gob gs f os hs)

pub every : (P Q : ℕ → Type 0) (gs : List ℕ) → ((g : ℕ) → P g → Q g) → All P gs → All Q gs
every P Q [] f h = tt
every P Q (g ∷ gs) f (h, hs) = (f g h, every P Q gs f hs)

pub name_kept :
    (gob : ℕ) (f : Gob → Gob) (st : Store) (g : ℕ)
    → ((x : Gob) → (f x).name ≡ x.name)
    → (update gob f st g).name ≡ (st g).name
name_kept gob f st g h = elim (Bool-cases (g == gob)) [
  | inl p ↦ rw p (h (st g))
  | inr p ↦ rw p refl
]

-- Two objects that are found under their names have different names.
pub names_differ :
    (st : Store) (hp : Table ℕ) (gob g : ℕ)
    → IsFound st hp gob
    → (g == gob) ≡ false
    → IsFound st hp g
    → same_key (st g).name (st gob).name ≡ false
names_differ st hp gob g here other there = elim (Bool-cases (same_key (st g).name (st gob).name)) [
  | inr q ↦ q
  | inl q ↦
      let name : (st g).name ≡ (st gob).name = same_key→eq (st g).name (st gob).name q in
      let both : some g ≡ some gob = sym there ∙ (ap (ep_hash_search hp) name ∙ here) in
      let same : g ≡ gob = cc both in absurd (ground (arith, same, other))
]

-- In a cache whose table and list agree, they still agree after an object that is found under its
-- name is used.
pub gob_touch-IsCache :
    (c : Cache) (gob now : ℕ)
    → IsCache c
    → ep_hash_search c.open_gobs (c.st gob).name ≡ some gob
    → IsCache (gob_touch c gob now)
unfolding gob_touch
gob_touch-IsCache c gob now ok here =
    let f : Gob → Gob = λ g. record g { utime = now } in
    let kept : (g : ℕ) → IsFound c.st c.open_gobs g → IsFound (update gob f c.st) c.open_gobs g =
      λ g h. ap (ep_hash_search c.open_gobs) (name_kept gob f c.st g (λ x. refl)) ∙ h in
    let c' : Cache = record c { st = update gob f c.st } in
    let idle : IsCache c' = record {
      table = ok.table;
      found = every _ _ c.gobs_by_use kept ok.found;
      distinct = ok.distinct;
    } in
    let (d, o) = list_remove-IsDistinct gob c.gobs_by_use ok.distinct in
    let moved : IsCache (record c' { gobs_by_use = gob ∷ list_remove gob c.gobs_by_use }) = record {
      table = ok.table;
      found = (
        kept gob here,
        All-list_remove _ gob c.gobs_by_use (every _ _ c.gobs_by_use kept ok.found),
      );
      distinct = (o, d);
    } in
    elim (Bool-cases (has gobf_inuse c gob)) [
      | inr u ↦ rw u ok
      | inl u ↦ elim (Bool-cases (has gobf_islocked c gob)) [
        | inr l ↦ rw (u, l) idle
        | inl l ↦ elim (Bool-cases (has gobf_incache c gob)) [
          | inr i ↦ rw (u, l, i) idle
          | inl i ↦ rw (u, l, i) moved
        ]
      ]
    ]
