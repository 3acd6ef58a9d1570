-- ===== src/Md/Add.antt =====
-- Adding an entry: the array stays in order, and the entries are updated by identifier.
use gdp.Base.{
  ℕ, zero, suc, ◌+◌, ◌-◌, ◌*◌, ◌/◌, ◌≤◌, ◌<◌, ◌≡◌, refl, ap, arith, Option, none, List, [], ◌∷◌,
  length, take, if◌then◌else◌, ◌==◌, length-take, length-append, get_or, set, length-replicate,
}
use gdp.Md.{
  Metadatum, Md, zero_slot, md_new, find_index, junk_slots, resize, make_room, fill_slot,
  update_slot, replace_entry, append_entry, md_add,
}
use gdp.Md.Entries.{Entry}

-- The array has the size that is recorded, room to grow by half, and holds the entries.
pub record IsMd (gmd : Md) : Type 0 where
  pub size : length gmd.mds ≡ gmd.nalloc
  pub used : gmd.nused ≤ gmd.nalloc
  pub growable : 4 ≤ gmd.nalloc

pub md_new-IsMd : (n : ℕ) → IsMd (md_new n)
unfolding md_new
md_new-IsMd n = ground (arith, length-replicate n zero_slot)

-- The first entry with the identifier is replaced in its place, or else a new one put at the end.
abbrev pub upsert : Entry → List Entry → List Entry
upsert e [] = e ∷ []
upsert e (x ∷ es) = if x.0 == e.0 then e ∷ es else x ∷ upsert e es

module _ {ℓ} {A : Type ℓ} where
  length-set : (xs : List A) (i : ℕ) (v : A) → length (set xs i v) ≡ length xs
  length-set [] i v = refl
  length-set (x ∷ xs) zero v = refl
  length-set (x ∷ xs) (suc i) v = ap suc (length-set xs i v)

length-junk_slots : (junk : ℕ → Metadatum) (k n : ℕ) → length (junk_slots junk k n) ≡ n
unfolding junk_slots
length-junk_slots junk k zero = refl
length-junk_slots junk k (suc n) = ap suc (length-junk_slots junk (k + 1) n)

length-resize : (junk : ℕ → Metadatum) (n : ℕ) (ms : List Metadatum) → length (resize junk n ms) ≡ n
unfolding resize
length-resize junk n ms = omega (
  arith,
  length-append (take n ms) (junk_slots junk (length ms) (n - length ms)),
  length-take n ms,
  length-junk_slots junk (length ms) (n - length ms),
)

-- Room for one more.
make_room-IsMd :
    (junk : ℕ → Metadatum) (gmd : Md)
    → IsMd gmd
    → IsMd (make_room junk gmd)
      × (gmd.nused < (make_room junk gmd).nalloc)
      × ((make_room junk gmd).nused ≡ gmd.nused)
unfolding make_room
make_room-IsMd junk gmd v = ground (arith, length-resize junk (gmd.nalloc / 2 * 3) gmd.mds)

-- Adding an entry to metadata whose array is in order leaves the array in order, whether or not
-- the entry is accepted.
pub md_add-IsMd :
    (junk : ℕ → Metadatum) (gmd : Md) (id len : ℕ) (dat : Option (List ℕ))
    → IsMd gmd
    → IsMd (md_add junk gmd id len dat).1
unfolding md_add append_entry replace_entry update_slot
md_add-IsMd junk gmd id len dat v =
    let roomy = make_room junk gmd in
    ground (
      arith,
      make_room-IsMd junk gmd v,
      length-set gmd.mds (find_index id gmd.nused gmd.mds) (
          fill_slot id len dat
            (record (get_or gmd.mds (find_index id gmd.nused gmd.mds) zero_slot) {
              md_data = none;
            })),
      length-set roomy.mds gmd.nused (fill_slot id len dat (get_or roomy.mds gmd.nused zero_slot)),
    )

abbrev position : ℕ → List Entry → ℕ
position id [] = 0
position id (e ∷ es) = if e.0 == id then 0 else suc (position id es)
