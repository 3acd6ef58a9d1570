-- ===== src/Md.antt =====
-- In-memory metadata of a log (gdp/gdp_md.h, gdp/gdp_md.c): an array of `nalloc` slots of which the
-- first `nused` hold entries. A pointer to data is `none` if it is NULL, and else the bytes that
-- stand at it. Freeing memory has no effect that the model keeps.
pub mod Serial
pub mod Entries
pub mod Parse
pub mod RoundTrip
pub mod Canonical
pub mod Add
pub mod Find
use gdp.Base.{
  ℕ, zero, suc, ◌+◌, ◌-◌, ◌*◌, ◌/◌, ◌%◌, ◌^◌, Bool, true, false, Option, none, some, List, [], ◌∷◌,
  ◌++◌, if◌then◌else◌, ltb, leb, ◌==◌, bitset, length, get_elem?, get_or, set, take, drop,
  replicate,
}
use gdp.Stat.{EpStat, stat_ok, readonly, notfound}

-- `struct metadatum`
pub record Metadatum : Type 0 where
  pub md_id : ℕ
  pub md_len : ℕ
  pub md_data : Option (List ℕ)
  pub md_flags : ℕ

-- `struct gdp_md`
pub record Md : Type 0 where
  pub nalloc : ℕ
  pub nused : ℕ
  pub mds : List Metadatum
  pub databuf : Option (List ℕ)
  pub flags : ℕ

abbrev pub mdf_owndata : ℕ
mdf_owndata = 1

abbrev pub gdp_mdf_readonly : ℕ
gdp_mdf_readonly = 1

abbrev pub gdp_md_eolist : ℕ
gdp_md_eolist = 0

abbrev pub minmds : ℕ
minmds = 4

-- A slot of memory that is all zero.
abbrev pub zero_slot : Metadatum
zero_slot = record { md_id = 0; md_len = 0; md_data = none; md_flags = 0 }

unfoldable pub md_new : ℕ → Md
md_new nentries =
    let n = if ltb minmds nentries then nentries else minmds in
    record { nalloc = n; nused = 0; mds = replicate n zero_slot; databuf = none; flags = 0 }

-- The loop over the entries that stops at the first one called `id`: where it stops.
unfoldable pub find_index : ℕ → ℕ → List Metadatum → ℕ
find_index id zero ms = 0
find_index id (suc n) [] = suc n
find_index id (suc n) (m ∷ ms) = if m.md_id == id then 0 else suc (find_index id n ms)

-- What `realloc` leaves in slots that are new is not known: `junk k` stands in slot `k`.
unfoldable pub junk_slots : (ℕ → Metadatum) → ℕ → ℕ → List Metadatum
junk_slots junk k zero = []
junk_slots junk k (suc n) = junk k ∷ junk_slots junk (k + 1) n

unfoldable pub resize : (ℕ → Metadatum) → ℕ → List Metadatum → List Metadatum
resize junk n ms = take n ms ++ junk_slots junk (length ms) (n - length ms)

-- Room for one more entry: half as many slots again if all are in use.
unfoldable pub make_room : (ℕ → Metadatum) → Md → Md
make_room junk gmd =
    if leb gmd.nalloc gmd.nused
    then record gmd { nalloc = gmd.nalloc / 2 * 3; mds = resize junk (gmd.nalloc / 2 * 3) gmd.mds }
    else gmd

-- The assignments to a slot at the end of `gdp_md_add`; `md_len` has 32 bits.
unfoldable pub fill_slot : ℕ → ℕ → Option (List ℕ) → Metadatum → Metadatum
fill_slot id len none m = record m { md_id = id; md_len = len % 2 ^ 32 }
fill_slot id len (some d) m = record {
  md_id = id;
  md_len = len % 2 ^ 32;
  md_data = some (take len d);
  md_flags = mdf_owndata;
}

unfoldable pub update_slot : ℕ → (Metadatum → Metadatum) → Md → Md
update_slot i f gmd = record gmd { mds = set gmd.mds i (f (get_or gmd.mds i zero_slot)) }

unfoldable pub replace_entry : ℕ → ℕ → ℕ → Option (List ℕ) → Md → Md
replace_entry i id len dat gmd =
    update_slot i (λ m. fill_slot id len dat (record m { md_data = none })) gmd

unfoldable pub append_entry : (ℕ → Metadatum) → ℕ → ℕ → Option (List ℕ) → Md → Md
append_entry junk id len dat gmd =
    let roomy = make_room junk gmd in
    let grown = record roomy { nused = gmd.nused + 1 } in
    update_slot gmd.nused (fill_slot id len dat) grown

-- `gdp_md_add`: its status and the metadata after it.
unfoldable pub md_add : (ℕ → Metadatum) → Md → (id len : ℕ) → Option (List ℕ) → EpStat × Md
md_add junk gmd id len dat =
    let i = find_index id gmd.nused gmd.mds in
    if bitset gdp_mdf_readonly gmd.flags
    then (readonly, gmd)
    else if id == gdp_md_eolist
    then (stat_ok, gmd)
    else if ltb i gmd.nused
    then (stat_ok, replace_entry i id len dat gmd)
    else (stat_ok, append_entry junk id len dat gmd)

-- The loop that points each of the first `n` entries into a block of data, one behind the other.
unfoldable pub point_into : ℕ → List Metadatum → List ℕ → List Metadatum
point_into zero ms dat = ms
point_into (suc n) [] dat = []
point_into (suc n) (m ∷ ms) dat =
    record m { md_data = some dat } ∷ point_into n ms (drop m.md_len dat)

-- `_gdp_md_adddata`
unfoldable pub md_adddata : Md → List ℕ → Md
md_adddata gmd dat = record gmd { databuf = some dat; mds = point_into gmd.nused gmd.mds dat }

-- `gdp_md_get`: the entry at an index, as identifier, length and data.
unfoldable pub md_get : Md → ℕ → EpStat × Option (ℕ × ℕ × Option (List ℕ))
md_get gmd indx =
    if leb gmd.nused indx
    then (notfound, none)
    else let m = get_or gmd.mds indx zero_slot in (stat_ok, some (m.md_id, m.md_len, m.md_data))

-- `gdp_md_find`: length and data of the entry with an identifier; `none` is the NULL pointer.
unfoldable pub md_find : Option Md → ℕ → EpStat × Option (ℕ × Option (List ℕ))
md_find none id = (notfound, none)
md_find (some gmd) id =
    let i = find_index id gmd.nused gmd.mds in
    let m = get_or gmd.mds i zero_slot in
    if leb gmd.nused i then (notfound, none) else (stat_ok, some (m.md_len, m.md_data))
