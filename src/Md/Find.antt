-- ===== src/Md/Find.antt =====
-- Looking entries up, and how that sees additions.
use gdp.Base.{
  ℕ, zero, suc, ◌≤◌, ◌≡◌, refl, arith, Option, none, some, List, [], ◌∷◌, true, length, leb,
  if◌then◌else◌, ◌==◌, leb-suc-zero, leb-suc-suc, bitset, get_or, Bool-cases, inl, inr,
}
use gdp.Stat.{EpStat, stat_ok, notfound, readonly}
use gdp.Md.{Metadatum, Md, gdp_mdf_readonly, zero_slot, find_index, md_add, md_find}
use gdp.Md.Entries.{Entry, entries, first_entries, bytes_at}
use gdp.Md.Add.{IsMd}

-- The bytes of the first entry with an identifier.
abbrev pub bytes_of : ℕ → List Entry → Option (List ℕ)
bytes_of id [] = none
bytes_of id (e ∷ es) = if e.0 == id then some e.1 else bytes_of id es

abbrev pub found_bytes : EpStat × Option (ℕ × Option (List ℕ)) → EpStat × Option (List ℕ)
found_bytes (s, none) = (s, none)
found_bytes (s, some (n, d)) = (s, some (bytes_at n d))

abbrev pub answer : Option (List ℕ) → EpStat × Option (List ℕ)
answer none = (notfound, none)
answer (some b) = (stat_ok, some b)

slot_found : ℕ → ℕ → Metadatum → EpStat × Option (ℕ × Option (List ℕ))
slot_found n i m = if leb n i then (notfound, none) else (stat_ok, some (m.md_len, m.md_data))

slot_found-answer :
    (id n : ℕ) (ms : List Metadatum)
    → n ≤ length ms
    → found_bytes (slot_found n (find_index id n ms) (get_or ms (find_index id n ms) zero_slot))
      ≡ answer (bytes_of id (first_entries n ms))
unfolding find_index slot_found
slot_found-answer id zero ms h = refl
slot_found-answer id (suc n) [] h = absurd (omega arith)
slot_found-answer id (suc n) (m ∷ ms) h = elim (Bool-cases (m.md_id == id)) [
  | inl hit ↦ rw (hit, leb-suc-zero)
  | inr miss ↦ rw (miss, leb-suc-suc) (slot_found-answer id n ms (omega arith))
]

-- `gdp_md_find` gives the bytes of the first entry with the identifier, or else "not found".
pub md_find-bytes_of :
    (gmd : Md) (id : ℕ)
    → IsMd gmd
    → found_bytes (md_find (some gmd) id) ≡ answer (bytes_of id (entries gmd))
unfolding md_find slot_found
md_find-bytes_of gmd id v = slot_found-answer id gmd.nused gmd.mds (omega (arith, v))

-- Metadata that was read from the wire, or is marked so otherwise, refuses every addition and is
-- left as it was.
pub md_add_refused :
    (junk : ℕ → Metadatum) (gmd : Md) (id len : ℕ) (dat : Option (List ℕ))
    → bitset gdp_mdf_readonly gmd.flags ≡ true
    → md_add junk gmd id len dat ≡ (readonly, gmd)
unfolding md_add
md_add_refused junk gmd id len dat h = rw h
