-- ===== src/Md/Serial.antt =====
-- Metadata on the wire (gdp/gdp_md.c): a count, a header of identifier and length for each entry,
-- and then the data of all entries.
use gdp.Base.{
  ℕ, zero, suc, ◌+◌, ◌-◌, ◌*◌, Option, none, some, List, [], ◌∷◌, ◌++◌, if◌then◌else◌, ◌>>=◌, ltb,
  leb, ◌==◌, length, take,
}
use gdp.Wire.{put16, put32, get16, get32}
use gdp.Stat.{EpStat, stat_from_int}
use gdp.Md.{Metadatum, Md, gdp_mdf_readonly, point_into}

-- Throughout, `none` is a read outside the source's memory.

-- `memcpy` of `n` bytes from a pointer.
unfoldable pub copy_from : ℕ → Option (List ℕ) → Option (List ℕ)
copy_from n none = none
copy_from n (some d) = if leb n (length d) then some (take n d) else none

-- The lengths of the first `n` entries, added up.
unfoldable pub total_len : ℕ → List Metadatum → ℕ
total_len zero ms = 0
total_len (suc n) [] = 0
total_len (suc n) (m ∷ ms) = m.md_len + total_len n ms

-- The size of the output buffer.
unfoldable pub serialized_len : Md → ℕ
serialized_len gmd = 2 + 8 * gmd.nused + total_len gmd.nused gmd.mds

unfoldable pub put_headers : ℕ → List Metadatum → List ℕ
put_headers zero ms = []
put_headers (suc n) [] = []
put_headers (suc n) (m ∷ ms) = put32 m.md_id ++ (put32 m.md_len ++ put_headers n ms)

unfoldable pub put_data : ℕ → List Metadatum → Option (List ℕ)
put_data zero ms = some []
put_data (suc n) [] = some []
put_data (suc n) (m ∷ ms) = do
  front ← if ltb 0 m.md_len then copy_from m.md_len m.md_data else some []
  back ← put_data n ms
  some (front ++ back)

-- `_gdp_md_serialize`: the bytes that it writes into the buffer. (Of NULL it makes an empty output,
-- which no caller here asks for.)
unfoldable pub md_serialize : Md → Option (List ℕ)
md_serialize gmd = do
  body ← put_data gmd.nused gmd.mds
  some (put16 gmd.nused ++ (put_headers gmd.nused gmd.mds ++ body))

-- How a parse ends: by reading past the end of the input, with NULL, or with metadata.
pub data Parsed : Type 0 where
  overrun : Parsed
  rejected : Parsed
  parsed : Md → Parsed

-- The loop over the headers. The data of an entry is set later.
unfoldable pub get_headers : ℕ → List ℕ → Option (List Metadatum × List ℕ)
get_headers zero src = some ([], src)
get_headers (suc n) src = do
  (id, src₁) ← get32 src
  (len, src₂) ← get32 src₁
  (ms, rest) ← get_headers n src₂
  some (record { md_id = id; md_len = len; md_data = none; md_flags = 0 } ∷ ms, rest)

unfoldable pub finish_parse : ℕ → Option (List Metadatum × List ℕ) → Parsed
finish_parse nmd none = overrun
finish_parse nmd (some (ms, rest)) =
    let tlen = total_len nmd ms in
    let dat = take tlen rest in
    if length rest == tlen
    then parsed (record {
      nalloc = nmd;
      nused = nmd;
      mds = point_into nmd ms dat;
      databuf = some dat;
      flags = gdp_mdf_readonly;
    })
    else rejected

unfoldable pub parse_counted : ℕ → Option (ℕ × List ℕ) → Parsed
parse_counted smd_len none = rejected
parse_counted smd_len (some (nmd, src)) =
    if nmd == 0
    then rejected
    else if ltb (smd_len - 2) (2 * 4)
    then rejected
    else finish_parse nmd (get_headers nmd src)

-- `_gdp_md_deserialize`. The count is read only where two bytes are there.
unfoldable pub md_deserialize : List ℕ → Parsed
md_deserialize smd = if ltb (length smd) 2 then rejected else parse_counted (length smd) (get16 smd)

-- `_gdp_md_clone`
unfoldable pub md_clone : Md → Parsed
md_clone gmd = elim (md_serialize gmd) [ none ↦ overrun | some smd ↦ md_deserialize smd ]

-- `_gdp_md_to_gdpname`, over the library's digest function: status, name and the serialized form.
unfoldable pub md_to_gdpname : (List ℕ → List ℕ) → Md → Option (EpStat × List ℕ × List ℕ)
md_to_gdpname sha256 gmd = do
  smd ← md_serialize gmd
  some (stat_from_int (length smd), sha256 smd, smd)
