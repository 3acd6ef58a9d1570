-- ===== src/Tests/Metadata.antt =====
-- Metadata of two entries, one that is written again, and a short input; a status.
use mathlib.Core.List.{map}
use gdp.Stat.Acknak.{
  get_default_estat, acknak_from_estat, plain_codes, warning_codes,
  acknak_from_estat-get_default_estat,
}
use gdp.Base.{ℕ, ◌+◌, ◌*◌, ◌≤◌, ◌<◌, ◌≡◌, ◌↔◌, refl, none, some, List, [], ◌∷◌, length}
use gdp.Wire.{get16}
use gdp.Md.{Metadatum, Md, gdp_mdf_readonly}
use gdp.Md.Serial.{overrun, md_deserialize}
use gdp.Md.Canonical.{md_deserialize-overrun}

abbrev slot : ℕ → List ℕ → Metadatum
slot id d = record { md_id = id; md_len = length d; md_data = some d; md_flags = 0 }

abbrev two : Md
two = record {
  flags = 0;
  nalloc = 4;
  nused = 2;
  mds = slot 7 (1 ∷ 2 ∷ []) ∷ slot 9 (5 ∷ []) ∷ slot 0 [] ∷ slot 0 [] ∷ [];
  databuf = none;
}

abbrev junk : ℕ → Metadatum
junk i = slot 0 []

-- One entry on the wire.
abbrev one_bytes : List ℕ
one_bytes = 0 ∷ 1 ∷ 0 ∷ 0 ∷ 0 ∷ 7 ∷ 0 ∷ 0 ∷ 0 ∷ 2 ∷ 8 ∷ 9 ∷ []

abbrev one : Md
one = record {
  flags = gdp_mdf_readonly;
  nalloc = 1;
  nused = 1;
  mds = slot 7 (8 ∷ 9 ∷ []) ∷ [];
  databuf = some (8 ∷ 9 ∷ []);
}

-- A count of two, with room for one header.
abbrev short_bytes : List ℕ
short_bytes = 0 ∷ 2 ∷ 0 ∷ 0 ∷ 0 ∷ 7 ∷ 0 ∷ 0 ∷ 0 ∷ 0 ∷ []

short_counted : get16 short_bytes ≡ some (2, 0 ∷ 0 ∷ 0 ∷ 7 ∷ 0 ∷ 0 ∷ 0 ∷ 0 ∷ [])
unfolding get16
short_counted = refl

md_deserialize-overrun_example :
    (md_deserialize short_bytes ≡ overrun)
    ↔ ((0 < 2) × (10 ≤ length short_bytes) × (length short_bytes < 2 + 8 * 2))
md_deserialize-overrun_example =
    md_deserialize-overrun short_bytes 2 (0 ∷ 0 ∷ 0 ∷ 7 ∷ 0 ∷ 0 ∷ 0 ∷ 0 ∷ []) short_counted

acknak_from_estat-get_default_estat_example :
    (map (λ code. acknak_from_estat (get_default_estat code) 132) plain_codes ≡ plain_codes)
    × (map (λ code. acknak_from_estat (get_default_estat code) 132) warning_codes
        ≡ map (λ code. 224) warning_codes)
acknak_from_estat-get_default_estat_example = acknak_from_estat-get_default_estat 132
