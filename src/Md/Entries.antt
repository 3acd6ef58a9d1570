-- ===== src/Md/Entries.antt =====
-- What metadata stands for: its entries as identifiers with their bytes, in order.
use gdp.Base.{
  ℕ, zero, suc, ◌^◌, ◌<◌, ◌≡◌, refl, arith, Option, none, some, List, [], ◌∷◌, ◌++◌, length, take,
  ltb, if◌then◌else◌, length-take,
}
use gdp.Wire.{put16, put32}
use gdp.Md.{Metadatum, Md}
use gdp.Md.Serial.{copy_from, put_headers, put_data, md_serialize}

abbrev pub Entry : Type 0
Entry = ℕ × List ℕ

abbrev pub bytes_at : ℕ → Option (List ℕ) → List ℕ
bytes_at n none = []
bytes_at n (some d) = take n d

abbrev pub entry_of : Metadatum → Entry
entry_of m = (m.md_id, bytes_at m.md_len m.md_data)

abbrev pub first_entries : ℕ → List Metadatum → List Entry
first_entries zero ms = []
first_entries (suc n) [] = []
first_entries (suc n) (m ∷ ms) = entry_of m ∷ first_entries n ms

abbrev pub entries : Md → List Entry
entries gmd = first_entries gmd.nused gmd.mds

-- An entry whose data is there in full, with an identifier and a length of 32 bits.
abbrev pub IsWhole : Metadatum → Type 0
IsWhole m =
    (m.md_id < 2 ^ 32) × (m.md_len < 2 ^ 32) × (length (bytes_at m.md_len m.md_data) ≡ m.md_len)

-- The first `n` slots are there, and are whole.
abbrev pub AllWhole : ℕ → List Metadatum → Type 0
AllWhole zero ms = Unit
AllWhole (suc n) [] = ⊥
AllWhole (suc n) (m ∷ ms) = IsWhole m × AllWhole n ms

-- The format: count, headers, data.
abbrev pub headers_of : List Entry → List ℕ
headers_of [] = []
headers_of ((id, d) ∷ es) = put32 id ++ (put32 (length d) ++ headers_of es)

abbrev pub data_of : List Entry → List ℕ
data_of [] = []
data_of ((id, d) ∷ es) = d ++ data_of es

abbrev pub encode : List Entry → List ℕ
encode es = put16 (length es) ++ (headers_of es ++ data_of es)

pub length-first_entries :
    (n : ℕ) (ms : List Metadatum) → AllWhole n ms → length (first_entries n ms) ≡ n
length-first_entries zero ms w = refl
length-first_entries (suc n) [] w = absurd w
length-first_entries (suc n) (m ∷ ms) (w, ws) = omega (arith, length-first_entries n ms ws)

-- The bytes of a whole entry are what `memcpy` reads, also where nothing is read.
pub copy-bytes_at :
    (n : ℕ) (d : Option (List ℕ))
    → length (bytes_at n d) ≡ n
    → (if ltb 0 n then copy_from n d else some []) ≡ some (bytes_at n d)
unfolding copy_from
copy-bytes_at zero none h = refl
copy-bytes_at zero (some d) h = refl
copy-bytes_at (suc n) none h = absurd (omega arith)
copy-bytes_at (suc n) (some d) h = ground (arith, length-take (suc n) d)

pub put_headers-entries :
    (n : ℕ) (ms : List Metadatum)
    → AllWhole n ms
    → put_headers n ms ≡ headers_of (first_entries n ms)
unfolding put_headers
put_headers-entries zero ms w = refl
put_headers-entries (suc n) [] w = absurd w
put_headers-entries (suc n) (m ∷ ms) (w, ws) = rw (put_headers-entries n ms ws, w.2)

pub put_data-entries :
    (n : ℕ) (ms : List Metadatum)
    → AllWhole n ms
    → put_data n ms ≡ some (data_of (first_entries n ms))
unfolding put_data
put_data-entries zero ms w = refl
put_data-entries (suc n) [] w = absurd w
put_data-entries (suc n) (m ∷ ms) (w, ws) =
    rw (copy-bytes_at m.md_len m.md_data w.2, put_data-entries n ms ws)

-- The output is the encoding of the entries.
pub md_serialize-encode :
    (gmd : Md) → AllWhole gmd.nused gmd.mds → md_serialize gmd ≡ some (encode (entries gmd))
unfolding md_serialize
md_serialize-encode gmd w = rw (
  put_data-entries gmd.nused gmd.mds w,
  put_headers-entries gmd.nused gmd.mds w,
  length-first_entries gmd.nused gmd.mds w,
)
