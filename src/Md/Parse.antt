-- ===== src/Md/Parse.antt =====
-- Parsing what the serializer writes.
use gdp.Base.{
  ℕ, ◌*◌, ◌^◌, ◌<◌, ◌≡◌, refl, arith, none, some, List, [], ◌∷◌, ◌++◌, All, length, length-append,
  append_assoc, take_front, drop_front, take_all, ==_self,
}
use gdp.Wire.{put16, put32}
use gdp.Wire.RoundTrip.{get16-put16, get32-put32, put16_bytes, put32_bytes}
use gdp.Md.{Metadatum, Md, gdp_mdf_readonly, point_into}
use gdp.Md.Serial.{total_len, get_headers, finish_parse, parse_counted, md_deserialize, parsed}
use gdp.Md.Entries.{Entry, entries, first_entries, AllWhole, headers_of, data_of, encode}

-- An entry that fits the format.
abbrev pub Fits : Entry → Type 0
Fits (id, d) = (id < 2 ^ 32) × (length d < 2 ^ 32)

-- The header of an entry, as the parser first builds it.
abbrev blank : Entry → Metadatum
blank (id, d) = record { md_id = id; md_len = length d; md_data = none; md_flags = 0 }

abbrev blanks : List Entry → List Metadatum
blanks [] = []
blanks (e ∷ es) = blank e ∷ blanks es

length-put32 : (v : ℕ) → length (put32 v) ≡ 4
length-put32 v = rw (put32_bytes v)

pub length-put16 : (v : ℕ) → length (put16 v) ≡ 2
length-put16 v = rw (put16_bytes v)

pub length-headers_of : (es : List Entry) → length (headers_of es) ≡ 8 * length es
length-headers_of [] = refl
length-headers_of ((id, d) ∷ es) = omega (
  arith,
  length-append (put32 id) (put32 (length d) ++ headers_of es),
  length-append (put32 (length d)) (headers_of es),
  length-put32 id,
  length-put32 (length d),
  length-headers_of es,
)

get_headers-headers_of :
    (es : List Entry) (rest : List ℕ)
    → All Fits es
    → get_headers (length es) (headers_of es ++ rest) ≡ some (blanks es, rest)
unfolding get_headers
get_headers-headers_of [] rest f = refl
get_headers-headers_of ((id, d) ∷ es) rest (f, fs) =
    rw (append_assoc (put32 id) (put32 (length d) ++ headers_of es) rest) (
      rw (get32-put32 id ((put32 (length d) ++ headers_of es) ++ rest) f.0) (
        rw (append_assoc (put32 (length d)) (headers_of es) rest) (
          rw (get32-put32 (length d) (headers_of es ++ rest) f.1)
            (rw (get_headers-headers_of es rest fs)))))

total_len-blanks : (es : List Entry) → total_len (length es) (blanks es) ≡ length (data_of es)
unfolding total_len
total_len-blanks [] = refl
total_len-blanks ((id, d) ∷ es) = omega (arith, total_len-blanks es, length-append d (data_of es))

-- The block of data is cut up as it was put together.
point_into-entries :
    (es : List Entry)
    → first_entries (length es) (point_into (length es) (blanks es) (data_of es)) ≡ es
unfolding point_into
point_into-entries [] = refl
point_into-entries ((id, d) ∷ es) =
    rw (take_front d (data_of es), drop_front d (data_of es), point_into-entries es)

point_into-AllWhole :
    (es : List Entry)
    → All Fits es
    → AllWhole (length es) (point_into (length es) (blanks es) (data_of es))
unfolding point_into
point_into-AllWhole [] f = tt
point_into-AllWhole ((id, d) ∷ es) (f, fs) = (
  (f.0, f.1, rw (take_front d (data_of es))),
  rw (drop_front d (data_of es)) (point_into-AllWhole es fs),
)

-- The metadata that is read from an encoding.
abbrev pub loaded : List Entry → Md
loaded es = record {
  nalloc = length es;
  nused = length es;
  mds = point_into (length es) (blanks es) (data_of es);
  databuf = some (data_of es);
  flags = gdp_mdf_readonly;
}

pub loaded-entries :
    (es : List Entry)
    → All Fits es
    → (entries (loaded es) ≡ es) × AllWhole (length es) (loaded es).mds
loaded-entries es f = (point_into-entries es, point_into-AllWhole es f)

finish_parse-loaded :
    (es : List Entry) → finish_parse (length es) (some (blanks es, data_of es)) ≡ parsed (loaded es)
unfolding finish_parse
finish_parse-loaded es = rw (total_len-blanks es, ==_self, take_all)

pub md_deserialize-encode :
    (es : List Entry)
    → 0 < length es
    → length es < 2 ^ 16
    → All Fits es
    → md_deserialize (encode es) ≡ parsed (loaded es)
unfolding md_deserialize parse_counted
md_deserialize-encode es some_entry few f =
    let body = headers_of es ++ data_of es in
    let size = length-append (put16 (length es)) body in
    let size' = length-append (headers_of es) (data_of es) in
    ground (
      arith,
      get16-put16 (length es) body,
      get_headers-headers_of es (data_of es),
      finish_parse-loaded es,
      size,
      size',
      length-put16 (length es),
      length-headers_of es,
    )
