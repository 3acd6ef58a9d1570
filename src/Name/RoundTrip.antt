-- ===== src/Name/RoundTrip.antt =====
-- Names that are printed and read back.
use gdp.Base.{
  ℕ, ◌+◌, ◌≡◌, refl, arith, ap, sym, ◌∙◌, false, none, some, List, ltb, length, take, take_all, All,
}
use gdp.Wire.RoundTrip.{IsByte}
use gdp.Stat.{stat_from_int}
use gdp.B64.{enc_url, encmaxline, encode_loop, enc_len, b64_encode, b64_decode}
use gdp.B64.Alphabet.{url_IsEncoding}
use gdp.B64.RoundTrip.{b64_decode-b64_encode}
use gdp.B64.Length.{length-encode_loop}
use gdp.Name.{printable_name, internal_name, Directory, name_parse}

-- The text of a name.
abbrev pub name_text : List ℕ → List ℕ
name_text n = encode_loop enc_url n 0 0 0

length-name_text : (n : List ℕ) → length n ≡ 32 → length (name_text n) ≡ 43
unfolding enc_len encmaxline
length-name_text n h =
    let (same, size) = length-encode_loop enc_url n refl (omega (arith, h)) in
    same ∙ (size ∙ rw h refl)

name_enc_len : (n : List ℕ) → length n ≡ 32 → enc_len (length n) enc_url ≡ 43
unfolding encmaxline
name_enc_len n h =
    let (same, size) = length-encode_loop enc_url n refl (omega (arith, h)) in size ∙ rw h refl

text_encodes :
    (n : List ℕ) → length n ≡ 32 → b64_encode n 44 enc_url ≡ (stat_from_int 43, some (name_text n))
unfolding b64_encode
text_encodes n h =
    let room : ltb 44 (enc_len (length n) enc_url + 1) ≡ false = rw (name_enc_len n h) refl in
    rw (room, length-name_text n h) refl

text_decodes :
    (n : List ℕ)
    → length n ≡ 32
    → All IsByte n
    → b64_decode (name_text n) 32 enc_url ≡ (stat_from_int 32, some n)
text_decodes n h bytes =
    let (txt, there, back) =
      b64_decode-b64_encode enc_url n 44 32 url_IsEncoding bytes (omega (arith, name_enc_len n h))
        (omega (arith, h)) in
    let same : txt ≡ name_text n = cc (there, text_encodes n h) in rw h at (rw same at back)

-- A name of 32 bytes is printed as 43 characters, and what is printed is read back as the name,
-- with the status 32.
pub internal_name-printable_name :
    (n : List ℕ)
    → length n ≡ 32
    → All IsByte n
    → (length (printable_name n) ≡ 43)
      × (internal_name (printable_name n) ≡ (stat_from_int 32, some n))
unfolding printable_name internal_name
internal_name-printable_name n h bytes =
    let size = length-name_text n h in
    let whole : take 43 (name_text n) ≡ name_text n =
      ap (λ (k : ℕ). take k (name_text n)) (sym size) ∙ take_all (name_text n) in
    (rw (text_encodes n h) size, rw (text_encodes n h, size, whole, text_decodes n h bytes) refl)

-- What is printed for a name of 32 bytes is parsed as the name, whatever the directory and the
-- name root are: it is not looked up.
pub name_parse-printable_name :
    (dir : Directory) (n : List ℕ)
    → length n ≡ 32
    → All IsByte n
    → name_parse dir (printable_name n)
      ≡ record { stat = stat_from_int 32; gname = some n; xname = none }
unfolding name_parse
name_parse-printable_name dir n h bytes =
    let (size, back) = internal_name-printable_name n h bytes in rw (size, back) refl
