-- ===== src/Tests/Text.antt =====
-- Three and four bytes in base 64.
use gdp.Base.{ℕ, ◌≡◌, refl, arith, none, some, List, [], ◌∷◌, length, All}
use gdp.Wire.RoundTrip.{IsByte}
use gdp.Stat.{stat_from_int}
use gdp.B64.{enc_mime, enc_url, encmaxline, enc_len, b64_encode, b64_decode}
use gdp.B64.Alphabet.{mime_IsEncoding}
use gdp.B64.RoundTrip.{b64_decode-b64_encode}

abbrev four_bytes : List ℕ
four_bytes = 1 ∷ 200 ∷ 77 ∷ 255 ∷ []

four_bytes-IsByte : All IsByte four_bytes
four_bytes-IsByte = omega arith

four_bytes_len : enc_len 4 enc_mime ≡ 8
unfolding enc_len encmaxline
four_bytes_len = refl

b64_decode-b64_encode_example :
    (txt : List ℕ) × (b64_encode four_bytes 9 enc_mime ≡ (stat_from_int (length txt), some txt))
    × (b64_decode txt 4 enc_mime ≡ (stat_from_int 4, some four_bytes))
b64_decode-b64_encode_example =
    b64_decode-b64_encode enc_mime four_bytes 9 4 mime_IsEncoding four_bytes-IsByte
      (omega (arith, four_bytes_len)) (omega arith)

url_no_wrap : encmaxline enc_url ≡ none
unfolding encmaxline
url_no_wrap = refl

mime_wraps : encmaxline enc_mime ≡ some 76
unfolding encmaxline
mime_wraps = refl
