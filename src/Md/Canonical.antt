-- ===== src/Md/Canonical.antt =====
-- The parser on any input: what it accepts, and when it reads past the end.
use gdp.Base.{
  ℕ, zero, suc, ◌+◌, ◌*◌, ◌≤◌, ◌<◌, ◌≡◌, refl, arith, Option-cases, none, some, List, [], ◌∷◌, ◌++◌,
  length, inl, inr, ◌⊎◌, ◌↔◌,
}
use gdp.Wire.{get16, get32}
use gdp.Wire.RoundTrip.{get32_size, get32_short, get16_size}
use gdp.Md.{Metadatum, Md}
use gdp.Md.Serial.{get_headers, finish_parse, parse_counted, md_deserialize, overrun, put_headers}

-- What the headers of an input tell.
pub record HeadersRead (n : ℕ) (src : List ℕ) (ms : List Metadatum) (rest : List ℕ) : Type 0 where
  pub same : put_headers n ms ++ rest ≡ src
  pub count : length ms ≡ n
  pub size : length src ≡ 8 * n + length rest

get_headers_cases :
    (n : ℕ) (src : List ℕ)
    → ((get_headers n src ≡ none) × (length src < 8 * n))
      ⊎ ((o : List Metadatum × List ℕ) × (get_headers n src ≡ some o) × (8 * n ≤ length src))
unfolding get_headers
get_headers_cases zero src = inr (([], src), refl, omega arith)
get_headers_cases (suc n) src = elim (Option-cases (get32 src)) [
  | inl e ↦ inl (rw e, omega (arith, get32_short src e))
  | inr (a, e) ↦ elim (Option-cases (get32 a.1)) [
    | inl e' ↦ inl (rw (e, e'), omega (arith, get32_size src a.0 a.1 e, get32_short a.1 e'))
    | inr (b, e') ↦ elim (get_headers_cases n b.1) [
      | inl (g, l) ↦
          inl (rw (e, e', g), omega (arith, get32_size src a.0 a.1 e, get32_size a.1 b.0 b.1 e'))
      | inr (o, g, l) ↦ inr (
        (record { md_id = a.0; md_len = b.0; md_data = none; md_flags = 0 } ∷ o.0, o.1),
        rw (e, e', g),
        omega (arith, get32_size src a.0 a.1 e, get32_size a.1 b.0 b.1 e'),
      )
    ]
  ]
]

-- On an input that counts `n` entries the parser reads past the end of the input exactly when
-- `n` is not 0, room for one header follows the count, and room for `n` headers does not.
pub md_deserialize-overrun :
    (smd : List ℕ) (n : ℕ) (src : List ℕ)
    → get16 smd ≡ some (n, src)
    → (md_deserialize smd ≡ overrun) ↔ ((0 < n) × (10 ≤ length smd) × (length smd < 2 + 8 * n))
unfolding md_deserialize parse_counted finish_parse
md_deserialize-overrun smd n src e =
    let size = get16_size smd n src e in
    elim (get_headers_cases n src) [
      | inl (g, l) ↦ (λ o. ground arith, λ c. ground arith)
      | inr (o, g, l) ↦ (λ q. ground arith, λ c. absurd (omega arith))
    ]
