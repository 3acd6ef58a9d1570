-- ===== src/Datum/Unique.antt =====
-- What the bytes of a digest say of a datum (`_gdp_datum_digest` of gdp/gdp_datum.c).
use gdp.Base.{ℕ, ◌^◌, ◌<◌, ◌≡◌, sym, ap, ◌∙◌, arith, Option, none, List, ◌++◌}
use gdp.Wire.Unique.{put32_injective, put64_injective}
use gdp.Datum.{Datum}
use gdp.Datum.Digest.{Crypto, bytes_of, datum_bytes}

-- The fields of a datum are patterns of their widths.
pub record IsDatum (d : Datum) : Type 0 where
  pub recno : d.recno < 2 ^ 64
  pub sec : d.ts.tv_sec < 2 ^ 64
  pub nsec : d.ts.tv_nsec < 2 ^ 32
  pub accuracy : d.ts.tv_accuracy < 2 ^ 32

-- Two datums without a hash of the record before, and with the same bytes for a digest, have the same
-- number and time, and the hashes of their contents are the same.
pub datum_bytes_injective :
    (c : Crypto) (alg : ℕ) (a b : Datum)
    → IsDatum a
    → IsDatum b
    → a.prevhash ≡ none
    → b.prevhash ≡ none
    → datum_bytes c alg a ≡ datum_bytes c alg b
    → (a.recno ≡ b.recno)
      × (a.ts.tv_sec ≡ b.ts.tv_sec)
      × (a.ts.tv_nsec ≡ b.ts.tv_nsec)
      × (a.ts.tv_accuracy ≡ b.ts.tv_accuracy)
      × (c.hash alg (bytes_of a.dbuf) ≡ c.hash alg (bytes_of b.dbuf))
unfolding datum_bytes
datum_bytes_injective c alg a b wa wb na nb e =
    let (recno, t1) = put64_injective _ _ _ _ wa.recno wb.recno e in
    let (sec, t2) = put64_injective _ _ _ _ wa.sec wb.sec t1 in
    let (nsec, t3) = put32_injective _ _ _ _ t2 in
    let (accuracy, t4) = put32_injective _ _ _ _ t3 in
    let front : (d : Datum)
        → d.prevhash ≡ none
        → bytes_of d.prevhash ++ c.hash alg (bytes_of d.dbuf) ≡ c.hash alg (bytes_of d.dbuf) =
      λ d n. ap (λ (o : Option (List ℕ)). bytes_of o ++ c.hash alg (bytes_of d.dbuf)) n in
    (
      recno,
      sec,
      omega (arith, nsec, wa.nsec, wb.nsec),
      omega (arith, accuracy, wa.accuracy, wb.accuracy),
      sym (front a na) ∙ t4 ∙ front b nb,
    )
