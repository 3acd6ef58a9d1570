-- ===== src/Datum/Verify.antt =====
-- Signatures that are made on one side and verified on the other (gdp/gdp_datum.c).
use gdp.Base.{ℕ, ◌≡◌, refl, sym, ap, ◌∙◌, true, Option, none, some, List, ◌++◌}
use gdp.Wire.{put32, put64}
use gdp.Stat.{EpStat, stat_ok}
use gdp.Datum.{Stamp, Datum}
use gdp.Datum.Message.{Protobuf}
use gdp.Datum.Digest.{
  bytes_of, Crypto, MdCtx, SignGob, datum_bytes, datum_digest, datum_sign, datum_vrfy_gob,
  with_vrfy_ctx, init_vrfy_ctx, vrfy_with,
}
use gdp.Datum.RoundTrip.{receive, receive_fields, IsSendable}

-- The bytes of a datum in terms of its fields.
same_bytes :
    (c : Crypto) (alg : ℕ) (a b : Datum)
    → a.recno ≡ b.recno
    → a.ts ≡ b.ts
    → bytes_of a.dbuf ≡ bytes_of b.dbuf
    → a.prevhash ≡ b.prevhash
    → datum_bytes c alg a ≡ datum_bytes c alg b
unfolding datum_bytes
same_bytes c alg a b r t d p =
    let f : ℕ → Stamp → List ℕ → Option (List ℕ) → List ℕ = λ recno ts dbuf prevhash.
      put64 recno
      ++ (put64 ts.tv_sec
          ++ (put32 ts.tv_nsec
              ++ (put32 ts.tv_accuracy ++ (bytes_of prevhash ++ c.hash alg dbuf)))) in
    ap (λ x. f x a.ts (bytes_of a.dbuf) a.prevhash) r
    ∙ ap (λ x. f b.recno x (bytes_of a.dbuf) a.prevhash) t
    ∙ ap (λ x. f b.recno b.ts x a.prevhash) d
    ∙ ap (λ x. f b.recno b.ts (bytes_of b.dbuf) x) p

pub ready :
    (c : Crypto) (gob : SignGob) (md : MdCtx)
    → gob.vrfy_ctx ≡ some md
    → with_vrfy_ctx c gob ≡ (stat_ok, gob)
unfolding with_vrfy_ctx
ready c gob md t =
    ap
      (λ (x : Option MdCtx). elim x as (λ y. EpStat × SignGob) [
        | none ↦ init_vrfy_ctx c gob
        | some ctx ↦ (stat_ok, gob)
      ])
      t

verified :
    (c : Crypto) (datum : Datum) (to : SignGob) (md : MdCtx) (sig : List ℕ)
    → to.vrfy_ctx ≡ some md
    → to.verifying ≡ true
    → datum.sig ≡ some sig
    → c.vrfy_final (datum_digest c datum md) sig ≡ stat_ok
    → datum_vrfy_gob c datum to ≡ (some stat_ok, to)
unfolding datum_vrfy_gob vrfy_with
verified c datum to md sig t v g good =
    ap (λ w. (vrfy_with c datum w.0 w.1, w.1)) (ready c to md t)
    ∙ ap (λ w. (w, to)) (rw (vrfy_with, v, t, g, good) refl)

-- A datum that was signed with the context of one side, and sent, verifies on the other, where the key
-- there is the other one of the pair and the heads are the same.
pub vrfy-sign :
    (c : Crypto) (p : Protobuf) (datum old : Datum) (from to : SignGob)
    → (alg : ℕ) (skey pkey head sig : List ℕ) → IsSendable datum.ts
    → datum.prevhash ≡ old.prevhash
    → c.IsPair skey pkey
    → from.sign_ctx ≡ some (record { alg = alg; key = skey; bytes = head })
    → to.vrfy_ctx ≡ some (record { alg = alg; key = pkey; bytes = head })
    → to.verifying ≡ true
    → c.sign_final (datum_digest c datum (record { alg = alg; key = skey; bytes = head }))
      ≡ (stat_ok, sig)
    → ((datum_sign c datum from).0 ≡ stat_ok)
      × (datum_vrfy_gob c (receive p (datum_sign c datum from).1 old) to ≡ (some stat_ok, to))
unfolding datum_sign
vrfy-sign c p datum old from to alg skey pkey head sig ok prev pair f t v s =
    let signed : Datum = record datum { sig = some sig } in
    let (r, ts, d, h, g) = receive_fields p signed old ok in
    let bytes : datum_bytes c alg (receive p signed old) ≡ datum_bytes c alg datum =
      same_bytes c alg (receive p signed old) datum r ts (ap bytes_of d) (h ∙ sym prev) in
    let made : datum_sign c datum from ≡ (stat_ok, signed) = rw (datum_sign, f, s) refl in
    let good : c.vrfy_final
          (datum_digest c (receive p signed old) (record { alg = alg; key = pkey; bytes = head }))
          sig
        ≡ stat_ok =
      rw bytes (c.verifies alg skey pkey (head ++ datum_bytes c alg datum) sig pair s) in
    (
      ap (λ x. x.0) made,
      ap (λ x. datum_vrfy_gob c (receive p x.1 old) to) made
          ∙ verified c (receive p signed old) to _ sig t v g good,
    )
