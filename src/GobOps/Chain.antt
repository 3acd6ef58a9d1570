-- ===== src/GobOps/Chain.antt =====
-- The chain of hashes that `append_common` of gdp/gdp_gob_ops.c makes.
use gdp.Base.{
  ℕ, suc, ◌+◌, ◌≡◌, refl, ap, ◌∙◌, Bool, true, false, not, Option, none, some, List, [], ◌∷◌, All,
  if◌then◌else◌, length, Bool-cases, Option-cases, inl, inr,
}
use gdp.Stat.{EpStat, stat_is_ok}
use gdp.Datum.{Stamp, Datum, time_is_valid}
use gdp.Datum.Digest.{Crypto, SignGob, MdCtx, datum_digest, datum_hash, datum_sign}
use gdp.Datum.Verify.{ready}
use gdp.GobOps.{
  log_not_open, datum_required, AppendGob, datum_is_good, map_to_pb, linked_datum, link_datums,
  sign_last, append_common,
}

module _ (c : Crypto) (md : MdCtx) where
  abbrev pub hash_of : Datum → List ℕ
  hash_of d = c.hash md.alg (datum_digest c d md).bytes

  -- The records are numbered after `n`, have valid times, and each has the hash of the one before.
  abbrev pub IsChain : ℕ → Option (List ℕ) → List Datum → Type 0
  IsChain n prevhash [] = Unit
  IsChain n prevhash (d ∷ ds) =
      (d.recno ≡ suc n)
      × (d.prevhash ≡ prevhash)
      × (time_is_valid d.ts ≡ true)
      × IsChain (suc n) (some (hash_of d)) ds

  pub hash_ready :
      (d : Datum) (gob : SignGob) → gob.vrfy_ctx ≡ some md → datum_hash c d gob ≡ (hash_of d, gob)
  unfolding datum_hash
  hash_ready d gob t =
      ap
        (λ (w : EpStat × SignGob). elim w.1.vrfy_ctx as (λ x. List ℕ × SignGob) [
          | none ↦ ([], w.1)
          | some m ↦ (c.hash m.alg (datum_digest c d m).bytes, w.1)
        ])
        (ready c gob md t)
      ∙ ap
          (λ (o : Option MdCtx). elim o as (λ x. List ℕ × SignGob) [
            | none ↦ ([], gob)
            | some m ↦ (c.hash m.alg (datum_digest c d m).bytes, gob)
          ])
          t

  signed :
      (d : Datum) (gob : SignGob)
      → (sig : Option (List ℕ)) × ((datum_sign c d gob).1 ≡ record d { sig = sig })
  unfolding datum_sign
  signed d gob = elim (Option-cases gob.sign_ctx) [
    | inl n ↦ (d.sig, rw (datum_sign, n) refl)
    | inr (ctx, n) ↦
        let out = c.sign_final (datum_digest c d ctx) in
        elim (Bool-cases (stat_is_ok out.0)) [
          | inl o ↦ (some out.1, rw (datum_sign, n, o) refl)
          | inr o ↦ (d.sig, rw (datum_sign, n, o) refl)
        ]
  ]

  module _ (clock : ℕ → Stamp) (ticks : (n : ℕ) → time_is_valid (clock n) ≡ true) where
    valid :
        (d : Datum) (n : ℕ) → time_is_valid (if time_is_valid d.ts then d.ts else clock n) ≡ true
    valid d n = elim (Bool-cases (time_is_valid d.ts)) [
      | inl v ↦ rw (v, v) refl
      | inr v ↦ rw v (ticks n)
    ]

    link_datums-IsChain :
        (gob : SignGob) (n : ℕ) (prevhash : Option (List ℕ)) (ds : List Datum)
        → gob.vrfy_ctx ≡ some md
        → All (λ (d : Datum). datum_is_good d ≡ true) ds
        → (ds1 : List Datum) × (link_datums c clock gob (suc n) prevhash ds ≡ (true, gob, ds1))
          × IsChain n prevhash ds1
          × (length ds1 ≡ length ds)
    unfolding link_datums linked_datum
    link_datums-IsChain gob n prevhash [] t good = ([], refl, tt, refl)
    link_datums-IsChain gob n prevhash (d ∷ ds) t (g, gs) =
        let d1 = linked_datum c clock d (suc n) prevhash in
        let (rest, e, ok, len) = link_datums-IsChain gob (suc n) (some (hash_of d1)) ds t gs in
        let whole : link_datums c clock gob (suc n) prevhash (d ∷ ds) ≡ (true, gob, d1 ∷ rest) =
          ap
            (λ (h : List ℕ × SignGob).
              let r = link_datums c clock h.1 (suc (suc n)) (some h.0) ds in
              if not (datum_is_good d) then (false, gob, d ∷ ds) else (r.0, r.1, d1 ∷ r.2))
            (hash_ready d1 gob t)
          ∙ ap
              (λ (r : Bool × SignGob × List Datum).
                if not (datum_is_good d) then (false, gob, d ∷ ds) else (r.0, r.1, d1 ∷ r.2))
              e
          ∙ rw g refl in
        (d1 ∷ rest, whole, (refl, refl, valid d (suc n), ok), ap suc len)

    sign_last-IsChain :
        (gob : SignGob) (n : ℕ) (prevhash : Option (List ℕ)) (ds : List Datum)
        → IsChain n prevhash ds
        → IsChain n prevhash (sign_last c clock gob ds)
          × (length (sign_last c clock gob ds) ≡ length ds)
    unfolding sign_last
    sign_last-IsChain gob n prevhash [] ok = (tt, refl)
    sign_last-IsChain gob n prevhash (d ∷ []) (r, p, v, ok) =
        let (sig, e) = signed d gob in
        (
          (
            ap (λ (x : Datum). x.recno) e ∙ r,
            ap (λ (x : Datum). x.prevhash) e ∙ p,
            ap (λ (x : Datum). time_is_valid x.ts) e ∙ v,
            tt,
          ),
          refl,
        )
    sign_last-IsChain gob n prevhash (d ∷ (e ∷ ds)) (r, p, v, ok) =
        let (rest, len) = sign_last-IsChain gob (suc n) (some (hash_of d)) (e ∷ ds) ok in
        ((r, p, v, rest), ap suc len)

    pub append_common_result :
        (gob : AppendGob) (d : Datum) (ds : List Datum) (prevhash : Option (List ℕ))
        → (req_stat : EpStat) (ds1 ds2 : List Datum) → gob.is_good ≡ true
        → link_datums c clock gob.sign (suc gob.nrecs) prevhash (d ∷ ds) ≡ (true, gob.sign, ds1)
        → (if gob.signing then sign_last c clock gob.sign ds1 else ds1) ≡ ds2
        → stat_is_ok req_stat ≡ true
        → append_common c clock gob (d ∷ ds) prevhash req_stat
          ≡ (req_stat, record gob { nrecs = gob.nrecs + length ds2 }, ds2, map_to_pb ds2)
    unfolding append_common
    append_common_result gob d ds prevhash req_stat ds1 ds2 g e s ok =
        ap
          (λ (r : Bool × SignGob × List Datum).
            let ds2 = if gob.signing then sign_last c clock r.1 r.2 else r.2 in
            if not gob.is_good
            then (log_not_open, gob, d ∷ ds, [])
            else if not r.0
            then (datum_required, record gob { sign = r.1 }, r.2, [])
            else if not (stat_is_ok req_stat)
            then (req_stat, record gob { sign = r.1 }, ds2, [])
            else (
              req_stat,
              record gob { sign = r.1; nrecs = gob.nrecs + length ds2 },
              ds2,
              map_to_pb ds2,
            ))
          e
        ∙ ap
            (λ (xs : List Datum).
              if not gob.is_good
              then (log_not_open, gob, d ∷ ds, [])
              else if not (stat_is_ok req_stat)
              then (req_stat, gob, xs, [])
              else (req_stat, record gob { nrecs = gob.nrecs + length xs }, xs, map_to_pb xs))
            s
        ∙ ap
            (λ (b : Bool).
              if not b
              then (log_not_open, gob, d ∷ ds, [])
              else if not (stat_is_ok req_stat)
              then (req_stat, gob, ds2, [])
              else (req_stat, record gob { nrecs = gob.nrecs + length ds2 }, ds2, map_to_pb ds2))
            g
        ∙ ap
            (λ (b : Bool).
              if not b
              then (req_stat, gob, ds2, [])
              else (req_stat, record gob { nrecs = gob.nrecs + length ds2 }, ds2, map_to_pb ds2))
            ok

    -- Datums that are in use and have a buffer are appended to an open object whose context for
    -- verification is there, where a request can be made: the records in the message are numbered after
    -- the object's last one, have valid times, and each has the hash of the one before it, the first
    -- one the given hash; the object's number of records is raised by theirs.
    pub append_common-IsChain :
        (gob : AppendGob) (d : Datum) (ds : List Datum) (prevhash : Option (List ℕ))
        → (req_stat : EpStat) → gob.is_good ≡ true
        → gob.sign.vrfy_ctx ≡ some md
        → All (λ (x : Datum). datum_is_good x ≡ true) (d ∷ ds)
        → stat_is_ok req_stat ≡ true
        → (ds' : List Datum) × (append_common c clock gob (d ∷ ds) prevhash req_stat
            ≡ (req_stat, record gob { nrecs = gob.nrecs + length ds' }, ds', map_to_pb ds'))
          × IsChain gob.nrecs prevhash ds'
          × (length ds' ≡ length (d ∷ ds))
    unfolding append_common
    append_common-IsChain gob d ds prevhash req_stat g t good ok =
        let (ds1, e, chain, len) =
          link_datums-IsChain gob.sign gob.nrecs prevhash (d ∷ ds) t good in
        elim (Bool-cases gob.signing) [
          | inl s ↦
              let (chain2, len2) = sign_last-IsChain gob.sign gob.nrecs prevhash ds1 chain in
              (
                sign_last c clock gob.sign ds1,
                append_common_result gob d ds prevhash req_stat ds1 (sign_last c clock gob.sign ds1)
                    g e (rw s refl) ok,
                chain2,
                len2 ∙ len,
              )
          | inr s ↦ (
            ds1,
            append_common_result gob d ds prevhash req_stat ds1 ds1 g e (rw s refl) ok,
            chain,
            len,
          )
        ]
