-- ===== src/Logd/Batch.antt =====
-- Appending several records with one command (`cmd_append` of gdplogd/logd_proto.c).
use gdp.Base.{
  ==_self, ℕ, suc, ◌+◌, ◌^◌, ◌<◌, ◌≡◌, refl, ap, ◌∙◌, arith, true, false, ◌||◌, none, some, List,
  [], ◌∷◌, ◌++◌, ◌==◌, leb, bitset,
}
use gdp.Stat.{stat_is_ok}
use gdp.Datum.{Datum}
use gdp.Datum.Message.{PbDatum, empty_pb, datum_to_pb, datum_from_pb}
use gdp.Datum.Digest.{Crypto, SignGob}
use gdp.Logd.{
  PhysImpl, LogGob, Reply, ack_success, nak_resp, has_recno, nak_c_forbidden, recno_seq_error,
  forgive_log_gaps,
}
use gdp.Logd.Append.{
  LogdConfig, check_recno, check_recnos, check_sig, append_all, notify_all, do_append, cmd_append,
}

module _ (c : Crypto) (P : PhysImpl) (conf : LogdConfig) where
  pub check_recno_passes :
      (log : LogGob P) (recno : ℕ)
      → suc log.nrecs < 2 ^ 63
      → recno ≡ suc log.nrecs
      → check_recno c P conf log recno ≡ none
  unfolding check_recno
  check_recno_passes log recno l n =
      let z : ((recno == 0) || leb (2 ^ 63) recno) ≡ false = ground (arith, l, n) in
      let e : (recno == suc log.nrecs) ≡ true = rw (n, ==_self (suc log.nrecs)) refl in
      rw (check_recno, z, e) refl

  check_recno_gap :
      (log : LogGob P) (recno : ℕ)
      → suc log.nrecs < recno
      → recno < 2 ^ 63
      → bitset forgive_log_gaps conf.forgive ≡ false
      → check_recno c P conf log recno ≡ some (nak_resp nak_c_forbidden recno_seq_error none)
  unfolding check_recno
  check_recno_gap log recno a b g =
      let z : ((recno == 0) || leb (2 ^ 63) recno) ≡ false = ground (arith, a, b) in
      let e : (recno == suc log.nrecs) ≡ false = ground (arith, a) in
      let l : leb recno log.nrecs ≡ false = ground (arith, a) in rw (check_recno, z, e, l, g) refl

  first_refused :
      (log : LogGob P) (p : PbDatum) (rest : List PbDatum) (reply : Reply)
      → check_recno c P conf log p.recno ≡ some reply
      → (check_recnos c P conf log p rest).0 ≡ some reply
  unfolding check_recnos
  first_refused log p [] reply e = e
  first_refused log p (q ∷ []) reply e = e
  first_refused log p (q ∷ (r ∷ rest)) reply e = rw (check_recnos, e) refl

  -- Three records or more, the first three of which have the next three numbers, are all refused for
  -- a gap in the numbers, unless gaps are forgiven: nothing is stored.
  pub cmd_append_refused :
      (log : LogGob P) (new : Datum) (p q r : PbDatum) (rest : List PbDatum)
      → 3 + log.nrecs < 2 ^ 63
      → p.recno ≡ suc log.nrecs
      → r.recno ≡ 3 + log.nrecs
      → bitset forgive_log_gaps conf.forgive ≡ false
      → cmd_append c P conf log new (p ∷ (q ∷ (r ∷ rest)))
        ≡ some (log, nak_resp nak_c_forbidden recno_seq_error none, [])
  unfolding cmd_append check_recnos
  cmd_append_refused log new p q r rest l ep er g =
      let first = check_recno_passes log p.recno (omega (arith, l)) ep in
      let third = check_recno_gap log r.recno (omega (arith, er)) (omega (arith, er, l)) g in
      let gap : (check_recnos c P conf log r rest).0
          ≡ some (nak_resp nak_c_forbidden recno_seq_error none) =
        first_refused log r rest _ third in
      rw (cmd_append, check_recnos, first, gap) refl

  pair_done :
      (log : LogGob P) (d : Datum) (p q : PbDatum)
      → stat_is_ok (P.append (P.xact_begin log.phys) (datum_from_pb d p p.sig)).0 ≡ true
      → do_append c P conf log d p (q ∷ []) ≡ (
        record {
          sign = log.sign;
          nrecs = suc log.nrecs;
          phys = P.xact_end (P.append (P.xact_begin log.phys) (datum_from_pb d p p.sig)).1;
        },
        ack_success (suc log.nrecs),
        datum_to_pb (datum_from_pb (datum_from_pb d p p.sig) p p.sig) empty_pb ∷ [],
      )
  unfolding do_append append_all notify_all
  pair_done log d p q o = rw (do_append, append_all, notify_all, o) refl

  -- Of two records, the first of which has the next number, a signature that passes, and room in the
  -- physical layer, only the first is stored, with its content twice; the answer is an
  -- acknowledgement of one record.
  pub cmd_append_pair :
      (log : LogGob P) (new : Datum) (p q : PbDatum) (sign : SignGob)
      → suc log.nrecs < 2 ^ 63
      → p.recno ≡ suc log.nrecs
      → new.dbuf ≡ some []
      → has_recno (suc log.nrecs) (P.contents log.phys) ≡ false
      → check_sig c P conf log.sign (datum_from_pb new p p.sig) p.sig ≡ some (none, sign)
      → stat_is_ok
          (P.append (P.xact_begin log.phys) (datum_from_pb (datum_from_pb new p p.sig) p p.sig)).0
        ≡ true
      → (log' : LogGob P) × (told : List PbDatum) × (stored : Datum) × (cmd_append c P conf log new
            (p ∷ (q ∷ []))
          ≡ some (log', ack_success (suc log.nrecs), told))
        × (P.contents log'.phys ≡ P.contents log.phys ++ (stored ∷ []))
        × (stored.recno ≡ suc log.nrecs)
        × (stored.dbuf ≡ some (p.content ++ p.content))
        × (log'.nrecs ≡ suc log.nrecs)
  unfolding cmd_append check_recnos datum_from_pb
  cmd_append_pair log new p q sign l n fresh free s o =
      let d1 = datum_from_pb new p p.sig in
      let d2 = datum_from_pb d1 p p.sig in
      let s0 = P.xact_begin log.phys in
      let log1 : LogGob P = record { sign = sign; nrecs = log.nrecs; phys = log.phys } in
      let passes = check_recno_passes log p.recno l n in
      let free0 : has_recno p.recno (P.contents s0) ≡ false =
        ap (λ r. has_recno r (P.contents s0)) n
        ∙ ap (λ ds. has_recno (suc log.nrecs) ds) (P.begin_lem log.phys)
        ∙ free in
      (
        record { sign = sign; nrecs = suc log.nrecs; phys = P.xact_end (P.append s0 d2).1 },
        datum_to_pb (datum_from_pb d2 p p.sig) empty_pb ∷ [],
        d2,
        rw (cmd_append, check_recnos, passes, s) (ap some (pair_done log1 d1 p q o)),
        P.end_lem (P.append s0 d2).1
            ∙ P.append_lem s0 d2 free0 o
            ∙ ap (λ ds. ds ++ (d2 ∷ [])) (P.begin_lem log.phys),
        n,
        rw fresh refl,
        refl,
      )
