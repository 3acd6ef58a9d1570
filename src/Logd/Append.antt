-- ===== src/Logd/Append.antt =====
-- `cmd_append` of gdplogd/logd_proto.c, after the log is open. Numbers of records are the patterns of
-- 64 bits; the number of the last one is below 2^63.
use gdp.Base.{
  ℕ, suc, ◌^◌, Bool, true, false, not, ◌&&◌, ◌||◌, Option, none, some, List, [], ◌∷◌, if◌then◌else◌,
  ◌==◌, leb, bitset,
}
use gdp.Stat.{EpStat, stat_is_ok}
use gdp.Stat.Acknak.{acknak_from_estat, nak_s_internal}
use gdp.Datum.{Datum}
use gdp.Datum.Message.{PbDatum, datum_to_pb, datum_from_pb, empty_pb}
use gdp.Datum.Digest.{
  Crypto, SignGob, datum_vrfy_gob, crypto_no_pub_key, crypto_no_sig, crypto_vrfy_fail,
}
use gdp.Logd.{
  PhysImpl, LogGob, Reply, ack_success, nak_resp, recno_seq_error, record_duplicated, nak_badreq,
  nak_badopt, nak_c_badreq, nak_c_badopt, nak_c_forbidden, nak_c_conflict, forgive_log_gaps,
  forgive_log_dups, sig_mustverify, sig_required, sig_pubkeyreq,
}

-- `GdplogdForgive` and `GdpSignatureStrictness`.
pub record LogdConfig : Type 0 where
  pub forgive : ℕ
  pub strictness : ℕ

module _ (c : Crypto) (P : PhysImpl) (conf : LogdConfig) where
  -- The checks of the number of one record; `none` is that it passes.
  unfoldable pub check_recno : LogGob P → (recno : ℕ) → Option Reply
  check_recno log recno =
      if (recno == 0) || leb (2 ^ 63) recno
      then some (nak_resp nak_c_badopt nak_badopt none)
      else if recno == suc log.nrecs
      then none
      else if leb recno log.nrecs
      then if not (bitset forgive_log_dups conf.forgive) && P.recno_exists log.phys recno
        then some (nak_resp nak_c_conflict record_duplicated none)
        else none
      else if not (bitset forgive_log_gaps conf.forgive)
      then some (nak_resp nak_c_forbidden recno_seq_error none)
      else none

  -- The loop over the records, which steps over every second one: the first reply of a record that
  -- does not pass, or the record of the last turn.
  unfoldable pub check_recnos : LogGob P → PbDatum → List PbDatum → Option Reply × PbDatum
  check_recnos log pbd [] = (check_recno log pbd.recno, pbd)
  check_recnos log pbd (skipped ∷ []) = (check_recno log pbd.recno, pbd)
  check_recnos log pbd (skipped ∷ (next ∷ rest)) =
      let later = check_recnos log next rest in
      elim (check_recno log pbd.recno) [ none ↦ later | some reply ↦ (some reply, pbd) ]

  -- The checks of the signature: the status of a failure, or `none`.
  unfoldable pub fails_strictness : EpStat → SignGob → Bool
  fails_strictness estat gob =
      if estat == crypto_no_pub_key
      then bitset sig_pubkeyreq conf.strictness
      else if estat == crypto_no_sig
      then bitset sig_required conf.strictness
      else if estat == crypto_vrfy_fail
      then bitset sig_mustverify conf.strictness
      else false

  -- Then the second round: no key, no signature, or a verification. The outer `none` is a read through
  -- a null pointer.
  unfoldable pub check_again :
      EpStat → SignGob → Datum → (sig : Option (List ℕ)) → Option (Option EpStat × SignGob)
  check_again estat gob datum sig =
      let fail : Option (Option EpStat × SignGob) = some (some estat, gob) in
      let pass : Option (Option EpStat × SignGob) = some (none, gob) in
      if not gob.verifying
      then if bitset sig_pubkeyreq conf.strictness then fail else pass
      else elim sig [
        | none ↦ if bitset sig_required conf.strictness then fail else pass
        | some s ↦ elim (datum_vrfy_gob c datum gob).0 [
          | none ↦ none
          | some estat2 ↦
              some (if stat_is_ok estat2 then none else some estat2, (datum_vrfy_gob c datum gob).1)
        ]
      ]

  unfoldable pub check_sig :
      SignGob → Datum → (sig : Option (List ℕ)) → Option (Option EpStat × SignGob)
  check_sig gob datum sig =
      let (first, gob1) = datum_vrfy_gob c datum gob in
      elim first [
        | none ↦ none
        | some estat ↦
            if fails_strictness estat gob1
            then some (some estat, gob1)
            else check_again estat gob1 datum sig
      ]

  -- The datum of a turn of the later loops: it is filled in again where there are more records than
  -- one.
  abbrev pub refill : (many : Bool) → Datum → PbDatum → Datum
  refill many datum pbd = if many then datum_from_pb datum pbd pbd.sig else datum

  -- The loop that appends, which steps over every second record too: the status, the store, and the
  -- datum.
  unfoldable pub append_all :
      (many : Bool) → P.Store → Datum → PbDatum → List PbDatum → EpStat × P.Store × Datum
  append_all many s datum pbd [] =
      let d = refill many datum pbd in let out = P.append s d in (out.0, out.1, d)
  append_all many s datum pbd (skipped ∷ []) =
      let d = refill many datum pbd in let out = P.append s d in (out.0, out.1, d)
  append_all many s datum pbd (skipped ∷ (next ∷ rest)) =
      let d = refill many datum pbd in
      let out = P.append s d in
      let later = append_all many out.1 d next rest in
      if stat_is_ok out.0 then later else (out.0, out.1, d)

  -- The loop that tells the subscribers: the datums they get.
  unfoldable pub notify_all : (many : Bool) → Datum → PbDatum → List PbDatum → List PbDatum
  notify_all many datum pbd [] = datum_to_pb (refill many datum pbd) empty_pb ∷ []
  notify_all many datum pbd (skipped ∷ []) = datum_to_pb (refill many datum pbd) empty_pb ∷ []
  notify_all many datum pbd (skipped ∷ (next ∷ rest)) =
      let d = refill many datum pbd in
      let later = notify_all many d next rest in datum_to_pb d empty_pb ∷ later

  -- The part of `cmd_append` that changes the log, for a record and those behind it.
  unfoldable pub do_append :
      LogGob P → Datum → PbDatum → List PbDatum → LogGob P × Reply × List PbDatum
  do_append log datum pbd rest =
      let many : Bool = elim rest [ [] ↦ false | ◌∷◌ x xs ↦ true ] in
      let (estat, s, d) = append_all many (P.xact_begin log.phys) datum pbd rest in
      if stat_is_ok estat
      then (
        record { sign = log.sign; nrecs = suc log.nrecs; phys = P.xact_end s },
        ack_success (suc log.nrecs),
        notify_all many d pbd rest,
      )
      else (
        record { sign = log.sign; nrecs = log.nrecs; phys = P.xact_abort s },
        nak_resp (acknak_from_estat estat nak_s_internal) estat none,
        [],
      )

  -- `cmd_append`: the log, the answer, and what the subscribers get; `none` is a read through a null
  -- pointer. `new` is what `gdp_datum_new` gives.
  unfoldable pub cmd_append :
      LogGob P → (new : Datum) → List PbDatum → Option (LogGob P × Reply × List PbDatum)
  cmd_append log new [] = some (log, nak_resp nak_c_badreq nak_badreq none, [])
  cmd_append log new (pbd ∷ rest) =
      let (refused, last) = check_recnos log pbd rest in
      let datum = datum_from_pb new last last.sig in
      elim refused [
        | some reply ↦ some (log, reply, [])
        | none ↦ elim (check_sig log.sign datum last.sig) [
          | none ↦ none
          | some (failed, sign) ↦
              let log1 : LogGob P = record { sign = sign; nrecs = log.nrecs; phys = log.phys } in
              elim failed [
                | some estat ↦ some (log1, nak_resp nak_c_forbidden estat (some log.nrecs), [])
                | none ↦ some (do_append log1 datum pbd rest)
              ]
        ]
      ]
