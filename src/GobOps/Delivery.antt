-- ===== src/GobOps/Delivery.antt =====
-- From the client's `append_common` (gdp/gdp_gob_ops.c) to the daemon's `cmd_append`
-- (gdplogd/logd_proto.c).
use gdp.Base.{
  ℕ, suc, ◌+◌, ◌^◌, ◌<◌, ◌≡◌, refl, sym, ap, ◌∙◌, arith, Bool, true, false, not, Option, none, some,
  List, [], ◌∷◌, All, if◌then◌else◌, length, bitset,
}
use mathlib.Core.Path.{subst}
use gdp.Stat.{EpStat, stat_ok, stat_is_ok}
use gdp.Datum.{Stamp, Datum, datum_reset, time_is_valid}
use gdp.Datum.Message.{PbDatum, Protobuf, datum_to_pb, datum_from_pb, empty_pb}
use gdp.Datum.Digest.{Crypto, SignGob, MdCtx, datum_digest, datum_sign, datum_vrfy_gob}
use gdp.Datum.RoundTrip.{receive, IsSendable}
use gdp.Datum.Verify.{vrfy-sign}
use gdp.GobOps.{
  AppendGob, datum_is_good, map_to_pb, linked_datum, append_common, sign_last, link_datums,
}
use gdp.GobOps.Chain.{IsChain, append_common-IsChain, append_common_result, hash_ready}
use gdp.Logd.{
  PhysImpl, LogGob, ack_success, nak_resp, nak_c_forbidden, recno_seq_error, forgive_log_gaps,
  sig_pubkeyreq,
}
use gdp.Logd.Append.{
  LogdConfig, check_recnos, fails_strictness, check_again, check_sig, do_append, cmd_append,
}
use gdp.Logd.Batch.{cmd_append_refused, check_recno_passes}
use gdp.Logd.Single.{IsLog, IsStored, do_append-IsStored}

pub transfer_all : Protobuf → List PbDatum → List PbDatum
transfer_all p [] = []
transfer_all p (d ∷ ds) = p.transfer d ∷ transfer_all p ds

module _ (c : Crypto) (p : Protobuf) (P : PhysImpl) (conf : LogdConfig) where
  sent_recno : (d : Datum) → (p.transfer (datum_to_pb d empty_pb)).recno ≡ d.recno
  unfolding datum_to_pb
  sent_recno d = rw (p.transfer_lem (datum_to_pb d empty_pb)) refl

  sent_sig : (d : Datum) → (p.transfer (datum_to_pb d empty_pb)).sig ≡ d.sig
  unfolding datum_to_pb
  sent_sig d = rw (p.transfer_lem (datum_to_pb d empty_pb)) refl

  received_recno : (d old : Datum) → (receive p d old).recno ≡ d.recno
  unfolding datum_from_pb
  received_recno d old = sent_recno d

  chain_refused :
      (md : MdCtx) (log : LogGob P) (new : Datum) (prevhash : Option (List ℕ)) (ds : List Datum)
      → IsChain c md log.nrecs prevhash ds
      → 2 < length ds
      → 3 + log.nrecs < 2 ^ 63
      → bitset forgive_log_gaps conf.forgive ≡ false
      → cmd_append c P conf log new (transfer_all p (map_to_pb ds))
        ≡ some (log, nak_resp nak_c_forbidden recno_seq_error none, [])
  unfolding transfer_all map_to_pb
  chain_refused md log new prevhash [] ok l h g = absurd (omega (arith, l))
  chain_refused md log new prevhash (x ∷ []) ok l h g = absurd (omega (arith, l))
  chain_refused md log new prevhash (x ∷ (y ∷ [])) ok l h g = absurd (omega (arith, l))
  chain_refused md log new prevhash (x ∷ (y ∷ (z ∷ rest)))
        (rx, px, vx, (ry, py, vy, (rz, pz, vz, ok))) l h g =
      cmd_append_refused c P conf log new _ _ _ _ h (sent_recno x ∙ rx)
        (sent_recno z ∙ rz ∙ omega arith) g

  -- Three good datums or more that a client appends with one call to an open object, whose last number is
  -- the daemon's, are all refused by the daemon, unless it forgives gaps, and the client counts them.
  pub append_common-cmd_append_refused :
      (md : MdCtx) (clock : ℕ → Stamp) (gob : AppendGob) (d e f : Datum) (ds : List Datum)
      → (prevhash : Option (List ℕ)) (req_stat : EpStat) (log : LogGob P) (new : Datum)
      → ((n : ℕ) → time_is_valid (clock n) ≡ true)
      → gob.is_good ≡ true
      → gob.sign.vrfy_ctx ≡ some md
      → All (λ (x : Datum). datum_is_good x ≡ true) (d ∷ (e ∷ (f ∷ ds)))
      → stat_is_ok req_stat ≡ true
      → gob.nrecs ≡ log.nrecs
      → 3 + log.nrecs < 2 ^ 63
      → bitset forgive_log_gaps conf.forgive ≡ false
      → let out = append_common c clock gob (d ∷ (e ∷ (f ∷ ds))) prevhash req_stat in
        (out.1.nrecs ≡ 3 + log.nrecs + length ds)
        × (cmd_append c P conf log new (transfer_all p out.3)
            ≡ some (log, nak_resp nak_c_forbidden recno_seq_error none, []))
  append_common-cmd_append_refused md clock gob d e f ds prevhash req_stat log new ticks good t all
        ok same h g =
      let (ds', made, chain, len) =
        append_common-IsChain c md clock ticks gob d (e ∷ (f ∷ ds)) prevhash req_stat good t all
          ok in
      (
        ap (λ out. out.1.nrecs) made ∙ omega (arith, len, same),
        ap (λ out. cmd_append c P conf log new (transfer_all p out.3)) made
            ∙ chain_refused md log new prevhash ds'
                (subst (λ n. IsChain c md n prevhash ds') same chain) (omega (arith, len)) h g,
      )

  check_sig_passes :
      (sign : SignGob) (d : Datum) (sig : List ℕ)
      → sign.verifying ≡ true
      → datum_vrfy_gob c d sign ≡ (some stat_ok, sign)
      → check_sig c P conf sign d (some sig) ≡ some (none, sign)
  unfolding check_sig fails_strictness check_again
  check_sig_passes sign d sig v e =
      ap
        (λ (r : Option EpStat × SignGob). elim r.0 as (λ x. Option (Option EpStat × SignGob)) [
          | none ↦ none
          | some estat ↦
              if fails_strictness c P conf estat r.1
              then some (some estat, r.1)
              else check_again c P conf estat r.1 d (some sig)
        ])
        e
      ∙ ap
          (λ (b : Bool).
            if not b
            then (if bitset sig_pubkeyreq conf.strictness
                then some (some stat_ok, sign)
                else some (none, sign))
            else elim (datum_vrfy_gob c d sign).0 [
              | none ↦ none
              | some estat2 ↦
                  some
                    (if stat_is_ok estat2 then none else some estat2, (datum_vrfy_gob c d sign).1)
            ])
          v
      ∙ ap
          (λ (r : Option EpStat × SignGob). elim r.0 as (λ x. Option (Option EpStat × SignGob)) [
            | none ↦ none
            | some estat2 ↦ some (if stat_is_ok estat2 then none else some estat2, r.1)
          ])
          e

  -- What the daemon stores of a record that a client signed and sent.
  record_kept :
      (log : LogGob P) (old d : Datum) (sig : List ℕ)
      → IsLog P log
      → suc log.nrecs < 2 ^ 63
      → d.recno ≡ suc log.nrecs
      → d.sig ≡ some sig
      → log.sign.verifying ≡ true
      → datum_vrfy_gob c (receive p d old) log.sign ≡ (some stat_ok, log.sign)
      → stat_is_ok (P.append (P.xact_begin log.phys) (receive p d old)).0 ≡ true
      → let new : Datum = record (datum_reset old) { inuse = true } in
        (log' : LogGob P) × (told : List PbDatum) × (cmd_append c P conf log new
            (p.transfer (datum_to_pb d empty_pb) ∷ [])
          ≡ some (log', ack_success (suc log.nrecs), told))
        × IsStored c P conf log (receive p d old) log'
  unfolding cmd_append check_recnos
  record_kept log old d sig ok h n s v e o =
      let pbd = p.transfer (datum_to_pb d empty_pb) in
      let r = check_recno_passes c P conf log pbd.recno h (sent_recno d ∙ n) in
      let signed : pbd.sig ≡ some sig = sent_sig d ∙ s in
      let passes : check_sig c P conf log.sign (receive p d old) pbd.sig ≡ some (none, log.sign) =
        ap (check_sig c P conf log.sign (receive p d old)) signed
        ∙ check_sig_passes log.sign (receive p d old) sig v e in
      let (stored, reply, told) =
        do_append-IsStored c P conf log (receive p d old) pbd ok (received_recno d old ∙ n) o in
      let out = do_append c P conf log (receive p d old) pbd [] in
      (
        out.0,
        out.2,
        rw (cmd_append, check_recnos, r, passes) (ap (λ t. some (out.0, t, out.2)) reply),
        stored,
      )

  link_one :
      (md : MdCtx) (clock : ℕ → Stamp) (gob : SignGob) (recno : ℕ) (d : Datum)
      → gob.vrfy_ctx ≡ some md
      → datum_is_good d ≡ true
      → link_datums c clock gob recno none (d ∷ [])
        ≡ (true, gob, linked_datum c clock d recno none ∷ [])
  unfolding link_datums
  link_one md clock gob recno d t g =
      let d1 = linked_datum c clock d recno none in
      ap
        (λ (h : List ℕ × SignGob).
          if not (datum_is_good d) then (false, gob, d ∷ []) else (true, h.1, d1 ∷ []))
        (hash_ready c md d1 gob t)
      ∙ rw g refl

  -- A good datum is appended alone, without the hash of a record before, to an open object that signs and
  -- whose context for verification is there, at a clock that gives valid times, where the request can be
  -- made; its time is valid and its accuracy is not minus zero; signing succeeds. The daemon's log has
  -- the records 1 to its last number, which is the client's and stays below 2^63; the daemon verifies with
  -- the other key of the pair over the same first bytes; its new datum has no hash left in its memory;
  -- and the physical layer takes records. Then the record is stored, behind the others, and acknowledged
  -- with its number; the log has the records 1 to its last number then.
  pub append_common-cmd_append :
      (md : MdCtx) (clock : ℕ → Stamp) (gob : AppendGob) (d old : Datum) (req_stat : EpStat)
      → (log : LogGob P) (alg : ℕ) (skey pkey head sig : List ℕ)
      → ((n : ℕ) → time_is_valid (clock n) ≡ true)
      → gob.is_good ≡ true
      → gob.signing ≡ true
      → gob.sign.vrfy_ctx ≡ some md
      → datum_is_good d ≡ true
      → stat_is_ok req_stat ≡ true
      → gob.nrecs ≡ log.nrecs
      → suc log.nrecs < 2 ^ 63
      → IsLog P log
      → IsSendable (linked_datum c clock d (suc gob.nrecs) none).ts
      → none ≡ old.prevhash
      → c.IsPair skey pkey
      → gob.sign.sign_ctx ≡ some (record { alg = alg; key = skey; bytes = head })
      → log.sign.vrfy_ctx ≡ some (record { alg = alg; key = pkey; bytes = head })
      → log.sign.verifying ≡ true
      → c.sign_final (
          datum_digest c
            (linked_datum c clock d (suc gob.nrecs) none)
            (record { alg = alg; key = skey; bytes = head }))
        ≡ (stat_ok, sig)
      → ((x : Datum) → stat_is_ok (P.append (P.xact_begin log.phys) x).0 ≡ true)
      → let new : Datum = record (datum_reset old) { inuse = true } in
        let signed : Datum = record (linked_datum c clock d (suc gob.nrecs) none) {
          sig = some sig;
        } in
        (log' : LogGob P) × (told : List PbDatum) × (cmd_append c P conf log new
            (transfer_all p (append_common c clock gob (d ∷ []) none req_stat).3)
          ≡ some (log', ack_success (suc log.nrecs), told))
        × IsStored c P conf log (receive p signed old) log'
  unfolding transfer_all map_to_pb sign_last linked_datum datum_sign
  append_common-cmd_append md clock gob d old req_stat log alg skey pkey head sig ticks g sg t good
        ok same h fine send prev pair from to v s o =
      let d1 = linked_datum c clock d (suc gob.nrecs) none in
      let signed : Datum = record d1 { sig = some sig } in
      let made : datum_sign c d1 gob.sign ≡ (stat_ok, signed) = rw (datum_sign, from, s) refl in
      let sent =
        append_common_result c md clock ticks gob d [] none req_stat (d1 ∷ []) (signed ∷ []) g
          (link_one md clock gob.sign (suc gob.nrecs) d t good) (rw sg (ap (λ x. x.1 ∷ []) made))
          ok in
      let (signs, verifies) =
        vrfy-sign c p d1 old gob.sign log.sign alg skey pkey head sig send prev pair from to v s in
      let seen : datum_vrfy_gob c (receive p signed old) log.sign ≡ (some stat_ok, log.sign) =
        sym (ap (λ x. datum_vrfy_gob c (receive p x.1 old) log.sign) made) ∙ verifies in
      let new : Datum = record (datum_reset old) { inuse = true } in
      let (log', told, answer, stored) =
        record_kept log old signed sig fine h (ap suc same) refl v seen (o _) in
      (
        log',
        told,
        ap (λ out. cmd_append c P conf log new (transfer_all p out.3)) sent ∙ answer,
        stored,
      )
