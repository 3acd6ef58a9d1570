-- ===== src/GobOps.antt =====
-- Appending on the client (`append_common` of gdp/gdp_gob_ops.c): the datums are numbered, linked by
-- their hashes, signed, and put into a message.
pub mod Chain
pub mod Delivery
use gdp.Base.{
  ℕ, suc, ◌+◌, ◌≡◌, Bool, true, false, not, ◌&&◌, Option, none, some, List, [], ◌∷◌, if◌then◌else◌,
  length,
}
use gdp.Stat.{EpStat, stat_ok, stat_is_ok, gdp_stat, sev_error}
use gdp.Datum.{Stamp, Datum, time_is_valid}
use gdp.Datum.Message.{PbDatum, datum_to_pb, empty_pb}
use gdp.Datum.Digest.{Crypto, SignGob, datum_hash, datum_sign}

abbrev pub log_not_open : EpStat
log_not_open = gdp_stat sev_error 10

abbrev pub datum_required : EpStat
datum_required = gdp_stat sev_error 35

-- An open object: `is_good` is GDP_GOB_ISGOOD, and `signing` is its flag GOBF_SIGNING.
pub record AppendGob : Type 0 where
  pub sign : SignGob
  pub nrecs : ℕ
  pub is_good : Bool
  pub signing : Bool

-- `GDP_DATUM_ISGOOD`
unfoldable pub datum_is_good : Datum → Bool
datum_is_good d = d.inuse && (elim d.dbuf [ none ↦ false | some b ↦ true ])

pub map_to_pb : List Datum → List PbDatum
map_to_pb [] = []
map_to_pb (d ∷ ds) = datum_to_pb d empty_pb ∷ map_to_pb ds

-- `clock` is the time when a record of a number is made.
module _ (c : Crypto) (clock : ℕ → Stamp) where
  -- What a datum gets before its hash is made.
  unfoldable pub linked_datum : Datum → (recno : ℕ) → (prevhash : Option (List ℕ)) → Datum
  linked_datum d recno prevhash = record d {
    recno = recno;
    ts = if time_is_valid d.ts then d.ts else clock recno;
    prevhash = prevhash;
  }

  -- The loop over the datums: whether it came to its end, the object and the datums.
  unfoldable pub link_datums :
      SignGob
      → (recno : ℕ) → (prevhash : Option (List ℕ)) → List Datum
      → Bool × SignGob × List Datum
  link_datums gob recno prevhash [] = (true, gob, [])
  link_datums gob recno prevhash (d ∷ ds) =
      let d1 = linked_datum d recno prevhash in
      let (hash, gob1) = datum_hash c d1 gob in
      let (ends, gob2, ds1) = link_datums gob1 (suc recno) (some hash) ds in
      if not (datum_is_good d) then (false, gob, d ∷ ds) else (ends, gob2, d1 ∷ ds1)

  -- The last datum is signed; whether that succeeds is not looked at later.
  unfoldable pub sign_last : SignGob → List Datum → List Datum
  sign_last gob [] = []
  sign_last gob (d ∷ []) = (datum_sign c d gob).1 ∷ []
  sign_last gob (d ∷ (e ∷ ds)) = d ∷ sign_last gob (e ∷ ds)

  -- `append_common`: the status, the object, the datums, and those in the message. `req_stat` is the
  -- status of `_gdp_req_new`.
  unfoldable pub append_common :
      AppendGob
      → List Datum
      → (prevhash : Option (List ℕ)) (req_stat : EpStat)
      → EpStat × AppendGob × List Datum × List PbDatum
  append_common gob [] prevhash req_stat =
      (if not gob.is_good then log_not_open else datum_required, gob, [], [])
  append_common gob (d ∷ ds) prevhash req_stat =
      let (ends, sign, ds1) = link_datums gob.sign (suc gob.nrecs) prevhash (d ∷ ds) in
      let ds2 = if gob.signing then sign_last sign ds1 else ds1 in
      if not gob.is_good
      then (log_not_open, gob, d ∷ ds, [])
      else if not ends
      then (datum_required, record gob { sign = sign }, ds1, [])
      else if not (stat_is_ok req_stat)
      then (req_stat, record gob { sign = sign }, ds2, [])
      else (
        req_stat,
        record gob { sign = sign; nrecs = gob.nrecs + length ds2 },
        ds2,
        map_to_pb ds2,
      )
