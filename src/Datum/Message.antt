-- ===== src/Datum/Message.antt =====
-- Datums in messages (gdp/gdp_datum.c). The structures are those of gdp/gdp.proto; what the code that is
-- generated from it does to them on the way to a peer is a parameter.
use gdp.Base.{
  ℕ, ◌%◌, ◌^◌, ◌≡◌, refl, Bool, true, false, not, Option, none, some, List, [], ◌∷◌, ◌++◌,
  if◌then◌else◌, ◌==◌,
}
use gdp.Datum.{Stamp, Datum, notime, time_is_valid, time_invalidate}

-- `GdpTimestamp`
pub record PbTimestamp : Type 0 where
  pub has_sec : Bool
  pub sec : ℕ
  pub has_nsec : Bool
  pub nsec : ℕ
  pub has_accuracy : Bool
  pub accuracy : ℕ

-- `GdpDatum`, less the proofs, which are not used.
pub record PbDatum : Type 0 where
  pub recno : ℕ
  pub ts : Option PbTimestamp
  pub has_prevhash : Bool
  pub prevhash : List ℕ
  pub content : List ℕ
  pub sig : Option (List ℕ)

-- `gdp_datum__init`
abbrev pub empty_pb : PbDatum
empty_pb = record {
  recno = 0;
  ts = none;
  has_prevhash = false;
  prevhash = [];
  content = [];
  sig = none;
}

-- A float of 4 bytes is zero with either sign.
abbrev pub is_zero_float : ℕ → Bool
is_zero_float f = f % 2 ^ 31 == 0

-- `_gdp_datum_to_pb`
unfoldable pub datum_to_pb : Datum → PbDatum → PbDatum
datum_to_pb datum pbd = record {
  recno = datum.recno;
  ts =
      if time_is_valid datum.ts
      then some (record {
        sec = datum.ts.tv_sec;
        has_sec = true;
        nsec = datum.ts.tv_nsec;
        has_nsec = not (datum.ts.tv_nsec == 0);
        accuracy = datum.ts.tv_accuracy;
        has_accuracy = not (is_zero_float datum.ts.tv_accuracy);
      })
      else none;
  has_prevhash = elim datum.prevhash [ none ↦ false | some h ↦ true ];
  prevhash = elim datum.prevhash [ none ↦ pbd.prevhash | some h ↦ h ];
  content = elim datum.dbuf [
    | none ↦ pbd.content
    | some dbuf ↦ elim dbuf [ [] ↦ pbd.content | ◌∷◌ b bs ↦ b ∷ bs ]
  ];
  sig = datum.sig;
}

-- A field that a message does not have is its default, or 0, for the reader.
abbrev pub ts_defaults : PbTimestamp → PbTimestamp
ts_defaults ts = record ts {
  sec = if ts.has_sec then ts.sec else notime;
  nsec = if ts.has_nsec then ts.nsec else 0;
  accuracy = if ts.has_accuracy then ts.accuracy else 0;
}

abbrev pub datum_defaults : PbDatum → PbDatum
datum_defaults pbd = record pbd {
  ts = elim pbd.ts [ none ↦ none | some ts ↦ some (ts_defaults ts) ];
  prevhash = if pbd.has_prevhash then pbd.prevhash else [];
}

-- The generated code that packs a datum on one side and unpacks it on the other.
pub record Protobuf : Type 0 where
  pub transfer : PbDatum → PbDatum
  pub transfer_lem : (pbd : PbDatum) → transfer pbd ≡ datum_defaults pbd

abbrev pub plain_protobuf : Protobuf
plain_protobuf = record { transfer = datum_defaults; transfer_lem = λ pbd. refl }

-- `_gdp_timestamp_from_pb`
unfoldable pub timestamp_from_pb : Stamp → Option PbTimestamp → Stamp
timestamp_from_pb ts none = time_invalidate ts
timestamp_from_pb ts (some pbd) = record {
  tv_sec = pbd.sec;
  tv_nsec = pbd.nsec;
  tv_accuracy = pbd.accuracy;
}

-- `_gdp_datum_from_pb`
unfoldable pub datum_from_pb : Datum → PbDatum → Option (List ℕ) → Datum
datum_from_pb datum pbd sig = record datum {
  recno = pbd.recno;
  ts = timestamp_from_pb datum.ts pbd.ts;
  dbuf = elim datum.dbuf [ none ↦ some pbd.content | some dbuf ↦ some (dbuf ++ pbd.content) ];
  sig = elim sig [ none ↦ datum.sig | some s ↦ some s ];
}
