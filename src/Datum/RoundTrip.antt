-- ===== src/Datum/RoundTrip.antt =====
-- Datums that go to a peer in a message (gdp/gdp_datum.c).
use gdp.Base.{
  ℕ, ◌≡◌, refl, sym, ap, Bool, true, false, not, Option, none, some, List, [], ◌∷◌, if◌then◌else◌,
  ◌==◌, ==_iff,
}
use gdp.Datum.{Stamp, Datum, datum_reset, time_is_valid}
use gdp.Datum.Message.{
  Protobuf, empty_pb, ts_defaults, is_zero_float, datum_to_pb, datum_from_pb, timestamp_from_pb,
}
use gdp.Datum.Digest.{bytes_of}

-- A datum on the other side, in memory that was another datum, as `gdp_datum_new` leaves it.
abbrev pub receive : Protobuf → (datum old : Datum) → Datum
receive p datum old =
    let pbd = p.transfer (datum_to_pb datum empty_pb) in
    datum_from_pb (record (datum_reset old) { inuse = true }) pbd pbd.sig

-- A time that is valid, and whose accuracy is not minus zero.
pub record IsSendable (ts : Stamp) : Type 0 where
  pub valid : time_is_valid ts ≡ true
  pub plus : is_zero_float ts.tv_accuracy ≡ (ts.tv_accuracy == 0)

zero_or_kept : (b : Bool) (n : ℕ) → (b ≡ (n == 0)) → (if not b then n else 0) ≡ n
zero_or_kept true n e = sym ((==_iff n 0).0 (sym e))
zero_or_kept false n e = refl

ts_kept :
    (old ts : Stamp)
    → IsSendable ts
    → timestamp_from_pb old (
        some (
          ts_defaults (record {
            sec = ts.tv_sec;
            has_sec = true;
            nsec = ts.tv_nsec;
            has_nsec = not (ts.tv_nsec == 0);
            accuracy = ts.tv_accuracy;
            has_accuracy = not (is_zero_float ts.tv_accuracy);
          })))
      ≡ ts
unfolding timestamp_from_pb
ts_kept old ts ok =
    rw
      (
        zero_or_kept (ts.tv_nsec == 0) ts.tv_nsec refl,
        zero_or_kept (is_zero_float ts.tv_accuracy) ts.tv_accuracy ok.plus,
      )
      refl

data_kept :
    (d : Option (List ℕ))
    → elim d as (λ x. List ℕ) [
      | none ↦ []
      | some dbuf ↦ elim dbuf as (λ x. List ℕ) [ [] ↦ [] | ◌∷◌ b bs ↦ b ∷ bs ]
    ]
      ≡ bytes_of d
data_kept none = refl
data_kept (some []) = refl
data_kept (some (b ∷ bs)) = refl

-- What a peer has of a datum that was sent with a valid time whose accuracy is not written as -0: its
-- number, its time, and the bytes of its buffer, which is there even if the sender had none; the hash of
-- the record before is what the peer's memory had; and the signature is the sender's, or, where it sent
-- none, what a reset leaves of the one in the peer's memory.
pub receive_fields :
    (p : Protobuf) (datum old : Datum)
    → IsSendable datum.ts
    → ((receive p datum old).recno ≡ datum.recno)
      × ((receive p datum old).ts ≡ datum.ts)
      × ((receive p datum old).dbuf ≡ some (bytes_of datum.dbuf))
      × ((receive p datum old).prevhash ≡ old.prevhash)
      × ((receive p datum old).sig
          ≡ (elim datum.sig [ none ↦ (datum_reset old).sig | some sig ↦ some sig ]))
unfolding datum_to_pb datum_from_pb
receive_fields p datum old ok =
    let pbd = datum_to_pb datum empty_pb in
    (
      rw (p.transfer_lem pbd) refl,
      rw (p.transfer_lem pbd, ok.valid) (ts_kept _ datum.ts ok),
      rw (p.transfer_lem pbd) (ap some (data_kept datum.dbuf)),
      refl,
      rw (p.transfer_lem pbd) refl,
    )
