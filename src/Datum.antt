-- ===== src/Datum.antt =====
-- Datums (gdp/gdp_datum.c), the records of a log. Integers are the bit patterns of their width, a
-- float is that of its 4 bytes, and a buffer is the bytes it holds.
pub mod Message
pub mod Digest
pub mod RoundTrip
pub mod Verify
pub mod Unique
pub mod Pool
use gdp.Base.{
  ℕ, ◌+◌, ◌%◌, ◌^◌, Bool, true, false, not, Option, none, some, List, [], ◌∷◌, ◌++◌, if◌then◌else◌,
  ◌==◌, ltb, length,
}

-- `EP_TIME_SPEC` with its accuracy.
pub record Stamp : Type 0 where
  pub tv_sec : ℕ
  pub tv_nsec : ℕ
  pub tv_accuracy : ℕ

-- `EP_TIME_NOTIME`, which is -(2^63 - 1).
abbrev pub notime : ℕ
notime = 2 ^ 63 + 1

abbrev pub no_recno : ℕ
no_recno = 0

abbrev pub time_is_valid : Stamp → Bool
time_is_valid ts = not (ts.tv_sec == notime)

abbrev pub time_invalidate : Stamp → Stamp
time_invalidate ts = record ts { tv_sec = notime }

-- `struct gdp_datum`
pub record Datum : Type 0 where
  pub inuse : Bool
  pub recno : ℕ
  pub ts : Stamp
  pub dbuf : Option (List ℕ)
  pub sig : Option (List ℕ)
  pub prevhash : Option (List ℕ)

-- `ep_mem_zalloc`
abbrev pub zeroed_datum : Datum
zeroed_datum = record {
  inuse = false;
  recno = 0;
  ts = record { tv_sec = 0; tv_nsec = 0; tv_accuracy = 0 };
  dbuf = none;
  sig = none;
  prevhash = none;
}

-- `gdp_datum_reset`
abbrev pub datum_reset : Datum → Datum
datum_reset d = record d {
  dbuf = some [];
  sig = elim d.sig [ none ↦ none | some sig ↦ some [] ];
  recno = no_recno;
  ts = time_invalidate d.ts;
}

-- The datums by their addresses, and `DatumFreeList`.
pub record Datums : Type 0 where
  pub st : ℕ → Datum
  pub free_list : List ℕ

abbrev pub update_datum : ℕ → Datum → (ℕ → Datum) → ℕ → Datum
update_datum datum d st x = if x == datum then d else st x

-- The memory of a new datum: the first of the free list, or `mem`; its values there; and the rest of
-- the list.
unfoldable pub take_datum : (ℕ → Datum) → List ℕ → (mem : ℕ) → ℕ × Datum × List ℕ
take_datum st [] mem = (mem, zeroed_datum, [])
take_datum st (datum ∷ rest) mem = (datum, st datum, rest)

-- `gdp_datum_new`; `mem` is where memory is found.
unfoldable pub datum_new : Datums → (mem : ℕ) → Datums × ℕ
datum_new w mem =
    let (datum, old, rest) = take_datum w.st w.free_list mem in
    (
      record {
        st = update_datum datum (record (datum_reset old) { inuse = true }) w.st;
        free_list = rest;
      },
      datum,
    )

-- `gdp_datum_free`
unfoldable pub datum_free : Datums → Option ℕ → Datums
datum_free w none = w
datum_free w (some datum) = if not (w.st datum).inuse then w else record {
  st =
      update_datum datum
        (record (w.st datum) {
          inuse = false;
          dbuf = elim (w.st datum).dbuf [ none ↦ none | some dbuf ↦ some [] ];
          sig = none;
        })
        w.st;
  free_list = datum ∷ w.free_list;
}

-- `gdp_buf_copy`: the bytes of the second are put at the end of the first.
abbrev pub buf_copy : (obuf ibuf : List ℕ) → List ℕ
buf_copy obuf ibuf = obuf ++ ibuf

-- `gdp_sig_copy (from, to)`, and what the two hold after it.
abbrev pub sig_copy : (from to : List ℕ) → List ℕ × List ℕ
sig_copy from to = (buf_copy from [], [])

-- `gdp_datum_copy`: both datums, where the one that is written has the buffers that the other one has.
unfoldable pub datum_copy : (to from : Datum) → Datum × Datum
datum_copy to from =
    let dbuf : Option (List ℕ) = elim from.dbuf [
      | none ↦ to.dbuf
      | some ibuf ↦ elim to.dbuf [ none ↦ none | some obuf ↦ some (buf_copy obuf ibuf) ]
    ] in
    let sigs : Option (List ℕ) × Option (List ℕ) = elim from.sig [
      | none ↦ (to.sig, none)
      | some s ↦ elim to.sig [
        | none ↦ (none, some s)
        | some t ↦ (some (sig_copy t s).0, some (sig_copy t s).1)
      ]
    ] in
    (
      record to { recno = from.recno; ts = from.ts; inuse = from.inuse; dbuf = dbuf; sig = sigs.0 },
      record from { sig = sigs.1 },
    )

-- `gdp_datum_dup`: the values of the new datum, which is `ndatum` as `gdp_datum_new` leaves it.
unfoldable pub datum_dup : (ndatum datum : Datum) → Datum
datum_dup ndatum datum = record ndatum {
  recno = datum.recno;
  ts = datum.ts;
  dbuf = elim ndatum.dbuf [
    | none ↦ none
    | some obuf ↦ elim datum.dbuf [ none ↦ some obuf | some ibuf ↦ some (buf_copy obuf ibuf) ]
  ];
  sig = elim datum.sig [ none ↦ ndatum.sig | some s ↦ some s ];
}
