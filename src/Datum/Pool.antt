-- ===== src/Datum/Pool.antt =====
-- The free list of datums (`gdp_datum_new` and `gdp_datum_free` of gdp/gdp_datum.c).
use gdp.Base.{
  ℕ, ◌≡◌, refl, sym, true, false, Option, none, some, List, [], ◌∷◌, All, ◌==◌, ==_iff, ==_self,
  Bool-cases, inl, inr,
}
use gdp.Cache.Steps.Invariant.{IsOther, IsDistinct, others, every}
use gdp.Datum.{Datum, Datums, no_recno, time_is_valid, take_datum, datum_new, datum_free}

-- The datums of the free list are not in use, and none is there twice.
pub record IsPool (w : Datums) : Type 0 where
  pub idle : All (λ (x : ℕ). (w.st x).inuse ≡ false) w.free_list
  pub distinct : IsDistinct w.free_list

-- A datum as it is given to a caller: in use, empty, without number and time.
pub record IsEmptyDatum (d : Datum) : Type 0 where
  pub inuse : d.inuse ≡ true
  pub dbuf : d.dbuf ≡ some []
  pub recno : d.recno ≡ no_recno
  pub ts : time_is_valid d.ts ≡ false

module _ (mem : ℕ) where
  made :
      (st : ℕ → Datum) (free_list : List ℕ)
      → IsPool (record { st = st; free_list = free_list })
      → All (IsOther mem) free_list
      → (st mem).inuse ≡ false
      → let out = datum_new (record { st = st; free_list = free_list }) mem in
        IsPool out.0
        × IsEmptyDatum (out.0.st out.1)
        × ((st out.1).inuse ≡ false)
        × ((x : ℕ) → (x == out.1) ≡ false → out.0.st x ≡ st x)
  unfolding datum_new take_datum
  made st [] ok away unused = (
    record { idle = tt; distinct = tt },
    record {
      inuse = rw (==_self mem) refl;
      dbuf = rw (==_self mem) refl;
      recno = rw (==_self mem) refl;
      ts = rw (==_self mem) refl;
    },
    unused,
    λ x p. rw p refl,
  )
  made st (d ∷ rest) ok away unused = (
    record {
      idle =
          others (λ (x : ℕ). (st x).inuse ≡ false) _ d rest (λ x p h. rw p h) ok.distinct.0
            ok.idle.1;
      distinct = ok.distinct.1;
    },
    record {
      inuse = rw (==_self d) refl;
      dbuf = rw (==_self d) refl;
      recno = rw (==_self d) refl;
      ts = rw (==_self d) refl;
    },
    ok.idle.0,
    λ x p. rw p refl,
  )

-- A new datum was not in use before, and is in use and empty then, without number and time; no other
-- datum changes, and the free list is in order.
pub datum_new-IsPool :
    (w : Datums) (mem : ℕ)
    → IsPool w
    → All (IsOther mem) w.free_list
    → (w.st mem).inuse ≡ false
    → IsPool (datum_new w mem).0
      × IsEmptyDatum ((datum_new w mem).0.st (datum_new w mem).1)
      × ((w.st (datum_new w mem).1).inuse ≡ false)
      × ((x : ℕ) → (x == (datum_new w mem).1) ≡ false → (datum_new w mem).0.st x ≡ w.st x)
datum_new-IsPool w mem ok away unused =
    made mem w.st w.free_list (record { idle = ok.idle; distinct = ok.distinct }) away unused

datum_free-IsPool : (w : Datums) (datum : Option ℕ) → IsPool w → IsPool (datum_free w datum)
unfolding datum_free
datum_free-IsPool w none ok = ok
datum_free-IsPool w (some datum) ok = elim (Bool-cases (w.st datum).inuse) [
  | inr u ↦ rw (datum_free, u) ok
  | inl u ↦
      let away : All (IsOther datum) w.free_list =
        every (λ (x : ℕ). (w.st x).inuse ≡ false) _ w.free_list
          (λ x h. elim (Bool-cases (x == datum)) [
            | inr p ↦ p
            | inl p ↦
                let same : x ≡ datum = (==_iff x datum).0 p in
                let off : (w.st datum).inuse ≡ false = rw (sym same) h in absurd (cc (u, off))
          ])
          ok.idle in
      rw (datum_free, u)
        (record {
          idle = (
            rw (==_self datum) refl,
            others (λ (x : ℕ). (w.st x).inuse ≡ false) _ datum w.free_list (λ x p h. rw p h) away
                ok.idle,
          );
          distinct = (away, ok.distinct);
        })
]

-- A datum in use that is freed is the next one that is made, and it still has the hash of the record
-- before that it had.
pub datum_new-datum_free :
    (w : Datums) (datum mem : ℕ)
    → (w.st datum).inuse ≡ true
    → ((datum_new (datum_free w (some datum)) mem).1 ≡ datum)
      × (((datum_new (datum_free w (some datum)) mem).0.st datum).prevhash ≡ (w.st datum).prevhash)
unfolding datum_new datum_free take_datum
datum_new-datum_free w datum mem u = rw (datum_free, u) (refl, rw (==_self datum) refl)
