-- ===== src/Logd.antt =====
-- The log daemon (gdplogd/logd_proto.c): appending to a log. The physical layer (`struct gob_phys_impl` of
-- gdplogd/logd.h) is an interface.
pub mod Append
pub mod Single
pub mod Batch
use gdp.Base.{ℕ, suc, ◌≡◌, Bool, true, false, Option, List, [], ◌∷◌, ◌++◌, ◌==◌, ◌||◌}
use gdp.Stat.{EpStat, stat_is_ok, gdp_stat, sev_error, sev_warn}
use gdp.Datum.{Datum}
use gdp.Datum.Digest.{SignGob}

abbrev pub recno_seq_error : EpStat
recno_seq_error = gdp_stat sev_error 27

abbrev pub record_duplicated : EpStat
record_duplicated = gdp_stat sev_warn 34

abbrev pub nak_badreq : EpStat
nak_badreq = gdp_stat sev_error 400

abbrev pub nak_badopt : EpStat
nak_badopt = gdp_stat sev_error 402

abbrev pub nak_c_badreq : ℕ
nak_c_badreq = 192

abbrev pub nak_c_badopt : ℕ
nak_c_badopt = 194

abbrev pub nak_c_forbidden : ℕ
nak_c_forbidden = 195

abbrev pub nak_c_conflict : ℕ
nak_c_conflict = 201

abbrev pub forgive_log_gaps : ℕ
forgive_log_gaps = 1

abbrev pub forgive_log_dups : ℕ
forgive_log_dups = 2

abbrev pub sig_mustverify : ℕ
sig_mustverify = 1

abbrev pub sig_required : ℕ
sig_required = 2

abbrev pub sig_pubkeyreq : ℕ
sig_pubkeyreq = 4

-- Whether a list of records has one of a number.
unfoldable pub has_recno : ℕ → List Datum → Bool
has_recno recno [] = false
has_recno recno (d ∷ ds) = (d.recno == recno) || has_recno recno ds

-- The operations of the physical layer that appending uses, and the records that it holds: a record whose
-- number is new is put at the end, and an abort leaves what was there when the transaction began.
pub record PhysImpl : Type 1 where
  pub Store : Type 0
  pub contents : Store → List Datum
  pub recno_exists : Store → ℕ → Bool
  pub append : Store → Datum → EpStat × Store
  pub xact_begin : Store → Store
  pub xact_end : Store → Store
  pub xact_abort : Store → Store
  pub recno_exists_lem : (s : Store) (r : ℕ) → recno_exists s r ≡ has_recno r (contents s)
  pub append_lem :
      (s : Store) (d : Datum)
      → has_recno d.recno (contents s) ≡ false
      → stat_is_ok (append s d).0 ≡ true
      → contents (append s d).1 ≡ contents s ++ (d ∷ [])
  pub begin_lem : (s : Store) → contents (xact_begin s) ≡ contents s
  pub end_lem : (s : Store) → contents (xact_end s) ≡ contents s
  pub abort_lem :
      (s : Store) (d : Datum) → contents (xact_abort (append (xact_begin s) d).1) ≡ contents s

-- An open log: what signatures need, the number of its last record, and its store.
pub record LogGob (P : PhysImpl) : Type 0 where
  pub sign : SignGob
  pub nrecs : ℕ
  pub phys : P.Store

-- What a command answers: the number of the record that was appended; or a code and a status, with the
-- number of the last record, where the answer has it.
pub data Reply : Type 0 where
  ack_success : ℕ → Reply
  nak_resp : ℕ → EpStat → Option ℕ → Reply
