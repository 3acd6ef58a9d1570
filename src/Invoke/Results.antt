-- ===== src/Invoke/Results.antt =====
-- Answers that carry results (`ack_data_content` and `ack_end_results` of gdp/gdp_proto.c). A count that is
-- negative is 0 where only its sign is looked at.
use gdp.Base.{
  ℕ, ◌+◌, ◌-◌, true, ◌&&◌, Bool, ◌^◌, Option, none, some, List, [], ◌∷◌, if◌then◌else◌, leb, ltb,
  length, bitset, bit_and,
}
use gdp.Stat.{EpStat, stat_ok, stat_new, gdp_stat, sev_ok, sev_warn}
use gdp.Time.{TimeSpec}
use gdp.Event.{Queues, Req}
use gdp.Event.Queue.{trigger_pending}
use gdp.Datum.{Datum}
use gdp.Datum.Message.{PbDatum, datum_from_pb}
use gdp.Datum.Digest.{Crypto, SignGob, datum_vrfy_gob}
use gdp.Request.{req_persist}

abbrev pub req_vrfy_content : ℕ
req_vrfy_content = 0x200

abbrev pub record_missing : EpStat
record_missing = gdp_stat sev_warn 33

-- `GDP_STAT_FROM_ACK`
abbrev pub stat_from_ack : ℕ → EpStat
stat_from_ack c = stat_new sev_ok 0 0 ((c - 128) + 200)

-- What the handlers read and write: of the request, its flags, counts and events; of its object, the
-- number of records and the contexts for signatures. `s_results` is none where it is negative: -1 as
-- `_gdp_req_new` leaves it, or the 64 bits of an announcement of 2^63 and more. Received results are counted
-- below 2^63.
pub record Answers : Type 0 where
  pub flags : ℕ
  pub numrecs : ℕ
  pub r_results : ℕ
  pub s_results : Option ℕ
  pub nrecs : ℕ
  pub sign : SignGob
  pub queues : Queues
  pub events : Req

abbrev pub clear_persist : ℕ → ℕ
clear_persist flags = bit_and flags 0xffffffef

-- The counts after a content of `n` records, the last of which has the number.
unfoldable pub count_content : Answers → (recno n : ℕ) → Answers
count_content a recno n = record a {
  nrecs = if ltb 0 recno && (ltb recno (2 ^ 63) && ltb a.nrecs recno) then recno else a.nrecs;
  numrecs = a.numrecs - n;
  r_results = a.r_results + n;
  flags = elim a.s_results [
    | none ↦ a.flags
    | some s ↦ if leb s (a.r_results + n) then clear_persist a.flags else a.flags
  ];
}

unfoldable pub last_of : PbDatum → List PbDatum → PbDatum
last_of d [] = d
last_of d (e ∷ es) = last_of e es

-- `ack_data_content`; `new` is what `gdp_datum_new` gives, and `none` is a read through a null pointer.
unfoldable pub ack_data_content :
    Crypto → Answers → (new : Datum) → List PbDatum → Option (EpStat × Answers)
ack_data_content c a new [] = some (record_missing, a)
ack_data_content c a new (d ∷ ds) =
    let pbd = last_of d ds in
    let datum = datum_from_pb new pbd pbd.sig in
    let n = length (d ∷ ds) in
    if bitset req_vrfy_content a.flags
    then (elim (datum_vrfy_gob c datum a.sign).0 [
      | none ↦ none
      | some estat ↦ some (
        estat,
        count_content (record a { sign = (datum_vrfy_gob c datum a.sign).1 }) datum.recno n,
      )
    ])
    else some (stat_from_ack 133, count_content a datum.recno n)

-- The conversion of the announced number, of type uint64_t, to the int64_t of `s_results`.
unfoldable pub announced : (nresults : ℕ) → Option ℕ
announced nresults = if ltb nresults (2 ^ 63) then some nresults else none

-- Whether as many results as announced have come; a negative number always has.
unfoldable pub has_come : Option ℕ → (r_results : ℕ) → Bool
has_come none r_results = true
has_come (some s) r_results = leb s r_results

-- `ack_end_results`; `fuel` is for the delivery of the events, and `none` is no fuel left.
unfoldable pub ack_end_results :
    (fuel : ℕ) (now : TimeSpec) → Answers → (nresults : ℕ) → Option (EpStat × Answers)
ack_end_results fuel now a nresults =
    let req : Req = record a.events { persist = bitset req_persist a.flags } in
    if has_come (announced nresults) a.r_results
    then (elim (trigger_pending fuel now true a.queues req) [
      | none ↦ none
      | some (q, e) ↦ some (
        stat_ok,
        record a {
          s_results = announced nresults;
          queues = q;
          events = e;
          flags = clear_persist a.flags;
        },
      )
    ])
    else some (stat_ok, record a { s_results = announced nresults })

-- The contents of several answers, one after the other.
unfoldable pub all_contents :
    Crypto → Answers → (new : Datum) → List (List PbDatum) → Option Answers
all_contents c a new [] = some a
all_contents c a new (ds ∷ rest) = elim (ack_data_content c a new ds) [
  | none ↦ none
  | some (estat, a1) ↦ all_contents c a1 new rest
]

unfoldable pub total : List (List PbDatum) → ℕ
total [] = 0
total (ds ∷ rest) = length ds + total rest
