-- ===== src/Tests/Appends.antt =====
-- A client that appends to a log of a daemon, with a plain signature and a list for the store.
use gdp.Base.{
  bitset, ℕ, ◌+◌, ◌≡◌, refl, sym, ap, ◌∙◌, arith, true, false, none, some, List, [], ◌∷◌, ◌++◌,
  length, if◌then◌else◌, ◌==◌,
}
use gdp.Hash.{same_key}
use gdp.Hash.Chains.{same_key_self}
use gdp.Stat.{EpStat, stat_ok}
use gdp.Datum.{Stamp, Datum, Datums, time_is_valid, zeroed_datum, datum_reset}
use gdp.Datum.Message.{PbDatum, plain_protobuf, datum_from_pb, empty_pb}
use gdp.Datum.Digest.{
  Crypto, MdCtx, SignGob, crypto_vrfy_fail, datum_bytes, datum_vrfy_gob, with_vrfy_ctx, vrfy_with,
}
use gdp.Datum.RoundTrip.{receive, receive_fields, IsSendable}
use gdp.Datum.Unique.{IsDatum}
use gdp.Logd.{PhysImpl, LogGob, ack_success, nak_resp, nak_c_forbidden, recno_seq_error, has_recno}
use gdp.Logd.Append.{LogdConfig, fails_strictness, check_again, check_sig, cmd_append}
use gdp.Logd.Single.{IsLog, IsStored, IsAnswered, cmd_append_answer}
use gdp.Logd.Batch.{cmd_append_pair}
use gdp.Invoke.Results.{Answers, ack_end_results, all_contents, total}
use gdp.Invoke.Counted.{all_contents-ack_end_results}
use gdp.GobOps.{AppendGob, datum_is_good, map_to_pb, linked_datum, append_common}
use gdp.GobOps.Chain.{IsChain, append_common-IsChain}
use gdp.GobOps.Delivery.{transfer_all, append_common-cmd_append, append_common-cmd_append_refused}

plain_verifies :
    (alg : ℕ) (skey pkey bytes sig : List ℕ)
    → skey ≡ pkey
    → ◌≡◌ {A = EpStat × List ℕ} (stat_ok, bytes) (stat_ok, sig)
    → (if same_key bytes sig then stat_ok else crypto_vrfy_fail) ≡ stat_ok
plain_verifies alg skey pkey bytes sig k e =
    ap (λ (x : EpStat × List ℕ). if same_key bytes x.1 then stat_ok else crypto_vrfy_fail) (sym e)
    ∙ rw (same_key_self bytes) refl

-- A signature is the bytes that are signed, and a hash is their number.
abbrev crypto : Crypto
crypto = record {
  hash = λ alg bytes. length bytes ∷ [];
  sign_final = λ md. (stat_ok, md.bytes);
  vrfy_final = λ md sig. if same_key md.bytes sig then stat_ok else crypto_vrfy_fail;
  key_read_mem = λ bytes. true;
  IsPair = λ skey pkey. skey ≡ pkey;
  verifies = plain_verifies;
}

plain_append :
    (s : List Datum × List Datum) (d : Datum)
    → ◌≡◌ {A = List Datum} (s.0 ++ (d ∷ [])) (s.0 ++ (d ∷ []))
plain_append s d = refl

-- The records, and those at the start of the transaction.
abbrev phys : PhysImpl
phys = record {
  Store = List Datum × List Datum;
  contents = λ s. s.0;
  recno_exists = λ s r. has_recno r s.0;
  append = λ s d. (stat_ok, (s.0 ++ (d ∷ []), s.1));
  xact_begin = λ s. (s.0, s.0);
  xact_end = λ s. s;
  xact_abort = λ s. (s.1, s.1);
  recno_exists_lem = λ s r. refl;
  append_lem = λ s d f o. refl;
  begin_lem = λ s. refl;
  end_lem = λ s. refl;
  abort_lem = λ s d. refl;
}

abbrev conf : LogdConfig
conf = record { forgive = 0; strictness = 7 }

abbrev clock : ℕ → Stamp
clock n = record { tv_sec = 50; tv_nsec = 5; tv_accuracy = 0x3f800000 }

abbrev client : SignGob
client = record {
  name = 1 ∷ [];
  pubkey = none;
  metadata = [];
  hashalg = 0;
  sign_ctx = some (record { alg = 3; key = 9 ∷ []; bytes = 1 ∷ [] });
  vrfy_ctx = some (record { alg = 3; key = []; bytes = 1 ∷ [] });
  verifying = false;
  vrfy_warn = false;
}

abbrev server : SignGob
server = record client {
  sign_ctx = none;
  vrfy_ctx = some (record { alg = 3; key = 9 ∷ []; bytes = 1 ∷ [] });
  verifying = true;
}

-- A datum of two bytes in use, whose time is valid.
abbrev datum : Datum
datum = record {
  inuse = true;
  recno = 0;
  ts = record { tv_sec = 40; tv_nsec = 0; tv_accuracy = 0 };
  dbuf = some (7 ∷ 8 ∷ []);
  sig = none;
  prevhash = none;
}

abbrev open_gob : AppendGob
open_gob = record { sign = client; nrecs = 0; is_good = true; signing = true }

abbrev log : LogGob phys
log = record { sign = server; nrecs = 0; phys = ([], []) }

log-IsLog : IsLog phys log
log-IsLog = record { numbered = tt; size = refl }

ticks : (n : ℕ) → time_is_valid (clock n) ≡ true
ticks n = refl

abbrev md : MdCtx
md = record { alg = 3; key = []; bytes = 1 ∷ [] }

-- The datum as it is linked, and as it is signed.
abbrev linked : Datum
linked = linked_datum crypto clock datum 1 none

abbrev signature : List ℕ
signature = 1 ∷ datum_bytes crypto 3 linked

abbrev signed : Datum
signed = record linked { sig = some signature }

datum_good : datum_is_good datum ≡ true
unfolding datum_is_good
datum_good = refl

linked-IsSendable : IsSendable (linked_datum crypto clock datum 1 none).ts
unfolding linked_datum
linked-IsSendable = record { valid = refl; plus = refl }

append_common-cmd_append_example :
    (log' : LogGob phys) × (told : List PbDatum) × (cmd_append crypto phys conf log
        (record (datum_reset zeroed_datum) { inuse = true })
        (transfer_all plain_protobuf
          (append_common crypto clock open_gob (datum ∷ []) none stat_ok).3)
      ≡ some (log', ack_success 1, told))
    × IsStored crypto phys conf log (receive plain_protobuf signed zeroed_datum) log'
append_common-cmd_append_example =
    append_common-cmd_append crypto plain_protobuf phys conf md clock open_gob datum zeroed_datum
      stat_ok log 3 (9 ∷ []) (9 ∷ []) (1 ∷ []) signature ticks refl refl refl datum_good refl refl
      (omega arith) log-IsLog linked-IsSendable refl refl refl refl refl refl (λ x. refl)

append_common-cmd_append_refused_example :
    let out =
      append_common crypto clock open_gob (datum ∷ datum ∷ datum ∷ datum ∷ []) none stat_ok in
    (out.1.nrecs ≡ 3 + 0 + 1)
    × (cmd_append crypto phys conf log zeroed_datum (transfer_all plain_protobuf out.3)
        ≡ some (log, nak_resp nak_c_forbidden recno_seq_error none, []))
append_common-cmd_append_refused_example =
    append_common-cmd_append_refused crypto plain_protobuf phys conf md clock open_gob datum datum
      datum (datum ∷ []) none stat_ok log zeroed_datum ticks refl refl
      (datum_good, (datum_good, (datum_good, (datum_good, tt)))) refl refl (omega arith) refl

append_common-IsChain_example :
    (ds' : List Datum) × (append_common crypto clock open_gob
        (datum ∷ datum ∷ [])
        (some (5 ∷ []))
        stat_ok
      ≡ (stat_ok, record open_gob { nrecs = 0 + length ds' }, ds', map_to_pb ds'))
    × IsChain crypto md 0 (some (5 ∷ [])) ds'
    × (length ds' ≡ 2)
append_common-IsChain_example =
    append_common-IsChain crypto md clock ticks open_gob datum (datum ∷ []) (some (5 ∷ [])) stat_ok
      refl refl (datum_good, (datum_good, tt)) refl

-- A record that the daemon gets, with the number after that of the log's last one.
abbrev received : PbDatum
received = record empty_pb { recno = 1; content = 7 ∷ []; sig = some (4 ∷ []) }

cmd_append_answer_example : IsAnswered crypto phys conf log zeroed_datum received
cmd_append_answer_example =
    cmd_append_answer crypto phys conf log zeroed_datum received log-IsLog refl refl

-- A daemon that does not verify.
abbrev trusting : LogGob phys
trusting = record { sign = record server { verifying = false }; nrecs = 0; phys = ([], []) }

abbrev lax : LogdConfig
lax = record conf { strictness = 0 }

abbrev empty_datum : Datum
empty_datum = record (datum_reset zeroed_datum) { inuse = true }

trusts :
    check_sig crypto phys lax trusting.sign
      (datum_from_pb empty_datum received received.sig)
      received.sig
    ≡ some (none, trusting.sign)
unfolding check_sig fails_strictness check_again datum_vrfy_gob with_vrfy_ctx vrfy_with
trusts = refl

cmd_append_pair_example :
    (log' : LogGob phys) × (told : List PbDatum) × (stored : Datum) × (cmd_append crypto phys lax
        trusting empty_datum
        (received ∷ received ∷ [])
      ≡ some (log', ack_success 1, told))
    × (log'.phys.0 ≡ [] ++ (stored ∷ []))
    × (stored.recno ≡ 1)
    × (stored.dbuf ≡ some (7 ∷ 7 ∷ []))
    × (log'.nrecs ≡ 1)
unfolding has_recno
cmd_append_pair_example =
    cmd_append_pair crypto phys lax trusting empty_datum received received trusting.sign
      (omega arith) refl refl refl trusts refl

receive_fields_example :
    ((receive plain_protobuf datum zeroed_datum).recno ≡ 0)
    × ((receive plain_protobuf datum zeroed_datum).ts ≡ datum.ts)
    × ((receive plain_protobuf datum zeroed_datum).dbuf ≡ some (7 ∷ 8 ∷ []))
    × ((receive plain_protobuf datum zeroed_datum).prevhash ≡ none)
    × ((receive plain_protobuf datum zeroed_datum).sig ≡ none)
receive_fields_example =
    receive_fields plain_protobuf datum zeroed_datum (record { valid = refl; plus = refl })

datum-IsDatum : IsDatum datum
datum-IsDatum = record {
  recno = omega arith;
  sec = omega arith;
  nsec = omega arith;
  accuracy = omega arith;
}

-- The datum at 4 waits on the free list, and the one at 5 is in use.
abbrev datums : Datums
datums = record {
  st = λ x. if x == 5 then record datum { prevhash = some (3 ∷ []) } else zeroed_datum;
  free_list = 4 ∷ [];
}

-- A request that persists and has no results yet.
abbrev awaiting : Answers
awaiting = record {
  flags = 0x10;
  numrecs = 0;
  r_results = 0;
  s_results = none;
  nrecs = 0;
  sign = client;
  queues = record {
    st = λ g. record {
      type = 0;
      gin = 0;
      cb = false;
      timeout = record { tv_sec = 0; tv_nsec = 0 };
      seqno = 0;
    };
    free_list = [];
    active_list = [];
    callback_list = [];
  };
  events = record { events = []; seqnext = 0; persist = true; ev_to = none };
}

all_contents-ack_end_results_example :
    (a1 : Answers) × (estat : EpStat) × (a2 a3 : Answers) × (all_contents crypto awaiting
        empty_datum
        ((received ∷ []) ∷ [])
      ≡ some a1)
    × (ack_end_results 1 (record { tv_sec = 9; tv_nsec = 0 }) a1 2 ≡ some (estat, a2))
    × (all_contents crypto a2 empty_datum ((received ∷ []) ∷ []) ≡ some a3)
    × (a3.r_results ≡ 2)
    × (bitset 0x10 a3.flags ≡ false)
unfolding total
all_contents-ack_end_results_example =
    all_contents-ack_end_results crypto 0 (record { tv_sec = 9; tv_nsec = 0 }) awaiting empty_datum
      ((received ∷ []) ∷ []) ((received ∷ []) ∷ []) 2 refl refl refl refl (omega arith)
      (omega arith)
