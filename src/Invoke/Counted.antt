-- ===== src/Invoke/Counted.antt =====
-- A request persists until all the results that were announced have come (gdp/gdp_proto.c).
use gdp.Base.{
  and_true, and_false, ℕ, suc, ◌+◌, ◌≡◌, refl, arith, sym, ap, ◌∙◌, ◌<◌, ltb, ◌^◌, Bool, true,
  false, not, ◌&&◌, Option, none, some, List, [], ◌∷◌, leb, length, bitset, bitset-and, Bool-cases,
  inl, inr,
}
use mathlib.Core.Path.{subst}
use gdp.Stat.{EpStat, stat_ok}
use gdp.Time.{TimeSpec}
use gdp.Event.{Queues, Req}
use gdp.Event.Queue.{trigger_pending}
use gdp.Datum.{Datum}
use gdp.Datum.Message.{PbDatum, datum_from_pb}
use gdp.Datum.Digest.{Crypto}
use gdp.Request.{req_persist}
use gdp.Invoke.Results.{
  Answers, record_missing, stat_from_ack, req_vrfy_content, clear_persist, announced, has_come,
  count_content, last_of, ack_data_content, ack_end_results, all_contents, total,
}

-- The results announced have come.
abbrev complete : Option ℕ → ℕ → Bool
complete none r = false
complete (some s) r = leb s r

-- What is known of a request whose content is not verified, that persisted first if `p`.
record IsCounted (p : Bool) (a : Answers) (r : ℕ) (s : Option ℕ) : Type 0 where
  unverified : bitset req_vrfy_content a.flags ≡ false
  quiet : a.events.events ≡ []
  received : a.r_results ≡ r
  announced : a.s_results ≡ s
  persists : bitset req_persist a.flags ≡ p && not (complete s r)

cleared : (x : ℕ) → bitset req_persist (clear_persist x) ≡ false
cleared x = ground (arith, bitset-and 4 x 0xffffffef)

cleared_vrfy : (x : ℕ) → bitset req_vrfy_content (clear_persist x) ≡ bitset req_vrfy_content x
cleared_vrfy x = ground (arith, bitset-and 9 x 0xffffffef)

count_content-IsCounted :
    (p : Bool) (a : Answers) (r recno n : ℕ) (s : Option ℕ)
    → IsCounted p a r s
    → IsCounted p (count_content a recno n) (r + n) s
unfolding count_content
count_content-IsCounted p a r recno n none k = record {
  unverified = rw k.announced k.unverified;
  quiet = k.quiet;
  received = rw k.received refl;
  announced = k.announced;
  persists = rw k.announced k.persists;
}
count_content-IsCounted p a r recno n (some s) k = elim (Bool-cases (leb s (r + n))) [
  | inl l ↦ record {
    unverified = rw (k.announced, k.received, l) (cleared_vrfy a.flags ∙ k.unverified);
    quiet = k.quiet;
    received = rw k.received refl;
    announced = k.announced;
    persists = rw (k.announced, k.received, l) (cleared a.flags ∙ sym (and_false p));
  }
  | inr l ↦
      let less : leb s r ≡ false = ground (arith, l) in
      record {
        unverified = rw (k.announced, k.received, l) k.unverified;
        quiet = k.quiet;
        received = rw k.received refl;
        announced = k.announced;
        persists = rw (k.announced, k.received, l) (k.persists ∙ rw less refl);
      }
]

ack_data_content-IsCounted :
    (c : Crypto) (p : Bool) (a : Answers) (new : Datum) (ds : List PbDatum) (r : ℕ) (s : Option ℕ)
    → IsCounted p a r s
    → (estat : EpStat) × (a' : Answers) × (ack_data_content c a new ds ≡ some (estat, a'))
      × IsCounted p a' (r + length ds) s
unfolding ack_data_content datum_from_pb
ack_data_content-IsCounted c p a new [] r s k =
    (record_missing, a, refl, subst (λ x. IsCounted p a x s) (omega arith) k)
ack_data_content-IsCounted c p a new (d ∷ ds) r s k =
    let recno = (last_of d ds).recno in
    let n = length (d ∷ ds) in
    (
      stat_from_ack 133,
      count_content a recno n,
      rw (ack_data_content, k.unverified) refl,
      count_content-IsCounted p a r recno n s k,
    )

all_contents-IsCounted :
    (c : Crypto) (p : Bool) (a : Answers) (new : Datum) (all : List (List PbDatum)) (r : ℕ)
    (s : Option ℕ)
    → IsCounted p a r s
    → (a' : Answers) × (all_contents c a new all ≡ some a') × IsCounted p a' (r + total all) s
unfolding all_contents total
all_contents-IsCounted c p a new [] r s k =
    (a, refl, subst (λ x. IsCounted p a x s) (omega arith) k)
all_contents-IsCounted c p a new (ds ∷ rest) r s k =
    let (estat, a1, run, k1) = ack_data_content-IsCounted c p a new ds r s k in
    let (a', runs, k2) = all_contents-IsCounted c p a1 new rest (r + length ds) s k1 in
    (a', rw (all_contents, run) runs, subst (λ x. IsCounted p a' x s) (omega arith) k2)

no_events :
    (fuel : ℕ) (now : TimeSpec) (q : Queues) (req : Req)
    → req.events ≡ []
    → trigger_pending (suc fuel) now true q req ≡ some (q, req)
unfolding trigger_pending
no_events fuel now q req e =
    rw (trigger_pending, e) (ap (λ (x : List ℕ). some (q, record req { events = x })) e)

ack_end_results-IsCounted :
    (fuel : ℕ) (now : TimeSpec) (p : Bool) (a : Answers) (r m : ℕ)
    → IsCounted p a r none
    → m < 2 ^ 63
    → (estat : EpStat) × (a' : Answers) × (ack_end_results (suc fuel) now a m ≡ some (estat, a'))
      × IsCounted p a' r (some m)
unfolding ack_end_results announced has_come
ack_end_results-IsCounted fuel now p a r m k small =
    let below : ltb m (2 ^ 63) ≡ true = ground (arith, small) in
    let fits : announced m ≡ some m = rw (announced, below) refl in
    let come : has_come (announced m) a.r_results ≡ leb m r =
      ap (λ o. has_come o a.r_results) fits ∙ ap (leb m) k.received in
    elim (Bool-cases (leb m r)) [
      | inl l ↦ (
        stat_ok,
        record a {
          s_results = some m;
          events = record a.events { persist = bitset req_persist a.flags };
          flags = clear_persist a.flags;
        },
        rw
            (
              ack_end_results,
              come ∙ l,
              no_events fuel now a.queues (record a.events { persist = bitset req_persist a.flags })
                  k.quiet,
            )
            (ap
              (λ (o : Option ℕ). some (
                stat_ok,
                record a {
                  s_results = o;
                  events = record a.events { persist = bitset req_persist a.flags };
                  flags = clear_persist a.flags;
                },
              ))
              fits),
        record {
          unverified = cleared_vrfy a.flags ∙ k.unverified;
          quiet = k.quiet;
          received = k.received;
          announced = refl;
          persists = cleared a.flags ∙ rw l (sym (and_false p));
        },
      )
      | inr l ↦ (
        stat_ok,
        record a { s_results = some m },
        rw (ack_end_results, come ∙ l, fits) refl,
        record {
          unverified = k.unverified;
          quiet = k.quiet;
          received = k.received;
          announced = refl;
          persists = k.persists ∙ rw l refl;
        },
      )
    ]

-- A request that is not to verify content, has no events and no results yet, gets contents, then the number
-- of results announced, then more contents, where that number and the number of their records are below
-- 2^63: with any fuel but 0 every answer is handled, the results received are the records of all contents,
-- and the request persists afterwards where it did before and fewer records have come than were announced,
-- whichever came before the announcement.
pub all_contents-ack_end_results :
    (c : Crypto) (fuel : ℕ) (now : TimeSpec) (a : Answers) (new : Datum)
    → (before after : List (List PbDatum)) (nresults : ℕ) → bitset req_vrfy_content a.flags ≡ false
    → a.events.events ≡ []
    → a.r_results ≡ 0
    → a.s_results ≡ none
    → nresults < 2 ^ 63
    → total before + total after < 2 ^ 63
    → (a1 : Answers) × (estat : EpStat) × (a2 a3 : Answers) × (all_contents c a new before
        ≡ some a1)
      × (ack_end_results (suc fuel) now a1 nresults ≡ some (estat, a2))
      × (all_contents c a2 new after ≡ some a3)
      × (a3.r_results ≡ total before + total after)
      × (bitset req_persist a3.flags
          ≡ bitset req_persist a.flags && not (leb nresults (total before + total after)))
all_contents-ack_end_results c fuel now a new before after nresults v q r s small few =
    let start : IsCounted (bitset req_persist a.flags) a 0 none = record {
      unverified = v;
      quiet = q;
      received = r;
      announced = s;
      persists = sym (and_true (bitset req_persist a.flags));
    } in
    let (a1, run1, k1) = all_contents-IsCounted c _ a new before 0 none start in
    let (estat, a2, run2, k2) =
      ack_end_results-IsCounted fuel now _ a1 (0 + total before) nresults k1 small in
    let (a3, run3, k3) =
      all_contents-IsCounted c _ a2 new after (0 + total before) (some nresults) k2 in
    let sums : (0 + total before) + total after ≡ total before + total after = omega arith in
    (
      a1,
      estat,
      a2,
      a3,
      run1,
      run2,
      run3,
      k3.received ∙ sums,
      k3.persists ∙ ap (λ x. bitset req_persist a.flags && not (leb nresults x)) sums,
    )
