-- ===== src/Logd/Single.antt =====
-- Appending one record (`cmd_append` of gdplogd/logd_proto.c).
use gdp.Base.{
  ==_iff, ℕ, suc, ◌+◌, ◌^◌, ◌<◌, ◌≡◌, refl, sym, ap, ◌∙◌, arith, true, false, ◌||◌, ◌⊎◌, inl, inr,
  none, some, List, [], ◌∷◌, ◌++◌, length, length-append, ◌==◌, leb, bitset, Bool-cases,
  Option-cases,
}
use mathlib.Core.Path.{subst}
use gdp.Stat.{stat_is_ok}
use gdp.Datum.{Datum}
use gdp.Datum.Message.{PbDatum, datum_to_pb, datum_from_pb, empty_pb}
use gdp.Datum.Digest.{Crypto}
use gdp.Logd.{
  PhysImpl, LogGob, Reply, ack_success, nak_resp, has_recno, nak_badopt, nak_c_badopt,
  nak_c_conflict, record_duplicated, recno_seq_error, nak_c_forbidden, forgive_log_gaps,
  forgive_log_dups,
}
use gdp.Logd.Append.{
  LogdConfig, check_recno, check_recnos, check_sig, append_all, notify_all, do_append, cmd_append,
}

-- The records have the numbers after `n`, in order.
abbrev pub IsNumbered : ℕ → List Datum → Type 0
IsNumbered n [] = Unit
IsNumbered n (d ∷ ds) = (d.recno ≡ suc n) × IsNumbered (suc n) ds

-- A log holds the records from 1 up to the number of its last one, in order and without a gap.
pub record IsLog (P : PhysImpl) (log : LogGob P) : Type 0 where
  pub numbered : IsNumbered 0 (P.contents log.phys)
  pub size : length (P.contents log.phys) ≡ log.nrecs

beyond : (n r : ℕ) (ds : List Datum) → IsNumbered n ds → n + length ds < r → has_recno r ds ≡ false
unfolding has_recno
beyond n r [] h l = refl
beyond n r (d ∷ ds) (h, hs) l =
    rw (beyond (suc n) r ds hs (omega (arith, l))) (ground (arith, h, l))

within :
    (n r : ℕ) (ds : List Datum)
    → IsNumbered n ds
    → n < r
    → r < suc (n + length ds)
    → has_recno r ds ≡ true
unfolding has_recno
within n r [] h a b = absurd (omega (arith, a, b))
within n r (d ∷ ds) (h, hs) a b = elim (Bool-cases (suc n == r)) [
  | inl e ↦ rw (h, e) refl
  | inr e ↦ rw (within (suc n) r ds hs (ground (arith, a, e)) (omega (arith, b))) (ground arith)
]

extended :
    (n : ℕ) (ds : List Datum) (d : Datum)
    → IsNumbered n ds
    → d.recno ≡ suc (n + length ds)
    → IsNumbered n (ds ++ (d ∷ []))
extended n [] d h e = (omega (arith, e), tt)
extended n (x ∷ xs) d (h, hs) e = (h, extended (suc n) xs d hs (omega (arith, e)))

module _ (c : Crypto) (P : PhysImpl) (conf : LogdConfig) where
  -- Without forgiveness, only the next number passes.
  check_recno-next :
      (log : LogGob P) (recno : ℕ)
      → IsLog P log
      → bitset forgive_log_gaps conf.forgive ≡ false
      → bitset forgive_log_dups conf.forgive ≡ false
      → check_recno c P conf log recno ≡ none
      → recno ≡ suc log.nrecs
  unfolding check_recno
  check_recno-next log recno ok g d e = elim (Bool-cases (recno == suc log.nrecs)) [
    | inl n ↦ (==_iff recno (suc log.nrecs)).0 n
    | inr n ↦ elim (Bool-cases ((recno == 0) || leb (2 ^ 63) recno)) [
      | inl z ↦
          let no : some (nak_resp nak_c_badopt nak_badopt none) ≡ none =
            sym (rw (check_recno, z) refl) ∙ e in
          absurd (cc no)
      | inr z ↦ elim (Bool-cases (leb recno log.nrecs)) [
        | inl l ↦
            let there : P.recno_exists log.phys recno ≡ true =
              P.recno_exists_lem log.phys recno
              ∙ within 0 recno (P.contents log.phys) ok.numbered (ground (arith, z))
                  (ground (arith, l, ok.size)) in
            let no : some (nak_resp nak_c_conflict record_duplicated none) ≡ none =
              sym (rw (check_recno, z, n, l, d, there) refl) ∙ e in
            absurd (cc no)
        | inr l ↦
            let no : some (nak_resp nak_c_forbidden recno_seq_error none) ≡ none =
              sym (rw (check_recno, z, n, l, g) refl) ∙ e in
            absurd (cc no)
      ]
    ]
  ]

  abbrev pub IsStored : LogGob P → Datum → LogGob P → Type 0
  IsStored log d log' =
      IsLog P log'
      × (log'.nrecs ≡ suc log.nrecs)
      × (P.contents log'.phys ≡ P.contents log.phys ++ (d ∷ []))

  abbrev pub IsUnchanged : LogGob P → LogGob P → Type 0
  IsUnchanged log log' =
      IsLog P log' × (log'.nrecs ≡ log.nrecs) × (P.contents log'.phys ≡ P.contents log.phys)

  pub do_append-IsStored :
      (log : LogGob P) (d : Datum) (pbd : PbDatum)
      → IsLog P log
      → d.recno ≡ suc log.nrecs
      → stat_is_ok (P.append (P.xact_begin log.phys) d).0 ≡ true
      → IsStored log d (do_append c P conf log d pbd []).0
        × ((do_append c P conf log d pbd []).1 ≡ ack_success (suc log.nrecs))
        × ((do_append c P conf log d pbd []).2 ≡ datum_to_pb d empty_pb ∷ [])
  unfolding do_append append_all notify_all
  do_append-IsStored log d pbd ok n o =
      let s0 = P.xact_begin log.phys in
      let fresh : has_recno d.recno (P.contents s0) ≡ false =
        ap (λ ds. has_recno d.recno ds) (P.begin_lem log.phys)
        ∙ beyond 0 d.recno (P.contents log.phys) ok.numbered (omega (arith, n, ok.size)) in
      let held : P.contents (P.xact_end (P.append s0 d).1) ≡ P.contents log.phys ++ (d ∷ []) =
        P.end_lem (P.append s0 d).1
        ∙ P.append_lem s0 d fresh o
        ∙ ap (λ ds. ds ++ (d ∷ [])) (P.begin_lem log.phys) in
      rw (do_append, append_all, notify_all, o)
        (
          (
            record {
              numbered =
                  subst (IsNumbered 0) (sym held)
                    (extended 0 (P.contents log.phys) d ok.numbered (omega (arith, n, ok.size)));
              size =
                  ap length held
                  ∙ omega (arith, length-append (P.contents log.phys) (d ∷ []), ok.size);
            },
            refl,
            held,
          ),
          refl,
          refl,
        )

  do_append_failed :
      (log : LogGob P) (d : Datum) (pbd : PbDatum)
      → IsLog P log
      → stat_is_ok (P.append (P.xact_begin log.phys) d).0 ≡ false
      → IsUnchanged log (do_append c P conf log d pbd []).0
        × ((do_append c P conf log d pbd []).2 ≡ [])
  unfolding do_append append_all
  do_append_failed log d pbd ok o =
      let held = P.abort_lem log.phys d in
      rw (do_append, append_all, o)
        (
          (
            record {
              numbered = subst (IsNumbered 0) (sym held) ok.numbered;
              size = ap length held ∙ ok.size;
            },
            refl,
            held,
          ),
          refl,
        )

  -- The check of the signature reads through a null pointer; or it, or a check before it, or the
  -- physical layer refuses the record, and then the log is unchanged; or the record is stored.
  abbrev pub IsAnswered : LogGob P → Datum → PbDatum → Type 0
  IsAnswered log new pbd =
      let d = datum_from_pb new pbd pbd.sig in
      ((cmd_append c P conf log new (pbd ∷ []) ≡ none)
        × (check_sig c P conf log.sign d pbd.sig ≡ none))
      ⊎ ((log' : LogGob P) × (reply : Reply) × (told : List PbDatum) × (cmd_append c P conf log new
              (pbd ∷ [])
            ≡ some (log', reply, told))
          × ((IsUnchanged log log' × (told ≡ []))
              ⊎ ((pbd.recno ≡ suc log.nrecs)
                  × IsStored log d log'
                  × (reply ≡ ack_success (suc log.nrecs))
                  × (told ≡ datum_to_pb d empty_pb ∷ []))))

  -- Without forgiveness for gaps and duplicates, and for any record: a log with the records 1 to its last
  -- number, each once and in order, is such a log afterwards. Only a record with the next number is
  -- stored, behind the others, with an acknowledgement that has its number, and it is sent to the
  -- subscribers; in every other case the records stay as they are, and nothing is sent to them. The only
  -- case with no answer is that the check of the signature reads through a null pointer.
  pub cmd_append_answer :
      (log : LogGob P) (new : Datum) (pbd : PbDatum)
      → IsLog P log
      → bitset forgive_log_gaps conf.forgive ≡ false
      → bitset forgive_log_dups conf.forgive ≡ false
      → IsAnswered log new pbd
  unfolding cmd_append check_recnos datum_from_pb
  cmd_append_answer log new pbd ok g dup =
      let d = datum_from_pb new pbd pbd.sig in
      elim (Option-cases (check_recno c P conf log pbd.recno)) [
        | inr (reply, r) ↦
            inr
              (log, reply, [], rw (cmd_append, check_recnos, r) refl, inl ((ok, refl, refl), refl))
        | inl r ↦ elim (Option-cases (check_sig c P conf log.sign d pbd.sig)) [
          | inl s ↦ inl (rw (cmd_append, check_recnos, r, s) refl, s)
          | inr ((failed, sign), s) ↦
              let log1 : LogGob P = record { sign = sign; nrecs = log.nrecs; phys = log.phys } in
              let ok1 : IsLog P log1 = record { numbered = ok.numbered; size = ok.size } in
              elim (Option-cases failed) [
                | inr (estat, f) ↦ inr (
                  log1,
                  nak_resp nak_c_forbidden estat (some log.nrecs),
                  [],
                  rw (cmd_append, check_recnos, r, s, f) refl,
                  inl ((ok1, refl, refl), refl),
                )
                | inl f ↦
                    let n : pbd.recno ≡ suc log.nrecs = check_recno-next log pbd.recno ok g dup r in
                    let out = do_append c P conf log1 d pbd [] in
                    inr (
                      out.0,
                      out.1,
                      out.2,
                      rw (cmd_append, check_recnos, r, s, f) refl,
                      elim (Bool-cases (stat_is_ok (P.append (P.xact_begin log.phys) d).0)) [
                        | inl o ↦
                            let (a, b, t) = do_append-IsStored log1 d pbd ok1 n o in
                            inr (n, a, b, t)
                        | inr o ↦ inl (do_append_failed log1 d pbd ok1 o)
                      ],
                    )
              ]
        ]
      ]
