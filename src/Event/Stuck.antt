-- ===== src/Event/Stuck.antt =====
-- A request that persists, and the end of its results (`done_timeout` of gdp/gdp_event.c).
use gdp.Base.{
  ℕ, zero, suc, ◌+◌, ◌%◌, ◌≡◌, refl, arith, ap, ◌∙◌, Bool, true, false, ◌||◌, Option, none, List,
  [], ◌∷◌, ◌++◌, ◌==◌, Bool-cases, inl, inr,
}
use gdp.Time.{TimeSpec}
use gdp.Event.{Event, Queues, Req, event_free, event_done, event_trigger, insert_active, seqno_base}
use gdp.Event.Queue.{trigger_pending}

-- Some event is the end of the results.
unfoldable pub has_done : (ℕ → Event) → List ℕ → Bool
has_done st [] = false
has_done st (g ∷ gs) = ((st g).type == event_done) || has_done st gs

has_done-append :
    (st : ℕ → Event) (g : ℕ) (gs : List ℕ)
    → ((st g).type == event_done) ≡ true
    → has_done st (gs ++ (g ∷ [])) ≡ true
unfolding has_done
has_done-append st g [] d = rw d refl
has_done-append st g (x ∷ xs) d = ground (arith, has_done-append st g xs d)

stuck :
    (fuel : ℕ) (now : TimeSpec) (q : Queues) (events : List ℕ) (seqnext : ℕ)
    (ev_to : Option (ℕ × Bool))
    → has_done q.st events ≡ true
    → trigger_pending fuel now true q
        (record { events = events; seqnext = seqnext; persist = true; ev_to = ev_to })
      ≡ none
unfolding trigger_pending event_trigger insert_active has_done
stuck zero now q events seqnext ev_to h = refl
stuck (suc fuel) now q [] seqnext ev_to h = absurd (cc h)
stuck (suc fuel) now q (g ∷ rest) seqnext ev_to h =
    elim (Bool-cases ((q.st g).type == event_done)) [
      | inl d ↦
          let live : ((q.st g).type == event_free) ≡ false = ground (arith, d) in
          rw (event_trigger, d, insert_active, live)
            (stuck fuel now q (rest ++ (g ∷ [])) _ ev_to (has_done-append q.st g rest d))
      | inr d ↦ elim (Bool-cases (q.st g).cb) [
        | inl c ↦
            let q1 : Queues = record q { callback_list = insert_active q g q.callback_list } in
            rw (event_trigger, d, c)
              (stuck fuel now q1 rest (((q.st g).seqno + 1) % seqno_base) ev_to
                (ground (arith, h, d)))
        | inr c ↦
            let q1 : Queues = record q { active_list = insert_active q g q.active_list } in
            rw (event_trigger, d, c)
              (stuck fuel now q1 rest (((q.st g).seqno + 1) % seqno_base) ev_to
                (ground (arith, h, d)))
      ]
    ]

-- When the timer for the end of the results of a request that persists goes off, and the end is among
-- the events that are pending, the loop never ends: no fuel is enough.
pub trigger_pending_stuck :
    (fuel : ℕ) (now : TimeSpec) (q : Queues) (req : Req)
    → req.persist ≡ true
    → has_done q.st req.events ≡ true
    → trigger_pending fuel now true q req ≡ none
trigger_pending_stuck fuel now q req p h =
    ap (λ (b : Bool). trigger_pending fuel now true q (record req { persist = b })) p
    ∙ stuck fuel now q req.events req.seqnext req.ev_to h
