-- ===== src/Event/Pending.antt =====
-- The place of a new event among those pending (`insert_pending_event` of gdp/gdp_event.c).
use gdp.Base.{ℕ, ◌≡◌, refl, false, ◌||◌, List, [], ◌∷◌, if◌then◌else◌, ◌==◌, Bool-cases, inl, inr}
use gdp.Event.{Event, event_done, modulo_gt}
use gdp.Event.Queue.{rev_append, insert_walk, insert_pending}

in_front :
    (st : ℕ → Event) (gev last : ℕ) (before : List ℕ)
    → modulo_gt (st gev).seqno (st last).seqno ≡ false
    → insert_walk st gev before last [] ≡ rev_append before (gev ∷ last ∷ [])
unfolding insert_walk rev_append
in_front st gev last [] m = refl
in_front st gev last (prev ∷ before) m = rw (insert_walk, m) refl

-- Among events that are pending, a new one goes behind all where it is the end of the results or its
-- sequence number is greater than that of the last one; otherwise it goes right in front of the last
-- one, whatever the sequence numbers of the others are.
pub insert_pending_place :
    (st : ℕ → Event) (gev last : ℕ) (before : List ℕ)
    → insert_pending st gev (last ∷ before) ≡ (
        if ((st gev).type == event_done) || modulo_gt (st gev).seqno (st last).seqno
        then rev_append (last ∷ before) (gev ∷ [])
        else rev_append before (gev ∷ last ∷ []))
unfolding insert_pending insert_walk rev_append
insert_pending_place st gev last before = elim (Bool-cases ((st gev).type == event_done)) [
  | inl d ↦ rw (insert_pending, d) refl
  | inr d ↦ elim (Bool-cases (modulo_gt (st gev).seqno (st last).seqno)) [
    | inl m ↦ rw (insert_pending, d, m) refl
    | inr m ↦ rw (insert_pending, d, m) (in_front st gev last before m)
  ]
]
