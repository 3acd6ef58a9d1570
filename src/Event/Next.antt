-- ===== src/Event/Next.antt =====
-- The next event for a client, and the events of a log that is closed (gdp/gdp_event.c).
use gdp.Base.{
  ℕ, zero, suc, ◌≡◌, refl, sym, ap, ◌∙◌, not, Option, none, some, List, [], ◌∷◌, if◌then◌else◌,
  ◌==◌,
}
use gdp.Event.{Event, Queues, event_free, event_put_free}

-- `TAILQ_REMOVE`
unfoldable pub take_out : ℕ → List ℕ → List ℕ
take_out gev [] = []
take_out gev (g ∷ gs) = let rest = take_out gev gs in if g == gev then gs else g ∷ rest

-- The inner loop of `gdp_event_next`: the first event for the log, or for any where none is given.
unfoldable pub find_event : (ℕ → Event) → (gin : Option ℕ) → List ℕ → Option ℕ
find_event st gin [] = none
find_event st gin (g ∷ gs) =
    let rest = find_event st gin gs in
    elim gin [ none ↦ some g | some i ↦ if (st g).gin == i then some g else rest ]

-- What `gdp_event_next` comes to: an event, or a wait for the list to change.
pub data Next : Type 0 where
  got : Queues → ℕ → Next
  waits : Queues → Next

-- `gdp_event_next`, up to its first wait; `none` is no fuel left. The lock is held all the time.
unfoldable pub event_next : (fuel : ℕ) → Queues → (gin : Option ℕ) → Option Next
event_next zero q gin = none
event_next (suc fuel) q gin = elim q.active_list [
  | [] ↦ some (waits q)
  | g ∷ gs ↦ elim (find_event q.st gin (g ∷ gs)) [
    | none ↦ event_next fuel q gin
    | some gev ↦
        let q1 : Queues = record q { active_list = take_out gev (g ∷ gs) } in
        let next = event_next fuel q1 gin in
        if (q.st gev).type == event_free then next else some (got q1 gev)
  ]
]

-- One of the two loops of `_gdp_event_free_all`, from an event on: the events and the free list, and
-- what is left of the list.
unfoldable pub free_all : Queues → (gin : ℕ) → List ℕ → Queues × List ℕ
free_all q gin [] = (q, [])
free_all q gin (g ∷ gs) =
    let (kept, rest) = free_all q gin gs in
    let (freed, rest1) = free_all (event_put_free q g).0 gin gs in
    if not ((q.st g).gin == gin)
    then (kept, g ∷ rest)
    else if (q.st g).type == event_free
    then (kept, rest)
    else (freed, g ∷ rest1)

-- `_gdp_event_free_all`
unfoldable pub event_free_all : Queues → (gin : ℕ) → Queues
event_free_all q gin =
    let (q1, callbacks) = free_all q gin q.callback_list in
    let q2 : Queues = record q1 { callback_list = callbacks } in
    let (q3, actives) = free_all q2 gin q2.active_list in record q3 { active_list = actives }

-- Where events are active and none is for the log, a client that asks for the next one never gets an
-- answer and never waits: it holds the lock of the list for ever.
pub event_next_stuck :
    (fuel : ℕ) (q : Queues) (gin : Option ℕ) (g : ℕ) (gs : List ℕ)
    → q.active_list ≡ g ∷ gs
    → find_event q.st gin q.active_list ≡ none
    → event_next fuel q gin ≡ none
unfolding event_next
event_next_stuck zero q gin g gs e n = refl
event_next_stuck (suc fuel) q gin g gs e n =
    let n' : find_event q.st gin (g ∷ gs) ≡ none = ap (find_event q.st gin) (sym e) ∙ n in
    rw (event_next, e, n') (event_next_stuck fuel q gin g gs e n)

-- One turn of `_gdp_event_thread`; `none` is a wait, and `call` is what the callback does.
unfoldable pub event_thread : (call : Queues → ℕ → Queues) → Queues → Option Queues
event_thread call q = elim q.callback_list [
  | [] ↦ none
  | gev ∷ rest ↦
      let q1 : Queues = record q { callback_list = rest } in
      let q2 = if (q1.st gev).cb then call q1 gev else q1 in
      some (if not ((q2.st gev).type == event_free) then (event_put_free q2 gev).0 else q2)
]
