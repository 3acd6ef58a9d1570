-- ===== src/Event/Trigger.antt =====
-- Which pending events are delivered, and where (`_gdp_event_trigger_pending` of gdp/gdp_event.c).
use gdp.Base.{ℕ, ◌≡◌, Bool, true, false, not, List, [], ◌∷◌, ◌++◌, if◌then◌else◌, ◌==◌}
use gdp.Time.{TimeSpec, time_before}
use gdp.Event.{Event, Queues, Req}

-- The events that are for a callback, or that are not.
unfoldable pub select : (ℕ → Event) → Bool → List ℕ → List ℕ
select st cb [] = []
select st cb (g ∷ gs) =
    if (if (st g).cb then cb else not cb) then g ∷ select st cb gs else select st cb gs

-- The first event is neither the next one nor due.
abbrev pub IsWaiting : (ℕ → Event) → TimeSpec → (seqnext : ℕ) → List ℕ → Type 0
IsWaiting st now seqnext [] = Unit
IsWaiting st now seqnext (g ∷ gs) =
    (((st g).seqno == seqnext) ≡ false) × (time_before now (st g).timeout ≡ true)

pub record IsDelivered (now : TimeSpec) (flush : Bool) (q q' : Queues) (req req' : Req)
    (done : List ℕ) : Type 0 where
  pub split : req.events ≡ done ++ req'.events
  pub active : q'.active_list ≡ q.active_list ++ select q.st false done
  pub callback : q'.callback_list ≡ q.callback_list ++ select q.st true done
  pub same : q'.st ≡ q.st
  pub waiting : IsWaiting q.st now req'.seqnext req'.events
  pub flushed : flush ≡ true → req'.events ≡ []
