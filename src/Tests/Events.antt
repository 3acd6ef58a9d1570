-- ===== src/Tests/Events.antt =====
-- Events that wait in a request: data in order and out of order, and the end of the results.
use gdp.Base.{ℕ, ◌≡◌, refl, Bool, true, false, none, some, List, [], ◌∷◌, if◌then◌else◌, ◌==◌}
use gdp.Time.{TimeSpec, time_before, time_diff_usec}
use gdp.Event.{Event, Queues, Req, modulo_gt, event_trigger, insert_active, event_put_free}
use gdp.Event.Queue.{rev_append, insert_pending, insert_walk, trigger_pending}
use gdp.Event.Stuck.{has_done, trigger_pending_stuck}
use gdp.Event.Next.{free_all, event_free_all}

-- The event at an address has it as its sequence number; the one at 9 is the end of the results.
abbrev events : ℕ → Event
events g = record {
  type = if g == 9 then 2 else 1;
  gin = 4;
  cb = g == 2;
  timeout = record { tv_sec = 50; tv_nsec = 0 };
  seqno = g;
}

abbrev queues : Queues
queues = record { st = events; free_list = []; active_list = 7 ∷ []; callback_list = [] }

abbrev now : TimeSpec
now = record { tv_sec = 40; tv_nsec = 5 }

abbrev request : Bool → List ℕ → Req
request persist gs = record { events = gs; seqnext = 1; persist = persist; ev_to = none }

-- The first two are the next ones, and the third waits for its time, 10 seconds on.
two_delivered :
    trigger_pending 4 now false queues (request false (1 ∷ 2 ∷ 5 ∷ []))
    ≡ some (
      record { st = events; free_list = []; active_list = 7 ∷ 1 ∷ []; callback_list = 2 ∷ [] },
      record { events = 5 ∷ []; seqnext = 3; persist = false; ev_to = some (10000000, false) },
    )
unfolding trigger_pending event_trigger insert_active time_before time_diff_usec
two_delivered = refl

-- An event with number 2 goes between those with 3 and 5.
late_event : insert_pending events 2 (5 ∷ 3 ∷ 1 ∷ []) ≡ 1 ∷ 3 ∷ 2 ∷ 5 ∷ []
unfolding insert_pending insert_walk rev_append modulo_gt
late_event = refl

-- When a log is closed, its event is freed and stays on the active list.
on_both_lists :
    ((event_free_all queues 4).active_list ≡ 7 ∷ [])
    × ((event_free_all queues 4).free_list ≡ 7 ∷ [])
unfolding event_free_all free_all event_put_free
on_both_lists = (refl, refl)

trigger_pending_stuck_example :
    trigger_pending 1000 now true queues (request true (1 ∷ 9 ∷ [])) ≡ none
unfolding has_done
trigger_pending_stuck_example =
    trigger_pending_stuck 1000 now queues (request true (1 ∷ 9 ∷ [])) refl refl

abbrev half : TimeSpec
half = record { tv_sec = 1; tv_nsec = 500000000 }
