-- ===== src/Examples/Scheduler.antt =====
-- Tests of the scheduler, and its theorems at concrete inputs.
use ieee_2030_5_client_go.Shared.{
  ℕ, ◌≡◌, refl, List, [], ◌∷◌, none, some, String, arith, pos, negsuc, sec, ◌+ℤ◌,
}
use ieee_2030_5_client_go.Sep2.{DerControl}
use ieee_2030_5_client_go.Scheduler.{
  Scheduler, ScheduledEvent, entry_of, compute_window, on_events_added, remove_by_mrid, add_event,
  add_events, apply_randomize_start, apply_randomize_duration,
}
use ieee_2030_5_client_go.Scheduler.Window.{InStartWindow, InDurationWindow, compute_window_bounds}
use ieee_2030_5_client_go.Scheduler.Queue.{occurs}
use ieee_2030_5_client_go.Scheduler.Order.{IsQueue, on_events_added-IsQueue}
use ieee_2030_5_client_go.Examples.Platform.{test_platform}

-- An event without randomization.
abbrev pub event : String → ℕ → ℕ → DerControl
event m start duration = record {
  mrid = m;
  interval = some (record { start = pos start; duration = duration });
  randomize_start = none;
  randomize_duration = none;
  status = none;
  reply_to = "";
  response_required = none;
  payload = 0;
}

abbrev pub jittered : DerControl
jittered = record (event "a" 100 60) {
  randomize_start = some (negsuc 9);
  randomize_duration = some (pos 3);
}

abbrev pub empty_scheduler : Scheduler test_platform
empty_scheduler = record { queue = []; rng = 7 }

pub empty-IsQueue : IsQueue empty_scheduler.queue
unfolding occurs
empty-IsQueue = record { sorted = tt; unique = λ m. omega arith; entries = tt }

-- The later fire time comes first in the list, and second in the queue.
abbrev pub two_events : List DerControl
two_events = event "late" 200 60 ∷ event "early" 100 60 ∷ []

abbrev pub early : ScheduledEvent
early = entry_of (event "early" 100 60) (pos 100000000000) (pos 160000000000)

abbrev pub late : ScheduledEvent
late = entry_of (event "late" 200 60) (pos 200000000000) (pos 260000000000)

pub two_queued :
    (on_events_added test_platform empty_scheduler two_events).queue ≡ early ∷ late ∷ []
unfolding on_events_added add_events add_event compute_window apply_randomize_start
    apply_randomize_duration remove_by_mrid sec ◌+ℤ◌
two_queued = refl

compute_window_bounds_example :
    let (fire, expire, _) =
      compute_window test_platform jittered (record { start = pos 100; duration = 60 }) 7 in
    InStartWindow (sec (pos 100)) (some (negsuc 9)) fire
    × InDurationWindow 60 (some (pos 3)) fire expire
compute_window_bounds_example =
    compute_window_bounds test_platform jittered (record { start = pos 100; duration = 60 }) 7

abbrev pub filled : Scheduler test_platform
filled = record { queue = early ∷ late ∷ []; rng = 7 }

pub filled-IsQueue : IsQueue filled.queue
filled-IsQueue =
    let h = on_events_added-IsQueue test_platform empty_scheduler two_events empty-IsQueue in
    rw two_queued at h
