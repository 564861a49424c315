-- ===== src/Examples/Polling.antt =====
-- The theorem about the polling loop, at a server that moves the list and fails once.
use ieee_2030_5_client_go.Shared.{
  ◌≡◌, refl, Bool, ◌+◌, true, List, [], ◌∷◌, none, String, if◌then◌else◌, str_eq, length,
}
use ieee_2030_5_client_go.ControlCache.{ListResult, new_cache, update, refresh}
use ieee_2030_5_client_go.ControlCache.Polling.{
  Answer, fails, lists, Round, ticks, Poller, poll_der_control_list, poll_rounds, poll_once,
  take_answer, cache_after, last_list, Undisturbed, followed, poll_der_control_list_lem,
}
use ieee_2030_5_client_go.Examples.Scheduler.{event, two_events}

abbrev one_list : ListResult
one_list = record { der_control = event "late" 200 60 ∷ []; rejected = [] }

abbrev both_list : ListResult
both_list = record { der_control = two_events; rejected = [] }

-- The list has moved from /old to /new, and holds one control and then two.
abbrev moves : String → Answer
moves href = if str_eq href "/old" then lists one_list "/new" else fails

abbrev serves : String → Answer
serves href = if str_eq href "/new" then lists both_list "" else fails

abbrev down : String → Answer
down href = fails

abbrev rounds : List Round
rounds = ticks serves ∷ ticks down ∷ []

abbrev polled : Poller
polled = record {
  href = "/new";
  cache = update new_cache both_list;
  asked = "/new" ∷ "/new" ∷ "/old" ∷ [];
}

poll_der_control_list_lem_example :
    (◌≡◌ {A = Bool} true true)
    × (polled.cache ≡ cache_after new_cache (last_list "/old" none (ticks moves ∷ rounds)))
    × (length polled.asked ≡ length rounds + 1)
unfolding poll_der_control_list poll_rounds poll_once take_answer update refresh Undisturbed
    followed
poll_der_control_list_lem_example =
    poll_der_control_list_lem "/old" new_cache moves rounds polled true refl
      (refl, (refl, (refl, tt)))
