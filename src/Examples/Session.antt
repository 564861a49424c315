-- ===== src/Examples/Session.antt =====
-- The theorems about a session at a server with two programs.
use ieee_2030_5_client_go.Shared.{
  ℕ, ◌≡◌, ◌≢◌, refl, true, false, List, [], ◌∷◌, Option, none, some, String, arith, eq_iff, pos,
  sec,
}
use ieee_2030_5_client_go.Shared.Map.{insert, lookup, string_eq}
use ieee_2030_5_client_go.Sep2.{DerControl}
use ieee_2030_5_client_go.Scheduler.{new_scheduler}
use ieee_2030_5_client_go.ControlCache.{Cache}
use ieee_2030_5_client_go.Session.{step_events, diff_snapshots, changed_in, removed_from}
use ieee_2030_5_client_go.Session.Programs.{Program, select_highest_priority}
use ieee_2030_5_client_go.Session.Walk.{
  Server, ProgramWalk, walk_programs, answers, fsa_phase, program_phase, walk_tree,
}
use ieee_2030_5_client_go.Session.Follow.{
  Reads, Session, new_session, starting, begin_following, follow_step, finds, begins, at_once,
  then_on, SessionReaches,
}
use ieee_2030_5_client_go.Session.Backed.{IsBacked, step_events-IsBacked}
use ieee_2030_5_client_go.Session.Chosen.{Chosen, walk_programs-Chosen}
use ieee_2030_5_client_go.Session.Lives.{begin-IsBacked, Driven, reaches-Driven}
use ieee_2030_5_client_go.StateMachine.{new_state_machine}
use ieee_2030_5_client_go.StateMachine.Invariant.{new_state_machine-IsResting}
use ieee_2030_5_client_go.Examples.Platform.{test_platform}
use ieee_2030_5_client_go.Examples.Scheduler.{two_events, early, late, empty_scheduler}

abbrev low : Program
low = record {
  mrid = "low";
  primacy = 10;
  default_link = none;
  control_list_link = some "/derp/1/derc";
  curve_list_link = none;
}

abbrev high : Program
high = record low { mrid = "high"; primacy = 1; control_list_link = some "/derp/2/derc" }

abbrev programs : List Program
programs = low ∷ high ∷ []

abbrev server : Server
server = record {
  fsa_list = λ href. some (record { program_list_link = some "/derp" } ∷ [], "");
  program_list = λ href. some programs;
  reads_default = λ href. true;
  reads_controls = λ href. true;
  reads_curves = λ href. true;
}

abbrev chosen : ProgramWalk
chosen = record { prog = some high; unreadable = [] }

walked : walk_programs false (server ∷ []) (some "/fsa") ≡ answers chosen (server ∷ [])
unfolding walk_programs fsa_phase program_phase walk_tree insert select_highest_priority
walked = refl

walk_programs-Chosen_example : Chosen (server ∷ []) (some "/fsa") high (server ∷ [])
walk_programs-Chosen_example =
    walk_programs-Chosen false (server ∷ []) (server ∷ []) (some "/fsa") chosen high walked refl

abbrev listing : Reads ℕ
listing = record {
  now = sec (pos 0);
  default_read = none;
  list_read = some (record { der_control = two_events; rejected = [] }, "");
}

abbrev found : Session test_platform ℕ
found = record (new_session test_platform ℕ none) { phase = starting high }

abbrev listed_once : Session test_platform ℕ
listed_once = (follow_step test_platform ℕ listing (begin_following test_platform 0 high) found).0

path : SessionReaches test_platform ℕ (new_session test_platform ℕ none) listed_once
unfolding new_session
path =
    then_on
      (then_on at_once
        (finds 0 false (server ∷ []) (server ∷ []) (some "/fsa") chosen high refl walked refl))
      (begins high 0 listing refl)

base_of : DerControl → Option ℕ
base_of c = some c.payload

reaches-Driven_example :
    Driven test_platform ℕ base_of "follow" listed_once.phase listed_once.sm listed_once.default_ctl
reaches-Driven_example = reaches-Driven test_platform ℕ base_of "follow" none listed_once path

abbrev polled : Cache
polled = record { controls = ("early", early.source) ∷ ("late", late.source) ∷ []; rejected = [] }

early_named : ◌≢◌ {A = String} "early" ""
early_named = ground (arith, eq_iff "early" "")

late_named : ◌≢◌ {A = String} "late" ""
late_named = ground (arith, eq_iff "late" "")

step_events-IsBacked_example :
    let (sm, sched, _, curr) =
      step_events test_platform (sec (pos 0)) polled [] new_state_machine empty_scheduler in
    (curr ≡ polled.controls) × IsBacked curr sm sched.queue
unfolding new_state_machine new_scheduler
step_events-IsBacked_example =
    step_events-IsBacked test_platform (sec (pos 0)) polled [] new_state_machine empty_scheduler tt
      (refl, early_named, (refl, late_named, tt))
      (begin-IsBacked test_platform ℕ 7 new_state_machine (new_state_machine-IsResting, refl))

-- A control that the server took off its list is cancelled, and one that is new is added.
diff_snapshots_test :
    diff_snapshots (("early", early.source) ∷ []) (("late", late.source) ∷ [])
    ≡ (late.source ∷ [], early.source ∷ [])
unfolding diff_snapshots changed_in removed_from lookup
diff_snapshots_test = refl
