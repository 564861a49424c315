-- ===== src/Examples/Supervisor.antt =====
-- The theorems about the supervisor at a sidecar that starts, exits and is started again.
use ieee_2030_5_client_go.Shared.{
  ◌+◌, ◌≤◌, ◌≡◌, refl, true, false, List, [], ◌∷◌, none, some, pos, ◌-ℤ◌, ◌≤ℤ◌, sec, arith,
}
use ieee_2030_5_client_go.Supervisor.{
  SupervisorConfig, Action, remove_socket, launch, Supervisor, new_supervisor, set_up,
  set_restarting, mark_started, set_stopped, before_run, first_starting, watching, checking, reap,
  close_client,
}
use ieee_2030_5_client_go.Supervisor.Start.{
  ticked, StartInput, start_once, after_launch, after_socket, wait_for_socket, after_tick,
  check_hello, shutdown,
}
use ieee_2030_5_client_go.Supervisor.Run.{
  by_stop, has_cause, result_of, run, begin, first_start, asked, exited, restart, Reaches, here,
  and_then, begin_run, after_first, try_restart, act, ret,
}
use ieee_2030_5_client_go.Supervisor.Health.{IsConsistent, reaches-IsConsistent}
use ieee_2030_5_client_go.Supervisor.Reaped.{IsReaped, reaches-IsReaped}
use ieee_2030_5_client_go.Supervisor.Stopping.{
  RunSteps, none_yet, and_run, is_asked, steps_left, steps-bound,
}
use ieee_2030_5_client_go.Supervisor.Budget.{attempts, counted, attempts-bound}

abbrev cfg : SupervisorConfig
cfg = record {
  fleet = "north";
  start_timeout = sec (pos 30);
  call_timeout = sec (pos 10);
  stop_grace = sec (pos 5);
  backoff_min = sec (pos 2);
  backoff_max = sec (pos 60);
  max_restarts = pos 5;
  restart_window = sec (pos 600);
}

-- A start whose socket is there in the second round.
abbrev good : StartInput
good = record {
  launched = true;
  rounds =
      record { dialed = false; peer_is_process = false; tick = ticked }
      ∷ (record { dialed = true; peer_is_process = true; tick = ticked } ∷ []);
  hello = some (record { protocol = 1; fleet = "north" });
}

abbrev start_acts : List Action
start_acts = remove_socket ∷ (launch ∷ [])

good_start : start_once cfg good ≡ some (none, start_acts)
unfolding start_once after_launch after_socket wait_for_socket after_tick check_hello
good_start = refl

abbrev begun : Supervisor
begun = begin_run new_supervisor

abbrev watched : Supervisor
watched = after_first none (act start_acts begun)

abbrev gone : Supervisor
gone = record (act (reap ∷ (close_client ∷ [])) (set_restarting watched)) { phase = checking }

abbrev waited : Supervisor
waited = try_restart cfg (sec (pos 100)) (sec (pos 101)) gone

fresh_phase : new_supervisor.phase ≡ before_run
unfolding new_supervisor
fresh_phase = refl

begun_phase : begun.phase ≡ first_starting
unfolding begin_run new_supervisor
begun_phase = refl

watched_phase : watched.phase ≡ watching
unfolding after_first
watched_phase = refl

not_asked : is_asked gone ≡ false
unfolding after_first begin_run new_supervisor set_up set_restarting mark_started
not_asked = refl

abbrev path : Reaches cfg new_supervisor waited
path =
    and_then
      (and_then
        (and_then (and_then here (run (begin fresh_phase)))
          (run (first_start good none start_acts begun_phase good_start)))
        (run (exited watched_phase)))
      (run (restart (sec (pos 100)) (sec (pos 101)) refl not_asked))

reaches-IsConsistent_example : IsConsistent true waited
reaches-IsConsistent_example = reaches-IsConsistent cfg waited path

reaches-IsReaped_example : IsReaped waited
reaches-IsReaped_example = reaches-IsReaped cfg waited path

-- Stop while the sidecar is up: Run shuts it down in one step.
abbrev stopping : Supervisor
stopping = record watched { stop_closed = true }

abbrev ended : Supervisor
ended = ret (result_of by_stop) (act (shutdown false true) (set_stopped stopping))

stopping_cause : has_cause by_stop stopping ≡ true
unfolding has_cause
stopping_cause = refl

stopping_asked : is_asked stopping ≡ true
unfolding after_first begin_run new_supervisor set_up mark_started
stopping_asked = refl

abbrev one_step : RunSteps cfg stopping 1 ended
one_step = and_run none_yet (asked by_stop false true watched_phase stopping_cause)

steps-bound_example : 1 + steps_left ended.phase ≤ steps_left stopping.phase
steps-bound_example = steps-bound cfg stopping ended 1 stopping_asked one_step

attempts-bound_example : pos (counted (sec (pos 0)) (attempts cfg waited path)) ≤ℤ cfg.max_restarts
unfolding sec ◌-ℤ◌
attempts-bound_example =
    attempts-bound (sec (pos 0)) cfg waited path (omega arith) ((((tt, tt), tt), tt), omega arith)
