-- ===== src/Supervisor/Run.antt =====
-- Run and Stop of internal/sim/gridlabd/supervisor.go as steps: each event is what a select, a call or
-- another goroutine gives.
use ieee_2030_5_client_go.Shared.{
  ◌≡◌, Bool, true, false, ◌||◌, List, [], ◌∷◌, ◌++◌, length, Option, none, some, if◌then◌else◌, ℤ,
  pos, ltb_ℤ,
}
use ieee_2030_5_client_go.Supervisor.{
  SupervisorConfig, StartError, Reason, cancelled, budget_exhausted, refused, Action, remove_socket,
  reap, close_client, before_run, first_starting, watching, checking, waiting, returned, Supervisor,
  stopped, mark_started, set_up, set_restarting, set_down, set_stopped, prune_restarts,
  backoff_delay,
}
use ieee_2030_5_client_go.Supervisor.Start.{StartInput, start_once, shutdown, kill_and_reap}

-- What Run is asked to end by: ctx.Done() or stopCh.
pub data Cause : Type 0 where
  by_ctx by_stop : Cause

unfoldable pub has_cause : Cause → Supervisor → Bool
has_cause by_ctx s = s.ctx_done
has_cause by_stop s = s.stop_closed

-- The result of Run.
unfoldable pub result_of : Cause → Option Reason
result_of by_ctx = some cancelled
result_of by_stop = none

abbrev pub act : List Action → Supervisor → Supervisor
act acts s = record s { actions = s.actions ++ acts }

abbrev pub ret : Option Reason → Supervisor → Supervisor
ret r s = record s { phase = returned r }

-- exitDuringRestart.
unfoldable pub exit_during_restart : Supervisor → Supervisor
exit_during_restart s = act (remove_socket ∷ []) (set_stopped s)

-- Stop, up to its wait for Run.
unfoldable pub stop_now : Supervisor → Supervisor
stop_now s = if s.started then record s { stop_closed = true } else record s { stopped = true }

-- The head of Run.
unfoldable pub begin_run : Supervisor → Supervisor
begin_run s =
    if s.stopped
    then ret none (mark_started (some cancelled) (record s { state = stopped }))
    else record s { started = true; phase = first_starting }

-- Run, from the result of the first start.
unfoldable pub after_first : Option StartError → Supervisor → Supervisor
after_first none s = record (mark_started none (set_up s)) { phase = watching }
after_first (some e) s =
    if s.ctx_done
    then ret (some cancelled) (mark_started (some cancelled) (set_stopped s))
    else ret (some (refused e)) (mark_started (some (refused e)) (set_down (refused e) s))

-- Run, from the result of a restart.
unfoldable pub after_restart : Option StartError → Supervisor → Supervisor
after_restart none s = record (set_up s) { phase = watching }
after_restart (some e) s = record s { phase = checking }

-- The head of the restart loop once neither cause is there, with the clock read at `now` and `next`.
unfoldable pub try_restart : SupervisorConfig → ℤ → ℤ → Supervisor → Supervisor
try_restart cfg now next s =
    let kept = prune_restarts now cfg.restart_window s.restarts in
    if ltb_ℤ (pos (length kept)) cfg.max_restarts
    then record s {
      restarts = kept ++ (next ∷ []);
      phase = waiting (backoff_delay (length kept) cfg.backoff_min cfg.backoff_max);
    }
    else ret (some budget_exhausted) (set_down budget_exhausted (record s { restarts = kept }))

-- A step of Run, from what its calls and selects give where it stands. `first` and `second` are the
-- answers of waitOrTimeout, `now` and `then_now` the two readings of the clock in a round of the
-- restart loop.
pub data RunStep (cfg : SupervisorConfig) (s : Supervisor) : Supervisor → Type 0 where
  begin : s.phase ≡ before_run → RunStep cfg s (begin_run s)
  first_start :
      (i : StartInput) (err : Option StartError) (acts : List Action)
      → s.phase ≡ first_starting
      → start_once cfg i ≡ some (err, acts)
      → RunStep cfg s (after_first err (act acts s))
  asked :
      (c : Cause) (first second : Bool)
      → s.phase ≡ watching
      → has_cause c s ≡ true
      → RunStep cfg s (ret (result_of c) (act (shutdown first second) (set_stopped s)))
  exited :
      s.phase ≡ watching
      → RunStep cfg s
          (record (act (reap ∷ (close_client ∷ [])) (set_restarting s)) { phase = checking })
  broken :
      s.phase ≡ watching
      → RunStep cfg s (record (act kill_and_reap (set_restarting s)) { phase = checking })
  restart :
      (now then_now : ℤ)
      → s.phase ≡ checking
      → (s.ctx_done || s.stop_closed) ≡ false
      → RunStep cfg s (try_restart cfg now then_now s)
  ended :
      (c : Cause)
      → s.phase ≡ checking
      → has_cause c s ≡ true
      → RunStep cfg s (ret (result_of c) (exit_during_restart s))
  interrupted :
      (d : ℤ) (c : Cause)
      → s.phase ≡ waiting d
      → has_cause c s ≡ true
      → RunStep cfg s (ret (result_of c) (exit_during_restart s))
  woken :
      (d : ℤ) (i : StartInput) (err : Option StartError) (acts : List Action)
      → s.phase ≡ waiting d
      → start_once cfg i ≡ some (err, acts)
      → RunStep cfg s (after_restart err (act acts s))

-- A step: the cancelling of the context and Stop, which other goroutines do, or one of Run.
pub data Step (cfg : SupervisorConfig) (s : Supervisor) : Supervisor → Type 0 where
  ctx_cancel : Step cfg s (record s { ctx_done = true })
  stop : Step cfg s (stop_now s)
  run : {u : Supervisor} → RunStep cfg s u → Step cfg s u

-- The states that steps lead to from `s`.
pub data Reaches (cfg : SupervisorConfig) (s : Supervisor) : Supervisor → Type 0 where
  here : Reaches cfg s s
  and_then : {t u : Supervisor} → Reaches cfg s t → Step cfg t u → Reaches cfg s u
