-- ===== src/Supervisor.antt =====
-- The supervisor of a fleet's simulator process: internal/sim/gridlabd/supervisor.go. Its settings,
-- its state and the changes of its state. Durations and instants are in nanoseconds. Goroutines,
-- mutexes and channels are left out: what a select or a call gives is an input of the step that
-- takes it. So are the log lines but the DOWN line.
pub mod Start
pub mod Run
pub mod Health
pub mod Started
pub mod Reaped
pub mod Stopping
pub mod Backoff
pub mod Budget
use ieee_2030_5_client_go.Shared.{
  ℕ, zero, suc, ◌+◌, ◌%◌, ◌^◌, Bool, true, false, List, [], ◌∷◌, ◌++◌, Option, none, some, String,
  if◌then◌else◌, ℤ, pos, ◌+ℤ◌, ◌-ℤ◌, ltb_ℤ, sec, is_some,
}

-- SupervisorConfig, without what is only handed on to the process.
pub record SupervisorConfig : Type 0 where
  pub fleet : String
  pub start_timeout : ℤ
  pub call_timeout : ℤ
  pub stop_grace : ℤ
  pub backoff_min : ℤ
  pub backoff_max : ℤ
  pub max_restarts : ℤ
  pub restart_window : ℤ

abbrev or_default : ℤ → ℤ → ℤ
or_default d x = if ltb_ℤ (pos 0) x then x else d

unfoldable pub with_defaults : SupervisorConfig → SupervisorConfig
with_defaults cfg = record cfg {
  start_timeout = or_default (sec (pos 30)) cfg.start_timeout;
  call_timeout = or_default (sec (pos 10)) cfg.call_timeout;
  stop_grace = or_default (sec (pos 5)) cfg.stop_grace;
  backoff_min = or_default (sec (pos 2)) cfg.backoff_min;
  backoff_max = or_default (sec (pos 60)) cfg.backoff_max;
  max_restarts = or_default (pos 5) cfg.max_restarts;
  restart_window = or_default (sec (pos 600)) cfg.restart_window;
}

-- SupervisorState.
pub data SupervisorState : Type 0 where
  starting up restarting down stopped : SupervisorState

-- What startOnce fails by.
pub data StartError : Type 0 where
  launch_failed socket_failed exited_during_start hello_failed : StartError
  wrong_protocol wrong_fleet : StartError

-- The errors that setDown and Run report: ctx.Err(), a refused first start and a spent budget.
pub data Reason : Type 0 where
  cancelled budget_exhausted : Reason
  refused : StartError → Reason

-- What is done to the sidecar and its socket. `reap` is a receive from proc.Wait().
pub data Action : Type 0 where
  remove_socket launch kill reap close_client ask_shutdown terminate down_line : Action

-- Where Run stands: before its start, in the first start, in the select of a sidecar that is up, before the checks of a
-- restart, in the wait before one, and returned.
pub data Phase : Type 0 where
  before_run first_starting watching checking : Phase
  waiting : ℤ → Phase
  returned : Option Reason → Phase

-- Supervisor, with the restarts and the place of Run. `conn` is the number of the start that
-- clientConn and proc are of, `stop_closed` that stopCh is closed, `ctx_done` that the context is
-- done, and `start_err` what startedCh has been closed with.
pub record Supervisor : Type 0 where
  pub conn : Option ℕ
  pub healthy : Bool
  pub gen : ℕ
  pub started : Bool
  pub stopped : Bool
  pub state : SupervisorState
  pub reason : Option Reason
  pub stop_closed : Bool
  pub ctx_done : Bool
  pub start_err : Option (Option Reason)
  pub restarts : List ℤ
  pub phase : Phase
  pub actions : List Action

unfoldable pub new_supervisor : Supervisor
new_supervisor = record {
  conn = none;
  healthy = false;
  gen = 0;
  started = false;
  stopped = false;
  state = starting;
  reason = none;
  stop_closed = false;
  ctx_done = false;
  start_err = none;
  restarts = [];
  phase = before_run;
  actions = [];
}

-- client: the connection while the sidecar is healthy.
unfoldable pub client : Supervisor → Option ℕ
client s = if s.healthy then s.conn else none

-- markStarted: only the first outcome is kept.
unfoldable pub mark_started : Option Reason → Supervisor → Supervisor
mark_started err s = record s { start_err = if is_some s.start_err then s.start_err else some err }

unfoldable pub set_up : Supervisor → Supervisor
set_up s = record s {
  conn = some ((s.gen + 1) % 2 ^ 64);
  healthy = true;
  gen = (s.gen + 1) % 2 ^ 64;
  state = up;
  reason = none;
}

unfoldable pub set_restarting : Supervisor → Supervisor
set_restarting s = record s { conn = none; healthy = false; state = restarting }

unfoldable pub set_down : Reason → Supervisor → Supervisor
set_down r s = record s {
  conn = none;
  healthy = false;
  state = down;
  reason = some r;
  actions = s.actions ++ (down_line ∷ []);
}

unfoldable pub set_stopped : Supervisor → Supervisor
set_stopped s = record s { conn = none; healthy = false; state = stopped }

-- pruneRestarts, at `now`.
unfoldable pub prune_restarts : ℤ → ℤ → List ℤ → List ℤ
prune_restarts now window [] = []
prune_restarts now window (t ∷ ts) =
    let rest = prune_restarts now window ts in if ltb_ℤ (now -ℤ window) t then t ∷ rest else rest

-- backoffDelay.
unfoldable pub backoff_delay : ℕ → ℤ → ℤ → ℤ
backoff_delay zero d limit = d
backoff_delay (suc n) d limit =
    let later = backoff_delay n (d +ℤ d) limit in if ltb_ℤ (d +ℤ d) limit then later else limit
