-- ===== src/Supervisor/Reaped.antt =====
-- The processes that internal/sim/gridlabd/supervisor.go launches, and the receives from their Wait.
use ieee_2030_5_client_go.Shared.{
  ℕ, ◌+◌, ◌≡◌, refl, subst, Bool, true, false, List, ◌∷◌, [], ◌++◌, Option, none, some, ℤ, pos,
  ltb_ℤ, length, count_if-append, arith, Bool-cases, inl, inr,
}
use ieee_2030_5_client_go.Supervisor.{
  SupervisorConfig, StartError, Action, remove_socket, reap, down_line, close_client, Phase,
  watching, before_run, first_starting, checking, waiting, Supervisor, new_supervisor, mark_started,
  set_up, set_restarting, set_down, set_stopped, prune_restarts,
}
use ieee_2030_5_client_go.Supervisor.Start.{StartInput, start_once, shutdown, kill_and_reap}
use ieee_2030_5_client_go.Supervisor.Run.{
  Step, RunStep, ctx_cancel, stop, run, begin, first_start, asked, exited, broken, restart, ended,
  interrupted, woken, Reaches, here, and_then, stop_now, begin_run, after_first, after_restart,
  try_restart, exit_during_restart, act,
}
use ieee_2030_5_client_go.Supervisor.Started.{
  is_launch, is_reap, launches, reaps, live, IsBalanced, start_once-IsBalanced,
}

abbrev running : Phase → ℕ
running watching = 1
running _ = 0

-- Each process launched has been waited for, but the one that is being watched.
abbrev pub IsReaped : Supervisor → Type 0
IsReaped s = launches s.actions ≡ reaps s.actions + running s.phase

append_balance :
    (xs ys : List Action) (m n : ℕ)
    → launches xs ≡ reaps xs + m
    → launches ys + m ≡ reaps ys + n
    → launches (xs ++ ys) ≡ reaps (xs ++ ys) + n
append_balance xs ys m n h k =
    omega (arith, count_if-append is_launch xs ys, count_if-append is_reap xs ys, h, k)

start_balance :
    (cfg : SupervisorConfig) (i : StartInput) (err : Option StartError) (xs acts : List Action)
    → start_once cfg i ≡ some (err, acts)
    → launches xs ≡ reaps xs + 0
    → launches (xs ++ acts) ≡ reaps (xs ++ acts) + live err
unfolding IsBalanced
start_balance cfg i err xs acts e h =
    let own : IsBalanced (some (err, acts)) = subst IsBalanced e (start_once-IsBalanced cfg i) in
    append_balance xs acts 0 (live err) h (omega (arith, own))

at_phase :
    (s : Supervisor) (p : Phase)
    → s.phase ≡ p
    → IsReaped s
    → launches s.actions ≡ reaps s.actions + running p
at_phase s p e h = subst (λ q. launches s.actions ≡ reaps s.actions + running q) e h

begin-IsReaped :
    (s : Supervisor) → launches s.actions ≡ reaps s.actions + 0 → IsReaped (begin_run s)
unfolding begin_run mark_started
begin-IsReaped s h = elim (Bool-cases s.stopped) [ inl e ↦ rw e h | inr e ↦ rw e h ]

first-IsReaped :
    (err : Option StartError) (s : Supervisor)
    → launches s.actions ≡ reaps s.actions + live err
    → IsReaped (after_first err s)
unfolding after_first mark_started set_up set_down set_stopped
first-IsReaped none s h = h
first-IsReaped (some e) s h = elim (Bool-cases s.ctx_done) [
  | inl d ↦ rw d h
  | inr d ↦ rw d (append_balance s.actions (down_line ∷ []) 0 0 h refl)
]

restart-IsReaped :
    (err : Option StartError) (s : Supervisor)
    → launches s.actions ≡ reaps s.actions + live err
    → IsReaped (after_restart err s)
unfolding after_restart set_up
restart-IsReaped none s h = h
restart-IsReaped (some e) s h = h

try-IsReaped :
    (cfg : SupervisorConfig) (now then_now : ℤ) (s : Supervisor)
    → launches s.actions ≡ reaps s.actions + 0
    → IsReaped (try_restart cfg now then_now s)
unfolding try_restart set_down
try-IsReaped cfg now then_now s h =
    elim (Bool-cases
      (ltb_ℤ (pos (length (prune_restarts now cfg.restart_window s.restarts))) cfg.max_restarts)) [
        | inl e ↦ rw e h
        | inr e ↦ rw e (append_balance s.actions (down_line ∷ []) 0 0 h refl)
      ]

shutdown_balance :
    (first second : Bool) → launches (shutdown first second) + 1 ≡ reaps (shutdown first second) + 0
unfolding shutdown
shutdown_balance true second = refl
shutdown_balance false true = refl
shutdown_balance false false = refl

run-IsReaped :
    (cfg : SupervisorConfig) (s u : Supervisor) → RunStep cfg s u → IsReaped s → IsReaped u
unfolding exit_during_restart set_restarting set_stopped
run-IsReaped cfg s _ (begin e) h = begin-IsReaped s (at_phase s before_run e h)
run-IsReaped cfg s _ (first_start i err acts e f) h =
    first-IsReaped err (act acts s)
      (start_balance cfg i err s.actions acts f (at_phase s first_starting e h))
run-IsReaped cfg s _ (asked c first second e f) h =
    append_balance s.actions (shutdown first second) 1 0 (at_phase s watching e h)
      (shutdown_balance first second)
run-IsReaped cfg s _ (exited e) h =
    append_balance s.actions (reap ∷ (close_client ∷ [])) 1 0 (at_phase s watching e h) refl
run-IsReaped cfg s _ (broken e) h =
    append_balance s.actions kill_and_reap 1 0 (at_phase s watching e h) refl
run-IsReaped cfg s _ (restart now then_now e f) h =
    try-IsReaped cfg now then_now s (at_phase s checking e h)
run-IsReaped cfg s _ (ended c e f) h =
    append_balance s.actions (remove_socket ∷ []) 0 0 (at_phase s checking e h) refl
run-IsReaped cfg s _ (interrupted d c e f) h =
    append_balance s.actions (remove_socket ∷ []) 0 0 (at_phase s (waiting d) e h) refl
run-IsReaped cfg s _ (woken d i err acts e f) h =
    restart-IsReaped err (act acts s)
      (start_balance cfg i err s.actions acts f (at_phase s (waiting d) e h))

stop-IsReaped : (s : Supervisor) → IsReaped s → IsReaped (stop_now s)
unfolding stop_now
stop-IsReaped s h = elim (Bool-cases s.started) [ inl e ↦ rw e h | inr e ↦ rw e h ]

step-IsReaped : (cfg : SupervisorConfig) (s u : Supervisor) → Step cfg s u → IsReaped s → IsReaped u
step-IsReaped cfg s _ ctx_cancel h = h
step-IsReaped cfg s _ stop h = stop-IsReaped s h
step-IsReaped cfg s u (run p) h = run-IsReaped cfg s u p h

-- In every state that a new supervisor comes to, there have been as many receives from Wait as launches
-- of a process, or one fewer while a sidecar is being watched.
pub reaches-IsReaped :
    (cfg : SupervisorConfig) (u : Supervisor) → Reaches cfg new_supervisor u → IsReaped u
unfolding new_supervisor
reaches-IsReaped cfg _ here = refl
reaches-IsReaped cfg u (and_then {t} r p) = step-IsReaped cfg t u p (reaches-IsReaped cfg t r)
