-- ===== src/Supervisor/Stopping.antt =====
-- How internal/sim/gridlabd/supervisor.go ends once it is asked to.
use ieee_2030_5_client_go.Shared.{
  ℕ, zero, suc, ◌+◌, ◌≤◌, ◌≡◌, refl, ◌∙◌, ap, Bool, true, ◌||◌, Option, none, some, arith,
  Bool-cases, inl, inr,
}
use ieee_2030_5_client_go.Supervisor.{
  SupervisorConfig, StartError, Phase, watching, before_run, first_starting, checking, waiting,
  returned, Supervisor, mark_started, set_up, set_restarting, set_down, set_stopped,
}
use ieee_2030_5_client_go.Supervisor.Run.{
  RunStep, begin, first_start, asked, exited, broken, restart, ended, interrupted, woken, begin_run,
  after_first, after_restart, exit_during_restart, act,
}

-- `n` steps of Run.
pub data RunSteps (cfg : SupervisorConfig) (s : Supervisor) : ℕ → Supervisor → Type 0 where
  none_yet : RunSteps cfg s zero s
  and_run :
      {n : ℕ} {t u : Supervisor} → RunSteps cfg s n t → RunStep cfg t u → RunSteps cfg s (suc n) u

abbrev pub is_asked : Supervisor → Bool
is_asked s = s.ctx_done || s.stop_closed

-- The steps that Run can still take once it is asked to end.
abbrev pub steps_left : Phase → ℕ
steps_left before_run = 4
steps_left first_starting = 3
steps_left (waiting d) = 3
steps_left watching = 2
steps_left checking = 1
steps_left (returned r) = 0

left_at : (s : Supervisor) (p : Phase) → s.phase ≡ p → steps_left s.phase ≡ steps_left p
left_at s p e = ap steps_left e

begin_nearer :
    (s : Supervisor)
    → (is_asked (begin_run s) ≡ is_asked s) × (suc (steps_left (begin_run s).phase) ≤ 4)
unfolding begin_run mark_started
begin_nearer s = elim (Bool-cases s.stopped) [
  | inl e ↦ rw e (refl, omega arith)
  | inr e ↦ rw e (refl, omega arith)
]

first_nearer :
    (err : Option StartError) (s : Supervisor)
    → (is_asked (after_first err s) ≡ is_asked s) × (suc (steps_left (after_first err s).phase) ≤ 3)
unfolding after_first mark_started set_up set_down set_stopped
first_nearer none s = (refl, omega arith)
first_nearer (some e) s = elim (Bool-cases s.ctx_done) [
  | inl d ↦ rw d (refl, omega arith)
  | inr d ↦ rw d (refl, omega arith)
]

restart_nearer :
    (err : Option StartError) (s : Supervisor)
    → (is_asked (after_restart err s) ≡ is_asked s)
      × (suc (steps_left (after_restart err s).phase) ≤ 3)
unfolding after_restart set_up
restart_nearer none s = (refl, omega arith)
restart_nearer (some f) s = (refl, omega arith)

-- A step of Run keeps that it is asked to end, and has it nearer to its end.
run_nearer :
    (cfg : SupervisorConfig) (s u : Supervisor)
    → RunStep cfg s u
    → is_asked s ≡ true
    → (is_asked u ≡ true) × (suc (steps_left u.phase) ≤ steps_left s.phase)
unfolding exit_during_restart set_restarting set_stopped
run_nearer cfg s _ (begin e) h =
    let (k, l) = begin_nearer s in (k ∙ h, rw (left_at s before_run e) l)
run_nearer cfg s _ (first_start i err acts e f) h =
    let (k, l) = first_nearer err (act acts s) in (k ∙ h, rw (left_at s first_starting e) l)
run_nearer cfg s _ (asked c first second e f) h = (h, rw e (omega arith))
run_nearer cfg s _ (exited e) h = (h, rw e (omega arith))
run_nearer cfg s _ (broken e) h = (h, rw e (omega arith))
run_nearer cfg s _ (restart now then_now e f) h = absurd (ground (arith, f, h))
run_nearer cfg s _ (ended c e f) h = (h, rw e (omega arith))
run_nearer cfg s _ (interrupted d c e f) h = (h, rw e (omega arith))
run_nearer cfg s _ (woken d i err acts e f) h =
    let (k, l) = restart_nearer err (act acts s) in (k ∙ h, rw (left_at s (waiting d) e) l)

steps-IsAsked :
    (cfg : SupervisorConfig) (s u : Supervisor) (n : ℕ)
    → is_asked s ≡ true
    → RunSteps cfg s n u
    → (is_asked u ≡ true) × (n + steps_left u.phase ≤ steps_left s.phase)
steps-IsAsked cfg s _ _ h none_yet = (h, omega arith)
steps-IsAsked cfg s u _ h (and_run {n} {t} p q) =
    let (asked_t, so_far) = steps-IsAsked cfg s t n h p in
    let (asked_u, less) = run_nearer cfg t u q asked_t in (asked_u, omega (arith, so_far, less))

-- Once the context is done or Stop has closed its channel, Run takes no more steps than are left where
-- it stands: four before its start, three in the first start or in the wait before a restart, two with
-- the sidecar up, one at the head of the restart loop and none when it has returned. If it takes as
-- many, it has returned.
pub steps-bound :
    (cfg : SupervisorConfig) (s u : Supervisor) (n : ℕ)
    → is_asked s ≡ true
    → RunSteps cfg s n u
    → n + steps_left u.phase ≤ steps_left s.phase
steps-bound cfg s u n h p = (steps-IsAsked cfg s u n h p).1
