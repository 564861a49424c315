-- ===== src/Supervisor/Health.antt =====
-- What the state of the supervisor of internal/sim/gridlabd/supervisor.go says at each place of Run.
use ieee_2030_5_client_go.Shared.{
  ◌≡◌, refl, sym, ◌∙◌, ◌||◌, if◌then◌else◌, subst, ◌⊎◌, Bool, true, false, Option, none, some, ℤ,
  pos, ltb_ℤ, length, Bool-cases, inl, inr,
}
use ieee_2030_5_client_go.Supervisor.{
  SupervisorConfig, StartError, Reason, cancelled, budget_exhausted, refused, Phase, before_run,
  first_starting, watching, checking, waiting, returned, Supervisor, starting, up, restarting, down,
  stopped, new_supervisor, mark_started, set_up, set_restarting, set_down, set_stopped,
  prune_restarts,
}
use ieee_2030_5_client_go.Supervisor.Run.{
  Step, RunStep, ctx_cancel, stop, Cause, by_ctx, by_stop, has_cause, result_of, run, begin,
  first_start, asked, exited, broken, restart, ended, interrupted, woken, Reaches, here, and_then,
  stop_now, begin_run, after_first, after_restart, try_restart, exit_during_restart, act,
}

abbrev Absent : Supervisor → Type 0
Absent s = (s.healthy ≡ false) × (s.conn ≡ none)

-- What is left of a run that has returned `r`, after a first start that went well or not.
-- Run was asked to stop before it began, or by Stop, or by the context: it is Stopped; or it is Down,
-- with its result as the reason, for want of budget or for the refusal of the first start.
abbrev Ended : Bool → Supervisor → Option Reason → Type 0
Ended went_up s r =
    ((s.state ≡ stopped)
      × (s.reason ≡ none)
      × (((r ≡ none)
            × (went_up ≡ false)
            × (s.stopped ≡ true)
            × (s.start_err ≡ some (some cancelled)))
          ⊎ ((r ≡ none) × (went_up ≡ true) × (s.stop_closed ≡ true) × (s.start_err ≡ some none))
          ⊎ ((r ≡ some cancelled)
              × (s.ctx_done ≡ true)
              × (s.start_err ≡ some (if went_up then none else some cancelled)))))
    ⊎ ((s.state ≡ down)
        × (s.reason ≡ r)
        × (((r ≡ some budget_exhausted) × (went_up ≡ true) × (s.start_err ≡ some none))
            ⊎ ((e : StartError) × (r ≡ some (refused e))
                × (went_up ≡ false)
                × (s.start_err ≡ some r))))

-- In the restart loop.
abbrev Again : Bool → Supervisor → Type 0
Again went_up s =
    Absent s
    × (s.state ≡ restarting)
    × (s.reason ≡ none)
    × (went_up ≡ true)
    × (s.start_err ≡ some none)

-- Before the first start has ended there is no connection and nothing for WaitStarted to return;
-- while the sidecar is watched, the supervisor is Up with the connection of its latest start; in the
-- restart loop, it is Restarting without one; and as above once Run has returned.
abbrev Fits : Bool → Supervisor → Phase → Type 0
Fits went_up s before_run =
    Absent s × (s.state ≡ starting) × (s.reason ≡ none) × (went_up ≡ false) × (s.start_err ≡ none)
Fits went_up s first_starting =
    Absent s × (s.state ≡ starting) × (s.reason ≡ none) × (went_up ≡ false) × (s.start_err ≡ none)
Fits went_up s watching =
    (s.healthy ≡ true)
    × (s.conn ≡ some s.gen)
    × (s.state ≡ up)
    × (s.reason ≡ none)
    × (went_up ≡ true)
    × (s.start_err ≡ some none)
Fits went_up s checking = Again went_up s
Fits went_up s (waiting d) = Again went_up s
Fits went_up s (returned r) = Absent s × Ended went_up s r

abbrev pub IsConsistent : Bool → Supervisor → Type 0
IsConsistent b s = Fits b s s.phase

at_phase : (b : Bool) (s : Supervisor) (p : Phase) → s.phase ≡ p → IsConsistent b s → Fits b s p
at_phase b s p e h = subst (Fits b s) e h

-- What ends a run stays.
flags-Ended :
    (b : Bool) (r : Option Reason) (s : Supervisor) (begun halted closed done : Bool)
    → (s.stopped ≡ true → halted ≡ true)
    → (s.stop_closed ≡ true → closed ≡ true)
    → (s.ctx_done ≡ true → done ≡ true)
    → Ended b s r
    → Ended b
        (record s { started = begun; stopped = halted; stop_closed = closed; ctx_done = done })
        r
flags-Ended b r s begun halted closed done h c d (inl (state, none_there, inl (x, y, z, w))) =
    inl (state, none_there, inl (x, y, h z, w))
flags-Ended b r s begun halted closed done h c d (inl (state, none_there, inr (inl (x, y, z, w)))) =
    inl (state, none_there, inr (inl (x, y, c z, w)))
flags-Ended b r s begun halted closed done h c d (inl (state, none_there, inr (inr (x, y, z)))) =
    inl (state, none_there, inr (inr (x, d y, z)))
flags-Ended b r s begun halted closed done h c d (inr broken_down) = inr broken_down

flags-Fits :
    (b : Bool) (p : Phase) (s : Supervisor) (begun halted closed done : Bool)
    → (s.stopped ≡ true → halted ≡ true)
    → (s.stop_closed ≡ true → closed ≡ true)
    → (s.ctx_done ≡ true → done ≡ true)
    → Fits b s p
    → Fits b
        (record s { started = begun; stopped = halted; stop_closed = closed; ctx_done = done })
        p
flags-Fits b before_run s begun halted closed done i j k h = h
flags-Fits b first_starting s begun halted closed done i j k h = h
flags-Fits b watching s begun halted closed done i j k h = h
flags-Fits b checking s begun halted closed done i j k h = h
flags-Fits b (waiting d) s begun halted closed done i j k h = h
flags-Fits b (returned r) s begun halted closed done i j k h =
    (h.0, flags-Ended b r s begun halted closed done i j k h.1)

stop-IsConsistent : (b : Bool) (s : Supervisor) → IsConsistent b s → IsConsistent b (stop_now s)
unfolding stop_now
stop-IsConsistent b s h = elim (Bool-cases s.started) [
  | inl e ↦
      rw e
        (flags-Fits b s.phase s s.started s.stopped true s.ctx_done (λ k. k) (λ k. refl) (λ k. k) h)
  | inr e ↦ rw e (
      flags-Fits b s.phase s s.started true s.stop_closed s.ctx_done (λ k. refl) (λ k. k) (λ k. k)
        h)
]

begin-IsConsistent :
    (b : Bool) (s : Supervisor) → Fits b s before_run → IsConsistent b (begin_run s)
unfolding begin_run mark_started
begin-IsConsistent b s (absent, fresh, calm, low, none_yet) = elim (Bool-cases s.stopped) [
  | inl e ↦ rw (e, none_yet) (absent, inl (refl, calm, inl (refl, low, refl, refl)))
  | inr e ↦ rw e (absent, fresh, calm, low, none_yet)
]

-- Whether the first start went well.
abbrev is_well : Option StartError → Bool
is_well none = true
is_well (some e) = false

first-IsConsistent :
    (b : Bool) (err : Option StartError) (s : Supervisor)
    → Fits b s first_starting
    → IsConsistent (is_well err || b) (after_first err s)
unfolding after_first mark_started set_up set_down set_stopped
first-IsConsistent b none s (absent, fresh, calm, low, none_yet) =
    rw none_yet (refl, refl, refl, refl, refl, refl)
first-IsConsistent b (some e) s (absent, fresh, calm, low, none_yet) =
    elim (Bool-cases s.ctx_done) [
      | inl d ↦
          rw (d, none_yet, low, calm) ((refl, refl), inl (refl, refl, inr (inr (refl, refl, refl))))
      | inr d ↦ rw (d, none_yet) ((refl, refl), inr (refl, refl, inr (e, refl, low, refl)))
    ]

restart-IsConsistent :
    (b : Bool) (err : Option StartError) (s : Supervisor)
    → Again b s
    → IsConsistent b (after_restart err s)
unfolding after_restart set_up
restart-IsConsistent b none s (absent, again, calm, high, ok) = (refl, refl, refl, refl, high, ok)
restart-IsConsistent b (some e) s h = h

try-IsConsistent :
    (b : Bool) (cfg : SupervisorConfig) (now then_now : ℤ) (s : Supervisor)
    → Again b s
    → IsConsistent b (try_restart cfg now then_now s)
unfolding try_restart set_down
try-IsConsistent b cfg now then_now s (absent, again, calm, high, ok) =
    elim (Bool-cases
      (ltb_ℤ (pos (length (prune_restarts now cfg.restart_window s.restarts))) cfg.max_restarts)) [
        | inl e ↦ rw e (absent, again, calm, high, ok)
        | inr e ↦ rw e ((refl, refl), inr (refl, refl, inl (refl, high, ok)))
      ]

-- The end by a cause, of a run whose first start went well.
caused-Ended :
    (b : Bool) (c : Cause) (s : Supervisor)
    → s.state ≡ stopped
    → s.reason ≡ none
    → b ≡ true
    → s.start_err ≡ some none
    → has_cause c s ≡ true
    → Ended b s (result_of c)
unfolding result_of has_cause
caused-Ended b by_ctx s h calm high ok e =
    inl (h, calm, inr (inr (refl, e, ok ∙ sym (rw high refl))))
caused-Ended b by_stop s h calm high ok e = inl (h, calm, inr (inl (refl, high, e, ok)))

has_cause-stopped :
    (c : Cause) (s : Supervisor) → has_cause c s ≡ true → has_cause c (set_stopped s) ≡ true
unfolding has_cause set_stopped
has_cause-stopped by_ctx s h = h
has_cause-stopped by_stop s h = h

-- Whether a step is a first start that goes well.
abbrev goes_up : {cfg : SupervisorConfig} {s u : Supervisor} → RunStep cfg s u → Bool
goes_up (begin e) = false
goes_up (first_start i err acts e f) = is_well err
goes_up (asked c first second e f) = false
goes_up (exited e) = false
goes_up (broken e) = false
goes_up (restart now then_now e f) = false
goes_up (ended c e f) = false
goes_up (interrupted d c e f) = false
goes_up (woken d i err acts e f) = false

run-IsConsistent :
    (b : Bool) (cfg : SupervisorConfig) (s u : Supervisor) (p : RunStep cfg s u)
    → IsConsistent b s
    → IsConsistent (goes_up p || b) u
unfolding exit_during_restart set_restarting set_stopped
run-IsConsistent b cfg s _ (begin e) h = begin-IsConsistent b s (at_phase b s before_run e h)
run-IsConsistent b cfg s _ (first_start i err acts e f) h =
    first-IsConsistent b err (act acts s) (at_phase b s first_starting e h)
run-IsConsistent b cfg s _ (asked c first second e f) h =
    let (_, _, _, calm, high, ok) = at_phase b s watching e h in
    ((refl, refl), caused-Ended b c (set_stopped s) refl calm high ok (has_cause-stopped c s f))
run-IsConsistent b cfg s _ (exited e) h =
    let (_, _, _, calm, high, ok) = at_phase b s watching e h in
    ((refl, refl), refl, calm, high, ok)
run-IsConsistent b cfg s _ (broken e) h =
    let (_, _, _, calm, high, ok) = at_phase b s watching e h in
    ((refl, refl), refl, calm, high, ok)
run-IsConsistent b cfg s _ (restart now then_now e f) h =
    try-IsConsistent b cfg now then_now s (at_phase b s checking e h)
run-IsConsistent b cfg s _ (ended c e f) h =
    let (_, _, calm, high, ok) = at_phase b s checking e h in
    ((refl, refl), caused-Ended b c (set_stopped s) refl calm high ok (has_cause-stopped c s f))
run-IsConsistent b cfg s _ (interrupted d c e f) h =
    let (_, _, calm, high, ok) = at_phase b s (waiting d) e h in
    ((refl, refl), caused-Ended b c (set_stopped s) refl calm high ok (has_cause-stopped c s f))
run-IsConsistent b cfg s _ (woken d i err acts e f) h =
    restart-IsConsistent b err (act acts s) (at_phase b s (waiting d) e h)

abbrev step_goes_up : {cfg : SupervisorConfig} {s u : Supervisor} → Step cfg s u → Bool
step_goes_up ctx_cancel = false
step_goes_up stop = false
step_goes_up (run p) = goes_up p

step-IsConsistent :
    (b : Bool) (cfg : SupervisorConfig) (s u : Supervisor) (p : Step cfg s u)
    → IsConsistent b s
    → IsConsistent (step_goes_up p || b) u
step-IsConsistent b cfg s _ ctx_cancel h =
    flags-Fits b s.phase s s.started s.stopped s.stop_closed true (λ k. k) (λ k. k) (λ k. refl) h
step-IsConsistent b cfg s _ stop h = stop-IsConsistent b s h
step-IsConsistent b cfg s u (run p) h = run-IsConsistent b cfg s u p h

-- Whether the first start has gone well in the steps so far.
abbrev pub went_up : {cfg : SupervisorConfig} {s u : Supervisor} → Reaches cfg s u → Bool
went_up here = false
went_up (and_then r p) = step_goes_up p || went_up r

-- In every state that the steps of a new supervisor lead to, the health, the connection, the state, the
-- reason and the result of WaitStarted are those of the place where Run stands and of the first start:
-- before its end, nothing; then Up, with the latest connection, or Restarting, with WaitStarted
-- returning no error and no reason; and after Run, either Stopped without a reason, with the result
-- none only after Stop and cancelled only after the end of the context, and WaitStarted cancelled
-- exactly if the first start had not gone well; or Down with Run's result as the reason, which is the
-- exhausted budget after a first start that went well, and else its refusal, as WaitStarted's is.
pub reaches-IsConsistent :
    (cfg : SupervisorConfig) (u : Supervisor) (r : Reaches cfg new_supervisor u)
    → IsConsistent (went_up r) u
unfolding new_supervisor
reaches-IsConsistent cfg _ here = ((refl, refl), refl, refl, refl, refl)
reaches-IsConsistent cfg u (and_then {t} r p) =
    step-IsConsistent (went_up r) cfg t u p (reaches-IsConsistent cfg t r)
