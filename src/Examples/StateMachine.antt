-- ===== src/Examples/StateMachine.antt =====
-- Tests of the state machine, and its theorems at concrete inputs.
use ieee_2030_5_client_go.Shared.{
  ℕ, ◌≡◌, ◌≢◌, refl, sym, ◌*◌, List, [], ◌∷◌, map, none, some, String, arith, ℤ, pos, eq_iff, inr,
}
use ieee_2030_5_client_go.Sep2.{RejectedControl}
use ieee_2030_5_client_go.Scheduler.{Scheduler, split_expired, new_scheduler}
use ieee_2030_5_client_go.Scheduler.Queue.{occurs}
use ieee_2030_5_client_go.StateMachine.{
  default, event_received, event_started, event_completed, Machine, Transition, current,
  new_state_machine,
}
use ieee_2030_5_client_go.StateMachine.Passes.{has_expired, known_mrids}
use ieee_2030_5_client_go.StateMachine.Tick.{compute_transitions, reject_items}
use ieee_2030_5_client_go.StateMachine.Lifecycle.{walk, diagram, compute_transitions-walk}
use ieee_2030_5_client_go.StateMachine.Invariant.{IsResting}
use ieee_2030_5_client_go.StateMachine.Idle.{IsIdle, cancelled-IsIdle}
use ieee_2030_5_client_go.StateMachine.Refusal.{IsRefused}
use ieee_2030_5_client_go.StateMachine.Withdrawal.{reject_items-IsRefused}
use ieee_2030_5_client_go.StateMachine.Stranding.{IsStranded}
use ieee_2030_5_client_go.StateMachine.Collision.{compute_transitions_strands}
use ieee_2030_5_client_go.StateMachine.Liveness.{
  targets, compute_transitions_starts, compute_transitions_completes,
}
use ieee_2030_5_client_go.StateMachine.Trace.{
  ticks, rejects, Holds, run, run-invariant, run-IsRefused, run-IsStranded,
}
use ieee_2030_5_client_go.Examples.Platform.{test_platform}
use ieee_2030_5_client_go.Examples.Scheduler.{
  event, two_events, early, late, empty_scheduler, filled, filled-IsQueue, empty-IsQueue,
}

-- A number of seconds, in nanoseconds.
abbrev at : ℕ → ℤ
at n = pos (n * 1000000000)

-- The machine waits for the later event.
abbrev waiting : Machine
waiting = record {
  state = event_received;
  active_mrid = "late";
  active_der_ctrl = some late.source;
  active_expire_at = late.expire_at;
  hook = none;
  hooks = 1 ∷ 2 ∷ [];
  validate = none;
  rejected = [];
}

abbrev running : Machine
running = record waiting { state = event_started }

waiting-IsResting : IsResting waiting
waiting-IsResting = refl

late_named : ◌≢◌ {A = String} "late" ""
late_named = ground (arith, eq_iff "late" "")

early_not_late : ◌≢◌ {A = String} "early" "late"
early_not_late = ground (arith, eq_iff "early" "late")

compute_transitions-walk_example :
    let (sm', _, ts) =
      compute_transitions test_platform (at 120) two_events [] new_state_machine empty_scheduler in
    walk diagram default ts ≡ some sm'.state
unfolding new_state_machine
compute_transitions-walk_example =
    compute_transitions-walk test_platform (at 120) two_events [] new_state_machine empty_scheduler

abbrev refused_item : RejectedControl
refused_item = record { event = late.source; err = "base not decoded" }

run-invariant_example : Holds test_platform (
    run test_platform
      (new_state_machine, new_scheduler test_platform 7)
      (ticks (at 120) two_events [] ∷ rejects (refused_item ∷ []) ∷ []))
run-invariant_example =
    run-invariant test_platform 7 (ticks (at 120) two_events [] ∷ rejects (refused_item ∷ []) ∷ [])

cancelled-IsIdle_example :
    let (sm', sched', _) =
      compute_transitions test_platform (at 120) [] (late.source ∷ []) waiting filled in
    IsIdle "late" sm' sched'.queue
unfolding known_mrids
cancelled-IsIdle_example =
    cancelled-IsIdle test_platform "late" (at 120) [] (late.source ∷ []) waiting filled late_named
      waiting-IsResting filled-IsQueue.unique refl

reject_items-IsRefused_example :
    let (sm', sched', _) = reject_items test_platform running filled (refused_item ∷ []) in
    IsRefused "late" sm' sched'.queue
reject_items-IsRefused_example =
    reject_items-IsRefused test_platform "late" running filled (refused_item ∷ []) late_named refl
      filled-IsQueue refl refl

compute_transitions_strands_example :
    let (sm', sched', ts) = compute_transitions test_platform (at 300) [] [] waiting filled in
    IsStranded "late" sm' sched'.queue × (ts ≡ [])
unfolding split_expired occurs
compute_transitions_strands_example =
    compute_transitions_strands test_platform "late" (at 300) waiting early (late ∷ []) 7 refl refl
      early_not_late (omega arith) (tt, tt) (λ e. omega arith, tt)

abbrev drained : Scheduler test_platform
drained = record { queue = []; rng = 7 }

run-IsStranded_example :
    let (sm, sched) =
      run test_platform
        (waiting, drained)
        (ticks (at 400) (event "other" 400 60 ∷ []) [] ∷ ticks (at 500) [] [] ∷ []) in
    IsStranded "late" sm sched.queue
unfolding occurs known_mrids
run-IsStranded_example =
    run-IsStranded test_platform "late" (waiting, drained)
      (ticks (at 400) (event "other" 400 60 ∷ []) [] ∷ ticks (at 500) [] [] ∷ [])
      (waiting-IsResting, empty-IsQueue) ((refl, refl), ((refl, refl), tt))
      (record { waiting = refl; awaited = refl; gone = refl })

compute_transitions_starts_example :
    let (sm', _, ts) =
      compute_transitions test_platform
        (at 220)
        []
        []
        waiting
        (record { queue = late ∷ []; rng = 7 }) in
    (current sm' ≡ record {
      state = event_started;
      active_mrid = "late";
      active_der_control = some late.source;
    })
    × (sm'.active_expire_at ≡ at 260)
    × (targets ts ≡ event_started ∷ [])
unfolding has_expired
compute_transitions_starts_example =
    compute_transitions_starts test_platform (at 220) waiting late [] 7 (inr (refl, refl))
      (omega arith) (omega arith)

compute_transitions_completes_example :
    let (sm', sched', ts) = compute_transitions test_platform (at 260) [] [] running drained in
    ((us : List Transition) × (targets ts ≡ event_completed ∷ default ∷ targets us)
      × (map (λ t. t.evt) ts ≡ some late.source ∷ none ∷ map (λ t. t.evt) us))
    × IsIdle "late" sm' sched'.queue
unfolding has_expired occurs
compute_transitions_completes_example =
    compute_transitions_completes test_platform "late" (at 260) running drained late_named refl refl
      refl (omega arith) refl

-- A machine in DEFAULT that has refused "late".
abbrev refusing : Machine
refusing = record new_state_machine { rejected = "late" ∷ [] }

run-IsRefused_example :
    let (sm, sched) =
      run test_platform (refusing, drained) (ticks (at 210) (late.source ∷ []) [] ∷ []) in
    IsRefused "late" sm sched.queue
unfolding new_state_machine occurs
run-IsRefused_example =
    run-IsRefused test_platform "late" (refusing, drained)
      (ticks (at 210) (late.source ∷ []) [] ∷ []) late_named ((refl, refl, refl), empty-IsQueue)
      (record {
        remembered = refl;
        idle = record { inactive = λ e. late_named (sym e); unqueued = refl };
      })
