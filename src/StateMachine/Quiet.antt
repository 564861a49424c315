-- ===== src/StateMachine/Quiet.antt =====
-- A pass of Tick in internal/inverter/statemachine.go with nothing added and nothing cancelled.
use ieee_2030_5_client_go.Shared.{◌≡◌, refl, List, [], ◌++◌, arith, ℤ}
use ieee_2030_5_client_go.Scheduler.{
  ScheduledEvent, Platform, Scheduler, pop_expired, next, first, split_expired, on_events_added,
  on_events_cancelled, remove_all,
}
use ieee_2030_5_client_go.StateMachine.{Machine, Transition}
use ieee_2030_5_client_go.StateMachine.Passes.{
  accept_added, known_mrids, complete, drain, observe_head,
}
use ieee_2030_5_client_go.StateMachine.Tick.{compute_transitions}

accept_added-nil : (sm : Machine) → accept_added sm [] ≡ (sm, [], [])
unfolding accept_added
accept_added-nil sm = ground arith

-- Steps 3 to 5 on the two parts of the queue.
unfoldable pub late_steps :
    ℤ → Machine → List ScheduledEvent → List ScheduledEvent → Machine × List Transition
late_steps now sm due rest =
    let (sm₁, ts₁) = complete now sm in
    let (sm₂, ts₂) = drain now sm₁ due in
    let (sm₃, ts₃) = observe_head sm₂ (first rest) in (sm₃, ts₁ ++ (ts₂ ++ ts₃))

module _ (p : Platform) where
  pub quiet_pass :
      (now : ℤ) (sm : Machine) (sched : Scheduler p)
      → let (due, rest) = split_expired now sched.queue in
        let (sm', ts) = late_steps now sm due rest in
        compute_transitions p now [] [] sm sched ≡ (sm', record sched { queue = rest }, ts)
  unfolding late_steps compute_transitions pop_expired on_events_added on_events_cancelled
      remove_all known_mrids next
  quiet_pass now sm sched = rw (accept_added-nil sm) refl
