-- ===== src/StateMachine/Named.antt =====
-- internal/inverter/statemachine.go: no event without an mRID becomes active, where none is added.
use ieee_2030_5_client_go.Shared.{
  ◌≡◌, refl, ◌∙◌, ◌≢◌, false, List, [], ◌∷◌, eq_iff, arith, ℤ, is_empty, if◌then◌else◌,
}
use ieee_2030_5_client_go.Sep2.{DerControl, RejectedControl}
use ieee_2030_5_client_go.Scheduler.{
  ScheduledEvent, Platform, Scheduler, on_events_added, on_events_cancelled, pop_expired, next,
  first, split_expired,
}
use ieee_2030_5_client_go.Scheduler.Order.{IsQueue}
use ieee_2030_5_client_go.Scheduler.Queue.{
  occurs, IsUnique, schedules, occurs-on_events_added, occurs-on_events_cancelled,
  on_events_added-IsUnique,
}
use ieee_2030_5_client_go.StateMachine.{
  Machine, is_default, transition_locked, record_transition_locked, reject_locked,
}
use ieee_2030_5_client_go.StateMachine.Passes.{
  receive, receive_all, accept_added, known_mrids, terminate, cancel_active, complete, receive_head,
  start_head, drain, observe_head,
}
use ieee_2030_5_client_go.StateMachine.Tick.{
  compute_transitions, refuse_item, reject_item, reject_items,
}
use ieee_2030_5_client_go.StateMachine.Idle.{occurs-split_expired}
use ieee_2030_5_client_go.StateMachine.Invariant.{IsResting, reject_item-invariant}
use ieee_2030_5_client_go.StateMachine.Kept.{accept_added-unscheduled}

-- Outside DEFAULT the active mRID is not empty.
abbrev pub HasName : Machine → Type 0
HasName sm = is_default sm.state ≡ false → sm.active_mrid ≢ ""

-- No event without an mRID is active or queued.
pub record IsNamed (sm : Machine) (q : List ScheduledEvent) : Type 0 where
  pub active : HasName sm
  pub queued : occurs "" q ≡ 0

receive-state : (sm : Machine) (ev : DerControl) → (receive sm ev).0.state ≡ sm.state
unfolding receive reject_locked
receive-state sm ev = ground arith

receive_all-state : (sm : Machine) (evs : List DerControl) → (receive_all sm evs).0.state ≡ sm.state
unfolding receive_all
receive_all-state sm [] = refl
receive_all-state sm (ev ∷ evs) = receive_all-state (receive sm ev).0 evs ∙ receive-state sm ev

accept_added-state :
    (sm : Machine) (evs : List DerControl) → (accept_added sm evs).0.state ≡ sm.state
unfolding accept_added
accept_added-state sm evs = ground (arith, receive_all-state sm evs)

cancel_pass-HasName :
    (sm : Machine) (cs : List DerControl)
    → HasName sm
    → HasName (if is_empty cs then (sm, []) else cancel_active sm cs).0
unfolding cancel_active terminate transition_locked
cancel_pass-HasName sm [] h = h
cancel_pass-HasName sm (c ∷ cs) h = ground arith

complete-HasName : (now : ℤ) (sm : Machine) → HasName sm → HasName (complete now sm).0
unfolding complete terminate transition_locked
complete-HasName now sm h = ground arith

drain-HasName :
    (now : ℤ) (sm : Machine) (es : List ScheduledEvent)
    → HasName sm
    → occurs "" es ≡ 0
    → HasName (drain now sm es).0
unfolding drain receive_head start_head terminate transition_locked record_transition_locked occurs
drain-HasName now sm [] h o = h
drain-HasName now sm (e ∷ es) h o = ground (arith, eq_iff e.mrid "")

observe_head-HasName :
    (sm : Machine) (q : List ScheduledEvent)
    → HasName sm
    → occurs "" q ≡ 0
    → HasName (observe_head sm (first q)).0
unfolding observe_head first transition_locked occurs
observe_head-HasName sm [] h o = h
observe_head-HasName sm (e ∷ es) h o = ground (arith, eq_iff e.mrid "")

module _ (p : Platform) where
  -- A pass of Tick that adds no event without an mRID keeps such events out.
  pub compute_transitions-IsNamed :
      (now : ℤ) (added cancelled : List DerControl) (sm : Machine) (sched : Scheduler p)
      → IsUnique sched.queue
      → schedules "" added ≡ false
      → IsNamed sm sched.queue
      → let (sm', sched', _) = compute_transitions p now added cancelled sm sched in
        IsNamed sm' sched'.queue
  unfolding compute_transitions pop_expired next
  compute_transitions-IsNamed now added cancelled sm sched unique absent h =
      let (sm₁, _, accepted) = accept_added sm added in
      let sched₁ = on_events_added p sched accepted in
      let sched₂ = on_events_cancelled p sched₁ (known_mrids cancelled) in
      let (sm₂, _) = if is_empty cancelled then (sm₁, []) else cancel_active sm₁ cancelled in
      let (unscheduled, same) = accept_added-unscheduled "" sm added absent in
      let unique₁ = on_events_added-IsUnique p sched accepted unique in
      let queued₁ : occurs "" sched₁.queue ≡ 0 =
        occurs-on_events_added p "" sched accepted unique ∙ rw unscheduled h.queued in
      let queued₂ : occurs "" sched₂.queue ≡ 0 =
        ground (
          arith,
          queued₁,
          occurs-on_events_cancelled p "" sched₁ (known_mrids cancelled) unique₁,
        ) in
      let (due₀, rest₀) = occurs-split_expired "" now sched₂.queue queued₂ in
      let (due, rest) = split_expired now sched₂.queue in
      let active₁ : HasName sm₁ = rw (same, accept_added-state sm added) h.active in
      let sm₃ = (complete now sm₂).0 in
      record {
        active =
            observe_head-HasName (drain now sm₃ due).0 rest
              (drain-HasName now sm₃ due
                (complete-HasName now sm₂ (cancel_pass-HasName sm₁ cancelled active₁)) due₀)
              rest₀;
        queued = rest₀;
      }

  reject_item-IsNamed :
      (sm : Machine) (sched : Scheduler p) (item : RejectedControl)
      → IsUnique sched.queue
      → IsNamed sm sched.queue
      → let (sm', sched', _) = reject_item p sm sched item in IsNamed sm' sched'.queue
  unfolding reject_item refuse_item reject_locked transition_locked
  reject_item-IsNamed sm sched item unique h =
      ground (arith, occurs-on_events_cancelled p "" sched (item.event.mrid ∷ []) unique)

  -- So does Reject.
  pub reject_items-IsNamed :
      (sm : Machine) (sched : Scheduler p) (items : List RejectedControl)
      → IsResting sm
      → IsQueue sched.queue
      → IsNamed sm sched.queue
      → let (sm', sched', _) = reject_items p sm sched items in IsNamed sm' sched'.queue
  unfolding reject_items
  reject_items-IsNamed sm sched [] rests queue h = h
  reject_items-IsNamed sm sched (item ∷ items) rests queue h =
      let (sm₁, sched₁, _) = reject_item p sm sched item in
      let (rests₁, queue₁) = reject_item-invariant p sm sched item rests queue in
      reject_items-IsNamed sm₁ sched₁ items rests₁ queue₁
        (reject_item-IsNamed sm sched item queue.unique h)
